-- ===== src/Funding/Service/Creation.antt =====
-- When a funding intent is created.
use bug_bounty_escrow.Prelude.{
  ℕ, String, true, List, [], ◌∷◌, Option, some, none, ◌≡◌, arith, eq_ignoring_case,
}
use bug_bounty_escrow.Effect.{
  Failure, returned, Event, did, Session, Environment, Action, other, conflict, require, perform,
}
use bug_bounty_escrow.Effect.Triples.{
  Triple, Triple-bind, Triple-catch, Triple-weaken, Triple-either,
}
use bug_bounty_escrow.Access.{Principal, require_owner}
use bug_bounty_escrow.Usdc.{parse}
use bug_bounty_escrow.Funding.{
  EscrowRow, AllocationInput, CreateInput, Network, Answer, get_program_status,
  find_confirmed_escrow, get_usdc_balance, get_total_funded, create_intent,
}
use bug_bounty_escrow.Funding.Service.{
  arc_usdc, is_fundable, owns, fundable_escrow, store_intent, read_components, read_allocations,
  read_sources, create,
}

-- By the latest answer the program takes funds.
abbrev pub Fundable : List (Event Answer) → Type 0
Fundable [] = ⊥
Fundable (did (get_program_status _) (returned status) ∷ calls) = is_fundable status ≡ true
Fundable (did _ _ ∷ calls) = Fundable calls

abbrev IsWallet : Option String → String → Type 0
IsWallet none wallet = ⊥
IsWallet (some owner_wallet) wallet = eq_ignoring_case owner_wallet wallet ≡ true

abbrev IsUsdc : Option String → Type 0
IsUsdc none = ⊥
IsUsdc (some token) = eq_ignoring_case token arc_usdc ≡ true

-- By the latest answer the program has an escrow in USDC, and the wallet is its owner's.
abbrev pub HasEscrow : String → List (Event Answer) → Type 0
HasEscrow wallet [] = ⊥
HasEscrow wallet (did (find_confirmed_escrow _) (returned none) ∷ calls) = ⊥
HasEscrow wallet (did (find_confirmed_escrow _) (returned (some escrow)) ∷ calls) =
    IsUsdc escrow.token_address × IsWallet escrow.owner_wallet wallet
HasEscrow wallet (did _ _ ∷ calls) = HasEscrow wallet calls

-- Every intent was created for a program that takes funds and from its owner's wallet.
abbrev pub IsFundable : List (Event Answer) → Type 0
IsFundable [] = Unit
IsFundable (did (create_intent n) _ ∷ calls) =
    Fundable calls × (HasEscrow n.wallet_address calls × IsFundable calls)
IsFundable (did _ _ ∷ calls) = IsFundable calls

module _ (env : Environment Answer) (p : Principal) (program_id : String) where
  abbrev Fine : Session Answer → Type 0
  Fine s = IsFundable s.calls

  abbrev Ready : String → Session Answer → Type 0
  Ready wallet s = Fundable s.calls × (HasEscrow wallet s.calls × IsFundable s.calls)

  escrow-Ready :
      (wallet : String)
      → Triple Fine (fundable_escrow env p program_id wallet) (λ _. Ready wallet) Fine
  unfolding fundable_escrow owns require_owner
  escrow-Ready wallet = record { at = λ s h. ground arith }

  -- Reading the amounts of the request calls nothing.
  module _ (P : Session Answer → Type 0) where
    require-Same :
        {A : Type 0} (found : Option A) (e : Failure) → Triple P (require found e) (λ _. P) P
    require-Same none e = record { at = λ s h. h }
    require-Same (some a) e = record { at = λ s h. h }

    components-Same :
        (given : List (Network × String × String × List ℕ))
        → Triple P (read_components given) (λ _. P) P
    unfolding read_components
    components-Same [] = record { at = λ s h. h }
    components-Same ((network, kind, token, text) ∷ rest) =
        Triple-bind (λ _. P) (require-Same (parse text) (other "TypeError"))
          λ _. Triple-bind (λ _. P) (components-Same rest) (λ _. record { at = λ s h. h })

    allocations-Same : (given : List AllocationInput) → Triple P (read_allocations given) (λ _. P) P
    unfolding read_allocations
    allocations-Same [] = record { at = λ s h. h }
    allocations-Same (a ∷ rest) =
        Triple-bind (λ _. P) (require-Same (parse a.amount) (other "TypeError"))
          λ _.
            Triple-bind (λ _. P) (components-Same a.components)
              λ _. Triple-bind (λ _. P) (allocations-Same rest) (λ _. record { at = λ s h. h })

    sources-Same : (given : List (Network × List ℕ)) → Triple P (read_sources given) (λ _. P) P
    unfolding read_sources
    sources-Same [] = record { at = λ s h. h }
    sources-Same ((network, text) ∷ rest) =
        Triple-bind (λ _. P) (require-Same (parse text) (other "TypeError"))
          λ _. Triple-bind (λ _. P) (sources-Same rest) (λ _. record { at = λ s h. h })

  balance-Ready :
      (wallet address : String)
      → Triple (Ready wallet) (perform env (get_usdc_balance address)) (λ _. Ready wallet) Fine
  balance-Ready wallet address = record { at = λ s h. ground arith }

  funded-Ready :
      (wallet address : String)
      → Triple (Ready wallet) (perform env (get_total_funded address)) (λ _. Ready wallet) Fine
  funded-Ready wallet address = record { at = λ s h. ground arith }

  -- What leaves `Ready` by an exception still leaves `Fine`.
  still-Fine :
      {A : Type 0} {m : Action Answer A} (wallet : String)
      → Triple (Ready wallet) m (λ _. Ready wallet) (Ready wallet)
      → Triple (Ready wallet) m (λ _. Ready wallet) Fine
  still-Fine wallet t = Triple-weaken t (λ a s h. h) (λ s h. h.1.1)

  store-Fine :
      (given : CreateInput) (escrow : EscrowRow) (gross fee : ℕ)
      → Triple
          (Ready given.wallet_address)
          (store_intent env p program_id given escrow gross fee)
          (λ _. Fine)
          Fine
  unfolding store_intent
  store-Fine given escrow gross fee =
      Triple-bind (λ _. Ready given.wallet_address)
        (balance-Ready given.wallet_address escrow.contract_address)
        λ balance.
          Triple-bind (λ _. Ready given.wallet_address)
            (funded-Ready given.wallet_address escrow.contract_address)
            λ funded.
              Triple-bind (λ _. Ready given.wallet_address)
                (still-Fine given.wallet_address (allocations-Same _ given.fee_allocations))
                λ _.
                  Triple-bind (λ _. Ready given.wallet_address)
                    (still-Fine given.wallet_address (sources-Same _ given.sources))
                    λ _. record { at = λ s h. ground arith }

  create-Fine : (given : CreateInput) → Triple Fine (create env p program_id given) (λ _. Fine) Fine
  unfolding create
  create-Fine given =
      Triple-bind (λ _. Ready given.wallet_address) (escrow-Ready given.wallet_address)
        λ escrow.
          Triple-bind (λ _. Ready given.wallet_address)
            (still-Fine given.wallet_address
              (require-Same _ (parse given.gross_amount) (conflict "funding_amount_invalid")))
            λ gross.
              Triple-bind (λ _. Ready given.wallet_address)
                (still-Fine given.wallet_address (
                  require-Same _ (parse given.estimated_fee_reserve)
                    (conflict "funding_amount_invalid")))
                λ fee.
                  Triple-catch Fine (store-Fine given escrow gross fee)
                    (λ e. record { at = λ s h. h })

-- Whatever the answers, a funding intent is created only if, by the latest answers, the program is a
-- draft or awaits funding, it has a confirmed escrow in USDC, and the wallet of the intent is the
-- escrow owner's up to the case of letters.
pub create-IsFundable :
    (env : Environment Answer) (p : Principal) (program_id : String) (given : CreateInput)
    (s : Session Answer)
    → IsFundable s.calls
    → IsFundable (create env p program_id given s).1.calls
create-IsFundable env p program_id given s h =
    Triple-either (create env p program_id given) (create-Fine env p program_id given) s h
