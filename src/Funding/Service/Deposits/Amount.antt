-- ===== src/Funding/Service/Deposits/Amount.antt =====
-- What a source deposit is created for.
use bug_bounty_escrow.Prelude.{
  sym, not, ◌+◌, ◌<◌, String, Bool, true, false, List, [], ◌∷◌, Option, some, none, ◌≡◌, refl,
  arith,
}
use bug_bounty_escrow.Effect.{
  Failure, returned, Event, did, Session, Environment, throw, throw_if, require, conflict,
}
use bug_bounty_escrow.Effect.Triples.{Triple, Triple-bind, Triple-catch, Triple-either}
use bug_bounty_escrow.Access.{Principal}
use bug_bounty_escrow.Funding.{
  Network, Source, IntentRow, NewDeposit, Answer, gateway_balance, create_deposit,
}
use bug_bounty_escrow.Funding.Service.{is_unified, is_ready_phase, mapped, require_intent}
use bug_bounty_escrow.Funding.Service.Deposits.{
  first_fee, place_deposit, create_deposit_for, source_for,
}

-- The latest answer on the confirmed balance of a wallet on a network.
abbrev pub ConfirmedBalance : NewDeposit → List (Event Answer) → Type 0
ConfirmedBalance d [] = ⊥
ConfirmedBalance d (did (gateway_balance n w) (returned balance) ∷ calls) =
    (n ≡ d.network) × ((w ≡ d.wallet_address) × (balance ≡ d.pre_gateway_balance))
ConfirmedBalance d (did _ _ ∷ calls) = ConfirmedBalance d calls

abbrev pub CoversShare : Option Source → IntentRow → NewDeposit → Type 0
CoversShare none row d = ⊥
CoversShare (some source) row d =
    d.pre_gateway_balance + d.amount ≡ source.amount + first_fee d.network row.fee_allocations

-- Every deposit is positive, and together with the balance read last it is the share of its network
-- in the intent, fee included.
abbrev pub IsExact : IntentRow → List (Event Answer) → Type 0
IsExact row [] = Unit
IsExact row (did (create_deposit d) _ ∷ calls) =
    ConfirmedBalance d calls
    × ((0 < d.amount) × (CoversShare (source_for d.network row.sources) row d × IsExact row calls))
IsExact row (did _ _ ∷ calls) = IsExact row calls

module _ (env : Environment Answer) (p : Principal) (program_id intent_id : String)
    (network : Network) (row : IntentRow) where
  abbrev Exact : Session Answer → Type 0
  Exact s = IsExact row s.calls

  abbrev Found : Source → Session Answer → Type 0
  Found source s = (source_for network row.sources ≡ some source) × IsExact row s.calls

  place-Exact :
      (source : Source)
      → Triple
          (Found source)
          (place_deposit env p program_id intent_id network row source)
          (λ _. Exact)
          Exact
  unfolding place_deposit require_intent
  place-Exact source = record { at = λ s h. ground arith }

  raise-Exact : (e : Failure) → Triple {A = IntentRow} Exact (throw (mapped e)) (λ _. Exact) Exact
  raise-Exact e = record { at = λ s h. h }

  guard-Exact : (b : Bool) (e : Failure) → Triple Exact (throw_if b e) (λ _. Exact) Exact
  guard-Exact true e = record { at = λ s h. h }
  guard-Exact false e = record { at = λ s h. h }

  source-Found :
      (found : Option Source)
      → found ≡ source_for network row.sources
      → (e : Failure) → Triple Exact (require found e) Found Exact
  source-Found none eq e = record { at = λ s h. h }
  source-Found (some source) eq e = record { at = λ s h. (sym eq, h) }

  create-Exact :
      Triple Exact (create_deposit_for env p program_id intent_id network row) (λ _. Exact) Exact
  unfolding create_deposit_for
  create-Exact =
      Triple-bind (λ _. Exact)
        (guard-Exact (not (is_unified row.route_mode))
          (conflict "source_deposit_requires_unified_balance"))
        λ _.
          Triple-bind (λ _. Exact)
            (guard-Exact (is_ready_phase row.funding_phase)
              (conflict "source_deposit_after_destination_handoff"))
            λ _.
              Triple-bind Found
                (source-Found (source_for network row.sources) refl
                  (conflict "source_deposit_network_not_allocated"))
                (λ source. Triple-catch Exact (place-Exact source) raise-Exact)

-- Whatever the answers, a source deposit is created only for a network of the intent, for a
-- positive amount, and so that the amount and the confirmed balance that was read last for this
-- network and wallet make up the source's allocation and its fee.
pub create_deposit-IsExact :
    (env : Environment Answer) (p : Principal) (program_id intent_id : String) (network : Network)
    (row : IntentRow) (s : Session Answer)
    → IsExact row s.calls
    → IsExact row (create_deposit_for env p program_id intent_id network row s).1.calls
create_deposit-IsExact env p program_id intent_id network row s h =
    Triple-either (create_deposit_for env p program_id intent_id network row)
      (create-Exact env p program_id intent_id network row) s h
