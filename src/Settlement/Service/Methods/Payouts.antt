-- ===== src/Settlement/Service/Methods/Payouts.antt =====
-- When a payout is handed to the provider.
use bug_bounty_escrow.Prelude.{
  ℕ, suc, ◌+◌, ◌≤◌, String, true, List, [], ◌∷◌, Option, none, some, ◌≡◌, refl, arith,
}
use bug_bounty_escrow.Effect.{returned, Event, did, Session, Environment, Action}
use bug_bounty_escrow.Access.{Principal}
use bug_bounty_escrow.Settlement.{IntentRow, Answer, find_payout, submit_payout}
use bug_bounty_escrow.Settlement.Service.{
  Flow, finish, go_on, continue_with, escrow_address_of, require_intent, recover_approval,
  confirm_submitted, find_existing, relay_payout,
}
use bug_bounty_escrow.Effect.Triples.{Triple, Triple-bind, Triple-weaken, Triple-either}
use bug_bounty_escrow.Settlement.Service.Methods.{
  is_awaiting, is_approval_submitted, is_ready, ready_or_submitted, is_payout_submitted, when,
  refreshed, track_payout, from_tracking, from_relay, from_search, from_verification, from_recovery,
  reconcile,
}

-- The escrow of the latest search for a payout, if that search answered that there is none.
abbrev pub unpaid_escrow : List (Event Answer) → Option String
unpaid_escrow [] = none
unpaid_escrow (did (find_payout terms _) (returned none) ∷ _) = some terms.escrow_address
unpaid_escrow (did (find_payout _ _) _ ∷ _) = none
unpaid_escrow (did _ _ ∷ calls) = unpaid_escrow calls

-- Every payout was handed over after a search that found none at the same escrow, and no later
-- search found one.
abbrev pub IsGuarded : List (Event Answer) → Type 0
IsGuarded [] = Unit
IsGuarded (did (submit_payout _ address _) _ ∷ calls) =
    (unpaid_escrow calls ≡ some address) × IsGuarded calls
IsGuarded (did _ _ ∷ calls) = IsGuarded calls

abbrev pub submissions : List (Event Answer) → ℕ
submissions [] = 0
submissions (did (submit_payout _ _ _) _ ∷ calls) = suc (submissions calls)
submissions (did _ _ ∷ calls) = submissions calls

-- No payout handed over since there were `n`.
abbrev IsQuiet : ℕ → Session Answer → Type 0
IsQuiet n s = IsGuarded s.calls × (submissions s.calls ≡ n)

-- At most one payout handed over since there were `n`.
abbrev pub IsOnce : ℕ → Session Answer → Type 0
IsOnce n s = IsGuarded s.calls × (submissions s.calls ≤ n + 1)

-- The row is ready for a payout only after a search that found none.
abbrev HasSearched : ℕ → String → Flow → Session Answer → Type 0
HasSearched n address (finish row) s = IsQuiet n s
HasSearched n address (go_on row) s =
    IsQuiet n s × (is_ready row.status ≡ true → unpaid_escrow s.calls ≡ some address)

module _ (env : Environment Answer) (n : ℕ) where
  recover_approval-IsQuiet :
      (p : Principal) (address : String) (row : IntentRow)
      → Triple
          (IsQuiet n)
          (when env (is_awaiting row.status) (recover_approval env p address row) row)
          (λ _. IsQuiet n)
          (IsQuiet n)
  unfolding when recover_approval
  recover_approval-IsQuiet p address row = record { at = λ s h. ground arith }

  confirm_submitted-IsQuiet :
      (address : String) (row : IntentRow)
      → Triple
          (IsQuiet n)
          (when env (is_approval_submitted row.status) (confirm_submitted env address row) row)
          (λ _. IsQuiet n)
          (IsQuiet n)
  unfolding when confirm_submitted
  confirm_submitted-IsQuiet address row = record { at = λ s h. ground arith }

  find_existing-HasSearched :
      (address : String) (row : IntentRow)
      → Triple
          (IsQuiet n)
          (when env (ready_or_submitted row.status) (find_existing env address row) row)
          (HasSearched n address)
          (IsQuiet n)
  unfolding when find_existing
  find_existing-HasSearched address row = record { at = λ s h. ground arith }

  relay_payout-IsOnce :
      (address : String) (row : IntentRow)
      → Triple
          (HasSearched n address (go_on row))
          (when env (is_ready row.status) (relay_payout env address row) row)
          (λ _. IsOnce n)
          (IsOnce n)
  unfolding when relay_payout
  relay_payout-IsOnce address row = record { at = λ s h. ground arith }

  track_payout-IsOnce :
      (address : String) (row : IntentRow)
      → Triple
          (IsOnce n)
          (when env (is_payout_submitted row.status) (track_payout env address row) row)
          (λ _. IsOnce n)
          (IsOnce n)
  unfolding when track_payout
  track_payout-IsOnce address row = record { at = λ s h. ground arith }

  -- What follows a part, if it went on.
  continue_with-rule :
      {P : Session Answer → Type 0} {next : IntentRow → Action Answer IntentRow}
      → ((row : IntentRow) → Triple P (next row) (λ _. IsOnce n) (IsOnce n))
      → ((s : Session Answer) → P s → IsOnce n s)
      → (flow : Flow) → Triple P (continue_with next flow) (λ _. IsOnce n) (IsOnce n)
  continue_with-rule t w (finish row) = record { at = λ s h. w s h }
  continue_with-rule t w (go_on row) = t row

  IsQuiet-IsOnce : (s : Session Answer) → IsQuiet n s → IsOnce n s
  IsQuiet-IsOnce s h = (h.0, omega arith)

  refreshed-IsOnce : (id : String) → Triple (IsOnce n) (refreshed env id) (λ _. IsOnce n) (IsOnce n)
  unfolding refreshed
  refreshed-IsOnce id = record { at = λ s h. ground arith }

  from_tracking-IsOnce :
      (address : String) (row : IntentRow)
      → Triple (IsOnce n) (from_tracking env address row) (λ _. IsOnce n) (IsOnce n)
  unfolding from_tracking
  from_tracking-IsOnce address row =
      Triple-bind (λ _. IsOnce n) (track_payout-IsOnce address row)
        (continue_with-rule (λ r. refreshed-IsOnce r.id) (λ s h. h))

  from_relay-IsOnce :
      (address : String) (row : IntentRow)
      → Triple
          (HasSearched n address (go_on row))
          (from_relay env address row)
          (λ _. IsOnce n)
          (IsOnce n)
  unfolding from_relay
  from_relay-IsOnce address row =
      Triple-bind (λ _. IsOnce n) (relay_payout-IsOnce address row)
        (continue_with-rule (from_tracking-IsOnce address) (λ s h. h))

  search-rule :
      (address : String) (flow : Flow)
      → Triple
          (HasSearched n address flow)
          (continue_with (from_relay env address) flow)
          (λ _. IsOnce n)
          (IsOnce n)
  search-rule address (finish row) = record { at = IsQuiet-IsOnce }
  search-rule address (go_on row) = from_relay-IsOnce address row

  from_search-IsOnce :
      (address : String) (row : IntentRow)
      → Triple (IsQuiet n) (from_search env address row) (λ _. IsOnce n) (IsOnce n)
  unfolding from_search
  from_search-IsOnce address row =
      Triple-bind (HasSearched n address)
        (Triple-weaken (find_existing-HasSearched address row) (λ _ s h. h) IsQuiet-IsOnce)
        (search-rule address)

  from_verification-IsOnce :
      (address : String) (row : IntentRow)
      → Triple (IsQuiet n) (from_verification env address row) (λ _. IsOnce n) (IsOnce n)
  unfolding from_verification
  from_verification-IsOnce address row =
      Triple-bind (λ _. IsQuiet n)
        (Triple-weaken (confirm_submitted-IsQuiet address row) (λ _ s h. h) IsQuiet-IsOnce)
        (continue_with-rule (from_search-IsOnce address) IsQuiet-IsOnce)

  from_recovery-IsOnce :
      (p : Principal) (address : String) (row : IntentRow)
      → Triple (IsQuiet n) (from_recovery env p address row) (λ _. IsOnce n) (IsOnce n)
  unfolding from_recovery
  from_recovery-IsOnce p address row =
      Triple-bind (λ _. IsQuiet n)
        (Triple-weaken (recover_approval-IsQuiet p address row) (λ _ s h. h) IsQuiet-IsOnce)
        (continue_with-rule (from_verification-IsOnce address) IsQuiet-IsOnce)

  require_intent-IsQuiet :
      (p : Principal) (report_id : String) (id : Option String)
      → Triple (IsQuiet n) (require_intent env p report_id id) (λ _. IsQuiet n) (IsQuiet n)
  unfolding require_intent
  require_intent-IsQuiet p report_id none = record { at = λ s h. ground arith }
  require_intent-IsQuiet p report_id (some id) = record { at = λ s h. ground arith }

  escrow_address-IsQuiet :
      (row : IntentRow) → Triple (IsQuiet n) (escrow_address_of row) (λ _. IsQuiet n) (IsQuiet n)
  escrow_address-IsQuiet row = record { at = λ s h. ground arith }

  reconcile-IsOnce :
      (p : Principal) (report_id intent_id : String)
      → Triple (IsQuiet n) (reconcile env p report_id intent_id) (λ _. IsOnce n) (IsOnce n)
  unfolding reconcile
  reconcile-IsOnce p report_id intent_id =
      Triple-bind (λ _. IsQuiet n)
        (Triple-weaken (require_intent-IsQuiet p report_id (some intent_id)) (λ _ s h. h)
          IsQuiet-IsOnce)
        λ row.
          Triple-bind (λ _. IsQuiet n)
            (Triple-weaken (escrow_address-IsQuiet row) (λ _ s h. h) IsQuiet-IsOnce)
            λ address. from_recovery-IsOnce p address row

-- Whatever the database, the chain and the provider answer, one call of `reconcile` hands over at
-- most one payout to the provider, and hands it over only after the latest search of the chain for
-- a payout at the same escrow answered that there is none.
pub reconcile-submits_once :
    (env : Environment Answer) (p : Principal) (report_id intent_id : String) (s : Session Answer)
    → IsGuarded s.calls
    → IsGuarded (reconcile env p report_id intent_id s).1.calls
      × (submissions (reconcile env p report_id intent_id s).1.calls ≤ submissions s.calls + 1)
reconcile-submits_once env p report_id intent_id s h =
    Triple-either (reconcile env p report_id intent_id)
      (reconcile-IsOnce env (submissions s.calls) p report_id intent_id) s (h, refl)
