-- ===== src/Withdrawal/Service/Batches.antt =====
-- The record of late funding: in batches, and the cursor last.
use bug_bounty_escrow.Prelude.{
  ℕ, zero, suc, ◌≤◌, String, Bool, true, false, List, [], ◌∷◌, ◌≡◌, refl, arith, length, take, drop,
  length-drop, ◌++◌, ap, sym, ◌∙◌, take-append-drop,
}
use mathlib.Core.List.{append_assoc, append-nil}
use bug_bounty_escrow.Effect.{Outcome, returned, raised, Event, did, Session, Environment, perform}
use bug_bounty_escrow.Effect.Triples.{Post, Triple, Triple-bind}
use bug_bounty_escrow.Access.{Principal}
use bug_bounty_escrow.Withdrawal.{
  EscrowRow, EscrowState, LateFunding, LateFundingScan, Answer, find_late_funding,
  get_withdrawal_state, reconcile_late_funding,
}
use bug_bounty_escrow.Withdrawal.Service.{
  late_funding_batch_size, batches, record_batch, record_batches, read_state, scan_from,
}

-- The events of the latest scan that were not recorded since.
abbrev pub pending : List (Event Answer) → List LateFunding
pending [] = []
pending (did (find_late_funding _ _) (returned scan) ∷ _) = scan.events
pending (did (reconcile_late_funding b) (returned _) ∷ calls) =
    drop (length b.events) (pending calls)
pending (did _ _ ∷ calls) = pending calls

-- The events that the latest scan reported.
abbrev pub scanned : List (Event Answer) → List LateFunding
scanned [] = []
scanned (did (find_late_funding _ _) (returned scan) ∷ _) = scan.events
scanned (did _ _ ∷ calls) = scanned calls

-- The events of the batches that were recorded since, oldest first.
abbrev pub recorded : List (Event Answer) → List LateFunding
recorded [] = []
recorded (did (find_late_funding _ _) (returned _) ∷ _) = []
recorded (did (reconcile_late_funding b) (returned _) ∷ calls) = recorded calls ++ b.events
recorded (did _ _ ∷ calls) = recorded calls

-- A batch holds the next 500 of the pending events, or what is left of them; the cursor is
-- advanced, with no events, when none is pending.
abbrev pub IsNext : Bool → List LateFunding → List LateFunding → Type 0
IsNext false events left = events ≡ take late_funding_batch_size left
IsNext true events left = (events ≡ []) × (left ≡ [])

abbrev pub IsOrderly : List (Event Answer) → Type 0
IsOrderly [] = Unit
IsOrderly (did (reconcile_late_funding b) _ ∷ calls) =
    IsNext b.advance_cursor b.events (pending calls) × IsOrderly calls
IsOrderly (did _ _ ∷ calls) = IsOrderly calls

abbrev Orderly : Session Answer → Type 0
Orderly s = IsOrderly s.calls

abbrev Pending : List LateFunding → Session Answer → Type 0
Pending events s =
    IsOrderly s.calls
    × ((pending s.calls ≡ events) × (recorded s.calls ++ events ≡ scanned s.calls))

-- Dropping as many as were taken is dropping 500.
drop-length-take :
    (k : ℕ) (events : List LateFunding) → drop (length (take k events)) events ≡ drop k events
drop-length-take zero events = refl
drop-length-take (suc k) [] = refl
drop-length-take (suc k) (e ∷ events) = drop-length-take k events

batch_size-pos : 1 ≤ late_funding_batch_size
unfolding late_funding_batch_size
batch_size-pos = omega arith

-- One batch moves the events that it holds from the pending to the recorded.
batch-moves :
    (k : ℕ) (before events : List LateFunding)
    → (before ++ take k events) ++ drop k events ≡ before ++ events
batch-moves k before events =
    append_assoc before (take k events) (drop k events)
    ∙ ap (λ l. before ++ l) (take-append-drop k events)

Post-Orderly :
    (o : Outcome EscrowState) (s : Session Answer)
    → Post (λ _. Pending []) Orderly o s
    → IsOrderly s.calls
      × ((state : EscrowState) → o ≡ returned state → recorded s.calls ≡ scanned s.calls)
Post-Orderly (returned a) s h = (h.0, λ state e. sym (append-nil (recorded s.calls)) ∙ h.1.1)
Post-Orderly (raised e) s h = (h, λ state k. cc)

module _ (env : Environment Answer) (p : Principal) (program_id : String) where
  record_batch-Pending :
      (escrow : EscrowRow) (scan : LateFundingScan) (events : List LateFunding)
      → Triple
          (Pending events)
          (record_batch env p program_id escrow scan (take late_funding_batch_size events) false)
          (λ _. Pending (drop late_funding_batch_size events))
          Orderly
  unfolding record_batch
  record_batch-Pending escrow scan events = record {
    at = λ s k. ground (
      arith,
      drop-length-take late_funding_batch_size events,
      batch-moves late_funding_batch_size (recorded s.calls) events,
    );
  }

  record_batches-Pending :
      (escrow : EscrowRow) (scan : LateFundingScan) (rounds : ℕ) (events : List LateFunding)
      → length events ≤ rounds
      → Triple
          (Pending events)
          (record_batches env p program_id escrow scan (batches rounds events))
          (λ _. Pending [])
          Orderly
  unfolding record_batches batches
  record_batches-Pending escrow scan zero [] h = record { at = λ s k. k }
  record_batches-Pending escrow scan zero (e ∷ events) h = absurd (omega arith)
  record_batches-Pending escrow scan (suc rounds) [] h = record { at = λ s k. k }
  record_batches-Pending escrow scan (suc rounds) (e ∷ events) h =
      Triple-bind (λ _. Pending (drop late_funding_batch_size (e ∷ events)))
        (record_batch-Pending escrow scan (e ∷ events))
        λ _.
          record_batches-Pending escrow scan rounds (drop late_funding_batch_size (e ∷ events))
            (omega (arith, length-drop late_funding_batch_size (e ∷ events), batch_size-pos))

  advance-Pending :
      (escrow : EscrowRow) (scan : LateFundingScan)
      → Triple
          (Pending [])
          (record_batch env p program_id escrow scan [] true)
          (λ _. Pending [])
          Orderly
  unfolding record_batch
  advance-Pending escrow scan = record { at = λ s k. ground (arith, append-nil (recorded s.calls)) }

  scan-Pending :
      (address : String) (from : ℕ)
      → Triple Orderly
          (perform env (find_late_funding address from))
          (λ scan. Pending scan.events)
          Orderly
  scan-Pending address from = record { at = λ s h. ground arith }

  state-Pending :
      (address : String)
      → Triple (Pending []) (perform env (get_withdrawal_state address)) (λ _. Pending []) Orderly
  state-Pending address = record { at = λ s h. ground arith }

  read_state-Pending :
      (escrow : EscrowRow)
      → Triple Orderly (read_state env p program_id escrow) (λ _. Pending []) Orderly
  unfolding read_state
  read_state-Pending escrow =
      Triple-bind (λ scan. Pending scan.events)
        (scan-Pending escrow.contract_address (scan_from escrow))
        λ scan.
          Triple-bind (λ _. Pending [])
            (record_batches-Pending escrow scan (length scan.events) scan.events (omega arith))
            λ _.
              Triple-bind (λ _. Pending []) (advance-Pending escrow scan)
                (λ _. state-Pending escrow.contract_address)

-- Before a withdrawal is prepared, the late funding that the chain reports is recorded in order:
-- each batch holds the next 500 pending events or all that are left, and the cursor is advanced
-- only when none is left; this holds whatever is answered.
pub read_state-IsOrderly :
    (env : Environment Answer) (p : Principal) (program_id : String) (escrow : EscrowRow)
    (s : Session Answer)
    → IsOrderly s.calls
    → IsOrderly (read_state env p program_id escrow s).1.calls
read_state-IsOrderly env p program_id escrow s h =
    (Post-Orderly (read_state env p program_id escrow s).0 (read_state env p program_id escrow s).1
      ((read_state-Pending env p program_id escrow).at s h)).0

-- If the state of the escrow is read at all, then the batches that were recorded before hold, one
-- after another, exactly the events of late funding that the latest scan of the chain reported, in
-- their order.
pub read_state-records_all :
    (env : Environment Answer) (p : Principal) (program_id : String) (escrow : EscrowRow)
    (s : Session Answer) (state : EscrowState)
    → IsOrderly s.calls
    → (read_state env p program_id escrow s).0 ≡ returned state
    → recorded (read_state env p program_id escrow s).1.calls
      ≡ scanned (read_state env p program_id escrow s).1.calls
read_state-records_all env p program_id escrow s state h e =
    (Post-Orderly (read_state env p program_id escrow s).0 (read_state env p program_id escrow s).1
        ((read_state-Pending env p program_id escrow).at s h)).1
      state e
