-- ===== src/Funding/Service/Reconciliation/Once.antt =====
-- How often `reconcileFunding` submits the sync of the reward pool.
use bug_bounty_escrow.Prelude.{
  ℕ, suc, ◌+◌, ◌≤◌, String, List, [], ◌∷◌, Option, some, none, ◌≡◌, refl, arith,
}
use bug_bounty_escrow.Effect.{
  Failure, returned, conflict, Event, did, Session, Environment, perform, require,
}
use bug_bounty_escrow.Effect.Triples.{Triple, Triple-bind, Triple-catch, Triple-either}
use bug_bounty_escrow.Funding.{
  IntentRow, EscrowRow, Destination, TransactionResult, Answer, random_uuid, find_intent,
  submit_sync, wait_transaction,
}
use bug_bounty_escrow.Funding.Service.{require_intent}
use bug_bounty_escrow.Funding.Service.Reconciliation.{
  Timeouts, lease, leased_escrow, accept_destination, submit_new, sync_transaction, synced_hash,
  record_settlement, record_failure, on_failure, finish_sync, run_reconciliation,
  reconcile_incomplete,
}

abbrev pub submissions : List (Event Answer) → ℕ
submissions [] = 0
submissions (did (submit_sync _ _) _ ∷ calls) = suc (submissions calls)
submissions (did _ _ ∷ calls) = submissions calls

-- The row of the intent that was read last.
abbrev pub latest_row : List (Event Answer) → Option IntentRow
latest_row [] = none
latest_row (did (find_intent _ _) (returned found) ∷ calls) = found
latest_row (did _ _ ∷ calls) = latest_row calls

-- The row has no sync transaction, and this is its idempotency key.
abbrev pub Unsynced : String → Option IntentRow → Type 0
Unsynced key none = ⊥
Unsynced key (some found) =
    (found.sync_circle_transaction_id ≡ none) × (found.sync_idempotency_key ≡ key)

-- Every sync was submitted for such a row.
abbrev pub IsUnsynced : List (Event Answer) → Type 0
IsUnsynced [] = Unit
IsUnsynced (did (submit_sync key _) _ ∷ calls) = Unsynced key (latest_row calls) × IsUnsynced calls
IsUnsynced (did _ _ ∷ calls) = IsUnsynced calls

Unsynced-row :
    (row : IntentRow) (found : Option IntentRow)
    → found ≡ some row
    → row.sync_circle_transaction_id ≡ none
    → Unsynced row.sync_idempotency_key found
Unsynced-row row found h e = rw h (e, refl)

module _ (env : Environment Answer) (n : ℕ) (program_id intent_id : String) (row : IntentRow) where
  abbrev Quiet : Session Answer → Type 0
  Quiet s = IsUnsynced s.calls × (submissions s.calls ≡ n)

  abbrev Once : Session Answer → Type 0
  Once s = IsUnsynced s.calls × (submissions s.calls ≤ n + 1)

  abbrev Read : IntentRow → Session Answer → Type 0
  Read current s = (latest_row s.calls ≡ some current) × Quiet s

  hash-Quiet :
      (found : Option String) (e : Failure) → Triple Quiet (require found e) (λ _. Quiet) Once
  hash-Quiet none e = record { at = λ s h. ground arith }
  hash-Quiet (some hash) e = record { at = λ s h. h }

  random-Quiet : Triple Quiet (perform env random_uuid) (λ _. Quiet) Once
  random-Quiet = record { at = λ s h. ground arith }

  lease-Quiet :
      (t : Timeouts) (lease_id : String)
      → Triple Quiet (lease env t intent_id lease_id) (λ _. Quiet) Once
  unfolding lease
  lease-Quiet t lease_id = record { at = λ s h. ground arith }

  escrow-Quiet : Triple Quiet (leased_escrow env program_id row) (λ _. Quiet) Once
  unfolding leased_escrow
  escrow-Quiet = record { at = λ s h. ground arith }

  module _ (lease_id : String) where
    accept-Quiet :
        (escrow : EscrowRow) (hash : String)
        → Triple Quiet (accept_destination env intent_id lease_id escrow row hash) (λ _. Quiet) Once
    unfolding accept_destination
    accept-Quiet escrow hash = record { at = λ s h. ground arith }

    require-Read :
        Triple Quiet (require_intent env program_id intent_id) (λ current. Read current) Once
    unfolding require_intent
    require-Read = record { at = λ s h. ground arith }

    sync-Once :
        (escrow : EscrowRow) (current : IntentRow)
        → Triple
            (Read current)
            (sync_transaction env program_id intent_id lease_id escrow current)
            (λ _. Once)
            Once
    unfolding sync_transaction submit_new require_intent
    sync-Once escrow current = record {
      at = λ s h. ground (arith, Unsynced-row current (latest_row s.calls) h.0);
    }

    failure-Once :
        {A : Type 0} (hash known : Option String) (Q : A → Session Answer → Type 0) (e : Failure)
        → Triple Once (on_failure env {A = A} intent_id lease_id hash known e) Q Once
    unfolding on_failure record_failure
    failure-Once hash known Q e = record { at = λ s h. ground arith }

    wait-Once : (id : String) → Triple Once (perform env (wait_transaction id)) (λ _. Once) Once
    wait-Once id = record { at = λ s h. ground arith }

    hash-Once :
        (id : String) (result : TransactionResult)
        → Triple Once (synced_hash env intent_id lease_id id result) (λ _. Once) Once
    unfolding synced_hash
    hash-Once id result = record { at = λ s h. ground arith }

    settlement-Once :
        (escrow : EscrowRow) (current : IntentRow) (d : Destination) (hash : String)
        → Triple Once
            (record_settlement env program_id intent_id lease_id escrow current d hash)
            (λ _. Once)
            Once
    unfolding record_settlement require_intent
    settlement-Once escrow current d hash = record { at = λ s h. ground arith }

    finish-Once :
        (escrow : EscrowRow) (current : IntentRow) (d : Destination) (id : String)
        → Triple Once
            (finish_sync env program_id intent_id lease_id escrow current d id)
            (λ _. Once)
            Once
    unfolding finish_sync
    finish-Once escrow current d id =
        Triple-bind (λ _. Once) (wait-Once id)
          λ result.
            Triple-bind (λ _. Once) (hash-Once id result)
              (λ hash. settlement-Once escrow current d hash)

    run-Once :
        (escrow : EscrowRow) (hash : String)
        → Triple Quiet
            (run_reconciliation env program_id intent_id lease_id escrow row hash)
            (λ _. Once)
            Once
    unfolding run_reconciliation
    run-Once escrow hash =
        Triple-bind (λ _. Quiet)
          (Triple-catch Once (accept-Quiet escrow hash)
            (failure-Once (some hash) row.sync_circle_transaction_id (λ _. Quiet)))
          λ d.
            Triple-bind (λ current. Read current)
              (Triple-catch Once require-Read
                (failure-Once (some hash) row.sync_circle_transaction_id (λ current. Read current)))
              λ current.
                Triple-bind (λ _. Once)
                  (Triple-catch Once (sync-Once escrow current) (
                    failure-Once current.destination_transaction_hash
                      current.sync_circle_transaction_id (λ _. Once)))
                  λ id.
                    Triple-catch Once (finish-Once escrow current d id)
                      (failure-Once current.destination_transaction_hash (some id) (λ _. Once))

  reconcile-Once :
      (t : Timeouts)
      → Triple Quiet (reconcile_incomplete env t program_id intent_id row) (λ _. Once) Once
  unfolding reconcile_incomplete
  reconcile-Once t =
      Triple-bind (λ _. Quiet)
        (hash-Quiet row.destination_transaction_hash (conflict "funding_destination_not_submitted"))
        λ hash.
          Triple-bind (λ _. Quiet) random-Quiet
            λ lease_id.
              Triple-bind (λ _. Quiet) (lease-Quiet t lease_id)
                λ _. Triple-bind (λ _. Quiet) escrow-Quiet (λ escrow. run-Once lease_id escrow hash)

-- Whatever the answers, one reconciliation of an intent's funding submits the sync of the reward pool
-- at most once, and only if the row that was read last has no sync transaction, with the
-- idempotency key of that row.
pub reconcile-submits_sync_once :
    (env : Environment Answer) (t : Timeouts) (program_id intent_id : String) (row : IntentRow)
    (s : Session Answer)
    → IsUnsynced s.calls
    → IsUnsynced (reconcile_incomplete env t program_id intent_id row s).1.calls
      × (submissions (reconcile_incomplete env t program_id intent_id row s).1.calls
          ≤ submissions s.calls + 1)
reconcile-submits_sync_once env t program_id intent_id row s h =
    Triple-either (reconcile_incomplete env t program_id intent_id row)
      (reconcile-Once env (submissions s.calls) program_id intent_id row t) s (h, refl)
