-- ===== src/Funding/Service/Reconciliation/Evidence.antt =====
-- What `reconcileFunding` records is what the chain verified, under the lease.
use bug_bounty_escrow.Prelude.{
  ◌≤◌, String, true, List, [], ◌∷◌, Option, some, none, ◌≡◌, ◌⊎◌, arith,
}
use bug_bounty_escrow.Effect.{
  Failure, returned, Event, did, Session, Environment, conflict, perform, require, ◌>>◌, ◌>>=◌,
}
use bug_bounty_escrow.Effect.Triples.{Triple, Triple-bind, Triple-catch, Triple-either}
use bug_bounty_escrow.Funding.{
  IntentRow, EscrowRow, Destination, SyncEvidence, TransactionResult, Answer, wait_transaction,
  random_uuid, claim_reconciliation, verify_destination, verify_sync, reconcile,
}
use bug_bounty_escrow.Funding.Service.{require_intent}
use bug_bounty_escrow.Funding.Service.Reconciliation.{
  Timeouts, minimum_net, lease, leased_escrow, accept_destination, submit_new, sync_transaction,
  synced_hash, record_settlement, record_failure, on_failure, finish_sync, run_reconciliation,
  reconcile_incomplete,
}

abbrev pub SawDestination : Destination → List (Event Answer) → Type 0
SawDestination e [] = ⊥
SawDestination e (did (verify_destination _) (returned seen) ∷ calls) =
    (seen ≡ e) ⊎ SawDestination e calls
SawDestination e (did _ _ ∷ calls) = SawDestination e calls

abbrev pub SawSync : SyncEvidence → List (Event Answer) → Type 0
SawSync e [] = ⊥
SawSync e (did (verify_sync _ _ _) (returned seen) ∷ calls) = (seen ≡ e) ⊎ SawSync e calls
SawSync e (did _ _ ∷ calls) = SawSync e calls

-- The database granted this lease on the intent.
abbrev pub WonLease : String → String → List (Event Answer) → Type 0
WonLease intent_id lease_id [] = ⊥
WonLease intent_id lease_id (did (claim_reconciliation i l _) (returned true) ∷ calls) =
    ((i ≡ intent_id) × (l ≡ lease_id)) ⊎ WonLease intent_id lease_id calls
WonLease intent_id lease_id (did _ _ ∷ calls) = WonLease intent_id lease_id calls

abbrev pub IsWithin : IntentRow → Destination → Type 0
IsWithin row d = (minimum_net row ≤ d.net_received) × (d.net_received ≤ row.gross_amount)

-- Every settlement was recorded with a destination and a sync that the chain verified, under a lease
-- that was won, with a net amount between the intent's gross amount less its fee reserve and the
-- gross amount.
abbrev pub IsEvidenced : IntentRow → List (Event Answer) → Type 0
IsEvidenced row [] = Unit
IsEvidenced row (did (reconcile st) _ ∷ calls) =
    SawDestination st.destination calls
    × (SawSync st.sync calls
        × (WonLease st.intent_id st.lease_id calls
            × (IsWithin row st.destination × IsEvidenced row calls)))
IsEvidenced row (did _ _ ∷ calls) = IsEvidenced row calls

module _ (env : Environment Answer) (program_id intent_id : String) (row : IntentRow) where
  abbrev Fine : Session Answer → Type 0
  Fine s = IsEvidenced row s.calls

  abbrev Leased : String → Session Answer → Type 0
  Leased lease_id s = WonLease intent_id lease_id s.calls × IsEvidenced row s.calls

  abbrev Accepted : String → Destination → Session Answer → Type 0
  Accepted lease_id d s = SawDestination d s.calls × (IsWithin row d × Leased lease_id s)

  lease-Leased :
      (t : Timeouts) (lease_id : String)
      → Triple Fine (lease env t intent_id lease_id) (λ _. Leased lease_id) Fine
  unfolding lease
  lease-Leased t lease_id = record { at = λ s h. ground arith }

  escrow-Leased :
      (lease_id : String)
      → Triple (Leased lease_id) (leased_escrow env program_id row) (λ _. Leased lease_id) Fine
  unfolding leased_escrow
  escrow-Leased lease_id = record { at = λ s h. ground arith }

  accept-Accepted :
      (lease_id : String) (escrow : EscrowRow) (hash : String)
      → Triple
          (Leased lease_id)
          (accept_destination env intent_id lease_id escrow row hash)
          (Accepted lease_id)
          Fine
  unfolding accept_destination
  accept-Accepted lease_id escrow hash = record { at = λ s h. ground arith }

  module _ (lease_id : String) where
    failure-Fine :
        {A : Type 0} (hash known : Option String) (Q : A → Session Answer → Type 0) (e : Failure)
        → Triple Fine (on_failure env {A = A} intent_id lease_id hash known e) Q Fine
    unfolding on_failure record_failure
    failure-Fine hash known Q e = record { at = λ s h. ground arith }

    require-Accepted :
        (d : Destination)
        → Triple
            (Accepted lease_id d)
            (require_intent env program_id intent_id)
            (λ _. Accepted lease_id d)
            Fine
    unfolding require_intent
    require-Accepted d = record { at = λ s h. ground arith }

    sync-Accepted :
        (escrow : EscrowRow) (current : IntentRow) (d : Destination)
        → Triple
            (Accepted lease_id d)
            (sync_transaction env program_id intent_id lease_id escrow current)
            (λ _. Accepted lease_id d)
            Fine
    unfolding sync_transaction submit_new require_intent
    sync-Accepted escrow current d = record { at = λ s h. ground arith }

    hash-Accepted :
        (d : Destination) (id : String) (result : TransactionResult)
        → Triple
            (Accepted lease_id d)
            (synced_hash env intent_id lease_id id result)
            (λ _. Accepted lease_id d)
            Fine
    unfolding synced_hash
    hash-Accepted d id result = record { at = λ s h. ground arith }

    settlement-Fine :
        (escrow : EscrowRow) (current : IntentRow) (d : Destination) (hash : String)
        → Triple
            (Accepted lease_id d)
            (record_settlement env program_id intent_id lease_id escrow current d hash)
            (λ _. Fine)
            Fine
    unfolding record_settlement require_intent
    settlement-Fine escrow current d hash = record { at = λ s h. ground arith }

    -- Between the parts: the handlers of `run_reconciliation` keep what was recorded.
    finish-Fine :
        (escrow : EscrowRow) (current : IntentRow) (d : Destination) (id : String)
        → Triple
            (Accepted lease_id d)
            (finish_sync env program_id intent_id lease_id escrow current d id)
            (λ _. Fine)
            Fine
    unfolding finish_sync
    finish-Fine escrow current d id =
        Triple-bind (λ _. Accepted lease_id d) (wait-Accepted d id)
          λ result.
            Triple-bind (λ _. Accepted lease_id d) (hash-Accepted d id result)
              (λ hash. settlement-Fine escrow current d hash)
      where
        wait-Accepted :
            (d : Destination) (id : String)
            → Triple
                (Accepted lease_id d)
                (perform env (wait_transaction id))
                (λ _. Accepted lease_id d)
                Fine
        wait-Accepted d id = record { at = λ s h. ground arith }

    run-Fine :
        (escrow : EscrowRow) (hash : String)
        → Triple
            (Leased lease_id)
            (run_reconciliation env program_id intent_id lease_id escrow row hash)
            (λ _. Fine)
            Fine
    unfolding run_reconciliation
    run-Fine escrow hash =
        Triple-bind (Accepted lease_id)
          (Triple-catch Fine (accept-Accepted lease_id escrow hash)
            (failure-Fine (some hash) row.sync_circle_transaction_id (Accepted lease_id)))
          λ d.
            Triple-bind (λ _. Accepted lease_id d)
              (Triple-catch Fine (require-Accepted d) (
                failure-Fine (some hash) row.sync_circle_transaction_id (λ _. Accepted lease_id d)))
              λ current.
                Triple-bind (λ _. Accepted lease_id d)
                  (Triple-catch Fine (sync-Accepted escrow current d) (
                    failure-Fine current.destination_transaction_hash
                      current.sync_circle_transaction_id (λ _. Accepted lease_id d)))
                  λ id.
                    Triple-catch Fine (finish-Fine escrow current d id)
                      (failure-Fine current.destination_transaction_hash (some id) (λ _. Fine))

    leased-Fine :
        (t : Timeouts) (hash : String)
        → Triple Fine
            (do
              lease env t intent_id lease_id
              escrow ← leased_escrow env program_id row
              run_reconciliation env program_id intent_id lease_id escrow row hash)
            (λ _. Fine)
            Fine
    leased-Fine t hash =
        Triple-bind (λ _. Leased lease_id) (lease-Leased t lease_id)
          λ _.
            Triple-bind (λ _. Leased lease_id) (escrow-Leased lease_id)
              (λ escrow. run-Fine escrow hash)

  random-Fine : Triple Fine (perform env random_uuid) (λ _. Fine) Fine
  random-Fine = record { at = λ s h. ground arith }

  hash-Fine : (found : Option String) (e : Failure) → Triple Fine (require found e) (λ _. Fine) Fine
  hash-Fine none e = record { at = λ s h. h }
  hash-Fine (some hash) e = record { at = λ s h. h }

  reconcile-Fine :
      (t : Timeouts)
      → Triple Fine (reconcile_incomplete env t program_id intent_id row) (λ _. Fine) Fine
  unfolding reconcile_incomplete
  reconcile-Fine t =
      Triple-bind (λ _. Fine)
        (hash-Fine row.destination_transaction_hash (conflict "funding_destination_not_submitted"))
        λ hash. Triple-bind (λ _. Fine) random-Fine (λ lease_id. leased-Fine lease_id t hash)

-- Whatever the answers, a settlement of an intent's funding is recorded only with a destination and
-- a sync of the reward pool that the chain verified before, under a lease that the database
-- granted, and with a net amount that is not above the intent's gross amount and not below the gross
-- amount less the fee reserve.
pub reconcile-funding-IsEvidenced :
    (env : Environment Answer) (t : Timeouts) (program_id intent_id : String) (row : IntentRow)
    (s : Session Answer)
    → IsEvidenced row s.calls
    → IsEvidenced row (reconcile_incomplete env t program_id intent_id row s).1.calls
reconcile-funding-IsEvidenced env t program_id intent_id row s h =
    Triple-either (reconcile_incomplete env t program_id intent_id row)
      (reconcile-Fine env program_id intent_id row t) s h
