-- ===== src/Funding/Service/Reconciliation.antt =====
-- `reconcileFunding`: the destination is verified on the chain, the reward pool is synchronised by
-- the payment provider, and both are recorded under a lease.
pub mod Evidence
pub mod Once
use bug_bounty_escrow.Prelude.{
  ℕ, ◌+◌, ◌-◌, String, Bool, true, false, not, ◌&&◌, ◌||◌, Option, none, some, ltb, min,
  if◌then◌else◌, str_eq, is_none,
}
use bug_bounty_escrow.Effect.{
  Failure, conflict, unavailable, provider, other, Environment, Action, pure, throw, ◌>>=◌, ◌>>◌,
  catch, throw_if, do_if, require, perform,
}
use bug_bounty_escrow.Access.{Principal}
use bug_bounty_escrow.Funding.{
  FundingStatus, IntentRow, EscrowRow, Destination, SyncEvidence, TransactionResult, Answer, now,
  random_uuid, find_confirmed_escrow, claim_reconciliation, verify_destination, mark_syncing,
  submit_sync, store_sync, wait_transaction, mark_sync_failed, verify_sync, reconcile,
  fail_destination,
}
use bug_bounty_escrow.Funding.Service.{mapped, require_intent, owned_intent}

-- `CIRCLE_POLL_TIMEOUT_MS` and `CIRCLE_REQUEST_TIMEOUT_MS`.
pub record Timeouts : Type 0 where
  pub poll : ℕ
  pub request : ℕ

-- `Math.min(14 * 60 * 1000, poll + request * 2 + 60_000)`
abbrev pub lease_duration : Timeouts → ℕ
lease_duration t = min 840000 (t.poll + t.request + t.request + 60000)

abbrev pub is_complete : FundingStatus → Bool
is_complete FundingStatus.complete = true
is_complete _ = false

abbrev pub is_syncing : FundingStatus → Bool
is_syncing FundingStatus.syncing_pool = true
is_syncing _ = false

-- `gross > feeReserve ? gross - feeReserve : 0n`
abbrev pub minimum_net : IntentRow → ℕ
minimum_net row =
    if ltb row.estimated_fee_reserve row.gross_amount
    then row.gross_amount - row.estimated_fee_reserve
    else 0

abbrev is_same_text : Option String → String → Bool
is_same_text none id = false
is_same_text (some found) id = str_eq found id

abbrev code_or : Option String → String → String
code_or none d = d
code_or (some code) d = code

module _ (env : Environment Answer) where
  -- The lease, and the escrow of the intent.
  unfoldable pub lease : Timeouts → String → String → Action Answer (Unit {0})
  lease timeouts intent_id lease_id = do
    time ← perform env now
    claimed ← perform env (claim_reconciliation intent_id lease_id (time + lease_duration timeouts))
    throw_if (not claimed) (conflict "funding_reconciliation_in_progress")

  unfoldable pub leased_escrow : String → IntentRow → Action Answer EscrowRow
  leased_escrow program_id row = do
    found ← perform env (find_confirmed_escrow program_id)
    escrow ← require found (conflict "verified_arc_escrow_required")
    throw_if (not (str_eq escrow.id row.escrow_contract_id))
        (conflict "verified_arc_escrow_required")
    pure escrow

  -- The first part of the `try`: the destination, its bounds, and the mark.
  unfoldable pub accept_destination :
      String → String → EscrowRow → IntentRow → String → Action Answer Destination
  accept_destination intent_id lease_id escrow row hash = do
    destination ← perform env (
        verify_destination (record {
          escrow_address = escrow.contract_address;
          route_mode = row.route_mode;
          wallet_address = row.wallet_address;
          destination_transaction_hash = hash;
          pre_balance = row.pre_balance;
        }))
    throw_if
        (ltb destination.net_received (minimum_net row)
          || ltb row.gross_amount destination.net_received)
        (conflict "funding_net_amount_outside_intent_bounds")
    if is_syncing row.status then pure destination else (do
      marked ← perform env (mark_syncing intent_id lease_id)
      throw_if (not marked) (conflict "funding_reconciliation_lease_lost")
      pure destination)

  -- A new sync transaction; another one that was stored meanwhile is a mismatch.
  unfoldable pub submit_new :
      String → String → String → EscrowRow → IntentRow → Action Answer String
  unfolding require_intent
  submit_new program_id intent_id lease_id escrow row = do
    id ← perform env (submit_sync row.sync_idempotency_key escrow.contract_address)
    stored ← perform env (store_sync intent_id id lease_id)
    if stored then pure id else (do
      current ← require_intent env program_id intent_id
      throw_if (not (is_same_text current.sync_circle_transaction_id id))
          (conflict "funding_sync_operation_mismatch")
      pure id)

  unfoldable pub sync_transaction :
      String → String → String → EscrowRow → IntentRow → Action Answer String
  sync_transaction program_id intent_id lease_id escrow row = elim row.sync_circle_transaction_id [
    | some id ↦ pure id
    | none ↦ submit_new program_id intent_id lease_id escrow row
  ]

  -- The provider's answer: a transaction hash, or the failure is recorded and raised.
  unfoldable pub synced_hash : String → String → String → TransactionResult → Action Answer String
  synced_hash intent_id lease_id id result =
      if result.has_failed || is_none result.transaction_hash
      then (do
        perform env (
            mark_sync_failed intent_id id (code_or result.failure_code "circle_sync_failed")
              lease_id)
        throw (unavailable "funding_sync_failed"))
      else require result.transaction_hash (other "TypeError")

  -- The last part of the `try`.
  unfoldable pub record_settlement :
      String
      → String
      → String
      → EscrowRow
      → IntentRow
      → Destination
      → String
      → Action Answer IntentRow
  unfolding require_intent
  record_settlement program_id intent_id lease_id escrow row destination hash = do
    evidence ←
        perform env (
          verify_sync escrow.contract_address hash
            (row.pre_total_funded + destination.net_received))
    perform env (
        reconcile (record {
          intent_id = intent_id;
          lease_id = lease_id;
          destination = destination;
          sync = evidence;
        }))
    require_intent env program_id intent_id

  -- The `catch`: `hash` is the row's destination, `known` the sync transaction if one is known.
  record_failure :
      String → String → Option String → Option String → Failure → Action Answer (Unit {0})
  record_failure intent_id lease_id hash known (provider code _ _) =
      if str_eq code "funding_destination_reverted"
      then perform env (fail_destination intent_id hash)
      else elim known [
        | none ↦ pure tt
        | some id ↦
            if str_eq code "funding_sync_reverted"
            then perform env (mark_sync_failed intent_id id code lease_id)
            else pure tt
      ]
  record_failure intent_id lease_id hash known _ = pure tt

  unfoldable pub on_failure :
      {A : Type 0} → String → String → Option String → Option String → Failure → Action Answer A
  unfolding record_failure
  on_failure intent_id lease_id hash known e = do
    record_failure intent_id lease_id hash known e
    throw (mapped e)

  -- The `try` after the sync transaction is known.
  unfoldable pub finish_sync :
      String
      → String
      → String
      → EscrowRow
      → IntentRow
      → Destination
      → String
      → Action Answer IntentRow
  finish_sync program_id intent_id lease_id escrow row destination id = do
    result ← perform env (wait_transaction id)
    hash ← synced_hash intent_id lease_id id result
    record_settlement program_id intent_id lease_id escrow row destination hash

  -- From the lease on. The handler of each part knows what the method's variables hold there: the
  -- hash of the row as it was last read, and the sync transaction.
  unfoldable pub run_reconciliation :
      String → String → String → EscrowRow → IntentRow → String → Action Answer IntentRow
  run_reconciliation program_id intent_id lease_id escrow row hash = do
    destination ←
        catch (accept_destination intent_id lease_id escrow row hash)
          (on_failure intent_id lease_id (some hash) row.sync_circle_transaction_id)
    current ←
        catch (require_intent env program_id intent_id)
          (on_failure intent_id lease_id (some hash) row.sync_circle_transaction_id)
    id ← catch (sync_transaction program_id intent_id lease_id escrow current) (
        on_failure intent_id lease_id current.destination_transaction_hash
          current.sync_circle_transaction_id)
    catch (finish_sync program_id intent_id lease_id escrow current destination id)
        (on_failure intent_id lease_id current.destination_transaction_hash (some id))

  unfoldable pub reconcile_incomplete :
      Timeouts → String → String → IntentRow → Action Answer IntentRow
  reconcile_incomplete timeouts program_id intent_id row = do
    hash ← require row.destination_transaction_hash (conflict "funding_destination_not_submitted")
    lease_id ← perform env random_uuid
    lease timeouts intent_id lease_id
    escrow ← leased_escrow program_id row
    run_reconciliation program_id intent_id lease_id escrow row hash

  -- `reconcileFunding`.
  unfoldable pub reconcile_funding :
      Timeouts → Principal → String → String → Action Answer IntentRow
  reconcile_funding timeouts principal program_id intent_id = do
    row ← owned_intent env principal program_id intent_id
    if is_complete row.status
        then pure row
        else reconcile_incomplete timeouts program_id intent_id row
