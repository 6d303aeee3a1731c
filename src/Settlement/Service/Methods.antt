-- ===== src/Settlement/Service/Methods.antt =====
-- The public methods of `RewardSettlementService`, over the parts of `reconcile`.
pub mod Payouts
mod Tests
pub mod Authority
pub mod Keeps
pub mod Evidence
use bug_bounty_escrow.Prelude.{String, Bool, true, false, not, Option, none, some, if◌then◌else◌}
use bug_bounty_escrow.Effect.{
  Failure, not_found, conflict, Outcome, returned, raised, Environment, Action, pure, throw, ◌>>=◌,
  ◌>>◌, throw_if, require, perform,
}
use bug_bounty_escrow.Access.{Principal}
use bug_bounty_escrow.Settlement.{
  approval, payout, awaiting_approval, approval_submitted, ready_for_payout, payout_submitted,
  IntentStatus, IntentRow, EscrowRow, TransactionState, TransactionResult, PayoutEvidence,
  ApprovalOutcome, CreateInput, Answer, find_confirmed_escrow, find_context, create_intent,
  observe_approval, confirm_payout, attach_hash, fail_operation, cancel_intent, find_approval,
  find_intent_by_id, verify_payout, wait_transaction, OperationRow,
}
use bug_bounty_escrow.Settlement.Service.{
  attempt, Flow, finish, go_on, continue_with, escrow_address_of, terms_of, is_accepted,
  submitted_hash, circle_id, or_default, latest_operation, reload, require_owner, require_intent,
  fail_deterministic, recover_approval, confirm_submitted, find_existing, relay_payout,
}

abbrev is_awaiting : IntentStatus → Bool
is_awaiting awaiting_approval = true
is_awaiting _ = false

abbrev is_approval_submitted : IntentStatus → Bool
is_approval_submitted approval_submitted = true
is_approval_submitted _ = false

abbrev is_ready : IntentStatus → Bool
is_ready ready_for_payout = true
is_ready _ = false

abbrev is_payout_submitted : IntentStatus → Bool
is_payout_submitted payout_submitted = true
is_payout_submitted _ = false

abbrev ready_or_submitted : IntentStatus → Bool
ready_or_submitted ready_for_payout = true
ready_or_submitted payout_submitted = true
ready_or_submitted _ = false

abbrev has_failed : TransactionState → Bool
has_failed TransactionState.failed = true
has_failed TransactionState.confirmed = false

module _ (env : Environment Answer) where
  -- The end of `reconcile`: the row is read once more.
  pub refreshed : String → Action Answer IntentRow
  refreshed id = do found ← perform env (find_intent_by_id id); require found not_found

  -- The provider's answer on a relay that it accepted.
  on_provider_result : IntentRow → Option String → TransactionResult → Action Answer Flow
  unfolding reload
  on_provider_result row id result =
      if has_failed result.state
      then (do
        perform env (
            fail_operation row.id payout
              (or_default result.failure_code "circle_reward_payout_failed"))
        fresh_row ← reload env row.id
        pure (finish fresh_row))
      else (do
        hash ← require result.transaction_hash (conflict "circle_reward_payout_hash_missing")
        perform env (attach_hash row.id id hash)
        fresh_row ← reload env row.id
        pure (go_on fresh_row))

  -- `provider_accepted`: the service waits for the provider's transaction.
  await_provider : IntentRow → Action Answer Flow
  unfolding on_provider_result
  await_provider row =
      if is_accepted (latest_operation row payout)
      then (do
        result ← perform env (wait_transaction (circle_id (latest_operation row payout)))
        on_provider_result row (circle_id (latest_operation row payout)) result)
      else pure (go_on row)

  -- The `try` of the last part: verification on the chain, then confirmation.
  verify_and_confirm : String → IntentRow → String → Action Answer (Unit {0})
  verify_and_confirm address row hash = do
    evidence ← perform env (verify_payout (terms_of address row) hash)
    perform env (confirm_payout row.id evidence)

  on_payout_verdict : IntentRow → Outcome (Unit {0}) → Action Answer (Unit {0})
  unfolding fail_deterministic
  on_payout_verdict row (returned _) = pure tt
  on_payout_verdict row (raised e) = do fail_deterministic env row.id payout e; throw e

  verify_submitted : String → IntentRow → Action Answer Flow
  unfolding verify_and_confirm on_payout_verdict
  verify_submitted address row = elim (submitted_hash (latest_operation row payout)) [
    | none ↦ pure (go_on row)
    | some hash ↦ do
      verdict ← attempt (verify_and_confirm address row hash)
      on_payout_verdict row verdict
      pure (go_on row)
  ]

  -- The part for `payout_submitted`.
  pub track_payout : String → IntentRow → Action Answer Flow
  unfolding await_provider verify_submitted
  track_payout address row = do
    flow ← await_provider row
    elim flow [ finish r ↦ pure (finish r) | go_on r ↦ verify_submitted address r ]

  -- `if (test) { part }` on the current row.
  pub when : Bool → Action Answer Flow → IntentRow → Action Answer Flow
  when test part row = if test then part else pure (go_on row)

  -- The rest of `reconcile` from each of its parts on.
  pub from_tracking : String → IntentRow → Action Answer IntentRow
  unfolding when refreshed
  from_tracking address row = do
    flow ← when (is_payout_submitted row.status) (track_payout address row) row
    continue_with (λ next. refreshed next.id) flow

  pub from_relay : String → IntentRow → Action Answer IntentRow
  unfolding when
  from_relay address row = do
    flow ← when (is_ready row.status) (relay_payout env address row) row
    continue_with (from_tracking address) flow

  pub from_search : String → IntentRow → Action Answer IntentRow
  unfolding when
  from_search address row = do
    flow ← when (ready_or_submitted row.status) (find_existing env address row) row
    continue_with (from_relay address) flow

  pub from_verification : String → IntentRow → Action Answer IntentRow
  unfolding when
  from_verification address row = do
    flow ← when (is_approval_submitted row.status) (confirm_submitted env address row) row
    continue_with (from_search address) flow

  pub from_recovery : Principal → String → IntentRow → Action Answer IntentRow
  unfolding when
  from_recovery principal address row = do
    flow ← when (is_awaiting row.status) (recover_approval env principal address row) row
    continue_with (from_verification address) flow

  pub reconcile : Principal → String → String → Action Answer IntentRow
  reconcile principal report_id intent_id = do
    row ← require_intent env principal report_id (some intent_id)
    address ← escrow_address_of row
    from_recovery principal address row

  pub current : Principal → String → Action Answer IntentRow
  current principal report_id = require_intent env principal report_id none

  is_submitted : ApprovalOutcome → Bool
  is_submitted ApprovalOutcome.submitted = true
  is_submitted ApprovalOutcome.submission_uncertain = false

  pub observe :
      Principal → String → String → ApprovalOutcome → Option String → Action Answer IntentRow
  unfolding reload is_submitted
  observe principal report_id intent_id outcome hash = do
    row ← require_intent env principal report_id (some intent_id)
    perform env (observe_approval principal.user_id row.id outcome hash)
    if is_submitted outcome then reconcile principal report_id intent_id else reload env row.id

  -- `findConfirmedEscrow`, with the columns that `create` wants.
  program_key_of : EscrowRow → Action Answer String
  program_key_of escrow = do
    require escrow.contract_address (conflict "canonical_program_escrow_required")
    key ← require escrow.program_key (conflict "canonical_program_escrow_required")
    require escrow.owner_wallet (conflict "canonical_program_escrow_required")
    pure key

  -- `report_key` is `canonicalReportKey`.
  pub create :
      (report_key : String → String → String)
      → Principal
      → String
      → CreateInput
      → Action Answer IntentRow
  unfolding program_key_of require_owner
  create report_key principal report_id given = do
    found ← perform env (find_context report_id)
    context ← require found not_found
    require_owner env principal context.program_id
    confirmed ← perform env (find_confirmed_escrow context.program_id)
    escrow ← require confirmed (conflict "canonical_program_escrow_required")
    key ← program_key_of escrow
    perform env (
        create_intent (record {
          actor_id = principal.user_id;
          report_id = report_id;
          input = given;
          report_key = report_key key report_id;
          content_hash = context.content_hash;
        }))

  pub cancel : Principal → String → String → Action Answer IntentRow
  unfolding refreshed
  cancel principal report_id intent_id = do
    row ← require_intent env principal report_id (some intent_id)
    confirmed ← perform env (find_confirmed_escrow row.program_id)
    escrow ← require confirmed (conflict "canonical_program_escrow_required")
    address ← require escrow.contract_address (conflict "canonical_program_escrow_required")
    block ← require escrow.deployment_block_number (conflict "canonical_program_escrow_required")
    found ← perform env (find_approval (terms_of address row) block)
    elim found [
      | some evidence ↦ do
        perform env (
            observe_approval principal.user_id row.id ApprovalOutcome.submitted
              (some evidence.transaction_hash))
        throw (conflict "reward_approval_already_onchain")
      | none ↦ do perform env (cancel_intent principal.user_id row.id); refreshed row.id
    ]

-- The routes of `RewardSettlementController`, after the validation of the request.
pub data Request : Type 0 where
  create_request : CreateInput → Request
  current_request : Request
  observe_request : String → ApprovalOutcome → Option String → Request
  reconcile_request : String → Request
  cancel_request : String → Request

pub serve :
    Environment Answer
    → (String → String → String)
    → Principal
    → String
    → Request
    → Action Answer IntentRow
serve env key p report_id (create_request given) = create env key p report_id given
serve env key p report_id current_request = current env p report_id
serve env key p report_id (observe_request id outcome hash) =
    observe env p report_id id outcome hash
serve env key p report_id (reconcile_request id) = reconcile env p report_id id
serve env key p report_id (cancel_request id) = cancel env p report_id id
