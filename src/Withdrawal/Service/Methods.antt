-- ===== src/Withdrawal/Service/Methods.antt =====
-- The public withdrawal methods of `EscrowService`, over `prepareWithdrawalCreation`.
pub mod Keeps
pub mod Creation
pub mod Access
pub mod Evidence
use bug_bounty_escrow.Prelude.{
  String, Bool, true, false, not, ◌&&◌, ◌||◌, Option, none, some, if◌then◌else◌, str_eq, is_none,
}
use bug_bounty_escrow.Effect.{
  Failure, not_found, conflict, provider, Environment, Action, pure, throw, ◌>>=◌, ◌>>◌, catch,
  throw_if, require, perform,
}
use bug_bounty_escrow.Access.{Principal, require_owner}
use bug_bounty_escrow.Withdrawal.{
  EscrowRow, IntentStatus, IntentRow, CreateInput, Answer, find_confirmed_escrow,
  find_active_intent, find_intent, observe_operation, verify_close, confirm_close,
  verify_withdrawal, reconcile_withdrawal, fail_intent, WithdrawalEvidence,
}
use bug_bounty_escrow.Withdrawal.Service.{mapped, owns, create_from, create}

abbrev has_failed : IntentStatus → Bool
has_failed IntentStatus.failed = true
has_failed _ = false

abbrev is_complete : IntentStatus → Bool
is_complete IntentStatus.complete = true
is_complete _ = false

abbrev is_close_submitted : IntentStatus → Bool
is_close_submitted IntentStatus.close_submitted = true
is_close_submitted _ = false

-- `withdraw_transaction_hash ?? close_transaction_hash`
abbrev latest_hash : IntentRow → Option String
latest_hash row = elim row.withdraw_transaction_hash [
  | none ↦ row.close_transaction_hash
  | some hash ↦ some hash
]

module _ (env : Environment Answer) where
  pub require_intent : String → String → Action Answer IntentRow
  require_intent program_id intent_id = do
    found ← perform env (find_intent program_id intent_id)
    require found not_found

  -- The checks of `createWithdrawalReplacement` on the failed intent.
  failed_intent : String → String → Action Answer (Unit {0})
  unfolding require_intent
  failed_intent program_id failed_id = do
    failed_row ← require_intent program_id failed_id
    throw_if (not (has_failed failed_row.status))
        (conflict "withdrawal_replacement_requires_failed_intent")
    throw_if
        (is_none failed_row.close_transaction_hash && is_none failed_row.withdraw_transaction_hash)
        (conflict "withdrawal_replacement_requires_verified_failure")

  pub create_replacement : Principal → String → String → CreateInput → Action Answer IntentRow
  unfolding create_from
  create_replacement principal program_id failed_id given = do
    require_owner (owns env) principal program_id
    failed_intent program_id failed_id
    create_from env principal program_id (some failed_id) given

  pub active : Principal → String → Action Answer IntentRow
  unfolding owns require_owner
  active principal program_id = do
    require_owner (owns env) principal program_id
    found ← perform env (find_active_intent program_id)
    require found not_found

  pub get : Principal → String → String → Action Answer IntentRow
  unfolding owns require_intent require_owner
  get principal program_id intent_id = do
    require_owner (owns env) principal program_id
    require_intent program_id intent_id

  pub observe : Principal → String → String → String → Action Answer IntentRow
  unfolding owns require_intent require_owner
  observe principal program_id intent_id observation = do
    require_owner (owns env) principal program_id
    require_intent program_id intent_id
    perform env (observe_operation intent_id observation)
    require_intent program_id intent_id

  -- A verified failure is recorded against the hash that it is about.
  fail_terminal : String → IntentRow → Failure → Action Answer (Unit {0})
  fail_terminal intent_id row (provider code false _) = elim (latest_hash row) [
    | none ↦ pure tt
    | some hash ↦ perform env (fail_intent intent_id hash code)
  ]
  fail_terminal intent_id row _ = pure tt

  -- The `catch` of `reconcileWithdrawal`; `row` is the row at the time of the exception.
  pub on_failure : String → IntentRow → Failure → Action Answer IntentRow
  unfolding fail_terminal
  on_failure intent_id row e = do fail_terminal intent_id row e; throw (mapped e)

  -- The part of the `try` up to the confirmed close.
  pub confirm_closed : String → String → EscrowRow → String → IntentRow → Action Answer IntentRow
  unfolding require_intent
  confirm_closed program_id intent_id escrow owner_wallet row = do
    throw_if (row.close_required && is_none row.close_transaction_hash)
        (conflict "withdrawal_close_not_submitted")
    if row.close_required && is_close_submitted row.status
        then (do
          hash ← require row.close_transaction_hash (conflict "withdrawal_close_not_submitted")
          evidence ← perform env (verify_close escrow.contract_address owner_wallet hash)
          confirmed ← perform env (confirm_close intent_id evidence)
          throw_if (not confirmed) (conflict "withdrawal_close_transition_conflict")
          require_intent program_id intent_id)
        else pure row

  -- The rest of the `try`.
  pub confirm_withdrawn : String → String → EscrowRow → IntentRow → Action Answer IntentRow
  unfolding require_intent
  confirm_withdrawn program_id intent_id escrow row = elim row.withdraw_transaction_hash [
    | none ↦ pure row
    | some hash ↦ do
      evidence ← perform env (
          verify_withdrawal (record {
            escrow_address = escrow.contract_address;
            recipient_address = row.recipient_address;
            transaction_hash = hash;
            expected_amount = row.amount_base_units;
            pre_total_withdrawn = row.pre_total_withdrawn_base_units;
          }))
      recorded ← perform env (reconcile_withdrawal intent_id evidence)
      throw_if (not recorded) (conflict "withdrawal_reconciliation_conflict")
      require_intent program_id intent_id
  ]

  -- `escrow === null || escrow.id !== row.escrow_contract_id || escrow.owner_wallet === null`
  pub owner_wallet_of : String → IntentRow → Action Answer (EscrowRow × String)
  owner_wallet_of program_id row = do
    found ← perform env (find_confirmed_escrow program_id)
    escrow ← require found (conflict "verified_arc_escrow_required")
    throw_if (not (str_eq escrow.id row.escrow_contract_id))
        (conflict "verified_arc_escrow_required")
    wallet ← require escrow.owner_wallet (conflict "verified_arc_escrow_required")
    pure (escrow, wallet)

  pub reconcile_incomplete : String → String → IntentRow → Action Answer IntentRow
  reconcile_incomplete program_id intent_id row = do
    checked ← owner_wallet_of program_id row
    closed_row ←
        catch (confirm_closed program_id intent_id checked.0 checked.1 row)
          (on_failure intent_id row)
    catch (confirm_withdrawn program_id intent_id checked.0 closed_row)
        (on_failure intent_id closed_row)

  pub reconcile_row : String → String → IntentRow → Action Answer IntentRow
  reconcile_row program_id intent_id row =
      if is_complete row.status then pure row else reconcile_incomplete program_id intent_id row

  -- The row of the intent, for its owner.
  pub owned_intent : Principal → String → String → Action Answer IntentRow
  unfolding owns require_intent require_owner
  owned_intent principal program_id intent_id = do
    require_owner (owns env) principal program_id
    require_intent program_id intent_id

  -- `reconcileWithdrawal`.
  pub reconcile : Principal → String → String → Action Answer IntentRow
  unfolding owned_intent reconcile_row
  reconcile principal program_id intent_id = do
    row ← owned_intent principal program_id intent_id
    reconcile_row program_id intent_id row

-- The withdrawal routes of `EscrowController`.
pub data Request : Type 0 where
  create_request : CreateInput → Request
  replacement_request : String → CreateInput → Request
  active_request : Request
  get_request : String → Request
  observe_request : String → String → Request
  reconcile_request : String → Request

pub serve : Environment Answer → Principal → String → Request → Action Answer IntentRow
serve env p program_id (create_request given) = create env p program_id given
serve env p program_id (replacement_request id given) = create_replacement env p program_id id given
serve env p program_id active_request = active env p program_id
serve env p program_id (get_request id) = get env p program_id id
serve env p program_id (observe_request id seen) = observe env p program_id id seen
serve env p program_id (reconcile_request id) = reconcile env p program_id id
