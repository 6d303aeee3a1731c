-- ===== src/Settlement.antt =====
-- Reward settlement: apps/api/src/escrow/reward-settlement.service.ts. The rows of the database
-- (escrow.repository.ts), the evidence of the chain (escrow-gateways.ts), and the calls that the
-- service makes of them.
pub mod Service
use bug_bounty_escrow.Prelude.{
  ℕ, String, Bool, true, false, Option, none, some, List, [], ◌∷◌, ltb, head?, filter,
}

pub data OperationType : Type 0 where
  approval payout : OperationType

pub data OperationStatus : Type 0 where
  submission_uncertain provider_accepted submitted confirmed failed : OperationStatus

-- `RewardSettlementOperationRow`, less the columns that the service does not read.
pub record OperationRow : Type 0 where
  pub operation_type : OperationType
  pub attempt_no : ℕ
  pub status : OperationStatus
  pub provider_idempotency_key : Option String
  pub circle_transaction_id : Option String
  pub transaction_hash : Option String
  pub block_number : Option ℕ

pub data IntentStatus : Type 0 where
  awaiting_approval approval_submitted ready_for_payout payout_submitted paid : IntentStatus
  intent_failed : IntentStatus

-- The embedded `escrow_contracts` row.
pub record EscrowColumns : Type 0 where
  pub contract_address : Option String
  pub deployment_block_number : Option ℕ

-- `RewardSettlementIntentRow`.
pub record IntentRow : Type 0 where
  pub id : String
  pub report_id : String
  pub program_id : String
  pub report_key : String
  pub approved_content_hash : String
  pub recipient_address : String
  pub amount_base_units : ℕ
  pub status : IntentStatus
  pub escrow_contracts : Option EscrowColumns
  pub reward_settlement_operations : List OperationRow

-- `RewardSettlementContextRow`.
pub record ContextRow : Type 0 where
  pub program_id : String
  pub content_hash : String

-- `ConfirmedEscrowRow`, less the columns that the service does not read.
pub record EscrowRow : Type 0 where
  pub contract_address : Option String
  pub program_key : Option String
  pub owner_wallet : Option String
  pub deployment_block_number : Option ℕ

-- The terms that the chain is asked about: the same five fields in every query.
pub record Terms : Type 0 where
  pub escrow_address : String
  pub report_key : String
  pub approved_content_hash : String
  pub recipient_address : String
  pub amount_base_units : ℕ

-- `VerifiedRewardApproval`.
pub record ApprovalEvidence : Type 0 where
  pub transaction_hash : String
  pub event_log_index : ℕ
  pub block_number : ℕ
  pub block_hash : String

-- `VerifiedRewardPayout`; `accounting` is passed on whole.
pub record PayoutEvidence : Type 0 where
  pub transaction_hash : String
  pub event_log_index : ℕ
  pub transfer_log_index : ℕ
  pub block_number : ℕ
  pub block_hash : String
  pub accounting : List ℕ

pub data TransactionState : Type 0 where
  confirmed failed : TransactionState

-- The answer of `waitForTransaction`.
pub record TransactionResult : Type 0 where
  pub state : TransactionState
  pub transaction_hash : Option String
  pub failure_code : Option String

pub data ApprovalOutcome : Type 0 where
  submitted submission_uncertain : ApprovalOutcome

pub record CreateInput : Type 0 where
  pub amount : Option String
  pub calculation_basis_amount : Option String
  pub owner_wallet : String
  pub idempotency_key : String

-- What `createRewardSettlementIntent` of the repository is given.
pub record NewIntent : Type 0 where
  pub actor_id : String
  pub report_id : String
  pub input : CreateInput
  pub report_key : String
  pub content_hash : String

-- The calls of the repository, of the chain (`arc`), of the payment provider (`circle`), and of
-- `randomUUID`.
pub data Op : Type 0 where
  find_context : String → Op
  is_program_owner : String → String → Op
  find_confirmed_escrow : String → Op
  create_intent : NewIntent → Op
  find_intent_by_report : String → Op
  find_intent_by_id : String → Op
  observe_approval : String → String → ApprovalOutcome → Option String → Op
  confirm_approval : String → ApprovalEvidence → Op
  observe_external_payout : String → String → Op
  confirm_payout : String → PayoutEvidence → Op
  prepare_relay : String → String → Op
  accept_relay : String → String → String → Op
  attach_hash : String → Option String → String → Op
  fail_operation : String → OperationType → String → Op
  cancel_intent : String → String → Op
  find_approval : Terms → ℕ → Op
  verify_approval : Terms → String → Op
  find_payout : Terms → ℕ → Op
  verify_payout : Terms → String → Op
  submit_payout : String → String → String → Op
  wait_transaction : Option String → Op
  random_uuid : Op

abbrev pub Answer : Op → Type 0
Answer (find_context _) = Option ContextRow
Answer (is_program_owner _ _) = Bool
Answer (find_confirmed_escrow _) = Option EscrowRow
Answer (create_intent _) = IntentRow
Answer (find_intent_by_report _) = Option IntentRow
Answer (find_intent_by_id _) = Option IntentRow
Answer (find_approval _ _) = Option ApprovalEvidence
Answer (verify_approval _ _) = ApprovalEvidence
Answer (find_payout _ _) = Option PayoutEvidence
Answer (verify_payout _ _) = PayoutEvidence
Answer (submit_payout _ _ _) = String
Answer (wait_transaction _) = TransactionResult
Answer random_uuid = String
Answer _ = Unit {0}
