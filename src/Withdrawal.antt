-- ===== src/Withdrawal.antt =====
-- Withdrawal of what is left in an escrow, in `EscrowService`
-- (apps/api/src/escrow/escrow.service.ts): the rows, the answers of the chain, and the calls. Times are
-- milliseconds and chain times are seconds, both already parsed.
pub mod Service
use bug_bounty_escrow.Prelude.{ℕ, String, Bool, Option, List}
use bug_bounty_escrow.Domain.{ProgramStatus}

-- `ConfirmedEscrowRow`, less the columns that the withdrawal does not read.
pub record EscrowRow : Type 0 where
  pub id : String
  pub contract_address : String
  pub owner_wallet : Option String
  pub withdraw_recipient : Option String
  pub refund_unlock_at : Option String
  pub deployment_block_number : Option ℕ
  pub late_funding_scanned_through_block : Option ℕ

pub data IntentStatus : Type 0 where
  ready_to_close ready_to_withdraw close_submission_uncertain : IntentStatus
  withdraw_submission_uncertain close_submitted withdraw_submitted verifying : IntentStatus
  complete failed : IntentStatus

-- `WithdrawalIntentRow`, less the columns that the service does not read.
pub record IntentRow : Type 0 where
  pub id : String
  pub escrow_contract_id : String
  pub recipient_address : String
  pub amount_base_units : ℕ
  pub pre_total_withdrawn_base_units : ℕ
  pub close_required : Bool
  pub status : IntentStatus
  pub close_transaction_hash : Option String
  pub withdraw_transaction_hash : Option String

-- `EscrowWithdrawalState`.
pub record EscrowState : Type 0 where
  pub closed : Bool
  pub refund_unlock_at : ℕ
  pub total_approved_outstanding : ℕ
  pub total_withdrawn : ℕ
  pub balance : ℕ
  pub withdraw_recipient : String

-- `VerifiedLateFundingEvent`.
pub record LateFunding : Type 0 where
  pub transaction_hash : String
  pub log_index : ℕ
  pub amount : ℕ

-- The answer of `findLateFunding`.
pub record LateFundingScan : Type 0 where
  pub events : List LateFunding
  pub scanned_through_block : ℕ

-- `VerifiedClose` and `VerifiedWithdrawal`.
pub record CloseEvidence : Type 0 where
  pub transaction_hash : String
  pub log_index : ℕ
  pub block_number : ℕ
  pub block_hash : String

pub record WithdrawalEvidence : Type 0 where
  pub transaction_hash : String
  pub event_log_index : ℕ
  pub transfer_log_index : ℕ
  pub amount : ℕ
  pub block_number : ℕ
  pub block_hash : String

-- `CreateWithdrawalIntentRequest`.
pub record CreateInput : Type 0 where
  pub idempotency_key : String
  pub wallet_address : String

-- What `createWithdrawalIntent` and `createWithdrawalReplacement` of the repository are given.
pub record NewIntent : Type 0 where
  pub actor_id : String
  pub program_id : String
  pub replaces : Option String
  pub idempotency_key : String
  pub wallet_address : String
  pub amount : ℕ
  pub pre_total_withdrawn : ℕ
  pub escrow_already_closed : Bool

-- What `reconcileLateFunding` of the repository is given.
pub record LateFundingBatch : Type 0 where
  pub actor_id : String
  pub program_id : String
  pub escrow_id : String
  pub scanned_through_block : ℕ
  pub events : List LateFunding
  pub advance_cursor : Bool

-- What `verifyWithdrawal` is asked.
pub record WithdrawalQuery : Type 0 where
  pub escrow_address : String
  pub recipient_address : String
  pub transaction_hash : String
  pub expected_amount : ℕ
  pub pre_total_withdrawn : ℕ

pub data Op : Type 0 where
  is_program_owner : String → String → Op
  get_program_status : String → Op
  find_confirmed_escrow : String → Op
  find_late_funding : String → ℕ → Op
  reconcile_late_funding : LateFundingBatch → Op
  get_withdrawal_state : String → Op
  now : Op
  create_intent : NewIntent → Op
  find_active_intent : String → Op
  find_intent : String → String → Op
  observe_operation : String → String → Op
  verify_close : String → String → String → Op
  confirm_close : String → CloseEvidence → Op
  verify_withdrawal : WithdrawalQuery → Op
  reconcile_withdrawal : String → WithdrawalEvidence → Op
  fail_intent : String → String → String → Op

abbrev pub Answer : Op → Type 0
Answer (is_program_owner _ _) = Bool
Answer (get_program_status _) = Option ProgramStatus
Answer (find_confirmed_escrow _) = Option EscrowRow
Answer (find_late_funding _ _) = LateFundingScan
Answer (get_withdrawal_state _) = EscrowState
Answer now = ℕ
Answer (create_intent _) = IntentRow
Answer (find_active_intent _) = Option IntentRow
Answer (find_intent _ _) = Option IntentRow
Answer (verify_close _ _ _) = CloseEvidence
Answer (confirm_close _ _) = Bool
Answer (verify_withdrawal _) = WithdrawalEvidence
Answer (reconcile_withdrawal _ _) = Bool
Answer _ = Unit {0}
