-- ===== src/Funding.antt =====
-- Funding of an escrow, in `EscrowService` (apps/api/src/escrow/escrow.service.ts): the rows of the
-- database (escrow.repository.ts), the answers of the chain, and the calls. Amounts of rows are base
-- units and amounts of requests are texts; times are milliseconds, already parsed. Bodies that a
-- method only passes on are texts.
pub mod Service
use bug_bounty_escrow.Prelude.{ℕ, String, Bool, Option, List}
use bug_bounty_escrow.Domain.{ProgramStatus}

pub data Network : Type 0 where
  arc_testnet ethereum_sepolia arbitrum_sepolia base_sepolia : Network

pub data RouteMode : Type 0 where
  send bridge unified_balance : RouteMode

pub data Phase : Type 0 where
  collecting_deposits ready_for_destination : Phase

pub data FundingStatus : Type 0 where
  ready_to_sign awaiting_signature source_submitted destination_submitted : FundingStatus
  delivery_pending verifying_destination syncing_pool sync_failed complete failed : FundingStatus
  cancelled : FundingStatus

pub record Source : Type 0 where
  pub network : Network
  pub amount : ℕ

pub record FeeComponent : Type 0 where
  pub network : Network
  pub kind : String
  pub token : String
  pub amount : ℕ

pub record FeeAllocation : Type 0 where
  pub network : Network
  pub amount : ℕ
  pub components : List FeeComponent

pub data OperationType : Type 0 where
  deposit send bridge spend funding_sync : OperationType

pub record StepRow : Type 0 where
  pub network : Option Network
  pub transaction_hash : Option String

-- `SourceDepositOperationRow`, less the columns that the service does not read; a column that is
-- undefined or null is absent.
pub record OperationRow : Type 0 where
  pub funding_intent_id : Option String
  pub operation_type : Option OperationType
  pub is_confirmed : Bool
  pub source_chain : Option Network
  pub source_address : Option String
  pub requested_amount : Option ℕ
  pub transaction_hash : Option String
  pub steps : List StepRow

-- `FundingIntentRow`, less the columns that the service does not read.
pub record IntentRow : Type 0 where
  pub id : String
  pub escrow_contract_id : String
  pub wallet_address : String
  pub route_mode : RouteMode
  pub gross_amount : ℕ
  pub estimated_fee_reserve : ℕ
  pub fee_allocations : List FeeAllocation
  pub quote_quoted_at : Option String
  pub sources : List Source
  pub pre_balance : ℕ
  pub pre_total_funded : ℕ
  pub funding_phase : Phase
  pub status : FundingStatus
  pub destination_transaction_hash : Option String
  pub expires_at : ℕ
  pub sync_idempotency_key : String
  pub sync_circle_transaction_id : Option String
  pub funding_operations : List OperationRow

pub record EscrowRow : Type 0 where
  pub id : String
  pub contract_address : String
  pub token_address : Option String
  pub owner_wallet : Option String

-- `kind` of `fundingOperationHistoryQuerySchema`.
pub data HistoryKind : Type 0 where
  all_kinds source_deposits recoveries : HistoryKind

-- What `listFundingOperationHistory` returns.
pub record HistoryRows : Type 0 where
  pub rows : List OperationRow
  pub total : ℕ

-- `FundingConfirmationArtifactRow`, less the columns that are only passed on.
pub record ArtifactRow : Type 0 where
  pub funding_intent_id : String

-- `VerifiedFundingDestination`, `VerifiedSync`, `VerifiedSourceDeposit`.
pub record Destination : Type 0 where
  pub transaction_hash : String
  pub log_index : ℕ
  pub net_received : ℕ
  pub block_number : ℕ
  pub block_hash : String

pub record SyncEvidence : Type 0 where
  pub transaction_hash : String
  pub log_index : Option ℕ
  pub total_funded : ℕ
  pub block_number : ℕ
  pub block_hash : String

pub record DepositEvidence : Type 0 where
  pub transaction_hash : String
  pub gateway_log_index : ℕ
  pub transfer_log_index : ℕ
  pub block_number : ℕ
  pub block_hash : String

-- `TransactionRecoveryEvidence`; a block is its number and hash.
pub data RecoveryEvidence : Type 0 where
  pending : RecoveryEvidence
  success : ℕ → String → RecoveryEvidence
  reverted : ℕ → String → RecoveryEvidence

pub record TransactionResult : Type 0 where
  pub has_failed : Bool
  pub transaction_hash : Option String
  pub failure_code : Option String

-- `CreateFundingIntentRequest`.
pub record AllocationInput : Type 0 where
  pub network : Network
  pub amount : List ℕ
  pub components : List (Network × String × String × List ℕ)

pub record CreateInput : Type 0 where
  pub idempotency_key : String
  pub wallet_address : String
  pub gross_amount : List ℕ
  pub estimated_fee_reserve : List ℕ
  pub fee_allocations : List AllocationInput
  pub sources : List (Network × List ℕ)
  pub quote_quoted_at : String
  pub quote_expires_at : String

-- `ObserveFundingOperationRequest`: the hashes that it names, whether the submission is uncertain,
-- and the rest.
pub record ObserveInput : Type 0 where
  pub submission_uncertain : Bool
  pub source_hashes : List String
  pub step_hashes : List String
  pub destination_hash : Option String
  pub rest : String

-- What `createFundingIntent` of the repository is given.
pub record NewIntent : Type 0 where
  pub actor_id : String
  pub program_id : String
  pub idempotency_key : String
  pub wallet_address : String
  pub gross : ℕ
  pub fee_reserve : ℕ
  pub fee_allocations : List FeeAllocation
  pub sources : List Source
  pub pre_balance : ℕ
  pub pre_total_funded : ℕ
  pub expires_at : ℕ
  pub quote_quoted_at : String
  pub quote_expires_at : String

-- What `createSourceDeposit` of the repository is given; the chain, the token and the gateway wallet
-- are those of the network.
pub record NewDeposit : Type 0 where
  pub actor_id : String
  pub program_id : String
  pub intent_id : String
  pub network : Network
  pub wallet_address : String
  pub amount : ℕ
  pub pre_gateway_balance : ℕ

-- What `reconcileFunding` of the repository is given.
pub record Settlement : Type 0 where
  pub intent_id : String
  pub lease_id : String
  pub destination : Destination
  pub sync : SyncEvidence

pub record DestinationQuery : Type 0 where
  pub escrow_address : String
  pub route_mode : RouteMode
  pub wallet_address : String
  pub destination_transaction_hash : String
  pub pre_balance : ℕ

pub record DepositQuery : Type 0 where
  pub network : Network
  pub wallet_address : String
  pub amount : ℕ
  pub transaction_hash : String

-- A change of the intent by a method of the repository, with what that method is given besides the
-- actor, the program and the intent.
pub data Change : Type 0 where
  refresh_quote : ℕ → List FeeAllocation → String → String → Change
  prepare_destination : String → List FeeAllocation → Change
  reopen_collection : String → List FeeAllocation → Change
  claim_attempt : String → Change
  cancel : Change
  release_send : String → String → Change
  attach_destination : String → String → Change
  attach_telemetry : String → Change
  create_replacement : Change
  observe_deposit : String → String → Change
  attach_deposit : String → String → Change
  observe_operation : ObserveInput → Change

-- A claim that only one caller can win.
pub data Claim : Type 0 where
  arm_destination : String → Claim
  arm_bridge_retry : String → String → Claim
  arm_deposit : String → String → Claim

pub data Op : Type 0 where
  is_program_owner : String → String → Op
  get_program_status : String → Op
  find_confirmed_escrow : String → Op
  get_usdc_balance : String → Op
  get_total_funded : String → Op
  now : Op
  random_uuid : Op
  create_intent : NewIntent → Op
  find_active_intent : String → Op
  find_intent : String → String → Op
  gateway_balance : Network → String → Op
  change_intent : Change → String → String → String → Op
  claim : Claim → String → String → String → Op
  ensure_registered : String → Op
  create_deposit : NewDeposit → Op
  find_deposit : String → Op
  verify_deposit : DepositQuery → Op
  record_deposit : String → DepositEvidence → Op
  confirm_deposit : String → DepositEvidence → Op
  fail_deposit : String → String → Op
  find_operation : String → String → Op
  recovery_evidence : Network → List ℕ → Op
  record_recovery_poll : String → String → List ℕ → RecoveryEvidence → Op
  ingest_finalized : String → ℕ → Op
  claim_reconciliation : String → String → ℕ → Op
  verify_destination : DestinationQuery → Op
  mark_syncing : String → String → Op
  submit_sync : String → String → Op
  store_sync : String → String → String → Op
  wait_transaction : String → Op
  mark_sync_failed : String → String → String → String → Op
  verify_sync : String → String → ℕ → Op
  reconcile : Settlement → Op
  fail_destination : String → Option String → Op
  list_operations : String → ℕ → ℕ → HistoryKind → Op
  find_latest_confirmation : String → Op

abbrev pub Answer : Op → Type 0
Answer (is_program_owner _ _) = Bool
Answer (get_program_status _) = Option ProgramStatus
Answer (find_confirmed_escrow _) = Option EscrowRow
Answer (get_usdc_balance _) = ℕ
Answer (get_total_funded _) = ℕ
Answer now = ℕ
Answer random_uuid = String
Answer (create_intent _) = IntentRow
Answer (find_active_intent _) = Option IntentRow
Answer (find_intent _ _) = Option IntentRow
Answer (gateway_balance _ _) = ℕ
Answer (claim _ _ _ _) = Bool
Answer (find_deposit _) = Option OperationRow
Answer (verify_deposit _) = DepositEvidence
Answer (find_operation _ _) = Option OperationRow
Answer (recovery_evidence _ _) = RecoveryEvidence
Answer (claim_reconciliation _ _ _) = Bool
Answer (verify_destination _) = Destination
Answer (mark_syncing _ _) = Bool
Answer (submit_sync _ _) = String
Answer (store_sync _ _ _) = Bool
Answer (wait_transaction _) = TransactionResult
Answer (verify_sync _ _ _) = SyncEvidence
Answer (list_operations _ _ _ _) = HistoryRows
Answer (find_latest_confirmation _) = Option ArtifactRow
Answer _ = Unit {0}
