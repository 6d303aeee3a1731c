-- ===== src/Deployment.antt =====
-- Deployment of a program's escrow and the fee for it, in `EscrowService`
-- (apps/api/src/escrow/escrow.service.ts): rows, answers and calls. Times are milliseconds; a
-- deadline is the text of its row.
pub mod Service
use bug_bounty_escrow.Prelude.{ℕ, String, Bool, Option, List}

pub data DeploymentStatus : Type 0 where
  pending confirmed failed : DeploymentStatus

-- `EscrowDeploymentRow`, less the columns that the service does not read.
pub record DeploymentRow : Type 0 where
  pub id : String
  pub circle_contract_id : Option String
  pub circle_transaction_id : Option String
  pub deploy_idempotency_key : String
  pub status : DeploymentStatus
  pub attempt : ℕ

pub data QuoteStatus : Type 0 where
  quoted paid expired waived : QuoteStatus

-- `DeploymentFeeQuoteRow`, less the columns that the service does not read.
pub record QuoteRow : Type 0 where
  pub id : String
  pub program_id : String
  pub chain_id : ℕ
  pub token_address : String
  pub recipient_address : String
  pub amount_base_units : ℕ
  pub status : QuoteStatus
  pub payer_address : Option String

-- `EscrowWalletChallengeRow`, less the columns that the service does not read.
pub record ChallengeRow : Type 0 where
  pub id : String
  pub program_id : String
  pub actor_id : String
  pub owner_wallet : String
  pub withdraw_recipient : String
  pub nonce : String
  pub issued_at : ℕ
  pub expires_at : ℕ

-- `EscrowArtifact`, less its bytecode, which is passed on with it.
pub record Artifact : Type 0 where
  pub artifact_sha256 : String
  pub runtime_sha256 : String
  pub version : String

-- The input of `deploymentRequestHash`.
pub record RequestTerms : Type 0 where
  pub program_key : String
  pub platform_admin_wallet : String
  pub owner_wallet : String
  pub token_address : String
  pub refund_unlock_at : String
  pub artifact_checksum : String
  pub runtime_checksum : String
  pub contract_version : String

-- What `createServerDeploymentRecord` of the repository is given.
pub record NewRecord : Type 0 where
  pub actor_id : String
  pub program_id : String
  pub terms : RequestTerms
  pub idempotency_key : String
  pub request_hash : String
  pub fee_quote_id : String

-- `CircleDeployInput`
pub record DeployInput : Type 0 where
  pub idempotency_key : String
  pub program_id : String
  pub program_key : String
  pub platform_admin_wallet : String
  pub owner_wallet : String
  pub token_address : String
  pub refund_unlock_at : ℕ
  pub withdraw_recipient : String
  pub artifact : Artifact

-- The `confirmed` case of `CircleDeploymentResult`.
pub record Deployed : Type 0 where
  pub contract_address : String
  pub transaction_hash : String
  pub block_hash : String
  pub block_number : ℕ
  pub wallet_address : String

-- `CircleDeploymentResult`
pub data DeploymentResult : Type 0 where
  pending : DeploymentResult
  failed : String → DeploymentResult
  confirmed : Deployed → DeploymentResult

-- What `verifyDeployment` is asked.
pub record DeploymentQuery : Type 0 where
  pub artifact : Artifact
  pub deployed : Deployed
  pub program_key : String
  pub platform_admin_wallet : String
  pub owner_wallet : String
  pub refund_unlock_at : ℕ
  pub withdraw_recipient : String

-- What `verifyDeploymentFeePayment` is asked, and its answer.
pub record FeeQuery : Type 0 where
  pub transaction_hash : String
  pub payer_address : String
  pub recipient_address : String
  pub token_address : String
  pub amount_base_units : ℕ
  pub chain_id : ℕ

pub record FeeEvidence : Type 0 where
  pub block_number : ℕ
  pub block_hash : String
  pub log_index : ℕ

-- What `markDeploymentFeePaid` of the repository is given.
pub record FeePayment : Type 0 where
  pub quote_id : String
  pub program_id : String
  pub payer_address : String
  pub transaction_hash : String
  pub evidence : FeeEvidence

-- What `createDeploymentFeeQuote` of the repository is given.
pub record NewQuote : Type 0 where
  pub id : String
  pub actor_id : String
  pub program_id : String
  pub chain_id : Option ℕ
  pub token_address : Option String
  pub recipient_address : String
  pub amount_base_units : ℕ
  pub expires_at : ℕ

-- What `createWalletChallenge` of the repository is given.
pub record NewChallenge : Type 0 where
  pub id : String
  pub actor_id : String
  pub program_id : String
  pub owner_wallet : String
  pub withdraw_recipient : String
  pub nonce : String
  pub issued_at : ℕ
  pub expires_at : ℕ

pub data Op : Type 0 where
  is_program_owner : String → String → Op
  now : Op
  random_uuid : Op
  random_nonce : Op
  create_challenge : NewChallenge → Op
  create_quote : NewQuote → Op
  find_quote_by_id : String → Op
  find_active_quote : String → Op
  verify_fee_payment : FeeQuery → Op
  mark_fee_paid : FeePayment → Op
  get_deadline : String → Op
  load_artifact : Op
  deployment_wallet : Op
  find_deployment : String → Op
  create_record : NewRecord → Op
  circle_deploy : DeployInput → Op
  store_identifiers : String → String → String → Op
  rotate_key : String → String → String → Op
  wait_deployment : Option String → Option String → Op
  fail_deployment : String → String → Op
  verify_deployment : DeploymentQuery → Op
  register_escrow : String → String → String → String → Op
  wait_transaction : String → Op
  confirm_deployment : String → Deployed → Op

-- An accepted deployment is its contract and its transaction; a transaction has failed or not.
abbrev pub Answer : Op → Type 0
Answer (is_program_owner _ _) = Bool
Answer now = ℕ
Answer random_uuid = String
Answer random_nonce = String
Answer (create_challenge _) = ChallengeRow
Answer (create_quote _) = QuoteRow
Answer (find_quote_by_id _) = Option QuoteRow
Answer (find_active_quote _) = Option QuoteRow
Answer (verify_fee_payment _) = FeeEvidence
Answer (mark_fee_paid _) = QuoteRow
Answer (get_deadline _) = Option String
Answer load_artifact = Artifact
Answer deployment_wallet = String
Answer (find_deployment _) = Option DeploymentRow
Answer (create_record _) = DeploymentRow
Answer (circle_deploy _) = String × String
Answer (store_identifiers _ _ _) = DeploymentRow
Answer (rotate_key _ _ _) = DeploymentRow
Answer (wait_deployment _ _) = DeploymentResult
Answer (fail_deployment _ _) = DeploymentRow
Answer (verify_deployment _) = Unit {0}
Answer (register_escrow _ _ _ _) = String
Answer (wait_transaction _) = Bool
Answer (confirm_deployment _ _) = DeploymentRow
