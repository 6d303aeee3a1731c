-- ===== src/Deployment/Service.antt =====
-- The deployment methods of `EscrowService`. The hashes of `viem` and `node:crypto` and the parser
-- of dates are parameters.
pub mod Fees
pub mod Rounds
pub mod Evidence
mod Tests
use bug_bounty_escrow.Prelude.{
  ℕ, zero, suc, ◌+◌, ◌/◌, String, Bool, true, false, not, ◌&&◌, ◌||◌, Option, none, some, List, ltb,
  leb, ◌==◌, if◌then◌else◌, is_none, eq_ignoring_case,
}
use bug_bounty_escrow.Effect.{
  Failure, not_found, conflict, unavailable, provider, other, Environment, Action, pure, throw,
  ◌>>=◌, ◌>>◌, catch, throw_if, require, perform,
}
use bug_bounty_escrow.Access.{Principal, require_owner}
use bug_bounty_escrow.Deployment.{
  DeploymentStatus, DeploymentRow, QuoteStatus, QuoteRow, Artifact, RequestTerms, NewRecord,
  DeployInput, Deployed, DeploymentResult, DeploymentQuery, Answer, is_program_owner, now,
  random_uuid, find_active_quote, get_deadline, load_artifact, deployment_wallet, find_deployment,
  create_record, circle_deploy, store_identifiers, rotate_key, wait_deployment, fail_deployment,
  verify_deployment, register_escrow, wait_transaction, confirm_deployment,
}

-- `canonicalProgramKey`, `deploymentRequestHash` and `new Date(text).getTime()`.
pub record Primitives : Type 0 where
  pub program_key : String → String
  pub request_hash : RequestTerms → String
  pub date_ms : String → ℕ

abbrev pub arc_usdc : String
arc_usdc = "0x3600000000000000000000000000000000000000"

-- `rethrowProviderError`, with the codes of its exceptions.
abbrev pub mapped : Failure → Failure
mapped (provider code true _) = unavailable code
mapped (provider code false _) = conflict code
mapped e = e

abbrev pub is_settled : DeploymentStatus → Bool
is_settled DeploymentStatus.pending = false
is_settled _ = true

abbrev pub is_paid : QuoteStatus → Bool
is_paid QuoteStatus.paid = true
is_paid QuoteStatus.waived = true
is_paid _ = false

abbrev is_rejection : Failure → Bool
is_rejection (provider _ _ (some status)) = status == 400
is_rejection _ = false

unfoldable pub max_attempts : ℕ
max_attempts = 2

-- The exception leaves the loop of `deploy`.
unfoldable pub ends_loop : Failure → DeploymentRow → Bool
ends_loop e row = not (is_rejection e) || leb max_attempts row.attempt

-- What the method has read before it writes.
pub record Plan : Type 0 where
  pub terms : RequestTerms
  pub deadline_seconds : ℕ
  pub artifact : Artifact
  pub wallet : String
  pub idempotency_key : Option String
  pub quote_id : String

module _ (env : Environment Answer) (h : Primitives) where
  unfoldable pub owns : String → String → Action Answer Bool
  owns program_id user_id = perform env (is_program_owner program_id user_id)

  abbrev existing_key : Option DeploymentRow → Option String
  existing_key none = none
  existing_key (some row) = some row.deploy_idempotency_key

  -- `deployment === null && new Date(programDeadline).getTime() <= Date.now()`
  unfoldable pub check_deadline : Option DeploymentRow → String → Action Answer (Unit {0})
  check_deadline (some row) deadline = pure tt
  check_deadline none deadline = do
    time ← perform env now
    throw_if (leb (h.date_ms deadline) time) (conflict "refund_unlock_must_be_in_the_future")

  -- The paid fee, with the wallet of its payer.
  unfoldable pub paid_quote : String → Action Answer QuoteRow
  paid_quote program_id = do
    found ← perform env (find_active_quote program_id)
    quote ← require found (conflict "deployment_fee_payment_required")
    throw_if (not (is_paid quote.status)) (conflict "deployment_fee_payment_required")
    pure quote

  -- From the fee on, up to the record.
  unfoldable pub plan_for : Option String → String → QuoteRow → Action Answer Plan
  plan_for admin program_id quote = do
    admin_contract ← require admin (unavailable "bounty_escrow_admin_contract_not_configured")
    found ← perform env (get_deadline program_id)
    deadline ← require found (conflict "program_deadline_required_for_escrow")
    artifact ← perform env load_artifact
    wallet ← perform env deployment_wallet
    deployment ← perform env (find_deployment program_id)
    check_deadline deployment deadline
    payer ← require quote.payer_address (conflict "program_owner_wallet_required")
    pure (record {
      terms = record {
        program_key = h.program_key program_id;
        platform_admin_wallet = admin_contract;
        owner_wallet = payer;
        token_address = arc_usdc;
        refund_unlock_at = deadline;
        artifact_checksum = artifact.artifact_sha256;
        runtime_checksum = artifact.runtime_sha256;
        contract_version = artifact.version;
      };
      deadline_seconds = h.date_ms deadline / 1000;
      artifact = artifact;
      wallet = wallet;
      idempotency_key = existing_key deployment;
      quote_id = quote.id;
    })

  unfoldable pub key_or_new : Option String → Action Answer String
  key_or_new none = perform env random_uuid
  key_or_new (some key) = pure key

  unfoldable pub record_plan : Principal → String → Plan → Action Answer DeploymentRow
  record_plan principal program_id plan = do
    key ← key_or_new plan.idempotency_key
    perform env (
        create_record (record {
          actor_id = principal.user_id;
          program_id = program_id;
          terms = plan.terms;
          idempotency_key = key;
          request_hash = h.request_hash plan.terms;
          fee_quote_id = plan.quote_id;
        }))

  -- The inner `try`: the provider accepts the deployment, and its identifiers are stored.
  unfoldable pub submit : String → Plan → DeploymentRow → Action Answer DeploymentRow
  submit program_id plan row = do
    accepted ← perform env (
        circle_deploy (record {
          idempotency_key = row.deploy_idempotency_key;
          program_id = program_id;
          program_key = plan.terms.program_key;
          platform_admin_wallet = plan.terms.platform_admin_wallet;
          owner_wallet = plan.terms.owner_wallet;
          token_address = arc_usdc;
          refund_unlock_at = plan.deadline_seconds;
          withdraw_recipient = plan.terms.owner_wallet;
          artifact = plan.artifact;
        }))
    perform env (store_identifiers row.id accepted.0 accepted.1)

  unfoldable pub rotate : Plan → DeploymentRow → Action Answer DeploymentRow
  rotate plan row = do
    key ← perform env random_uuid
    perform env (rotate_key row.id key (h.request_hash plan.terms))

  -- The inner `catch`; `next` is the loop from the rotated row on.
  unfoldable pub on_rejection :
      Plan
      → (DeploymentRow → Action Answer DeploymentRow)
      → DeploymentRow
      → Failure
      → Action Answer DeploymentRow
  on_rejection plan next row e = if ends_loop e row then throw e else ◌>>=◌ (rotate plan row) next

  -- One round of `while (true)`, with the rounds after it.
  unfoldable pub round :
      String
      → Plan
      → (DeploymentRow → Action Answer DeploymentRow)
      → DeploymentRow
      → Action Answer DeploymentRow
  round program_id plan next row = catch (submit program_id plan row) (on_rejection plan next row)

  -- The loop, on fuel.
  unfoldable pub submit_loop : ℕ → String → Plan → DeploymentRow → Action Answer DeploymentRow
  submit_loop zero program_id plan row = throw (other "out of fuel")
  submit_loop (suc fuel) program_id plan row =
      round program_id plan (submit_loop fuel program_id plan) row

  -- A row without identifiers is submitted, in at most four rounds.
  unfoldable pub submitted : String → Plan → DeploymentRow → Action Answer DeploymentRow
  submitted program_id plan row =
      if is_none row.circle_contract_id || is_none row.circle_transaction_id
      then submit_loop 4 program_id plan row
      else pure row

  -- The `confirmed` case: verification, registration with the admin contract, confirmation.
  unfoldable pub confirm : Plan → DeploymentRow → Deployed → Action Answer DeploymentRow
  confirm plan row deployed = do
    throw_if (not (eq_ignoring_case deployed.wallet_address plan.wallet))
        (provider "circle_deployment_wallet_mismatch" false none)
    perform env (
        verify_deployment (record {
          artifact = plan.artifact;
          deployed = deployed;
          program_key = plan.terms.program_key;
          platform_admin_wallet = plan.terms.platform_admin_wallet;
          owner_wallet = plan.terms.owner_wallet;
          refund_unlock_at = plan.deadline_seconds;
          withdraw_recipient = plan.terms.owner_wallet;
        }))
    registration ← perform env (
        register_escrow row.id plan.terms.platform_admin_wallet plan.terms.program_key
          deployed.contract_address)
    has_failed ← perform env (wait_transaction registration)
    throw_if has_failed (provider "bounty_escrow_admin_registration_failed" false none)
    perform env (confirm_deployment row.id deployed)

  unfoldable pub on_result : Plan → DeploymentRow → DeploymentResult → Action Answer DeploymentRow
  on_result plan row (DeploymentResult.failed code) = perform env (fail_deployment row.id code)
  on_result plan row DeploymentResult.pending = pure row
  on_result plan row (DeploymentResult.confirmed deployed) = confirm plan row deployed

  -- The `try` of `deploy`.
  unfoldable pub run : String → Plan → DeploymentRow → Action Answer DeploymentRow
  run program_id plan row = do
    sent ← submitted program_id plan row
    result ← perform env (wait_deployment sent.circle_contract_id sent.circle_transaction_id)
    on_result plan sent result

  unfoldable pub run_unsettled : String → Plan → DeploymentRow → Action Answer DeploymentRow
  run_unsettled program_id plan row =
      if is_settled row.status
      then pure row
      else catch (run program_id plan row) (λ e. throw (mapped e))

  -- `deploy`, with `BOUNTY_ESCROW_ADMIN_CONTRACT_ADDRESS`.
  unfoldable pub deploy : Option String → Principal → String → Action Answer DeploymentRow
  deploy admin principal program_id = do
    require_owner owns principal program_id
    quote ← paid_quote program_id
    plan ← plan_for admin program_id quote
    row ← record_plan principal program_id plan
    run_unsettled program_id plan row

  -- `getDeployment`
  unfoldable pub get_deployment : Principal → String → Action Answer DeploymentRow
  get_deployment principal program_id = do
    require_owner owns principal program_id
    found ← perform env (find_deployment program_id)
    row ← require found not_found
    throw_if (is_none row.circle_contract_id || is_none row.circle_transaction_id) not_found
    pure row
