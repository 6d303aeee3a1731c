-- ===== src/Deployment/Service/Tests.antt =====
-- A deployment in a scripted world, and the theorems at it.
use bug_bounty_escrow.Prelude.{ℕ, ◌+◌, true, false, none, some, ◌≡◌, arith}
use bug_bounty_escrow.Effect.{returned, raised, provider, fresh, Environment}
use bug_bounty_escrow.Access.{Principal, owner}
use bug_bounty_escrow.Deployment.{
  DeploymentStatus, DeploymentRow, QuoteStatus, QuoteRow, Artifact, Deployed, DeploymentResult,
  Answer, is_program_owner, now, random_uuid, random_nonce, create_challenge, create_quote,
  find_quote_by_id, find_active_quote, verify_fee_payment, mark_fee_paid, get_deadline,
  load_artifact, deployment_wallet, find_deployment, create_record, circle_deploy,
  store_identifiers, rotate_key, wait_deployment, fail_deployment, verify_deployment,
  register_escrow, wait_transaction, confirm_deployment,
}
use bug_bounty_escrow.Deployment.Service.{Primitives, Plan, submit_loop, deploy}
use bug_bounty_escrow.Deployment.Service.Rounds.{Counts, submit_loop-Ends}
use bug_bounty_escrow.Deployment.Service.Evidence.{IsBacked, deploy-IsBacked}

abbrev primitives : Primitives
primitives = record {
  program_key = λ id. id;
  request_hash = λ terms. terms.program_key;
  date_ms = λ text. 5000000;
}

abbrev quote : QuoteRow
quote = record {
  id = "quote";
  program_id = "program";
  chain_id = 5042002;
  token_address = "0x36";
  recipient_address = "0xad";
  amount_base_units = 10;
  status = QuoteStatus.paid;
  payer_address = some "0x0a";
}

abbrev row_of : ℕ → DeploymentRow
row_of n = record {
  id = "deployment";
  circle_contract_id = none;
  circle_transaction_id = none;
  deploy_idempotency_key = "key";
  status = DeploymentStatus.pending;
  attempt = n;
}

abbrev deployed : Deployed
deployed = record {
  contract_address = "0xe5";
  transaction_hash = "0xd1";
  block_hash = "0xb1";
  block_number = 9;
  wallet_address = "0xWA";
}

abbrev artifact : Artifact
artifact = record { artifact_sha256 = "a"; runtime_sha256 = "r"; version = "1" }

-- The provider rejects every first submission; the database numbers the attempts by its calls.
abbrev world : Environment Answer
world n (is_program_owner _ _) = returned true
world n now = returned 1000
world n random_uuid = returned "uuid"
world n random_nonce = returned "nonce"
world n (create_challenge c) = returned (record {
  id = c.id;
  program_id = c.program_id;
  actor_id = c.actor_id;
  owner_wallet = c.owner_wallet;
  withdraw_recipient = c.withdraw_recipient;
  nonce = c.nonce;
  issued_at = c.issued_at;
  expires_at = c.expires_at;
})
world n (create_quote _) = returned quote
world n (find_quote_by_id _) = returned (some quote)
world n (find_active_quote _) = returned (some quote)
world n (verify_fee_payment _) =
    returned (record { block_number = 3; block_hash = "0xb0"; log_index = 0 })
world n (mark_fee_paid _) = returned quote
world n (get_deadline _) = returned (some "2027-01-01")
world n load_artifact = returned artifact
world n deployment_wallet = returned "0xwa"
world n (find_deployment _) = returned none
world n (create_record _) = returned (row_of 1)
world n (circle_deploy i) = raised (provider "circle_rejected" false (some 400))
world n (store_identifiers _ _ _) = returned (row_of 1)
world n (rotate_key _ _ _) = returned (row_of n)
world n (wait_deployment _ _) = returned (DeploymentResult.confirmed deployed)
world n (fail_deployment _ _) = returned (row_of 1)
world n (verify_deployment _) = returned tt
world n (register_escrow _ _ _ _) = returned "registration"
world n (wait_transaction _) = returned false
world n (confirm_deployment _ _) = returned (row_of 1)

-- A world where the provider accepts.
abbrev willing : Environment Answer
willing n (circle_deploy i) = returned ("contract", "transaction")
willing n o = world n o

abbrev alice : Principal
alice = record { user_id = "alice"; role = owner }

abbrev plan : Plan
plan = record {
  terms = record {
    program_key = "program";
    platform_admin_wallet = "0xad";
    owner_wallet = "0x0a";
    token_address = "0x36";
    refund_unlock_at = "2027-01-01";
    artifact_checksum = "a";
    runtime_checksum = "r";
    contract_version = "1";
  };
  deadline_seconds = 5000;
  artifact = artifact;
  wallet = "0xwa";
  idempotency_key = none;
  quote_id = "quote";
}

world-Counts : Counts world
world-Counts n m i k z i' k' z' r r' lt e e' = ground arith

submit_loop-Ends_example :
    submit_loop world primitives (4 + 3) "program" plan (row_of 1) (fresh Answer)
    ≡ submit_loop world primitives 4 "program" plan (row_of 1) (fresh Answer)
submit_loop-Ends_example =
    submit_loop-Ends world primitives "program" plan (row_of 1) 3 (fresh Answer) world-Counts

deploy-IsBacked_example :
    IsBacked (deploy willing primitives (some "0xad") alice "program" (fresh Answer)).1.calls
deploy-IsBacked_example =
    deploy-IsBacked willing primitives (some "0xad") alice "program" (fresh Answer) tt
