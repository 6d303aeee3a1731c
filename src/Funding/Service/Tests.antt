-- ===== src/Funding/Service/Tests.antt =====
-- Runs of the funding against a scripted world, and the theorems at them.
use bug_bounty_escrow.Prelude.{◌+◌, ◌≤◌, true, false, [], ◌∷◌, some, none, ◌≡◌, ◌↔◌, refl, codes}
use bug_bounty_escrow.Effect.{forbidden, returned, raised, fresh, Environment}
use bug_bounty_escrow.Access.{Principal, owner, researcher}
use bug_bounty_escrow.Domain.{ProgramStatus}
use bug_bounty_escrow.Usdc.{format, parse}
use bug_bounty_escrow.Funding.{
  base_sepolia, RouteMode, Phase, FundingStatus, EscrowRow, IntentRow, CreateInput, Answer,
  is_program_owner, get_program_status, find_confirmed_escrow, get_usdc_balance, get_total_funded,
  now, random_uuid, create_intent, find_active_intent, find_intent, gateway_balance, claim,
  find_deposit, verify_deposit, find_operation, recovery_evidence, claim_reconciliation,
  verify_destination, mark_syncing, submit_sync, store_sync, wait_transaction, verify_sync,
  RecoveryEvidence, list_operations, find_latest_confirmation,
}
use bug_bounty_escrow.Funding.Service.{arc_usdc, create}
use bug_bounty_escrow.Funding.Service.Creation.{IsFundable, create-IsFundable}
use bug_bounty_escrow.Funding.Service.Readiness.{
  fee_of, Readiness, describe, describe_all, sum_of, summarise,
}
use bug_bounty_escrow.Funding.Service.Readiness.Covered.{Covered, summarise-Covered}
use bug_bounty_escrow.Funding.Service.Deposits.{create_deposit_for}
use bug_bounty_escrow.Funding.Service.Deposits.Amount.{IsExact, create_deposit-IsExact}
use bug_bounty_escrow.Funding.Service.Reconciliation.{Timeouts, reconcile_incomplete}
use bug_bounty_escrow.Funding.Service.Reconciliation.Evidence.{
  IsEvidenced, reconcile-funding-IsEvidenced,
}
use bug_bounty_escrow.Funding.Service.Reconciliation.Once.{
  IsUnsynced, submissions, reconcile-submits_sync_once,
}
use bug_bounty_escrow.Funding.Service.Serve.{readiness_route, respond}
use bug_bounty_escrow.Funding.Service.Serve.Access.{funding_forbidden}

abbrev escrow : EscrowRow
escrow = record {
  id = "escrow";
  contract_address = "0xe5";
  token_address = some arc_usdc;
  owner_wallet = some "0x0a";
}

abbrev open_row : IntentRow
open_row = record {
  id = "intent";
  escrow_contract_id = "escrow";
  wallet_address = "0x0A";
  route_mode = RouteMode.unified_balance;
  gross_amount = 5000;
  estimated_fee_reserve = 100;
  fee_allocations = record { network = base_sepolia; amount = 100; components = [] } ∷ [];
  quote_quoted_at = some "2026-01-01";
  sources = record { network = base_sepolia; amount = 5000 } ∷ [];
  pre_balance = 0;
  pre_total_funded = 0;
  funding_phase = Phase.collecting_deposits;
  status = FundingStatus.destination_submitted;
  destination_transaction_hash = some "0xd1";
  expires_at = 9000;
  sync_idempotency_key = "sync";
  sync_circle_transaction_id = none;
  funding_operations = [];
}

abbrev world : Environment Answer
world n (is_program_owner _ _) = returned true
world n (get_program_status _) = returned (some ProgramStatus.draft)
world n (find_confirmed_escrow _) = returned (some escrow)
world n (get_usdc_balance _) = returned 0
world n (get_total_funded _) = returned 0
world n now = returned 1000
world n random_uuid = returned "lease"
world n (create_intent _) = returned open_row
world n (find_active_intent _) = returned (some open_row)
world n (find_intent _ _) = returned (some open_row)
world n (gateway_balance _ _) = returned 2000
world n (claim _ _ _ _) = returned true
world n (find_deposit _) = returned none
world n (verify_deposit _) = returned (record {
  transaction_hash = "0xa1";
  gateway_log_index = 1;
  transfer_log_index = 2;
  block_number = 5;
  block_hash = "0xb0";
})
world n (find_operation _ _) = returned none
world n (recovery_evidence _ _) = returned RecoveryEvidence.pending
world n (claim_reconciliation _ _ _) = returned true
world n (verify_destination _) = returned (record {
  transaction_hash = "0xd1";
  log_index = 1;
  net_received = 4950;
  block_number = 6;
  block_hash = "0xb1";
})
world n (mark_syncing _ _) = returned true
world n (submit_sync _ _) = returned "circle"
world n (store_sync _ _ _) = returned true
world n (wait_transaction _) =
    returned (record { has_failed = false; transaction_hash = some "0x51"; failure_code = none })
world n (verify_sync _ _ _) = returned (record {
  transaction_hash = "0x51";
  log_index = some 1;
  total_funded = 4950;
  block_number = 7;
  block_hash = "0xb2";
})
world n (list_operations _ _ _ _) = returned (record { rows = []; total = 0 })
world n (find_latest_confirmation _) = returned none
world n _ = returned tt

abbrev alice : Principal
alice = record { user_id = "alice"; role = owner }

abbrev rick : Principal
rick = record { user_id = "rick"; role = researcher }

abbrev timeouts : Timeouts
timeouts = record { poll = 60000; request = 10000 }

abbrev given : CreateInput
given = record {
  idempotency_key = "key";
  wallet_address = "0x0A";
  gross_amount = codes "0.005";
  estimated_fee_reserve = codes "0.0001";
  fee_allocations = [];
  sources = (base_sepolia, codes "0.005") ∷ [];
  quote_quoted_at = "2026-01-01";
  quote_expires_at = "2026-01-02";
}

create-IsFundable_example : IsFundable (create world alice "program" given (fresh Answer)).1.calls
create-IsFundable_example = create-IsFundable world alice "program" given (fresh Answer) tt

create_deposit-IsExact_example :
    IsExact open_row
      (create_deposit_for world alice "program" "intent" base_sepolia open_row
        (fresh Answer)).1.calls
create_deposit-IsExact_example =
    create_deposit-IsExact world alice "program" "intent" base_sepolia open_row (fresh Answer) tt

reconcile-funding-IsEvidenced_example :
    IsEvidenced open_row
      (reconcile_incomplete world timeouts "program" "intent" open_row (fresh Answer)).1.calls
reconcile-funding-IsEvidenced_example =
    reconcile-funding-IsEvidenced world timeouts "program" "intent" open_row (fresh Answer) tt

abbrev short_of_funds : Readiness
short_of_funds = record {
  intent_id = "intent";
  ready = false;
  required_confirmed_total = codes "0.0051";
  confirmed_selected_total = codes "0.002";
  sources =
      record {
        network = base_sepolia;
        has_fee_headroom = true;
        allocation = codes "0.005";
        fee_reserve = codes "0.0001";
        required_confirmed = codes "0.0051";
        confirmed = codes "0.002";
        deficit = codes "0.0031";
      }
      ∷ [];
}

summarised : (summarise open_row (2000 ∷ []) (fresh Answer)).0 ≡ returned short_of_funds
unfolding summarise sum_of describe_all describe fee_of format parse
summarised = refl

summarise-Covered_example :
    (short_of_funds.ready ≡ true) ↔ Covered open_row.fee_allocations open_row.sources (2000 ∷ [])
summarise-Covered_example =
    summarise-Covered open_row (2000 ∷ []) short_of_funds (fresh Answer) summarised

funding_forbidden_example :
    respond world timeouts rick "program" (readiness_route "intent") (fresh Answer)
    ≡ (raised forbidden, fresh Answer)
funding_forbidden_example =
    funding_forbidden world timeouts rick "program" (readiness_route "intent") (fresh Answer) refl

reconcile-submits_sync_once_example :
    IsUnsynced
      (reconcile_incomplete world timeouts "program" "intent" open_row (fresh Answer)).1.calls
    × (submissions
          (reconcile_incomplete world timeouts "program" "intent" open_row (fresh Answer)).1.calls
        ≤ 0 + 1)
reconcile-submits_sync_once_example =
    reconcile-submits_sync_once world timeouts "program" "intent" open_row (fresh Answer) tt
