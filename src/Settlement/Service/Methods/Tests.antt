-- ===== src/Settlement/Service/Methods/Tests.antt =====
-- Runs of the settlement service against a scripted world, and the theorems at them.
use bug_bounty_escrow.Prelude.{◌+◌, ◌≤◌, true, [], ◌∷◌, some, none, ◌≡◌, refl}
use bug_bounty_escrow.Effect.{returned, fresh, Environment}
use bug_bounty_escrow.Access.{Principal, owner}
use bug_bounty_escrow.Settlement.{
  approval, payout, OperationStatus, ready_for_payout, IntentRow, Answer, find_context,
  is_program_owner, find_confirmed_escrow, create_intent, find_intent_by_report, find_intent_by_id,
  find_approval, verify_approval, find_payout, verify_payout, submit_payout, wait_transaction,
  random_uuid, ApprovalEvidence, PayoutEvidence, TransactionState,
}
use bug_bounty_escrow.Settlement.Service.{
  require_intent, find_existing, latest_operation, relay_payout,
}
use bug_bounty_escrow.Settlement.Service.Methods.{
  reconcile, serve, reconcile_request, from_recovery, from_verification, from_search, from_relay,
  from_tracking,
}
use bug_bounty_escrow.Settlement.Service.Methods.Payouts.{
  IsGuarded, submissions, reconcile-submits_once,
}
use bug_bounty_escrow.Settlement.Service.Methods.Evidence.{IsEvidenced, reconcile-IsEvidenced}
use bug_bounty_escrow.Settlement.Service.Methods.Authority.{IsAuthorised, serve-IsAuthorised}

-- A row with a confirmed approval and a prepared payout.
abbrev approved_row : IntentRow
approved_row = record {
  id = "intent";
  report_id = "report";
  program_id = "program";
  report_key = "0x01";
  approved_content_hash = "0x02";
  recipient_address = "0x03";
  amount_base_units = 5000000;
  status = ready_for_payout;
  escrow_contracts =
      some (record { contract_address = some "0xe5"; deployment_block_number = some 7 });
  reward_settlement_operations =
      record {
        operation_type = approval;
        attempt_no = 1;
        status = OperationStatus.confirmed;
        provider_idempotency_key = none;
        circle_transaction_id = none;
        transaction_hash = some "0xaa";
        block_number = some 9;
      }
      ∷ record {
        operation_type = payout;
        attempt_no = 1;
        status = OperationStatus.submission_uncertain;
        provider_idempotency_key = some "key";
        circle_transaction_id = none;
        transaction_hash = none;
        block_number = none;
      }
      ∷ [];
}

abbrev approval_seen : ApprovalEvidence
approval_seen = record {
  transaction_hash = "0xaa";
  event_log_index = 1;
  block_number = 9;
  block_hash = "0xb9";
}

abbrev payout_seen : PayoutEvidence
payout_seen = record {
  transaction_hash = "0xbb";
  event_log_index = 2;
  transfer_log_index = 3;
  block_number = 12;
  block_hash = "0xb12";
  accounting = [];
}

abbrev world : Environment Answer
world n (find_context _) =
    returned (some (record { program_id = "program"; content_hash = "0x02" }))
world n (is_program_owner _ _) = returned true
world n (find_confirmed_escrow _) = returned none
world n (create_intent _) = returned approved_row
world n (find_intent_by_report _) = returned (some approved_row)
world n (find_intent_by_id _) = returned (some approved_row)
world n (find_approval _ _) = returned none
world n (verify_approval _ _) = returned approval_seen
world n (find_payout _ _) = returned none
world n (verify_payout _ _) = returned payout_seen
world n (submit_payout _ _ _) = returned "circle"
world n (wait_transaction _) = returned (record {
  state = TransactionState.confirmed;
  transaction_hash = some "0xbb";
  failure_code = none;
})
world n random_uuid = returned "key"
world n _ = returned tt

abbrev alice : Principal
alice = record { user_id = "alice"; role = owner }

runs : Unit {0}
unfolding reconcile require_intent from_recovery from_verification from_search find_existing
    latest_operation from_relay relay_payout from_tracking
runs = tt

-- The payout of this row is handed over once.
reconcile_submits : submissions (reconcile world alice "report" "intent" (fresh Answer)).1.calls ≡ 1
unfolding runs
reconcile_submits = refl

reconcile-submits_once_example :
    IsGuarded (reconcile world alice "report" "intent" (fresh Answer)).1.calls
    × (submissions (reconcile world alice "report" "intent" (fresh Answer)).1.calls ≤ 0 + 1)
reconcile-submits_once_example =
    reconcile-submits_once world alice "report" "intent" (fresh Answer) tt

reconcile-IsEvidenced_example :
    IsEvidenced (reconcile world alice "report" "intent" (fresh Answer)).1.calls
reconcile-IsEvidenced_example =
    reconcile-IsEvidenced world alice "report" "intent" (fresh Answer) tt

serve-IsAuthorised_example :
    IsAuthorised alice
      (serve world (λ k r. k) alice "report" (reconcile_request "intent") (fresh Answer)).1.calls
serve-IsAuthorised_example =
    serve-IsAuthorised world (λ k r. k) alice "report" (reconcile_request "intent") (fresh Answer)
      tt
