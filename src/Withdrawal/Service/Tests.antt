-- ===== src/Withdrawal/Service/Tests.antt =====
-- Runs of the withdrawal service against a scripted world, and the theorems at them.
use bug_bounty_escrow.Prelude.{true, false, [], ◌∷◌, some, none, ◌≡◌, refl}
use bug_bounty_escrow.Effect.{returned, fresh, Environment}
use bug_bounty_escrow.Access.{Principal, owner, researcher}
use bug_bounty_escrow.Domain.{ProgramStatus}
use bug_bounty_escrow.Withdrawal.{
  EscrowRow, IntentStatus, IntentRow, EscrowState, CreateInput, Answer, is_program_owner,
  get_program_status, find_confirmed_escrow, find_late_funding, get_withdrawal_state, now,
  create_intent, find_active_intent, find_intent, verify_close, confirm_close, verify_withdrawal,
  reconcile_withdrawal,
}
use bug_bounty_escrow.Withdrawal.Service.{late_funding_batch_size, read_state}
use bug_bounty_escrow.Withdrawal.Service.Batches.{
  IsOrderly, recorded, scanned, read_state-IsOrderly, read_state-records_all,
}
use bug_bounty_escrow.Withdrawal.Service.Methods.{create_request, reconcile, serve}
use bug_bounty_escrow.Withdrawal.Service.Methods.Creation.{IsAllowed, serve-IsAllowed}
use bug_bounty_escrow.Withdrawal.Service.Methods.Evidence.{
  IsEvidenced, reconcile-withdrawal-IsEvidenced,
}

abbrev escrow : EscrowRow
escrow = record {
  id = "escrow";
  contract_address = "0xe5";
  owner_wallet = some "0x0a";
  withdraw_recipient = some "0x0a";
  refund_unlock_at = some "2026-01-01";
  deployment_block_number = some 7;
  late_funding_scanned_through_block = none;
}

abbrev open_row : IntentRow
open_row = record {
  id = "intent";
  escrow_contract_id = "escrow";
  recipient_address = "0x0a";
  amount_base_units = 700;
  pre_total_withdrawn_base_units = 0;
  close_required = false;
  status = IntentStatus.withdraw_submitted;
  close_transaction_hash = some "0xc1";
  withdraw_transaction_hash = some "0xd1";
}

abbrev ended_state : EscrowState
ended_state = record {
  closed = true;
  refund_unlock_at = 100;
  total_approved_outstanding = 0;
  total_withdrawn = 0;
  balance = 700;
  withdraw_recipient = "0x0a";
}

abbrev world : Environment Answer
world n (is_program_owner _ _) = returned true
world n (get_program_status _) = returned (some ProgramStatus.closed)
world n (find_confirmed_escrow _) = returned (some escrow)
world n (find_late_funding _ _) = returned (record {
  events = record { transaction_hash = "0xf1"; log_index = 4; amount = 25 } ∷ [];
  scanned_through_block = 40;
})
world n (get_withdrawal_state _) = returned ended_state
world n now = returned 200000
world n (create_intent _) = returned open_row
world n (find_active_intent _) = returned (some open_row)
world n (find_intent _ _) = returned (some open_row)
world n (verify_close _ _ _) =
    returned
      (record { transaction_hash = "0xc1"; log_index = 1; block_number = 30; block_hash = "0xb1" })
world n (confirm_close _ _) = returned true
world n (verify_withdrawal _) = returned (record {
  transaction_hash = "0xd1";
  event_log_index = 1;
  transfer_log_index = 2;
  amount = 700;
  block_number = 31;
  block_hash = "0xb2";
})
world n (reconcile_withdrawal _ _) = returned true
world n _ = returned tt

abbrev alice : Principal
alice = record { user_id = "alice"; role = owner }

abbrev rick : Principal
rick = record { user_id = "rick"; role = researcher }

abbrev given : CreateInput
given = record { idempotency_key = "key"; wallet_address = "0x0a" }

serve-IsAllowed_example :
    IsAllowed (serve world alice "program" (create_request given) (fresh Answer)).1.calls
serve-IsAllowed_example =
    serve-IsAllowed world alice "program" (create_request given) (fresh Answer) tt

reconcile-withdrawal-IsEvidenced_example :
    IsEvidenced (reconcile world alice "program" "intent" (fresh Answer)).1.calls
reconcile-withdrawal-IsEvidenced_example =
    reconcile-withdrawal-IsEvidenced world alice "program" "intent" (fresh Answer) tt

read_state-IsOrderly_example :
    IsOrderly (read_state world alice "program" escrow (fresh Answer)).1.calls
read_state-IsOrderly_example = read_state-IsOrderly world alice "program" escrow (fresh Answer) tt

state_read : (read_state world alice "program" escrow (fresh Answer)).0 ≡ returned ended_state
unfolding read_state late_funding_batch_size
state_read = refl

read_state-records_all_example :
    recorded (read_state world alice "program" escrow (fresh Answer)).1.calls
    ≡ scanned (read_state world alice "program" escrow (fresh Answer)).1.calls
read_state-records_all_example =
    read_state-records_all world alice "program" escrow (fresh Answer) ended_state tt state_read
