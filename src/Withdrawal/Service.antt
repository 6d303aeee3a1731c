-- ===== src/Withdrawal/Service.antt =====
-- The withdrawal methods of `EscrowService`. What a method returns is the row; its projection
-- `toWithdrawalIntent` to the response is not modelled. The body of `ObserveWithdrawalRequest` is
-- passed on whole, as a text.
pub mod Methods
pub mod Batches
mod Tests
use bug_bounty_escrow.Prelude.{
  ℕ, zero, suc, ◌-◌, ◌/◌, String, Bool, true, false, not, ◌&&◌, ◌||◌, Option, none, some, List, [],
  ◌∷◌, length, take, drop, ltb, leb, ◌==◌, if◌then◌else◌, str_eq, eq_ignoring_case, is_none,
}
use bug_bounty_escrow.Effect.{
  Failure, not_found, conflict, unavailable, provider, Outcome, Session, Environment, Action, pure,
  throw, ◌>>=◌, ◌>>◌, catch, throw_if, do_if, require, perform,
}
use bug_bounty_escrow.Domain.{ProgramStatus}
use bug_bounty_escrow.Access.{Principal, require_owner}
use bug_bounty_escrow.Withdrawal.{
  EscrowRow, IntentStatus, IntentRow, EscrowState, LateFunding, LateFundingScan, CreateInput,
  NewIntent, LateFundingBatch, Op, Answer, is_program_owner, get_program_status,
  find_confirmed_escrow, find_late_funding, reconcile_late_funding, get_withdrawal_state, now,
  create_intent, find_active_intent, find_intent, observe_operation, verify_close, confirm_close,
  verify_withdrawal, reconcile_withdrawal, fail_intent, WithdrawalQuery,
}

-- `rethrowProviderError` without a message of its own.
abbrev pub mapped : Failure → Failure
mapped (provider code true _) = unavailable code
mapped (provider code false _) = conflict code
mapped e = e

abbrev pub has_ended : Option ProgramStatus → Bool
has_ended (some ProgramStatus.expired) = true
has_ended (some ProgramStatus.closed) = true
has_ended _ = false

unfoldable pub late_funding_batch_size : ℕ
late_funding_batch_size = 500

abbrev or_zero : Option ℕ → ℕ
or_zero none = 0
or_zero (some n) = n

abbrev first_block : Option ℕ → Option ℕ → ℕ
first_block none deployed = or_zero deployed
first_block (some n) deployed = n

-- Where the scan for late funding starts: one block before the cursor.
pub scan_from : EscrowRow → ℕ
scan_from escrow =
    let deployment_block = or_zero escrow.deployment_block_number in
    let cursor =
      first_block escrow.late_funding_scanned_through_block escrow.deployment_block_number in
    if ltb deployment_block cursor then cursor - 1 else deployment_block

-- `events.slice(offset, offset + 500)` for every offset; each round takes at least one event, so
-- there are at most as many rounds as events.
pub batches : ℕ → List LateFunding → List (List LateFunding)
batches zero events = []
batches (suc rounds) [] = []
batches (suc rounds) (e ∷ events) =
    take late_funding_batch_size (e ∷ events)
    ∷ batches rounds (drop late_funding_batch_size (e ∷ events))

-- The columns of a confirmed escrow that a withdrawal wants.
pub record Columns : Type 0 where
  pub owner_wallet : String
  pub withdraw_recipient : String

-- What the repository is given for a new intent.
new_intent : Principal → String → Option String → CreateInput → EscrowState → NewIntent
new_intent principal program_id replaces given state = record {
  actor_id = principal.user_id;
  program_id = program_id;
  replaces = replaces;
  idempotency_key = given.idempotency_key;
  wallet_address = given.wallet_address;
  amount = state.balance;
  pre_total_withdrawn = state.total_withdrawn;
  escrow_already_closed = state.closed;
}

module _ (env : Environment Answer) where
  owns : String → String → Action Answer Bool
  owns program_id user_id = perform env (is_program_owner program_id user_id)

  columns_of : EscrowRow → Action Answer Columns
  columns_of escrow = do
    wallet ← require escrow.owner_wallet (conflict "verified_arc_escrow_required")
    recipient ← require escrow.withdraw_recipient (conflict "verified_arc_escrow_required")
    require escrow.refund_unlock_at (conflict "verified_arc_escrow_required")
    pure (record { owner_wallet = wallet; withdraw_recipient = recipient })

  record_batch :
      Principal
      → String
      → EscrowRow
      → LateFundingScan
      → List LateFunding
      → Bool
      → Action Answer (Unit {0})
  record_batch principal program_id escrow scan events advance = perform env (
      reconcile_late_funding (record {
        actor_id = principal.user_id;
        program_id = program_id;
        escrow_id = escrow.id;
        scanned_through_block = scan.scanned_through_block;
        events = events;
        advance_cursor = advance;
      }))

  -- The `for` loop over the batches.
  record_batches :
      Principal
      → String
      → EscrowRow
      → LateFundingScan
      → List (List LateFunding)
      → Action Answer (Unit {0})
  record_batches principal program_id escrow scan [] = pure tt
  record_batches principal program_id escrow scan (b ∷ bs) =
      ◌>>=◌ (record_batch principal program_id escrow scan b false)
        (λ _. record_batches principal program_id escrow scan bs)

  -- The body of the `try` of `prepareWithdrawalCreation`.
  pub read_state : Principal → String → EscrowRow → Action Answer EscrowState
  unfolding record_batch record_batches scan_from batches
  read_state principal program_id escrow = do
    scan ← perform env (find_late_funding escrow.contract_address (scan_from escrow))
    record_batches principal program_id escrow scan (batches (length scan.events) scan.events)
    record_batch principal program_id escrow scan [] true
    perform env (get_withdrawal_state escrow.contract_address)

  -- `prepareWithdrawalCreation`, up to the `try`.
  ended_escrow : Principal → String → CreateInput → Action Answer (EscrowRow × Columns)
  unfolding owns columns_of require_owner
  ended_escrow principal program_id given = do
    require_owner owns principal program_id
    status ← perform env (get_program_status program_id)
    throw_if (not (has_ended status)) (conflict "withdrawal_program_not_ended")
    found ← perform env (find_confirmed_escrow program_id)
    escrow ← require found (conflict "verified_arc_escrow_required")
    columns ← columns_of escrow
    throw_if (not (eq_ignoring_case columns.owner_wallet given.wallet_address))
        (conflict "withdrawal_owner_wallet_mismatch")
    pure (escrow, columns)

  -- The same, after the `try`.
  check_state : Columns → EscrowState → Action Answer EscrowState
  check_state columns state = do
    time ← perform env now
    throw_if (ltb (time / 1000) state.refund_unlock_at)
        (conflict "withdrawal_refund_unlock_not_reached")
    throw_if (not (state.total_approved_outstanding == 0))
        (conflict "withdrawal_outstanding_rewards_exist")
    throw_if (state.balance == 0) (conflict "withdrawal_no_remaining_funds")
    throw_if (not (eq_ignoring_case state.withdraw_recipient columns.withdraw_recipient))
        (conflict "withdrawal_recipient_mismatch")
    pure state

  -- `prepareWithdrawalCreation`.
  prepare_creation : Principal → String → CreateInput → Action Answer EscrowState
  prepare_creation principal program_id given = do
    checked ← ended_escrow principal program_id given
    state ← catch (read_state principal program_id checked.0) (λ e. throw (mapped e))
    check_state checked.1 state

  create_from : Principal → String → Option String → CreateInput → Action Answer IntentRow
  unfolding new_intent
  create_from principal program_id replaces given = do
    state ← prepare_creation principal program_id given
    perform env (create_intent (new_intent principal program_id replaces given state))

  -- `createWithdrawalIntent`.
  pub create : Principal → String → CreateInput → Action Answer IntentRow
  unfolding create_from
  create principal program_id given = create_from principal program_id none given
