-- ===== src/Settlement/Service.antt =====
-- The methods of `RewardSettlementService`. What the service returns is the row; its projection
-- `toRewardSettlementIntent` to the response is not modelled, and neither is the Keccak hash of
-- `canonicalReportKey`, which is a parameter.
pub mod Methods
use bug_bounty_escrow.Prelude.{
  ℕ, String, Bool, true, false, not, ◌&&◌, ◌||◌, Option, none, some, List, [], ◌∷◌, ltb, head?,
  filter, if◌then◌else◌, str_eq,
}
use bug_bounty_escrow.Effect.{
  Failure, forbidden, not_found, conflict, provider, other, Outcome, returned, raised, Environment,
  Action, pure, throw, ◌>>=◌, ◌>>◌, catch, throw_if, do_if, require, perform,
}
use bug_bounty_escrow.Access.{Principal, is_owner}
use bug_bounty_escrow.Settlement.{
  OperationType, approval, payout, OperationStatus, OperationRow, IntentStatus, awaiting_approval,
  approval_submitted, ready_for_payout, payout_submitted, IntentRow, ContextRow, EscrowRow, Terms,
  ApprovalEvidence, PayoutEvidence, TransactionState, TransactionResult, ApprovalOutcome,
  CreateInput, NewIntent, Op, Answer, find_context, is_program_owner, find_confirmed_escrow,
  create_intent, find_intent_by_report, find_intent_by_id, observe_approval, confirm_approval,
  observe_external_payout, confirm_payout, prepare_relay, accept_relay, attach_hash, fail_operation,
  cancel_intent, find_approval, verify_approval, find_payout, verify_payout, submit_payout,
  wait_transaction, random_uuid,
}

abbrev same_type : OperationType → OperationType → Bool
same_type approval approval = true
same_type payout payout = true
same_type _ _ = false

-- The stable sort by falling `attempt_no`, one insertion; the first of equals stays first.
insert_attempt : OperationRow → List OperationRow → List OperationRow
insert_attempt x [] = x ∷ []
insert_attempt x (y ∷ ys) =
    let rest = insert_attempt x ys in if ltb x.attempt_no y.attempt_no then y ∷ rest else x ∷ y ∷ ys

sort_attempts : List OperationRow → List OperationRow
unfolding insert_attempt
sort_attempts [] = []
sort_attempts (x ∷ xs) = insert_attempt x (sort_attempts xs)

-- `latestOperation`.
pub latest_operation : IntentRow → OperationType → Option OperationRow
unfolding sort_attempts
latest_operation row t =
    head?
      (sort_attempts (filter (λ o. same_type o.operation_type t) row.reward_settlement_operations))

-- How a part of `reconcile` ends: by a `return`, or by going on with the row read anew.
pub data Flow : Type 0 where
  finish : IntentRow → Flow
  go_on : IntentRow → Flow

abbrev continue_with : (IntentRow → Action Answer IntentRow) → Flow → Action Answer IntentRow
continue_with next (finish row) = pure row
continue_with next (go_on row) = next row

-- What the awaited call inside `try` gave; the handler then goes by cases on it.
abbrev attempt : {A : Type 0} → Action Answer A → Action Answer (Outcome A)
attempt m s = (returned (m s).0, (m s).1)

abbrev pub is_retryable : Failure → Bool
is_retryable (provider _ retryable _) = retryable
is_retryable _ = false

-- `error instanceof EscrowProviderError` turns into a conflict with its code.
abbrev as_conflict : Failure → Failure
as_conflict (provider code _ _) = conflict code
as_conflict e = e

-- `row.escrow_contracts?.contract_address === null`, then `row.escrow_contracts!.contract_address!`.
abbrev escrow_address_of : IntentRow → Action Answer String
escrow_address_of row = elim row.escrow_contracts [
  | none ↦ throw (other "TypeError")
  | some columns ↦ require columns.contract_address (conflict "canonical_program_escrow_required")
]

abbrev terms_of : String → IntentRow → Terms
terms_of address row = record {
  escrow_address = address;
  report_key = row.report_key;
  approved_content_hash = row.approved_content_hash;
  recipient_address = row.recipient_address;
  amount_base_units = row.amount_base_units;
}

abbrev is_uncertain : Option OperationRow → Bool
is_uncertain none = false
is_uncertain (some o) = elim o.status [ OperationStatus.submission_uncertain ↦ true | _ ↦ false ]

abbrev is_accepted : Option OperationRow → Bool
is_accepted none = false
is_accepted (some o) = elim o.status [ OperationStatus.provider_accepted ↦ true | _ ↦ false ]

-- `payout === undefined || payout.status === 'failed'`
abbrev is_absent_or_failed : Option OperationRow → Bool
is_absent_or_failed none = true
is_absent_or_failed (some o) = elim o.status [ OperationStatus.failed ↦ true | _ ↦ false ]

-- The hash of an operation with status `submitted` and a hash that is not null.
abbrev submitted_hash : Option OperationRow → Option String
submitted_hash none = none
submitted_hash (some o) = elim o.status [
  | OperationStatus.submitted ↦ o.transaction_hash
  | _ ↦ none
]

abbrev circle_id : Option OperationRow → Option String
circle_id none = none
circle_id (some o) = o.circle_transaction_id

abbrev block_of : Option OperationRow → Option ℕ
block_of none = none
block_of (some o) = o.block_number

abbrev key_of : Option OperationRow → Option String
key_of none = none
key_of (some o) = o.provider_idempotency_key

abbrev deployment_block_of : IntentRow → Option ℕ
deployment_block_of row = elim row.escrow_contracts [
  | none ↦ none
  | some columns ↦ columns.deployment_block_number
]

abbrev or_default : Option String → String → String
or_default none d = d
or_default (some s) d = s

module _ (env : Environment Answer) where
  -- `(await findRewardSettlementIntentById(id))!`, whose status is then read.
  pub reload : String → Action Answer IntentRow
  reload id = do row ← perform env (find_intent_by_id id); require row (other "TypeError")

  pub require_owner : Principal → String → Action Answer (Unit {0})
  require_owner principal program_id =
      if is_owner principal.role
      then (do
        owned ← perform env (is_program_owner program_id principal.user_id)
        throw_if (not owned) forbidden)
      else throw forbidden

  find_intent : String → Option String → Action Answer (Option IntentRow)
  find_intent report_id none = perform env (find_intent_by_report report_id)
  find_intent report_id (some id) = perform env (find_intent_by_id id)

  pub require_intent : Principal → String → Option String → Action Answer IntentRow
  unfolding require_owner find_intent
  require_intent principal report_id intent_id = do
    found ← perform env (find_context report_id)
    context ← require found not_found
    require_owner principal context.program_id
    answer ← find_intent report_id intent_id
    row ← require answer not_found
    throw_if (not (str_eq row.report_id report_id)) not_found
    pure row

  fail_deterministic : String → OperationType → Failure → Action Answer (Unit {0})
  fail_deterministic id t (provider code false _) = perform env (fail_operation id t code)
  fail_deterministic id t _ = pure tt

  -- The part for `awaiting_approval`: an uncertain submission is looked for on the chain.
  pub recover_approval : Principal → String → IntentRow → Action Answer Flow
  unfolding reload
  recover_approval principal address row =
      if not (is_uncertain (latest_operation row approval)) then pure (finish row) else (do
        block ← require (deployment_block_of row) (conflict "escrow_deployment_block_missing")
        recovered ← perform env (find_approval (terms_of address row) block)
        elim recovered [
          | none ↦ pure (finish row)
          | some evidence ↦ do
            perform env (
                observe_approval principal.user_id row.id ApprovalOutcome.submitted
                  (some evidence.transaction_hash))
            fresh_row ← reload row.id
            pure (go_on fresh_row)
        ])

  -- A payout found on the chain is recorded and confirmed.
  settle_external : IntentRow → PayoutEvidence → Action Answer Flow
  unfolding reload
  settle_external row evidence = do
    perform env (observe_external_payout row.id evidence.transaction_hash)
    perform env (confirm_payout row.id evidence)
    fresh_row ← reload row.id
    pure (finish fresh_row)

  -- What follows the search for an existing payout, in both places.
  on_existing : IntentRow → Outcome (Option PayoutEvidence) → Action Answer Flow
  unfolding settle_external
  on_existing row (raised e) = if is_retryable e then pure (finish row) else throw e
  on_existing row (returned none) = pure (go_on row)
  on_existing row (returned (some evidence)) = settle_external row evidence

  -- The verdict on the approval transaction.
  on_approval_verdict : String → IntentRow → Outcome ApprovalEvidence → Action Answer Flow
  unfolding fail_deterministic on_existing
  on_approval_verdict address row (raised e) =
      if is_retryable e
      then pure (finish row)
      else (do fail_deterministic row.id approval e; throw (as_conflict e))
  on_approval_verdict address row (returned evidence) = do
    perform env (confirm_approval row.id evidence)
    fresh_row ← reload row.id
    external ←
        attempt (perform env (find_payout (terms_of address fresh_row) evidence.block_number))
    on_existing fresh_row external

  -- The part for `approval_submitted`.
  pub confirm_submitted : String → IntentRow → Action Answer Flow
  unfolding on_approval_verdict
  confirm_submitted address row = do
    hash ←
        require (submitted_hash (latest_operation row approval))
          (conflict "reward_approval_hash_unknown")
    verdict ← attempt (perform env (verify_approval (terms_of address row) hash))
    on_approval_verdict address row verdict

  -- The part that looks for an existing payout before one is relayed.
  pub find_existing : String → IntentRow → Action Answer Flow
  unfolding on_existing
  find_existing address row = do
    block ←
        require (block_of (latest_operation row approval))
          (conflict "reward_approval_block_missing")
    existing ← attempt (perform env (find_payout (terms_of address row) block))
    on_existing row existing

  -- A relay is prepared if there is none, or if the latest one failed.
  prepare_payout : IntentRow → Action Answer IntentRow
  unfolding reload
  prepare_payout row =
      if is_absent_or_failed (latest_operation row payout)
      then (do key ← perform env random_uuid; perform env (prepare_relay row.id key); reload row.id)
      else pure row

  -- The part for `ready_for_payout`: the relay is handed to the provider.
  pub relay_payout : String → IntentRow → Action Answer Flow
  unfolding prepare_payout
  relay_payout address row = do
    prepared ← prepare_payout row
    if is_uncertain (latest_operation prepared payout)
        then (do
          key ←
              require (key_of (latest_operation prepared payout))
                (conflict "reward_payout_idempotency_key_missing")
          accepted ← perform env (submit_payout key address prepared.report_key)
          perform env (accept_relay prepared.id key accepted)
          fresh_row ← reload prepared.id
          pure (go_on fresh_row))
        else pure (go_on prepared)
