-- ===== src/Funding/Service/Routes.antt =====
-- The routes of the funding: each asks for the owner, reads the intent, checks it, makes one change
-- and reads the intent again.
pub mod Recovery
pub mod Reads
use bug_bounty_escrow.Prelude.{
  ℕ, String, Bool, true, false, not, ◌&&◌, ◌||◌, Option, none, some, List, [], ◌∷◌, leb, ltb,
  length, any, if◌then◌else◌, is_none, lower, codes, codes_eq,
}
use bug_bounty_escrow.Effect.{
  conflict, Environment, Action, pure, throw, ◌>>=◌, ◌>>◌, throw_if, require, perform,
}
use bug_bounty_escrow.Access.{Principal}
use bug_bounty_escrow.Usdc.{parse}
use bug_bounty_escrow.Funding.{
  Phase, OperationType, OperationRow, IntentRow, AllocationInput, ObserveInput, Change,
  refresh_quote, prepare_destination, reopen_collection, claim_attempt, release_send,
  create_replacement, observe_operation, arm_bridge_retry, Answer, now,
}
use bug_bounty_escrow.Funding.Service.{
  is_unified, is_bridge, is_send, is_ready_phase, has_operations, read_allocations, owned_intent,
  change, win,
}
use bug_bounty_escrow.Funding.Service.Readiness.{Readiness, evaluate}
use bug_bounty_escrow.Funding.Service.Deposits.{create_deposit_for}

-- `new Set(hashes).size !== hashes.length`
unfoldable pub has_repeats : List (List ℕ) → Bool
has_repeats [] = false
has_repeats (hash ∷ hashes) =
    let rest = has_repeats hashes in if any (codes_eq hash) hashes then true else rest

unfoldable pub lowered : List String → List (List ℕ)
lowered [] = []
lowered (hash ∷ hashes) = lower hash ∷ lowered hashes

abbrev pub is_boundary : OperationRow → Bool
is_boundary row = elim row.operation_type [
  | none ↦ false
  | some OperationType.send ↦ true
  | some OperationType.bridge ↦ true
  | some OperationType.spend ↦ true
  | some OperationType.deposit ↦ false
  | some OperationType.funding_sync ↦ false
]

abbrev pub is_among : Option String → List (List ℕ) → Bool
is_among none hashes = false
is_among (some hash) hashes = any (codes_eq (lower hash)) hashes

-- The test of `observeFunding` on the identities of the hashes.
unfoldable pub is_ambiguous : ObserveInput → Bool
unfolding has_repeats lowered
is_ambiguous given =
    has_repeats (lowered given.source_hashes)
    || (has_repeats (lowered given.step_hashes)
        || is_among given.destination_hash (lowered given.source_hashes))

module _ (env : Environment Answer) (principal : Principal) (program_id intent_id : String) where
  -- `getGatewayFundingReadiness`.
  unfoldable pub get_readiness : Action Answer Readiness
  get_readiness = do
    intent ← owned_intent env principal program_id intent_id
    throw_if (not (is_unified intent.route_mode))
        (conflict "gateway_readiness_requires_unified_balance")
    evaluate env intent

  -- The methods that change the intent whatever it is: `cancelFundingIntent`,
  -- `attachFundingDestination`, `attachFundingRecoveryTelemetry`, `observeSourceDeposit`.
  unfoldable pub make : Change → Action Answer IntentRow
  make what = do
    owned_intent env principal program_id intent_id
    change env what principal program_id intent_id

  -- `refreshFundingQuote`.
  unfoldable pub refresh : List ℕ → List AllocationInput → String → String → Action Answer IntentRow
  unfolding read_allocations
  refresh reserve given quoted_at expires_at = do
    owned_intent env principal program_id intent_id
    fee ← require (parse reserve) (conflict "funding_quote_invalid")
    allocations ← read_allocations given
    change env (refresh_quote fee allocations quoted_at expires_at) principal program_id intent_id

  -- `prepareFundingDestination`, from the intent on.
  unfoldable pub prepare_for : IntentRow → Action Answer IntentRow
  prepare_for intent = do
    throw_if (not (is_unified intent.route_mode))
        (conflict "funding_destination_handoff_requires_unified_balance")
    readiness ← evaluate env intent
    throw_if (not readiness.ready) (conflict "gateway_confirmed_balance_insufficient")
    quoted_at ← require intent.quote_quoted_at (conflict "funding_quote_missing")
    change env (prepare_destination quoted_at intent.fee_allocations) principal program_id intent_id

  -- `reopenFundingSourceCollection`, from the intent on.
  unfoldable pub reopen_for : IntentRow → Action Answer IntentRow
  reopen_for intent = do
    throw_if (not (is_unified intent.route_mode))
        (conflict "funding_source_collection_reopen_requires_unified_balance")
    quoted_at ← require intent.quote_quoted_at (conflict "funding_quote_missing")
    change env (reopen_collection quoted_at intent.fee_allocations) principal program_id intent_id

  -- `claimFundingDestinationAttempt`, from the intent on.
  unfoldable pub claim_for : String → IntentRow → Action Answer IntentRow
  claim_for key intent = do
    throw_if (not (is_ready_phase intent.funding_phase))
        (conflict "funding_destination_not_prepared")
    change env (claim_attempt key) principal program_id intent_id

  -- `armBridgeDeliveryRetry`, from the intent on.
  unfoldable pub arm_bridge_for : String → String → IntentRow → Action Answer IntentRow
  arm_bridge_for operation_id token intent = do
    throw_if (not (is_bridge intent.route_mode)) (conflict "bridge_delivery_retry_requires_bridge")
    win env (arm_bridge_retry operation_id token) "bridge_delivery_retry_already_claimed" principal
        program_id intent_id

  -- `releaseRejectedSendAttempt`, from the intent on.
  unfoldable pub release_for : String → String → IntentRow → Action Answer IntentRow
  release_for operation_id token intent = do
    throw_if (not (is_send intent.route_mode)) (conflict "rejected_send_release_requires_send")
    change env (release_send operation_id token) principal program_id intent_id

  -- `createFundingDestinationReplacement`, from the intent on.
  unfoldable pub replace_for : IntentRow → Action Answer IntentRow
  replace_for intent = do
    throw_if (not (is_send intent.route_mode))
        (conflict "funding_destination_manual_recovery_required")
    change env create_replacement principal program_id intent_id

  -- The second check of `observeFunding`: the first wallet boundary of a unified balance.
  unfoldable pub check_boundary : ObserveInput → IntentRow → Action Answer (Unit {0})
  check_boundary given current =
      if is_unified current.route_mode && not (any is_boundary current.funding_operations)
      then (do
        throw_if (not given.submission_uncertain) (conflict "gateway_readiness_boundary_required")
        readiness ← evaluate env current
        throw_if (not readiness.ready) (conflict "gateway_confirmed_balance_insufficient"))
      else pure tt

  -- `observeFunding`, from the intent on.
  unfoldable pub observe_for : ObserveInput → IntentRow → Action Answer IntentRow
  observe_for given current = do
    throw_if (is_unified current.route_mode && not (is_ready_phase current.funding_phase))
        (conflict "funding_destination_not_prepared")
    check_boundary given current
    time ← perform env now
    throw_if
        (leb current.expires_at time
          && (is_none current.destination_transaction_hash
              && (not (has_operations current.funding_operations)
                  && is_none given.destination_hash)))
        (conflict "funding_intent_expired")
    throw_if (is_ambiguous given) (conflict "funding_operation_hash_identity_ambiguous")
    throw_if (is_unified current.route_mode && has_operations given.source_hashes)
        (conflict "funding_operation_source_network_binding_unavailable")
    change env (observe_operation given) principal program_id intent_id
