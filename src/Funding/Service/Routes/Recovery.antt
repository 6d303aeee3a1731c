-- ===== src/Funding/Service/Routes/Recovery.antt =====
-- `checkFundingRecovery`: a hash that the intent already knows is looked up on its own network.
use bug_bounty_escrow.Prelude.{
  ℕ, String, Bool, true, false, not, ◌&&◌, ◌||◌, Option, none, some, List, [], ◌∷◌, any, filter,
  if◌then◌else◌, lower, codes_eq,
}
use bug_bounty_escrow.Effect.{
  not_found, conflict, Environment, Action, pure, throw, ◌>>=◌, ◌>>◌, catch, throw_if, require,
  perform,
}
use bug_bounty_escrow.Access.{Principal}
use bug_bounty_escrow.Funding.{
  Network, arc_testnet, Source, OperationType, StepRow, OperationRow, IntentRow, RecoveryEvidence,
  Answer, find_operation, recovery_evidence, record_recovery_poll,
}
use bug_bounty_escrow.Funding.Service.{mapped, is_bridge, require_intent, owned_intent}
use bug_bounty_escrow.Funding.Service.Readiness.{same_network}
use bug_bounty_escrow.Funding.Service.Deposits.{reconcile_deposit}
use bug_bounty_escrow.Funding.Service.Reconciliation.{Timeouts, reconcile_funding}

-- `hash?.toLowerCase() === transactionHash`
abbrev pub is_hash : List ℕ → Option String → Bool
is_hash wanted none = false
is_hash wanted (some hash) = codes_eq (lower hash) wanted

abbrev step_matches : List ℕ → StepRow → Bool
step_matches wanted step = is_hash wanted step.transaction_hash

abbrev pub is_deposit : Option OperationType → Bool
is_deposit (some OperationType.deposit) = true
is_deposit _ = false

abbrev is_plural : List StepRow → Bool
is_plural (_ ∷ _ ∷ _) = true
is_plural _ = false

abbrev first_network : List StepRow → Option Network
first_network [] = none
first_network (step ∷ _) = step.network

abbrev pub has_source : Network → List Source → Bool
has_source n sources = any (λ source. same_network source.network n) sources

-- The network of a hash that neither a deposit nor the destination nor a step names.
unfoldable pub only_source : IntentRow → List Source → Action Answer Network
only_source intent (source ∷ []) =
    if is_bridge intent.route_mode
    then pure source.network
    else throw (conflict "funding_recovery_network_ambiguous")
only_source intent _ = throw (conflict "funding_recovery_network_ambiguous")

abbrev pub is_destination : List ℕ → IntentRow → OperationRow → Bool
is_destination wanted intent operation =
    is_hash wanted operation.transaction_hash || is_hash wanted intent.destination_transaction_hash

-- The network of the destination, of a step, or of the only source.
unfoldable pub step_network :
    List ℕ → IntentRow → OperationRow → Option Network → Action Answer Network
unfolding only_source
step_network wanted intent operation named =
    if is_destination wanted intent operation then pure arc_testnet else elim named [
      | some n ↦
          if has_source n intent.sources
          then pure n
          else throw (conflict "funding_recovery_network_not_locked")
      | none ↦ only_source intent intent.sources
    ]

-- The network on which the hash is looked up.
unfoldable pub recovery_network : List ℕ → IntentRow → OperationRow → Action Answer Network
unfolding step_network
recovery_network wanted intent operation = do
  let matched = filter (step_matches wanted) operation.steps
  throw_if (is_plural matched) (conflict "funding_recovery_hash_identity_ambiguous")
  if is_deposit operation.operation_type
      then require operation.source_chain (conflict "funding_recovery_network_ambiguous")
      else step_network wanted intent operation (first_network matched)

abbrev is_success : RecoveryEvidence → Bool
is_success (RecoveryEvidence.success _ _) = true
is_success _ = false

module _ (env : Environment Answer) where
  -- The awaited part of the `try`.
  unfoldable pub poll : String → String → List ℕ → Network → Action Answer RecoveryEvidence
  poll intent_id operation_id wanted network = do
    evidence ← perform env (recovery_evidence network wanted)
    perform env (record_recovery_poll intent_id operation_id wanted evidence)
    pure evidence

  -- The rest of it. The two reconciliations are returned and not awaited: their exceptions do not
  -- reach the handler.
  unfoldable pub follow_up :
      Timeouts
      → Principal
      → String
      → String
      → String
      → List ℕ
      → IntentRow
      → OperationRow
      → RecoveryEvidence
      → Action Answer IntentRow
  unfolding require_intent
  follow_up timeouts principal program_id intent_id operation_id wanted intent operation evidence =
      if is_success evidence && is_deposit operation.operation_type
      then reconcile_deposit env principal program_id intent_id operation_id
      else (if is_success evidence && is_destination wanted intent operation
          then reconcile_funding env timeouts principal program_id intent_id
          else catch (require_intent env program_id intent_id) (λ e. throw (mapped e)))

  -- `checkFundingRecovery`.
  unfoldable pub check_recovery :
      Timeouts → Principal → String → String → String → String → Action Answer IntentRow
  check_recovery timeouts principal program_id intent_id operation_id hash = do
    intent ← owned_intent env principal program_id intent_id
    found ← perform env (find_operation intent_id operation_id)
    operation ← require found not_found
    let wanted = lower hash
    throw_if
        (not
          (is_hash wanted operation.transaction_hash || any (step_matches wanted) operation.steps))
        (conflict "funding_recovery_hash_not_locked")
    network ← recovery_network wanted intent operation
    evidence ← catch (poll intent_id operation_id wanted network) (λ e. throw (mapped e))
    follow_up timeouts principal program_id intent_id operation_id wanted intent operation evidence
