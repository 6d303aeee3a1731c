-- ===== src/Funding/Service/Deposits.antt =====
-- The source deposits of a unified balance.
pub mod Amount
use bug_bounty_escrow.Prelude.{
  ℕ, ◌+◌, ◌-◌, String, Bool, true, false, not, ◌&&◌, ◌||◌, Option, none, some, List, [], ◌∷◌, ltb,
  ◌==◌, find, if◌then◌else◌, str_eq,
}
use bug_bounty_escrow.Effect.{
  Failure, not_found, conflict, provider, Environment, Action, pure, throw, ◌>>=◌, ◌>>◌, catch,
  throw_if, require, perform,
}
use bug_bounty_escrow.Access.{Principal}
use bug_bounty_escrow.Funding.{
  Network, Phase, Source, FeeAllocation, OperationRow, IntentRow, NewDeposit, DepositQuery,
  DepositEvidence, attach_deposit, change_intent, Answer, gateway_balance, ensure_registered,
  create_deposit, find_deposit, verify_deposit, record_deposit, confirm_deposit, fail_deposit,
}
use bug_bounty_escrow.Funding.Service.{
  mapped, is_unified, is_ready_phase, require_intent, owned_intent,
}
use bug_bounty_escrow.Funding.Service.Readiness.{same_network, deficit_of}

abbrev pub source_for : Network → List Source → Option Source
source_for n sources = find (λ s. same_network s.network n) sources

-- `fee_allocations.find(...)?.amountBaseUnits ?? '0'`: the first entry of the network.
abbrev fee_amount : Option FeeAllocation → ℕ
fee_amount none = 0
fee_amount (some a) = a.amount

abbrev pub first_fee : Network → List FeeAllocation → ℕ
first_fee n allocations = fee_amount (find (λ a. same_network a.network n) allocations)

-- The columns of a deposit that has a transaction.
unfoldable pub deposit_query : OperationRow → Option DepositQuery
deposit_query row = elim row.transaction_hash [
  | none ↦ none
  | some hash ↦ elim row.source_chain [
    | none ↦ none
    | some chain ↦ elim row.source_address [
      | none ↦ none
      | some address ↦ elim row.requested_amount [
        | none ↦ none
        | some amount ↦ some (record {
          network = chain;
          wallet_address = address;
          amount = amount;
          transaction_hash = hash;
        })
      ]
    ]
  ]
]

abbrev is_of : Option String → String → Bool
is_of none id = false
is_of (some found) id = str_eq found id

module _ (env : Environment Answer) where
  -- The `try` of `createSourceDeposit`.
  unfoldable pub place_deposit :
      Principal → String → String → Network → IntentRow → Source → Action Answer IntentRow
  unfolding require_intent
  place_deposit principal program_id intent_id network intent source = do
    perform env (ensure_registered intent.id)
    balance ← perform env (gateway_balance network intent.wallet_address)
    let amount = deficit_of (source.amount + first_fee network intent.fee_allocations) balance
    throw_if (amount == 0) (conflict "source_deposit_not_required")
    perform env (
        create_deposit (record {
          actor_id = principal.user_id;
          program_id = program_id;
          intent_id = intent_id;
          network = network;
          wallet_address = intent.wallet_address;
          amount = amount;
          pre_gateway_balance = balance;
        }))
    require_intent env program_id intent_id

  -- `createSourceDeposit`, from the intent on.
  unfoldable pub create_deposit_for :
      Principal → String → String → Network → IntentRow → Action Answer IntentRow
  create_deposit_for principal program_id intent_id network intent = do
    throw_if (not (is_unified intent.route_mode))
        (conflict "source_deposit_requires_unified_balance")
    throw_if (is_ready_phase intent.funding_phase)
        (conflict "source_deposit_after_destination_handoff")
    source ←
        require (source_for network intent.sources)
          (conflict "source_deposit_network_not_allocated")
    catch (place_deposit principal program_id intent_id network intent source)
        (λ e. throw (mapped e))

  -- The `try` of `reconcileSourceDeposit`.
  unfoldable pub settle_deposit : String → String → String → DepositQuery → Action Answer IntentRow
  unfolding require_intent
  settle_deposit program_id intent_id deposit_id query = do
    evidence ← perform env (verify_deposit query)
    perform env (record_deposit deposit_id evidence)
    perform env (confirm_deposit deposit_id evidence)
    require_intent env program_id intent_id

  fail_reverted : String → String → Failure → Action Answer (Unit {0})
  fail_reverted deposit_id hash (provider code _ _) =
      if str_eq code "source_deposit_reverted"
      then perform env (fail_deposit deposit_id hash)
      else pure tt
  fail_reverted deposit_id hash _ = pure tt

  unfoldable pub on_deposit_failure : String → String → Failure → Action Answer IntentRow
  unfolding fail_reverted
  on_deposit_failure deposit_id hash e = do fail_reverted deposit_id hash e; throw (mapped e)

  -- `reconcileSourceDeposit`, from the deposit on.
  unfoldable pub reconcile_found : String → String → String → OperationRow → Action Answer IntentRow
  unfolding require_intent
  reconcile_found program_id intent_id deposit_id row = do
    throw_if (not (is_of row.funding_intent_id intent_id)) not_found
    if row.is_confirmed then require_intent env program_id intent_id else (do
      query ← require (deposit_query row) (conflict "source_deposit_transaction_not_attached")
      catch (settle_deposit program_id intent_id deposit_id query)
          (on_deposit_failure deposit_id query.transaction_hash))

  -- `reconcileSourceDeposit`.
  unfoldable pub reconcile_deposit : Principal → String → String → String → Action Answer IntentRow
  reconcile_deposit principal program_id intent_id deposit_id = do
    owned_intent env principal program_id intent_id
    found ← perform env (find_deposit deposit_id)
    row ← require found not_found
    reconcile_found program_id intent_id deposit_id row

  -- `attachSourceDeposit`.
  unfoldable pub attach : Principal → String → String → String → String → Action Answer IntentRow
  attach principal program_id intent_id deposit_id hash = do
    owned_intent env principal program_id intent_id
    perform env
        (change_intent (attach_deposit deposit_id hash) principal.user_id program_id intent_id)
    reconcile_deposit principal program_id intent_id deposit_id
