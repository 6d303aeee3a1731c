-- ===== src/Funding/Service/Serve.antt =====
-- The routes together, for an owner's request, and the call of the payment provider's webhook.
pub mod Access
use bug_bounty_escrow.Prelude.{
  ℕ, String, Bool, true, false, not, Option, none, some, List, [], ◌∷◌, any, if◌then◌else◌, str_eq,
}
use bug_bounty_escrow.Effect.{
  forbidden, conflict, Environment, Action, pure, ◌>>=◌, ◌>>◌, throw_if, require, perform,
}
use bug_bounty_escrow.Access.{Principal}
use bug_bounty_escrow.Usdc.{parse}
use bug_bounty_escrow.Funding.{
  Network, IntentRow, AllocationInput, CreateInput, ObserveInput, Change, ArtifactRow,
  arm_destination, arm_deposit, Answer, ingest_finalized,
}
use bug_bounty_escrow.Funding.Service.{owned_intent, create, active, win}
use bug_bounty_escrow.Funding.Service.Deposits.{create_deposit_for, reconcile_deposit, attach}
use bug_bounty_escrow.Funding.Service.Reconciliation.{Timeouts, reconcile_funding}
use bug_bounty_escrow.Funding.Service.Routes.{
  get_readiness, make, refresh, prepare_for, reopen_for, claim_for, arm_bridge_for, release_for,
  replace_for, observe_for,
}
use bug_bounty_escrow.Funding.Service.Readiness.{Readiness}
use bug_bounty_escrow.Funding.Service.Routes.Reads.{
  HistoryQuery, History, get_history, get_latest_confirmation,
}
use bug_bounty_escrow.Funding.Service.Routes.Recovery.{check_recovery}

-- The requests that return an intent. `make_request` stands for the four methods that change the
-- intent whatever it is.
pub data Request : Type 0 where
  create_request : CreateInput → Request
  active_request : Request
  get_request : String → Request
  refresh_request : String → List ℕ → List AllocationInput → String → String → Request
  prepare_request : String → Request
  reopen_request : String → Request
  claim_request : String → String → Request
  arm_request : String → String → Request
  arm_bridge_request : String → String → String → Request
  make_request : String → Change → Request
  release_request : String → String → String → Request
  replace_request : String → Request
  recovery_request : String → String → String → Request
  create_deposit_request : String → Network → Request
  arm_deposit_request : String → String → String → Request
  attach_deposit_request : String → String → String → Request
  reconcile_deposit_request : String → String → Request
  observe_request : String → ObserveInput → Request
  reconcile_request : String → Request

-- Every funding route, by what it returns.
pub data Route : Type 0 where
  intent_route : Request → Route
  readiness_route : String → Route
  history_route : String → HistoryQuery → Route
  confirmation_route : Route

abbrev pub Response : Route → Type 0
Response (intent_route _) = IntentRow
Response (readiness_route _) = Readiness
Response (history_route _ _) = History
Response confirmation_route = ArtifactRow

module _ (env : Environment Answer) where
  -- A method that goes on from the intent.
  unfoldable pub from_intent :
      Principal → String → String → (IntentRow → Action Answer IntentRow) → Action Answer IntentRow
  from_intent p pid id method = do intent ← owned_intent env p pid id; method intent

  unfoldable pub serve : Timeouts → Principal → String → Request → Action Answer IntentRow
  serve t p pid (create_request given) = create env p pid given
  serve t p pid active_request = active env p pid
  serve t p pid (get_request id) = owned_intent env p pid id
  serve t p pid (refresh_request id reserve given quoted expires) =
      refresh env p pid id reserve given quoted expires
  serve t p pid (prepare_request id) = from_intent p pid id (prepare_for env p pid id)
  serve t p pid (reopen_request id) = from_intent p pid id (reopen_for env p pid id)
  serve t p pid (claim_request id key) = from_intent p pid id (claim_for env p pid id key)
  serve t p pid (arm_request id token) =
      from_intent p pid id
        (λ _. win env (arm_destination token) "funding_wallet_boundary_already_claimed" p pid id)
  serve t p pid (arm_bridge_request id op token) =
      from_intent p pid id (arm_bridge_for env p pid id op token)
  serve t p pid (make_request id what) = make env p pid id what
  serve t p pid (release_request id op token) =
      from_intent p pid id (release_for env p pid id op token)
  serve t p pid (replace_request id) = from_intent p pid id (replace_for env p pid id)
  serve t p pid (recovery_request id op hash) = check_recovery env t p pid id op hash
  serve t p pid (create_deposit_request id network) =
      from_intent p pid id (create_deposit_for env p pid id network)
  serve t p pid (arm_deposit_request id deposit token) =
      from_intent p pid id (λ _.
        win env (arm_deposit deposit token) "funding_wallet_boundary_already_claimed" p pid id)
  serve t p pid (attach_deposit_request id deposit hash) = attach env p pid id deposit hash
  serve t p pid (reconcile_deposit_request id deposit) = reconcile_deposit env p pid id deposit
  serve t p pid (observe_request id given) = from_intent p pid id (observe_for env p pid id given)
  serve t p pid (reconcile_request id) = reconcile_funding env t p pid id

  unfoldable pub respond : Timeouts → Principal → String → (r : Route) → Action Answer (Response r)
  respond t p pid (intent_route request) = serve t p pid request
  respond t p pid (readiness_route id) = get_readiness env p pid id
  respond t p pid (history_route id query) = get_history env p pid id query
  respond t p pid confirmation_route = get_latest_confirmation env p pid

  -- `ingestGatewayDepositFinalized`; the service does not read the other fields of the event.
  unfoldable pub ingest : List String → String → List ℕ → Action Answer (Unit {0})
  ingest allowed subscription_id amount_text = do
    throw_if (not (any (str_eq subscription_id) allowed)) forbidden
    amount ← require (parse amount_text) (conflict "gateway_deposit_amount_invalid")
    perform env (ingest_finalized subscription_id amount)
