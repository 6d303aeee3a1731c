-- ===== src/Subscription/Client.antt =====
-- `CircleGatewaySubscriptionClient` (apps/api/src/escrow/circle-gateway-subscription.client.ts): what the
-- `reconcile`, `testConnection` and `sendSignedTestNotification` of Subscription/Service do. Texts that
-- are compared without case are lists of code points. The schema of a response, the header
-- `retry-after` and the endpoint of the application are outside.
pub mod Verification
mod Tests
use bug_bounty_escrow.Prelude.{
  ℕ, zero, suc, ◌+◌, ◌*◌, ◌^◌, min, String, Bool, true, false, not, ◌&&◌, ◌||◌, Option, none, some,
  List, [], ◌∷◌, all, filter, length, map, ltb, leb, ◌==◌, if◌then◌else◌, str_eq, codes, codes_eq,
  lower_code,
}
use bug_bounty_escrow.Effect.{
  provider, Environment, Action, pure, throw, ◌>>=◌, ◌>>◌, catch, throw_if, require, perform,
}
use bug_bounty_escrow.Ai.{Text}
use bug_bounty_escrow.Reports.Hash.{sort}
use bug_bounty_escrow.Subscription.Service.{normalize}

-- `GatewaySubscription`, of the environment TEST by its schema.
pub record Registered : Type 0 where
  pub id : Text
  pub endpoint : String
  pub enabled : Bool
  pub notification_types : List String
  pub addresses : List Text
  pub domains : List ℕ

-- A request to the provider.
pub data Request : Type 0 where
  get_one : Text → Request
  patch : Text → List Text → List ℕ → Request
  test_one : Text → Request
  send_one : Text → Request

-- No response; or a status, the milliseconds of `retry-after`, the subscription of the body, if it is
-- one, and, if the body is JSON, the status of a tested connection, if it has one.
pub data Response : Type 0 where
  failed : Response
  answered : ℕ → Option ℕ → Option Registered → Option (Option ℕ) → Response

pub data Op : Type 0 where
  fetch : Request → Op
  jitter : Op
  sleep : ℕ → Op

abbrev pub Answer : Op → Type 0
Answer (fetch _) = Response
Answer jitter = ℕ
Answer (sleep _) = Unit {0}

-- `CIRCLE_GATEWAY_WEBHOOK_SUBSCRIPTION_IDS`, the endpoint, whether there is an API key, and
-- `CIRCLE_REQUEST_TIMEOUT_MS`.
pub record Setup : Type 0 where
  pub subscription_ids : List Text
  pub endpoint : String
  pub has_api_key : Bool
  pub request_timeout_ms : ℕ

abbrev lower_text : Text → Text
lower_text t = map lower_code t

unfoldable pub unique : List Text → List Text
unique [] = []
unique (t ∷ ts) = t ∷ filter (λ u. not (codes_eq u t)) (unique ts)

-- The addresses as a sorted set in lower case.
unfoldable pub address_set : List Text → List Text
address_set ts = sort (unique (map lower_text ts))

unfoldable pub insert_domain : ℕ → List ℕ → List ℕ
insert_domain d [] = d ∷ []
insert_domain d (e ∷ es) =
    let deeper = insert_domain d es in
    if d == e then e ∷ es else (if ltb d e then d ∷ e ∷ es else e ∷ deeper)

-- The domains as a sorted set.
unfoldable pub domain_set : List ℕ → List ℕ
domain_set [] = []
domain_set (d ∷ ds) = insert_domain d (domain_set ds)

-- `sameValues`
unfoldable pub same_texts : List Text → List Text → Bool
same_texts [] [] = true
same_texts (a ∷ as') (b ∷ bs) = codes_eq a b && same_texts as' bs
same_texts _ _ = false

unfoldable pub same_domains : List ℕ → List ℕ → Bool
same_domains [] [] = true
same_domains (a ∷ as') (b ∷ bs) = a == b && same_domains as' bs
same_domains _ _ = false

abbrev is_hex : ℕ → Bool
is_hex c = (leb b'0' c && leb c b'9') || ((leb b'a' c && leb c b'f') || (leb b'A' c && leb c b'F'))

-- `addressSchema`
unfoldable pub is_address : Text → Bool
is_address (z ∷ x ∷ digits) = z == b'0' && (x == b'x' && (length digits == 40 && all is_hex digits))
is_address _ = false

abbrev is_domain : ℕ → Bool
is_domain d = d == 0 || (d == 3 || (d == 6 || d == 26))

abbrev is_deposit_type : List String → Bool
is_deposit_type (t ∷ []) = str_eq t "gateway.deposit.finalized"
is_deposit_type _ = false

-- Whether the subscription delivers deposits for exactly these addresses and domains.
unfoldable pub is_current : Registered → List Text → List ℕ → Bool
is_current r addresses domains =
    r.enabled
    && (is_deposit_type r.notification_types
        && (same_texts addresses (address_set r.addresses)
            && same_domains domains (domain_set r.domains)))

abbrev first_is : Text → List Text → Bool
first_is t [] = false
first_is t (u ∷ _) = codes_eq u t

abbrev only_is : Text → List Text → Bool
only_is t (u ∷ []) = codes_eq u t
only_is t _ = false

unfoldable pub is_stable : Setup → Registered → Bool
is_stable c r = first_is (normalize r.id) c.subscription_ids && str_eq r.endpoint c.endpoint

-- What was asked of an attempt: its answer, an error, or another attempt.
pub data Verdict : Type 0 where
  accepted : Option Registered → Option (Option ℕ) → Verdict
  rejected : String → Bool → Verdict
  again : Option ℕ → Bool → Verdict

-- One attempt, when `left` more may follow; a pause is bounded after a response only.
unfoldable pub judge : ℕ → ℕ → Response → Verdict
judge left expected failed =
    if ltb 0 left then again none false else rejected "gateway_subscription_request_failed" true
judge left expected (answered status retry_after body tested) =
    if status == expected
    then accepted body tested
    else (if status == 429 || leb 500 status
        then (if ltb 0 left
            then again retry_after true
            else rejected "gateway_subscription_request_failed" true)
        else rejected "gateway_subscription_request_rejected" false)

module _ (env : Environment Answer) (c : Setup) where
  abbrev bounded : Bool → ℕ → ℕ
  bounded true ms = min ms c.request_timeout_ms
  bounded false ms = ms

  -- `backoffWithJitter`, where the header does not say how long to wait.
  unfoldable pub wait_for : ℕ → Option ℕ → Bool → Action Answer (Unit {0})
  wait_for attempt (some ms) limited = perform env (sleep (bounded limited ms))
  wait_for attempt none limited = do
    extra ← perform env jitter
    perform env (sleep (bounded limited (250 * 2 ^ attempt + extra)))

  abbrev pub follow :
      ℕ
      → Verdict
      → Action Answer (Option Registered × Option (Option ℕ))
      → Action Answer (Option Registered × Option (Option ℕ))
  follow attempt (accepted body tested) next = pure (body, tested)
  follow attempt (rejected code retryable) next = throw (provider code retryable none)
  follow attempt (again ms limited) next = wait_for attempt ms limited >> next

  -- The attempts from number `attempt` on, when `left` more may follow this one.
  unfoldable pub attempts :
      ℕ → ℕ → ℕ → Request → Action Answer (Option Registered × Option (Option ℕ))
  attempts zero attempt expected request = ◌>>=◌ (perform env (fetch request)) (λ response.
      follow attempt (judge 0 expected response)
        (throw (provider "gateway_subscription_request_failed" true none)))
  attempts (suc left) attempt expected request = ◌>>=◌ (perform env (fetch request)) (λ response.
      follow attempt (judge (suc left) expected response)
        (attempts left (suc attempt) expected request))

  -- `request`
  unfoldable pub send : ℕ → Request → Action Answer (Option Registered × Option (Option ℕ))
  send expected request =
      if c.has_api_key
      then attempts 2 0 expected request
      else throw (provider "gateway_subscription_unconfigured" false none)

  -- `assertConfiguredSubscription`
  unfoldable pub assert_configured : Text → Action Answer (Unit {0})
  assert_configured id =
      throw_if (not (only_is (normalize id) c.subscription_ids))
        (provider "gateway_subscription_not_allowlisted" false none)

  -- `get`
  unfoldable pub get : Text → Action Answer Registered
  get id = do
    answer ← send 200 (get_one id)
    require answer.0 (provider "gateway_subscription_response_invalid" true none)

  -- `get`, and `assertStableSubscriptionIdentity`
  unfoldable pub get_stable : Text → Action Answer Registered
  get_stable id = do
    registered ← get id
    throw_if (not (is_stable c registered))
        (provider "gateway_subscription_configuration_invalid" false none)
    pure registered

  -- The checks of the addresses and of the domains, as sorted sets.
  unfoldable pub check_sets : List Text → List Text → List ℕ → Action Answer (Unit {0})
  check_sets given addresses domains = do
    throw_if (not (all is_address given))
        (provider "gateway_subscription_address_invalid" false none)
    throw_if (length addresses == 0) (provider "gateway_subscription_address_required" false none)
    throw_if (ltb 50 (length addresses))
        (provider "gateway_subscription_address_capacity_exceeded" false none)
    throw_if (length domains == 0) (provider "gateway_subscription_domain_required" false none)
    throw_if (not (all is_domain domains))
        (provider "gateway_subscription_domain_invalid" false none)

  -- The PATCH of a subscription that is not current.
  unfoldable pub update : Text → List Text → List ℕ → Registered → Action Answer Bool
  update id addresses domains current =
      if is_current current addresses domains
      then pure false
      else (send 200 (patch id addresses domains) >> pure true)

  unfoldable pub reconcile_sets : Text → List Text → List ℕ → Action Answer (Bool × Registered)
  reconcile_sets id addresses domains = do
    current ← get_stable id
    changed ← update id addresses domains current
    verified ← get_stable id
    throw_if (not (is_current verified addresses domains))
        (provider "gateway_subscription_remote_verification_failed" true none)
    pure (changed, verified)

  -- `reconcile`
  unfoldable pub reconcile : Text → List Text → List ℕ → Action Answer (Bool × Registered)
  reconcile id addresses domains = do
    assert_configured id
    check_sets addresses (address_set addresses) (domain_set domains)
    reconcile_sets id (address_set addresses) (domain_set domains)

  abbrev read_test : Option (Option ℕ) → Action Answer (Unit {0})
  read_test none = throw (provider "gateway_subscription_response_invalid" true none)
  read_test (some none) = throw (provider "gateway_subscription_endpoint_unreachable" true none)
  read_test (some (some status)) =
      throw_if (not (status == 200))
        (provider "gateway_subscription_endpoint_unreachable" true none)

  -- `testConnection`
  unfoldable pub test_connection : Text → Action Answer (Unit {0})
  test_connection id = do assert_configured id; answer ← send 200 (test_one id); read_test answer.1

  -- `sendSignedTestNotification`
  unfoldable pub send_signed_test : Text → Action Answer (Unit {0})
  send_signed_test id = do assert_configured id; send 204 (send_one id); pure tt
