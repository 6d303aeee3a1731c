-- ===== src/Subscription.antt =====
-- The registration of source wallets at the payment provider, `GatewaySubscriptionLifecycleService`
-- (apps/api/src/escrow/gateway-subscription-lifecycle.service.ts): the calls of its store
-- (gateway-subscription-registration.store.ts), of its client and of the clock. Times are
-- milliseconds; the identity of a subscription is a list of code points.
pub mod Service
pub mod Client
use bug_bounty_escrow.Prelude.{ℕ, String, Bool, List}
use bug_bounty_escrow.Ai.{Text}

-- `PreparedGatewaySubscriptionRegistration`
pub record Prepared : Type 0 where
  pub claimed : Bool
  pub revision : ℕ
  pub addresses : List String
  pub domains : List ℕ

-- The addresses and the domains that the provider has after a reconciliation.
pub record Remote : Type 0 where
  pub addresses : List String
  pub domains : List ℕ

-- What `completeSync` is given.
pub record Completion : Type 0 where
  pub subscription_id : Text
  pub lease_id : String
  pub expected_revision : ℕ
  pub remote : Remote

pub data Op : Type 0 where
  now : Op
  sleep : ℕ → Op
  random_uuid : Op
  prepare : String → Text → String → ℕ → Op
  reconcile : Text → List String → List ℕ → Op
  complete : Completion → Op
  fail : Text → String → String → Bool → Op
  is_ready : String → Text → Op
  test_connection : Text → Op
  send_test : Text → Op
  has_test : Text → ℕ → Op
  record_test : Text → Text → ℕ → Op
  list_intents : Op

abbrev pub Answer : Op → Type 0
Answer now = ℕ
Answer random_uuid = String
Answer (prepare _ _ _ _) = Prepared
Answer (reconcile _ _ _) = Remote
Answer (is_ready _ _) = Bool
Answer (has_test _ _) = Bool
Answer list_intents = List String
Answer _ = Unit {0}
