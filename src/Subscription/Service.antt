-- ===== src/Subscription/Service.antt =====
-- The methods of `GatewaySubscriptionLifecycleService`, less its timers and its log.
pub mod Growth
pub mod Rounds
pub mod Calls
pub mod Leases
mod Tests
use bug_bounty_escrow.Prelude.{
  ℕ, zero, suc, ◌+◌, ◌*◌, ◌/◌, min, String, Bool, true, false, not, Option, none, some, List, [],
  ◌∷◌, any, head?, map, ltb, if◌then◌else◌, codes_eq, lower_code,
}
use bug_bounty_escrow.Effect.{
  Failure, conflict, unavailable, provider, other, Environment, Action, pure, throw, ◌>>=◌, ◌>>◌,
  catch, throw_if, perform,
}
use bug_bounty_escrow.Ai.{Text}
use bug_bounty_escrow.Ai.Schema.{trim}
use bug_bounty_escrow.Subscription.{
  Prepared, Remote, Completion, Answer, now, sleep, random_uuid, prepare, reconcile, complete, fail,
  is_ready, test_connection, send_test, has_test, record_test, list_intents,
}

-- `CIRCLE_GATEWAY_WEBHOOKS_ENABLED`, `CIRCLE_GATEWAY_WEBHOOK_SUBSCRIPTION_IDS`,
-- `CIRCLE_REQUEST_TIMEOUT_MS`
pub record Config : Type 0 where
  pub enabled : Bool
  pub subscription_ids : List Text
  pub request_timeout_ms : ℕ

abbrev pub wait_interval_ms : ℕ
wait_interval_ms = 100

-- `gatewaySubscriptionSyncLeaseMs`
unfoldable pub sync_lease_ms : ℕ → ℕ
sync_lease_ms timeout = min 900000 (3 * (3 * timeout + 2 * timeout) + 30000)

-- `normalizeUuid`
unfoldable pub normalize : Text → Text
normalize t = map lower_code (trim t)

abbrev pub code_or : String → Failure → String
code_or default (provider code _ _) = code
code_or default _ = default

-- `providerError?.retryable ?? true`
abbrev pub is_retryable : Failure → Bool
is_retryable (provider _ retryable _) = retryable
is_retryable _ = true

-- What the failed sync of a lease raises.
abbrev pub sync_failure : Failure → Failure
sync_failure (provider code false _) = conflict code
sync_failure (provider code true _) = unavailable code
sync_failure _ = unavailable "gateway_subscription_sync_failed"

-- `isAllowlistedSubscription`
unfoldable pub is_allowlisted : Config → Text → Bool
is_allowlisted c subscription = any (codes_eq (normalize subscription)) c.subscription_ids

module _ (env : Environment Answer) where
  -- A round after the body: its result, or a pause and the rounds after it.
  abbrev pub go_on : {A : Type 0} → Action Answer A → Option A → Action Answer A
  go_on next (some a) = pure a
  go_on next none = perform env (sleep wait_interval_ms) >> next

  -- One round of a loop with a deadline.
  unfoldable pub round :
      {A : Type 0} → ℕ → Failure → Action Answer (Option A) → Action Answer A → Action Answer A
  round deadline timeout body next = ◌>>=◌ (perform env now) (λ time.
      if ltb time deadline then (◌>>=◌ body (λ found. go_on next found)) else throw timeout)

  -- `while (Date.now() < deadline) ...`, on fuel.
  unfoldable pub poll : {A : Type 0} → ℕ → ℕ → Failure → Action Answer (Option A) → Action Answer A
  poll zero deadline timeout body = throw (other "out of fuel")
  poll (suc fuel) deadline timeout body =
      round deadline timeout body (poll fuel deadline timeout body)

  -- A loop that begins at `start` and lasts for `span`, with the rounds that it can take.
  unfoldable pub poll_for :
      {A : Type 0} → ℕ → ℕ → Failure → Action Answer (Option A) → Action Answer A
  poll_for start span timeout body = poll (2 + span / wait_interval_ms) (start + span) timeout body

  abbrev when : Bool → Option (Unit {0})
  when true = some tt
  when false = none

  unfoldable pub look_for_test : Text → ℕ → Action Answer (Option (Unit {0}))
  look_for_test subscription started = do
    seen ← perform env (has_test subscription started)
    pure (when seen)

  -- `waitForSignedTest`
  unfoldable pub wait_for_test : Config → Text → ℕ → Action Answer (Unit {0})
  wait_for_test c subscription started = do
    time ← perform env now
    poll_for time (min c.request_timeout_ms 15000)
        (provider "gateway_subscription_signed_test_timeout" true none)
        (look_for_test subscription started)

  -- `runOperationalPreflight`
  unfoldable pub preflight : Config → Text → Action Answer (Unit {0})
  preflight c subscription = do
    perform env (test_connection subscription)
    started ← perform env now
    perform env (send_test subscription)
    wait_for_test c subscription started

  unfoldable pub reconcile_remote : Text → String → Prepared → Action Answer (Unit {0})
  reconcile_remote subscription lease prepared = do
    remote ← perform env (reconcile subscription prepared.addresses prepared.domains)
    perform env (
        complete (record {
          subscription_id = subscription;
          lease_id = lease;
          expected_revision = prepared.revision;
          remote = remote;
        }))

  unfoldable pub give_back : Text → String → Failure → Action Answer (Unit {0})
  give_back subscription lease e = do
    perform env
        (fail subscription lease (code_or "gateway_subscription_sync_failed" e) (is_retryable e))
    throw (sync_failure e)

  -- The sync of a claimed lease: it is completed, or it is failed.
  unfoldable pub sync : Text → String → Prepared → Action Answer (Unit {0})
  sync subscription lease prepared =
      catch (reconcile_remote subscription lease prepared) (give_back subscription lease)

  -- The signed test of an intent that is not ready.
  unfoldable pub test_intent : Config → String → Text → Action Answer (Unit {0})
  test_intent c intent subscription = do
    preflight c subscription
    ready ← perform env (is_ready intent subscription)
    throw_if (not ready) (provider "gateway_subscription_signed_test_not_ready" true none)

  unfoldable pub unless_ready : Config → String → Text → Bool → Action Answer (Unit {0})
  unless_ready c intent subscription true = pure tt
  unless_ready c intent subscription false =
      catch (test_intent c intent subscription)
        (λ e. throw (unavailable (code_or "gateway_subscription_signed_test_failed" e)))

  unfoldable pub finish : Config → String → Text → Action Answer (Unit {0})
  finish c intent subscription = do
    ready ← perform env (is_ready intent subscription)
    unless_ready c intent subscription ready

  -- What follows the preparation: another process has the lease, or the sync is made.
  unfoldable pub after_prepared :
      Config → String → Text → String → Prepared → Action Answer (Option (Unit {0}))
  after_prepared c intent subscription lease prepared =
      if prepared.claimed
      then (do sync subscription lease prepared; finish c intent subscription; pure (some tt))
      else pure none

  -- The body of the loop of `ensureIntentRegistered`.
  unfoldable pub register : Config → String → Text → Action Answer (Option (Unit {0}))
  register c intent subscription = do
    lease ← perform env random_uuid
    time ← perform env now
    prepared ←
        perform env (prepare intent subscription lease (time + sync_lease_ms c.request_timeout_ms))
    after_prepared c intent subscription lease prepared

  -- `ensureIntentRegistered`, from the deadline on.
  unfoldable pub ensure_for : Config → String → Text → Action Answer (Unit {0})
  ensure_for c intent subscription = do
    time ← perform env now
    poll_for time (sync_lease_ms c.request_timeout_ms * 2)
        (unavailable "gateway_subscription_sync_timeout") (register c intent subscription)

  abbrev pub ensure_first : Config → String → Option Text → Action Answer (Unit {0})
  ensure_first c intent none = throw (conflict "gateway_subscription_not_configured")
  ensure_first c intent (some subscription) = ensure_for c intent subscription

  -- `ensureIntentRegistered`
  unfoldable pub ensure : Config → String → Action Answer (Unit {0})
  ensure c intent =
      if c.enabled
      then ensure_first c intent (head? c.subscription_ids)
      else throw (conflict "gateway_subscription_lifecycle_disabled")

  -- `recordSignedTest`
  unfoldable pub record_signed_test : Config → Text → Text → Action Answer (Unit {0})
  record_signed_test c subscription notification = do
    throw_if (not (is_allowlisted c (normalize subscription)))
        (conflict "gateway_subscription_not_allowlisted")
    time ← perform env now
    perform env (record_test (normalize subscription) (normalize notification) time)

  -- The intents of a maintenance one by one; the failure of one is only logged.
  unfoldable pub repair : Config → List String → Action Answer (Unit {0})
  repair c [] = pure tt
  repair c (intent ∷ rest) = catch (ensure c intent) (λ _. pure tt) >> repair c rest

  unfoldable pub maintain_with : Config → Text → Action Answer (Unit {0})
  maintain_with c subscription = do
    intents ← perform env list_intents
    repair c intents
    elim intents [ [] ↦ preflight c subscription | _ ∷ _ ↦ pure tt ]

  abbrev maintain_first : Config → Option Text → Action Answer (Unit {0})
  maintain_first c none = pure tt
  maintain_first c (some subscription) = catch (maintain_with c subscription) (λ _. pure tt)

  -- `runMaintenance`
  unfoldable pub run_maintenance : Config → Action Answer (Unit {0})
  run_maintenance c = if c.enabled then maintain_first c (head? c.subscription_ids) else pure tt
