-- ===== src/Subscription/Client/Verification.antt =====
-- What a reconciliation asks the provider for, and what it has verified when it returns.
use bug_bounty_escrow.Prelude.{
  ℕ, zero, suc, Bool, true, false, not, Option, none, some, List, [], ◌∷◌, ◌≡◌, refl, arith,
  if◌then◌else◌,
}
use bug_bounty_escrow.Effect.{
  Failure, provider, Outcome, returned, raised, Event, did, Session, Environment, Action, pure,
  throw, throw_if, require, perform, ◌>>◌,
}
use bug_bounty_escrow.Effect.Triples.{Post, Triple, Triple-bind, Triple-frame, Triple-weaken}
use bug_bounty_escrow.Ai.{Text}
use bug_bounty_escrow.Subscription.Service.{normalize}
use bug_bounty_escrow.Subscription.Client.{
  Registered, Request, get_one, patch, Response, failed, answered, Answer, fetch, Setup,
  address_set, domain_set, is_current, is_stable, only_is, Verdict, accepted, rejected, again,
  judge, wait_for, follow, attempts, send, assert_configured, get, get_stable, check_sets, update,
  reconcile_sets, reconcile,
}

-- A request may change only the given subscription, and only to these sets.
abbrev pub IsFor : Text → List Text → List ℕ → Request → Type 0
IsFor id addresses domains (patch i a d) = (i ≡ id) × ((a ≡ addresses) × (d ≡ domains))
IsFor id addresses domains _ = Unit

-- Every request so far is one.
abbrev pub IsTargeted : Text → List Text → List ℕ → List (Event Answer) → Type 0
IsTargeted id addresses domains [] = Unit
IsTargeted id addresses domains (did (fetch r) _ ∷ calls) =
    IsFor id addresses domains r × IsTargeted id addresses domains calls
IsTargeted id addresses domains (did _ _ ∷ calls) = IsTargeted id addresses domains calls

-- The last call was this request, with its status and the subscription of its body.
abbrev pub last_answer : List (Event Answer) → Option (Request × (ℕ × Option Registered))
last_answer (did (fetch r) (returned (answered status _ body _)) ∷ _) = some (r, (status, body))
last_answer _ = none

judge-accepted :
    (left expected : ℕ) (response : Response) (body : Option Registered)
    (tested : Option (Option ℕ))
    → judge left expected response ≡ accepted body tested
    → (retry : Option ℕ) × (response ≡ answered expected retry body tested)
unfolding judge
judge-accepted left expected failed body tested e = ground arith
judge-accepted left expected (answered status retry b t) body tested e = (retry, ground arith)

module _ (env : Environment Answer) (c : Setup) (id : Text) (addresses : List Text)
    (domains : List ℕ) where
  abbrev Safe : Session Answer → Type 0
  Safe s = IsTargeted id addresses domains s.calls

  -- The request was answered with its expected status.
  abbrev Answered : Request → ℕ → Option Registered → Session Answer → Type 0
  Answered r expected body s = (last_answer s.calls ≡ some (r, (expected, body))) × Safe s

  abbrev Heard : Request → Response → Session Answer → Type 0
  Heard r failed s = Safe s
  Heard r (answered status _ body _) s = Answered r status body s

  fetch-Heard :
      (r : Request)
      → IsFor id addresses domains r
      → Triple Safe (perform env (fetch r)) (Heard r) Safe
  fetch-Heard r for = record { at = λ s z. ground arith }

  wait_for-Safe :
      (attempt : ℕ) (ms : Option ℕ) (limited : Bool)
      → Triple Safe (wait_for env c attempt ms limited) (λ _. Safe) Safe
  unfolding wait_for
  wait_for-Safe attempt none limited = record { at = λ s z. ground arith }
  wait_for-Safe attempt (some ms) limited = record { at = λ s z. ground arith }

  abbrev Read : Request → ℕ → (Option Registered × Option (Option ℕ)) → Session Answer → Type 0
  Read r expected answer s = Answered r expected answer.0 s

  Heard-Safe :
      (r : Request) (response : Response) (s : Session Answer) → Heard r response s → Safe s
  Heard-Safe r failed s z = z
  Heard-Safe r (answered status retry body tested) s z = z.1

  follow-Read :
      (attempt left expected : ℕ) (r : Request) (response : Response)
      (next : Action Answer (Option Registered × Option (Option ℕ)))
      → Triple Safe next (Read r expected) Safe
      → (v : Verdict) → judge left expected response ≡ v
      → Triple (Heard r response) (follow env c attempt v next) (Read r expected) Safe
  follow-Read attempt left expected r response next t (accepted body tested) e = record {
    at = λ s z.
        let known = judge-accepted left expected response body tested e in
        heard s (rw known.1 at z);
  }
    where
      heard : (s : Session Answer) → Answered r expected body s → Read r expected (body, tested) s
      heard s z = z
  follow-Read attempt left expected r response next t (rejected code retryable) e = record {
    at = λ s z. Heard-Safe r response s z;
  }
  follow-Read attempt left expected r response next t (again ms limited) e = record {
    at = λ s z.
        (Triple-bind (λ _. Safe) (wait_for-Safe attempt ms limited) (λ _. t)).at s
          (Heard-Safe r response s z);
  }

  throw-Read :
      (r : Request) (expected : ℕ) (e : Failure) → Triple Safe (throw e) (Read r expected) Safe
  throw-Read r expected e = record { at = λ s z. z }

  attempts-Read :
      (left attempt expected : ℕ) (r : Request)
      → IsFor id addresses domains r
      → Triple Safe (attempts env c left attempt expected r) (Read r expected) Safe
  unfolding attempts
  attempts-Read zero attempt expected r for =
      Triple-bind (Heard r) (fetch-Heard r for)
        (λ response. follow-Read attempt 0 expected r response _ (throw-Read r expected _) _ refl)
  attempts-Read (suc left) attempt expected r for =
      Triple-bind (Heard r) (fetch-Heard r for) (λ response.
        follow-Read attempt (suc left) expected r response _
          (attempts-Read left (suc attempt) expected r for) _ refl)

  send-Read :
      (expected : ℕ) (r : Request)
      → IsFor id addresses domains r
      → Triple Safe (send env c expected r) (Read r expected) Safe
  unfolding send
  send-Read expected r for = split c.has_api_key
    where
      split :
          (b : Bool)
          → Triple Safe
              (if b
                then attempts env c 2 0 expected r
                else throw (provider "gateway_subscription_unconfigured" false none))
              (Read r expected)
              Safe
      split true = attempts-Read 2 0 expected r for
      split false = throw-Read r expected _

  -- The subscription was just read from the provider.
  abbrev Stable : Registered → Session Answer → Type 0
  Stable v s = (is_stable c v ≡ true) × Answered (get_one id) 200 (some v) s

  found-Answered :
      (body : Option Registered) (e : Failure)
      → Triple
          (Answered (get_one id) 200 body)
          (require body e)
          (λ v. Answered (get_one id) 200 (some v))
          Safe
  found-Answered none e = record { at = λ s z. z.1 }
  found-Answered (some v) e = record { at = λ s z. z }

  get-Answered : Triple Safe (get env c id) (λ v. Answered (get_one id) 200 (some v)) Safe
  unfolding get
  get-Answered =
      Triple-bind (Read (get_one id) 200) (send-Read 200 (get_one id) tt)
        (λ answer. found-Answered answer.0 _)

  own-Stable :
      (v : Registered) (e : Failure)
      → Triple
          (Answered (get_one id) 200 (some v))
          (throw_if (not (is_stable c v)) e >> pure v)
          Stable
          Safe
  own-Stable v e = record { at = λ s z. ground arith }

  get_stable-Stable : Triple Safe (get_stable env c id) Stable Safe
  unfolding get_stable
  get_stable-Stable =
      Triple-bind (λ v. Answered (get_one id) 200 (some v)) get-Answered (λ v. own-Stable v _)

  update-Safe :
      (v : Registered) → Triple Safe (update env c id addresses domains v) (λ _. Safe) Safe
  unfolding update
  update-Safe v = split (is_current v addresses domains)
    where
      split :
          (b : Bool)
          → Triple Safe
              (if b then pure false else (send env c 200 (patch id addresses domains) >> pure true))
              (λ _. Safe)
              Safe
      split true = record { at = λ s z. z }
      split false =
          Triple-bind (Read (patch id addresses domains) 200)
            (send-Read 200 (patch id addresses domains) (refl, (refl, refl)))
            (λ answer. record { at = λ s z. z.1 })

  -- What a reconciliation returns was just read, and is current.
  abbrev Verified : (Bool × Registered) → Session Answer → Type 0
  Verified result s = (is_current result.1 addresses domains ≡ true) × Stable result.1 s

  current-Verified :
      (changed : Bool) (v : Registered) (e : Failure)
      → Triple
          (Stable v)
          (throw_if (not (is_current v addresses domains)) e >> pure (changed, v))
          Verified
          Safe
  current-Verified changed v e = record { at = λ s z. ground arith }

  Stable-Safe : (v : Registered) (s : Session Answer) → Stable v s → Safe s
  Stable-Safe v s z = z.1.1

  sets-Verified : Triple Safe (reconcile_sets env c id addresses domains) Verified Safe
  unfolding reconcile_sets
  sets-Verified =
      Triple-bind (λ _. Safe) (Triple-weaken get_stable-Stable Stable-Safe (λ s z. z))
        λ current.
          Triple-bind (λ _. Safe) (update-Safe current)
            λ changed. Triple-bind Stable get_stable-Stable (λ v. current-Verified changed v _)

  -- The subscription is the configured one, and the sets are proper.
  check-Safe :
      (given : List Text) → Triple Safe (check_sets env c given addresses domains) (λ _. Safe) Safe
  unfolding check_sets
  check-Safe given = record { at = λ s z. ground arith }

  configured-Safe :
      Triple Safe
        (assert_configured env c id)
        (λ _ s. (only_is (normalize id) c.subscription_ids ≡ true) × Safe s)
        Safe
  unfolding assert_configured
  configured-Safe = record { at = λ s z. ground arith }

-- What a reconciliation comes to.
abbrev pub IsReconciled :
    Setup → Text → List Text → List ℕ → Outcome (Bool × Registered) → List (Event Answer) → Type 0
IsReconciled c id addresses domains (raised e) calls = IsTargeted id addresses domains calls
IsReconciled c id addresses domains (returned result) calls =
    (only_is (normalize id) c.subscription_ids ≡ true)
    × ((is_current result.1 addresses domains ≡ true)
        × ((is_stable c result.1 ≡ true)
            × ((last_answer calls ≡ some (get_one id, (200, some result.1)))
                × IsTargeted id addresses domains calls)))

reconciled :
    (env : Environment Answer) (c : Setup) (id : Text) (addresses : List Text) (domains : List ℕ)
    (o : Outcome (Bool × Registered)) (s : Session Answer)
    → Post
        (λ r s'.
          (only_is (normalize id) c.subscription_ids ≡ true)
          × Verified env c id addresses domains r s')
        (Safe env c id addresses domains)
        o
        s
    → IsReconciled c id addresses domains o s.calls
reconciled env c id addresses domains (returned r) s z = (z.0, (z.1.0, (z.1.1.0, z.1.1.1)))
reconciled env c id addresses domains (raised e) s z = z

-- Whatever the provider answers, a reconciliation changes only the given subscription, and only to the
-- sets of the given addresses and domains; it returns only for the configured subscription, and then
-- the last call read this very subscription, successfully: it is the application's own, it is
-- enabled, it delivers deposits only, and its addresses and domains are exactly the given sets.
pub reconcile-IsReconciled :
    (env : Environment Answer) (c : Setup) (id : Text) (addresses : List Text) (domains : List ℕ)
    (s : Session Answer)
    → IsTargeted id (address_set addresses) (domain_set domains) s.calls
    → IsReconciled c id
        (address_set addresses)
        (domain_set domains)
        (reconcile env c id addresses domains s).0
        (reconcile env c id addresses domains s).1.calls
unfolding reconcile
reconcile-IsReconciled env c id addresses domains s z =
    let as' = address_set addresses in
    let ds = domain_set domains in
    let configured = only_is (normalize id) c.subscription_ids ≡ true in
    reconciled env c id as' ds (reconcile env c id addresses domains s).0
      (reconcile env c id addresses domains s).1
      ((Triple-bind (λ _ s'. configured × Safe env c id as' ds s') (configured-Safe env c id as' ds)
          λ _.
            Triple-bind (λ _ s'. configured × Safe env c id as' ds s')
              (Triple-frame configured (check-Safe env c id as' ds addresses))
              (λ _. Triple-frame configured (sets-Verified env c id as' ds))).at
        s z)
