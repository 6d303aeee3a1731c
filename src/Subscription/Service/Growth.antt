-- ===== src/Subscription/Service/Growth.antt =====
-- The actions of the service make calls, and take none back.
use bug_bounty_escrow.Prelude.{
  ℕ, zero, suc, ◌≤◌, String, Bool, true, false, Option, none, some, arith, if◌then◌else◌, ltb,
}
use bug_bounty_escrow.Effect.{
  Failure, Outcome, returned, raised, Session, Environment, Action, pure, throw, throw_if, catch,
  other, perform, ◌>>=◌,
}
use bug_bounty_escrow.Effect.Triples.{Post, Triple, Triple-bind, Triple-catch, Triple-either}
use bug_bounty_escrow.Ai.{Text}
use bug_bounty_escrow.Subscription.{
  Op, Prepared, Answer, now, sleep, random_uuid, reconcile, complete, fail, is_ready,
  test_connection, send_test, has_test,
}
use bug_bounty_escrow.Subscription.Service.{
  code_or, is_retryable, Config, wait_interval_ms, go_on, round, poll, poll_for, look_for_test,
  wait_for_test, preflight, reconcile_remote, give_back, sync, test_intent, unless_ready, finish,
  after_prepared, register,
}

-- The body makes calls, and takes none back.
abbrev pub Grows : {A : Type 0} → Action Answer A → Type 0
Grows m = (s : Session Answer) → s.count ≤ (m s).1.count

-- Every action of the service makes calls, and takes none back.
module _ (env : Environment Answer) where
  abbrev Past : ℕ → Session Answer → Type 0
  Past n s = n ≤ s.count

  pub record Grown {A : Type 0} (m : Action Answer A) : Type 0 where
    pub triple : (n : ℕ) → Triple (Past n) m (λ _. Past n) (Past n)

  pub Grown-Grows : {A : Type 0} (m : Action Answer A) → Grown m → Grows m
  Grown-Grows m t s = Triple-either {P = Past s.count} m (t.triple s.count) s (omega arith)

  Grown-bind :
      {A B : Type 0} {m : Action Answer A} {k : A → Action Answer B}
      → Grown m
      → ((a : A) → Grown (k a))
      → Grown (m >>= k)
  Grown-bind t u = record {
    triple = λ n. Triple-bind (λ _. Past n) (t.triple n) (λ a. (u a).triple n);
  }

  Grown-catch :
      {A : Type 0} {m : Action Answer A} {k : Failure → Action Answer A}
      → Grown m
      → ((e : Failure) → Grown (k e))
      → Grown (catch m k)
  Grown-catch t u = record {
    triple = λ n. Triple-catch (Past n) (t.triple n) (λ e. (u e).triple n);
  }

  Grown-perform : (o : Op) → Grown (perform env o)
  Grown-perform o = record {
    triple = λ n. record { at = λ s h. raised_or (env s.count o) n _ (omega (arith, h)) };
  }
    where
      raised_or :
          {A : Type 0} (r : Outcome A) (n : ℕ) (s : Session Answer)
          → n ≤ s.count
          → Post (λ _. Past n) (Past n) r s
      raised_or (returned a) n s h = h
      raised_or (raised e) n s h = h

  Grown-pure : {A : Type 0} (a : A) → Grown (pure {Answer = Answer} a)
  Grown-pure a = record { triple = λ n. record { at = λ s h. h } }

  Grown-throw : {A : Type 0} (e : Failure) → Grown (throw {Answer = Answer} {A = A} e)
  Grown-throw e = record { triple = λ n. record { at = λ s h. h } }

  either :
      {A : Type 0} (b : Bool) {m k : Action Answer A}
      → Grown m
      → Grown k
      → Grown (if b then m else k)
  either true t u = t
  either false t u = u

  module _ {A : Type 0} (deadline : ℕ) (timeout : Failure) (body : Action Answer (Option A))
      (t : Grown body) where
    go_on-Grown :
        (next : Action Answer A) → Grown next → (found : Option A) → Grown (go_on env next found)
    go_on-Grown next u (some a) = Grown-pure a
    go_on-Grown next u none = Grown-bind (Grown-perform (sleep wait_interval_ms)) (λ _. u)

    round-Grown :
        (next : Action Answer A) → Grown next → Grown (round env deadline timeout body next)
    unfolding round
    round-Grown next u =
        Grown-bind (Grown-perform now) λ time.
          either (ltb time deadline) (Grown-bind t (go_on-Grown next u)) (Grown-throw timeout)

    poll-Grown : (fuel : ℕ) → Grown (poll env fuel deadline timeout body)
    unfolding poll
    poll-Grown zero = Grown-throw (other "out of fuel")
    poll-Grown (suc fuel) = round-Grown (poll env fuel deadline timeout body) (poll-Grown fuel)

  pub look_for_test-Grown : (sub : Text) (started : ℕ) → Grown (look_for_test env sub started)
  unfolding look_for_test
  look_for_test-Grown sub started =
      Grown-bind (Grown-perform (has_test sub started)) (λ _. Grown-pure _)

  module _ (c : Config) (sub : Text) where
    preflight-Grown : Grown (preflight env c sub)
    unfolding preflight wait_for_test poll_for
    preflight-Grown = Grown-bind (Grown-perform (test_connection sub)) λ _.
        Grown-bind (Grown-perform now) λ started. Grown-bind (Grown-perform (send_test sub)) λ _.
          Grown-bind (Grown-perform now) λ time.
            poll-Grown _ _ (look_for_test env sub started) (look_for_test-Grown sub started) _

    sync-Grown : (lease : String) (p : Prepared) → Grown (sync env sub lease p)
    unfolding sync reconcile_remote give_back
    sync-Grown lease p =
        Grown-catch
          (Grown-bind (Grown-perform (reconcile sub p.addresses p.domains)) (λ r. Grown-perform (
            complete (record {
              subscription_id = sub;
              lease_id = lease;
              expected_revision = p.revision;
              remote = r;
            }))))
          (λ e.
            Grown-bind
              (Grown-perform
                (fail sub lease (code_or "gateway_subscription_sync_failed" e) (is_retryable e)))
              (λ _. Grown-throw _))

    throw_if-Grown : (b : Bool) (e : Failure) → Grown (throw_if {Answer = Answer} b e)
    throw_if-Grown true e = Grown-throw e
    throw_if-Grown false e = Grown-pure tt

    unless_ready-Grown : (intent : String) (b : Bool) → Grown (unless_ready env c intent sub b)
    unfolding unless_ready test_intent
    unless_ready-Grown intent true = Grown-pure tt
    unless_ready-Grown intent false =
        Grown-catch
          (Grown-bind preflight-Grown
            (λ _. Grown-bind (Grown-perform (is_ready intent sub)) (λ ready. throw_if-Grown _ _)))
          (λ e. Grown-throw _)

    after-Grown :
        (intent lease : String) (p : Prepared) → Grown (after_prepared env c intent sub lease p)
    unfolding after_prepared finish
    after-Grown intent lease p =
        either p.claimed
          (Grown-bind (sync-Grown lease p) (λ _.
            Grown-bind
              (Grown-bind (Grown-perform (is_ready intent sub)) (unless_ready-Grown intent))
              (λ _. Grown-pure _)))
          (Grown-pure _)

    pub register-Grown : (intent : String) → Grown (register env c intent sub)
    unfolding register
    register-Grown intent = Grown-bind (Grown-perform random_uuid) λ lease.
        Grown-bind (Grown-perform now)
          λ time. Grown-bind (Grown-perform _) (after-Grown intent lease)
