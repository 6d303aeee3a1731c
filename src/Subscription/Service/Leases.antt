-- ===== src/Subscription/Service/Leases.antt =====
-- The leases of a registration, and the readiness of the intent when it returns.
use bug_bounty_escrow.Prelude.{
  ℕ, zero, suc, ◌+◌, String, Bool, true, false, not, Option, none, some, ◌≡◌, arith, head?, ltb,
  ◌⊎◌, inl, if◌then◌else◌,
}
use bug_bounty_escrow.Effect.{
  Failure, conflict, Outcome, returned, raised, Session, Environment, Action, pure, throw, throw_if,
  perform, ◌>>◌,
}
use bug_bounty_escrow.Effect.Triples.{Post, Triple, Triple-bind, Triple-catch, Triple-weaken}
use bug_bounty_escrow.Ai.{Text}
use bug_bounty_escrow.Subscription.{
  Prepared, Answer, now, sleep, random_uuid, prepare, is_ready, test_connection, send_test,
}
use bug_bounty_escrow.Subscription.Service.{
  Config, wait_interval_ms, sync_lease_ms, go_on, round, poll, poll_for, look_for_test,
  wait_for_test, preflight, reconcile_remote, give_back, sync, test_intent, unless_ready, finish,
  after_prepared, register, ensure_for, ensure_first, ensure,
}
use bug_bounty_escrow.Subscription.Service.Calls.{held, IsTidy, IsStuck, IsReady, IsEnded}

module _ (env : Environment Answer) (c : Config) (intent : String) (sub : Text) where
  abbrev Tidy : Session Answer → Type 0
  Tidy s = (held s.calls ≡ none) × IsTidy s.calls

  abbrev Holding : String → ℕ → Session Answer → Type 0
  Holding lease revision s = (held s.calls ≡ some (lease, revision)) × IsTidy s.calls

  -- After an exception: no lease is held, or the store failed to give it back.
  abbrev Over : Session Answer → Type 0
  Over s = ((held s.calls ≡ none) ⊎ IsStuck s.calls) × IsTidy s.calls

  Tidy-Over : (s : Session Answer) → Tidy s → Over s
  Tidy-Over s z = (inl z.0, z.1)

  -- A statement whose exceptions leave no lease held.
  over :
      {A : Type 0} {P : Session Answer → Type 0} {m : Action Answer A}
      {Q : A → Session Answer → Type 0}
      → Triple P m Q Tidy
      → Triple P m Q Over
  over t = Triple-weaken t (λ a s z. z) Tidy-Over

  abbrev Ready : Session Answer → Type 0
  Ready s = IsReady intent (some sub) s.calls × Tidy s

  now-Tidy : Triple Tidy (perform env now) (λ _. Tidy) Tidy
  now-Tidy = record { at = λ s z. ground arith }

  sleep-Tidy : (ms : ℕ) → Triple Tidy (perform env (sleep ms)) (λ _. Tidy) Tidy
  sleep-Tidy ms = record { at = λ s z. ground arith }

  abbrev Found : {A : Type 0} → (Session Answer → Type 0) → Option A → Session Answer → Type 0
  Found Q none s = Tidy s
  Found Q (some _) s = Q s

  module _ (Q : Session Answer → Type 0) (deadline : ℕ) (timeout : Failure)
      (body : Action Answer (Option (Unit {0}))) (t : Triple Tidy body (Found Q) Over) where
    go_on-After :
        (next : Action Answer (Unit {0}))
        → Triple Tidy next (λ _. Q) Over
        → (found : Option (Unit {0})) → Triple (Found Q found) (go_on env next found) (λ _. Q) Over
    go_on-After next u (some a) = record { at = λ s z. z }
    go_on-After next u none = Triple-bind (λ _. Tidy) (over (sleep-Tidy wait_interval_ms)) (λ _. u)

    branch :
        (b : Bool) (m : Action Answer (Unit {0}))
        → Triple Tidy m (λ _. Q) Over
        → Triple Tidy (if b then m else throw timeout) (λ _. Q) Over
    branch true m u = u
    branch false m u = record { at = λ s z. Tidy-Over s z }

    round-After :
        (next : Action Answer (Unit {0}))
        → Triple Tidy next (λ _. Q) Over
        → Triple Tidy (round env deadline timeout body next) (λ _. Q) Over
    unfolding round
    round-After next u =
        Triple-bind (λ _. Tidy) (over now-Tidy)
          λ time. branch (ltb time deadline) _ (Triple-bind (Found Q) t (go_on-After next u))

    poll-After : (fuel : ℕ) → Triple Tidy (poll env fuel deadline timeout body) (λ _. Q) Over
    unfolding poll
    poll-After zero = record { at = λ s z. Tidy-Over s z }
    poll-After (suc fuel) = round-After (poll env fuel deadline timeout body) (poll-After fuel)

  look-Tidy : (started : ℕ) → Triple Tidy (look_for_test env sub started) (Found Tidy) Tidy
  unfolding look_for_test
  look-Tidy started = record { at = λ s z. ground arith }

  test_connection-Tidy : Triple Tidy (perform env (test_connection sub)) (λ _. Tidy) Tidy
  test_connection-Tidy = record { at = λ s z. ground arith }

  send_test-Tidy : Triple Tidy (perform env (send_test sub)) (λ _. Tidy) Tidy
  send_test-Tidy = record { at = λ s z. ground arith }

  preflight-Tidy : Triple Tidy (preflight env c sub) (λ _. Tidy) Over
  unfolding preflight wait_for_test poll_for
  preflight-Tidy =
      Triple-bind (λ _. Tidy) (over test_connection-Tidy)
        λ _.
          Triple-bind (λ _. Tidy) (over now-Tidy)
            λ started.
              Triple-bind (λ _. Tidy) (over send_test-Tidy)
                λ _.
                  Triple-bind (λ _. Tidy) (over now-Tidy)
                    (λ time.
                      poll-After Tidy _ _ (look_for_test env sub started) (over (look-Tidy started))
                        _)

  remote-Tidy :
      (lease : String) (p : Prepared)
      → Triple
          (Holding lease p.revision)
          (reconcile_remote env sub lease p)
          (λ _. Tidy)
          (Holding lease p.revision)
  unfolding reconcile_remote
  remote-Tidy lease p = record { at = λ s z. ground arith }

  give_back-Tidy :
      (lease : String) (revision : ℕ) (e : Failure)
      → Triple (Holding lease revision) (give_back env sub lease e) (λ _. Tidy) Over
  unfolding give_back
  give_back-Tidy lease revision e = record { at = λ s z. ground arith }

  sync-Tidy :
      (lease : String) (p : Prepared)
      → Triple (Holding lease p.revision) (sync env sub lease p) (λ _. Tidy) Over
  unfolding sync
  sync-Tidy lease p =
      Triple-catch (Holding lease p.revision) (remote-Tidy lease p)
        (give_back-Tidy lease p.revision)

  -- The answer to whether the intent is ready.
  abbrev Answered : Bool → Session Answer → Type 0
  Answered true s = Ready s
  Answered false s = Tidy s

  is_ready-Answered : Triple Tidy (perform env (is_ready intent sub)) Answered Tidy
  is_ready-Answered = record { at = λ s z. ground arith }

  throw_if-Ready :
      (ready : Bool) (e : Failure)
      → Triple (Answered ready) (throw_if (not ready) e) (λ _. Ready) Tidy
  throw_if-Ready true e = record { at = λ s z. z }
  throw_if-Ready false e = record { at = λ s z. z }

  unless_ready-Ready :
      (ready : Bool)
      → Triple (Answered ready) (unless_ready env c intent sub ready) (λ _. Ready) Over
  unfolding unless_ready test_intent
  unless_ready-Ready true = record { at = λ s z. z }
  unless_ready-Ready false =
      Triple-catch Over
        (Triple-bind (λ _. Tidy) preflight-Tidy
          (λ _.
            Triple-bind Answered (over is_ready-Answered) (λ ready. over (throw_if-Ready ready _))))
        (λ e. record { at = λ s z. z })

  finish-Ready : Triple Tidy (finish env c intent sub) (λ _. Ready) Over
  unfolding finish
  finish-Ready = Triple-bind Answered (over is_ready-Answered) unless_ready-Ready

  -- What a preparation leaves.
  abbrev Claimed : Bool → String → ℕ → Session Answer → Type 0
  Claimed true lease revision s = Holding lease revision s
  Claimed false lease revision s = Tidy s

  prepare-Claimed :
      (lease : String) (expires : ℕ)
      → Triple Tidy
          (perform env (prepare intent sub lease expires))
          (λ p. Claimed p.claimed lease p.revision)
          Tidy
  prepare-Claimed lease expires = record { at = λ s z. ground arith }

  after-Found :
      (lease : String) (p : Prepared)
      → Triple
          (Claimed p.claimed lease p.revision)
          (after_prepared env c intent sub lease p)
          (Found Ready)
          Over
  unfolding after_prepared
  after-Found lease p = split p.claimed
    where
      split :
          (b : Bool)
          → Triple
              (Claimed b lease p.revision)
              (if b
                then (sync env sub lease p >> (finish env c intent sub >> pure (some tt)))
                else pure none)
              (Found Ready)
              Over
      split true =
          Triple-bind (λ _. Tidy) (sync-Tidy lease p)
            λ _. Triple-bind (λ _. Ready) finish-Ready (λ _. record { at = λ s z. z })
      split false = record { at = λ s z. z }

  uuid-Tidy : Triple Tidy (perform env random_uuid) (λ _. Tidy) Tidy
  uuid-Tidy = record { at = λ s z. ground arith }

  register-Found : Triple Tidy (register env c intent sub) (Found Ready) Over
  unfolding register
  register-Found =
      Triple-bind (λ _. Tidy) (over uuid-Tidy)
        λ lease.
          Triple-bind (λ _. Tidy) (over now-Tidy)
            λ time.
              Triple-bind (λ p. Claimed p.claimed lease p.revision)
                (over (prepare-Claimed lease (time + sync_lease_ms c.request_timeout_ms)))
                (after-Found lease)

  ensure_for-Ready : Triple Tidy (ensure_for env c intent sub) (λ _. Ready) Over
  unfolding ensure_for poll_for
  ensure_for-Ready =
      Triple-bind (λ _. Tidy) (over now-Tidy)
        (λ time. poll-After Ready _ _ (register env c intent sub) register-Found _)

ready_end :
    (intent : String) (sub : Text) (o : Outcome (Unit {0})) (s : Session Answer)
    → Post
        (λ _ s'. IsReady intent (some sub) s'.calls × ((held s'.calls ≡ none) × IsTidy s'.calls))
        (λ s'. ((held s'.calls ≡ none) ⊎ IsStuck s'.calls) × IsTidy s'.calls)
        o
        s
    → IsTidy s.calls × IsEnded intent (some sub) o s.calls
ready_end intent sub (returned a) s z = (z.1.1, (z.1.0, z.0))
ready_end intent sub (raised e) s z = (z.1, z.0)

first-Tidy :
    (env : Environment Answer) (c : Config) (intent : String) (found : Option Text)
    (s : Session Answer)
    → held s.calls ≡ none
    → IsTidy s.calls
    → let end = ensure_first env c intent found s in
      IsTidy end.1.calls × IsEnded intent found end.0 end.1.calls
first-Tidy env c intent none s none_held tidy = (tidy, inl none_held)
first-Tidy env c intent (some sub) s none_held tidy =
    ready_end intent sub (ensure_for env c intent sub s).0 (ensure_for env c intent sub s).1
      ((ensure_for-Ready env c intent sub).at s (none_held, tidy))

-- Whatever the store, the provider and the clock answer, a registration that begins with no lease
-- held claims one lease at a time, and completes only a held lease, with the revision it was claimed
-- for, or fails it. If it returns, no lease is held, and the last call was the answer of the store
-- that the intent is ready for the configured subscription. If it raises an exception, no lease is
-- held, unless the last call is that of the store which failed to give the lease back.
pub ensure-IsTidy :
    (env : Environment Answer) (c : Config) (intent : String) (s : Session Answer)
    → held s.calls ≡ none
    → IsTidy s.calls
    → IsTidy (ensure env c intent s).1.calls
      × IsEnded intent
          (head? c.subscription_ids)
          (ensure env c intent s).0
          (ensure env c intent s).1.calls
unfolding ensure
ensure-IsTidy env c intent s none_held tidy = split c.enabled
  where
    split :
        (b : Bool)
        → let end =
            (if b
                then ensure_first env c intent (head? c.subscription_ids)
                else throw (conflict "gateway_subscription_lifecycle_disabled"))
              s in
          IsTidy end.1.calls × IsEnded intent (head? c.subscription_ids) end.0 end.1.calls
    split true = first-Tidy env c intent (head? c.subscription_ids) s none_held tidy
    split false = (tidy, inl none_held)
