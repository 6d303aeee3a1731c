-- ===== src/Subscription/Service/Rounds.antt =====
-- The loops with a deadline end.
use bug_bounty_escrow.Prelude.{
  ℕ, zero, suc, ◌+◌, ◌*◌, ◌/◌, ◌≤◌, ◌<◌, min, String, Option, none, some, ◌≡◌, refl, ap, ◌∙◌, arith,
  ltb, Bool-cases, inl, inr,
}
use bug_bounty_escrow.Effect.{Failure, returned, Session, Environment, Action, perform}
use bug_bounty_escrow.Effect.Agreement.{continue-agrees}
use bug_bounty_escrow.Ai.{Text}
use bug_bounty_escrow.Subscription.{Answer, now, sleep}
use bug_bounty_escrow.Subscription.Service.Growth.{
  Grows, Grown-Grows, register-Grown, look_for_test-Grown,
}
use bug_bounty_escrow.Subscription.Service.{
  Config, wait_interval_ms, sync_lease_ms, go_on, round, poll, poll_for, look_for_test, register,
}

-- What the service relies on: the clock runs while it waits. A reading of the clock after a pause is
-- later than a reading before it by at least the length of the pause.
abbrev pub Advances : Environment Answer → Type 0
Advances env =
    (n m k a b w : ℕ)
    → n < m
    → m < k
    → env n now ≡ returned a
    → env m (sleep w) ≡ returned tt
    → env k now ≡ returned b
    → a + w ≤ b

module _ (env : Environment Answer) {A : Type 0} (deadline : ℕ) (timeout : Failure)
    (body : Action Answer (Option A)) (grows : Grows body) (advances : Advances env) where
  -- From call number `n` on, the clock shows at least this time.
  abbrev From : ℕ → ℕ → Type 0
  From low n = (m a : ℕ) → n ≤ m → env m now ≡ returned a → low ≤ a

  -- After a round the clock shows a later time.
  later :
      (n m time : ℕ)
      → env n now ≡ returned time
      → n < m
      → env m (sleep wait_interval_ms) ≡ returned tt
      → From (time + wait_interval_ms) (m + 1)
  later n m time e lt slept k b le e' =
      advances n m k time b wait_interval_ms lt (omega (arith, le)) e slept e'

  go_on-agrees :
      (f g : Action Answer A) (found : Option A) (s : Session Answer)
      → (env s.count (sleep wait_interval_ms) ≡ returned tt
          → f (perform env (sleep wait_interval_ms) s).1
            ≡ g (perform env (sleep wait_interval_ms) s).1)
      → go_on env f found s ≡ go_on env g found s
  go_on-agrees f g (some a) s h = refl
  go_on-agrees f g none s h =
      continue-agrees (λ _. f) (λ _. g) (env s.count (sleep wait_interval_ms))
        (perform env (sleep wait_interval_ms) s).1 (λ _ e. h e)

  round-agrees :
      (f g : Action Answer A) (s : Session Answer)
      → ((time : ℕ)
          → env s.count now ≡ returned time
          → time < deadline
          → env (body (perform env now s).1).1.count (sleep wait_interval_ms) ≡ returned tt
          → f (perform env (sleep wait_interval_ms) (body (perform env now s).1).1).1
            ≡ g (perform env (sleep wait_interval_ms) (body (perform env now s).1).1).1)
      → round env deadline timeout body f s ≡ round env deadline timeout body g s
  unfolding round
  round-agrees f g s h = continue-agrees _ _ (env s.count now) (perform env now s).1 λ time e.
      elim (Bool-cases (ltb time deadline)) [
        | inr late ↦ rw late
        | inl early ↦ rw early (
            continue-agrees (λ found. go_on env f found) (λ found. go_on env g found)
              (body (perform env now s).1).0 (body (perform env now s).1).1
              (λ found _.
                go_on-agrees f g found (body (perform env now s).1).1
                  (λ slept. h time e (ground (arith, early)) slept)))
      ]

  -- While the clock is less than `b` intervals before the deadline, fuel above `b` makes no
  -- difference.
  poll_stable :
      (b low f g : ℕ) (s : Session Answer)
      → From low s.count
      → deadline ≤ low + wait_interval_ms * b
      → b ≤ f
      → b ≤ g
      → poll env (suc f) deadline timeout body s ≡ poll env (suc g) deadline timeout body s
  unfolding poll
  poll_stable zero low f g s from le hf hg =
      round-agrees (poll env f deadline timeout body) (poll env g deadline timeout body) s
        λ time e early slept.
          let least : low ≤ time = from s.count time (omega arith) e in
          absurd (omega (arith, least, early, le))
  poll_stable (suc b) low zero g s from le hf hg = absurd (omega (arith, hf))
  poll_stable (suc b) low (suc f) zero s from le hf hg = absurd (omega (arith, hg))
  poll_stable (suc b) low (suc f) (suc g) s from le hf hg =
      round-agrees (poll env (suc f) deadline timeout body) (poll env (suc g) deadline timeout body)
        s
        λ time e early slept.
          let least : low ≤ time = from s.count time (omega arith) e in
          let count : suc s.count ≤ (body (perform env now s).1).1.count =
            grows (perform env now s).1 in
          poll_stable b (time + wait_interval_ms) f g _
            (λ m a le' e'.
              later s.count _ time e (omega (arith, count)) slept m a (omega (arith, le')) e')
            (omega (arith, least, le)) (omega (arith, hf)) (omega (arith, hg))

-- The clock shows at least this time from call number `n` on.
abbrev pub ShowsFrom : Environment Answer → ℕ → ℕ → Type 0
ShowsFrom env start n = (m a : ℕ) → n ≤ m → env m now ≡ returned a → start ≤ a

poll_for-End :
    (env : Environment Answer) {A : Type 0} (start span more : ℕ) (timeout : Failure)
    (body : Action Answer (Option A)) (s : Session Answer)
    → Grows body
    → Advances env
    → ShowsFrom env start s.count
    → poll env (2 + span / wait_interval_ms + more) (start + span) timeout body s
      ≡ poll_for env start span timeout body s
unfolding poll_for
poll_for-End env start span more timeout body s grows advances shows =
    let rounds = 1 + span / wait_interval_ms in
    ap (λ k. poll env k (start + span) timeout body s) (omega arith)
    ∙ poll_stable env (start + span) timeout body grows advances rounds start (rounds + more) rounds
        s shows (omega arith) (omega arith) (omega arith)
    ∙ ap (λ k. poll env k (start + span) timeout body s) (omega arith)

-- If a reading of the clock after a pause is later than one before it by at least the length of the
-- pause, and from now on the clock shows at least the time at which the loop begins, then the loop
-- that registers an intent and the loop that waits for a signed test end: each goes through at most
-- two rounds more than its time has pauses; with more rounds it gives the same result and makes the
-- same calls.
pub loops-End :
    (env : Environment Answer) (c : Config) (intent : String) (subscription : Text)
    (start started more : ℕ) (e : Failure) (s : Session Answer)
    → Advances env
    → ShowsFrom env start s.count
    → (poll env
          (2 + sync_lease_ms c.request_timeout_ms * 2 / wait_interval_ms + more)
          (start + sync_lease_ms c.request_timeout_ms * 2)
          e
          (register env c intent subscription)
          s
        ≡ poll_for env start
            (sync_lease_ms c.request_timeout_ms * 2)
            e
            (register env c intent subscription)
            s)
      × (poll env
            (2 + min c.request_timeout_ms 15000 / wait_interval_ms + more)
            (start + min c.request_timeout_ms 15000)
            e
            (look_for_test env subscription started)
            s
          ≡ poll_for env start
              (min c.request_timeout_ms 15000)
              e
              (look_for_test env subscription started)
              s)
loops-End env c intent sub start started more e s advances shows = (
  poll_for-End env start _ more e (register env c intent sub) s
      (Grown-Grows env _ (register-Grown env c sub intent)) advances shows,
  poll_for-End env start _ more e (look_for_test env sub started) s
      (Grown-Grows env _ (look_for_test-Grown env sub started)) advances shows,
)
