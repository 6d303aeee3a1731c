-- ===== src/Deployment/Service/Rounds.antt =====
-- The loop of `deploy` ends.
use bug_bounty_escrow.Prelude.{
  ℕ, zero, suc, ◌+◌, ◌≤◌, ◌<◌, String, true, false, ◌≡◌, refl, sym, ◌∙◌, arith, Bool-cases, inl,
  inr,
}
use bug_bounty_escrow.Effect.{
  Failure, Outcome, returned, raised, Session, Environment, Action, continue, perform,
}
use bug_bounty_escrow.Effect.Agreement.{recover-agrees, continue-agrees}
use bug_bounty_escrow.Deployment.{DeploymentRow, Answer, rotate_key, random_uuid}
use bug_bounty_escrow.Deployment.Service.{
  Primitives, Plan, max_attempts, ends_loop, submit, rotate, on_rejection, round, submit_loop,
}

-- What the service relies on: the database counts the attempts. The row that a rotation returns has
-- a greater attempt number than the row of any earlier rotation.
abbrev pub Counts : Environment Answer → Type 0
Counts env =
    (n m : ℕ) (i k h i' k' h' : String) (r r' : DeploymentRow)
    → n < m
    → env n (rotate_key i k h) ≡ returned r
    → env m (rotate_key i' k' h') ≡ returned r'
    → r.attempt < r'.attempt

module _ (env : Environment Answer) (h : Primitives) (pid : String) (plan : Plan) where
  -- From the call number `n` on, rotations return at least this attempt number.
  abbrev From : ℕ → ℕ → Type 0
  From low n =
      (m : ℕ) (i k z : String) (r : DeploymentRow)
      → n ≤ m
      → env m (rotate_key i k z) ≡ returned r
      → low ≤ r.attempt

  submit-grows :
      (row : DeploymentRow) (s : Session Answer) → s.count ≤ (submit env h pid plan row s).1.count
  unfolding submit
  submit-grows row s = ground arith

  -- Where a rotation comes from.
  rotation :
      (row : DeploymentRow) (o : Outcome String) (s : Session Answer) (z : String)
      (r : DeploymentRow)
      → (continue o (λ key. perform env (rotate_key row.id key z)) s).0 ≡ returned r
      → ((key : String) × (env s.count (rotate_key row.id key z) ≡ returned r))
        × ((continue o (λ key. perform env (rotate_key row.id key z)) s).1.count ≡ suc s.count)
  rotation row (returned key) s z r e = ((key, e), refl)
  rotation row (raised f) s z r e = ground arith

  -- A rotation returns a row with that number, and later ones return greater numbers.
  rotate-From :
      (counts : Counts env) (low : ℕ) (row r : DeploymentRow) (s : Session Answer)
      → From low s.count
      → (rotate env h plan row s).0 ≡ returned r
      → (low ≤ r.attempt) × From (low + 1) (rotate env h plan row s).1.count
  unfolding rotate
  rotate-From counts low row r s from e =
      let (here, count) =
        rotation row (env s.count random_uuid) _ (h.request_hash plan.terms) r e in
      let least : low ≤ r.attempt = from (suc s.count) row.id here.0 _ r (omega arith) here.1 in
      (
        least,
        λ m i k z r' le e'.
            let more : r.attempt < r'.attempt =
              counts (suc s.count) m row.id here.0 _ i k z r r' (omega (arith, count, le)) here.1
                e' in
            omega (arith, least, more),
      )

  on_rejection-agrees :
      (f g : DeploymentRow → Action Answer DeploymentRow) (row : DeploymentRow) (e : Failure)
      (s : Session Answer)
      → (ends_loop e row ≡ false
          → (r : DeploymentRow) → (rotate env h plan row s).0 ≡ returned r
          → f r (rotate env h plan row s).1 ≡ g r (rotate env h plan row s).1)
      → on_rejection env h plan f row e s ≡ on_rejection env h plan g row e s
  unfolding on_rejection
  on_rejection-agrees f g row e s same = elim (Bool-cases (ends_loop e row)) [
    | inl ends ↦ rw ends
    | inr goes_on ↦
        rw goes_on (
          continue-agrees f g (rotate env h plan row s).0 (rotate env h plan row s).1
            (same goes_on))
  ]

  round-agrees :
      (f g : DeploymentRow → Action Answer DeploymentRow) (row : DeploymentRow) (s : Session Answer)
      → ((e : Failure)
          → ends_loop e row ≡ false
          → (r : DeploymentRow)
          → (rotate env h plan row (submit env h pid plan row s).1).0 ≡ returned r
          → f r (rotate env h plan row (submit env h pid plan row s).1).1
            ≡ g r (rotate env h plan row (submit env h pid plan row s).1).1)
      → round env h pid plan f row s ≡ round env h pid plan g row s
  unfolding round
  round-agrees f g row s same =
      recover-agrees (on_rejection env h plan f row) (on_rejection env h plan g row)
        (submit env h pid plan row s).0 (submit env h pid plan row s).1
        (λ e. on_rejection-agrees f g row e (submit env h pid plan row s).1 (same e))

  ends_at_two : (e : Failure) (row : DeploymentRow) → 2 ≤ row.attempt → ends_loop e row ≡ true
  unfolding ends_loop max_attempts
  ends_at_two e row le = ground arith

  -- With `b` rounds left until the attempts are used up, fuel above `b` makes no difference.
  loop_stable :
      (counts : Counts env) (b low f g : ℕ) (row : DeploymentRow) (s : Session Answer)
      → From low s.count
      → low ≤ row.attempt + 1
      → low + b ≡ 3
      → b ≤ f
      → b ≤ g
      → submit_loop env h (suc f) pid plan row s ≡ submit_loop env h (suc g) pid plan row s
  unfolding submit_loop
  loop_stable counts zero low f g row s from le total hf hg =
      round-agrees (submit_loop env h f pid plan) (submit_loop env h g pid plan) row s
        (λ e goes_on. absurd (differ (sym (ends_at_two e row (omega arith)) ∙ goes_on)))
    where
      differ : true ≡ false → ⊥
      differ e = ground arith
  loop_stable counts (suc b) low zero g row s from le total hf hg = absurd (omega (arith, hf))
  loop_stable counts (suc b) low (suc f) zero row s from le total hf hg = absurd (omega (arith, hg))
  loop_stable counts (suc b) low (suc f) (suc g) row s from le total hf hg =
      round-agrees (submit_loop env h (suc f) pid plan) (submit_loop env h (suc g) pid plan) row s
        λ e goes_on r eq.
          let later : From low (submit env h pid plan row s).1.count =
            λ m i k z r' le'. from m i k z r' (omega (arith, le', submit-grows row s)) in
          let next = rotate-From counts low row r (submit env h pid plan row s).1 later eq in
          loop_stable counts b (low + 1) f g r _ next.1 (omega (arith, next.0)) (omega arith)
            (omega arith) (omega arith)

-- If the database counts the attempts, the loop of `deploy` ends within four rounds: with more
-- rounds it gives the same result and makes the same calls.
pub submit_loop-Ends :
    (env : Environment Answer) (h : Primitives) (program_id : String) (plan : Plan)
    (row : DeploymentRow) (more : ℕ) (s : Session Answer)
    → Counts env
    → submit_loop env h (4 + more) program_id plan row s ≡ submit_loop env h 4 program_id plan row s
submit_loop-Ends env h program_id plan row more s counts =
    let e : 4 + more ≡ suc (3 + more) = omega arith in
    rw e (
      loop_stable env h program_id plan counts 3 0 (3 + more) 3 row s
        (λ m i k z r le eq. omega arith) (omega arith) (omega arith) (omega arith) (omega arith))
