-- ===== src/Effect/Triples.antt =====
-- Statements before and after an action: from a session with `P` the action returns a value with
-- `Q`, or raises an exception and leaves a session with `R`.
use bug_bounty_escrow.Effect.{
  Failure, Outcome, returned, raised, Session, Action, ◌>>=◌, continue, recover, catch,
}

module _ {Op : Type 0} {Answer : Op → Type 0} where
  abbrev pub Post :
      {A : Type 0}
      → (A → Session Answer → Type 0)
      → (Session Answer → Type 0)
      → Outcome A
      → Session Answer
      → Type 0
  Post Q R (returned a) s = Q a s
  Post Q R (raised e) s = R s

  pub record Triple {A : Type 0} (P : Session Answer → Type 0) (m : Action Answer A)
      (Q : A → Session Answer → Type 0) (R : Session Answer → Type 0) : Type 0 where
    pub at : (s : Session Answer) → P s → Post Q R (m s).0 (m s).1

  Post-continue :
      {A B : Type 0} (Q : A → Session Answer → Type 0) (Q' : B → Session Answer → Type 0)
      (R : Session Answer → Type 0) (f : A → Action Answer B)
      → ((a : A) → Triple (Q a) (f a) Q' R)
      → (o : Outcome A) (s : Session Answer) → Post Q R o s
      → Post Q' R (continue o f s).0 (continue o f s).1
  Post-continue Q Q' R f rest (returned a) s h = (rest a).at s h
  Post-continue Q Q' R f rest (raised e) s h = h

  -- The rule for `m >>= f`.
  pub Triple-bind :
      {A B : Type 0} {P : Session Answer → Type 0} {m : Action Answer A}
      (Q : A → Session Answer → Type 0) {Q' : B → Session Answer → Type 0}
      {R : Session Answer → Type 0} {f : A → Action Answer B}
      → Triple P m Q R
      → ((a : A) → Triple (Q a) (f a) Q' R)
      → Triple P (m >>= f) Q' R
  Triple-bind Q {Q'} {R} {f} first rest = record {
    at = λ s h. Post-continue Q Q' R f rest _ _ (first.at s h);
  }

  Post-weaken :
      {A : Type 0} (Q Q' : A → Session Answer → Type 0) (R R' : Session Answer → Type 0)
      → ((a : A) (s : Session Answer) → Q a s → Q' a s)
      → ((s : Session Answer) → R s → R' s)
      → (o : Outcome A) (s : Session Answer) → Post Q R o s
      → Post Q' R' o s
  Post-weaken Q Q' R R' q r (returned a) s h = q a s h
  Post-weaken Q Q' R R' q r (raised e) s h = r s h

  -- A weaker conclusion.
  pub Triple-weaken :
      {A : Type 0} {P : Session Answer → Type 0} {m : Action Answer A}
      {Q Q' : A → Session Answer → Type 0} {R R' : Session Answer → Type 0}
      → Triple P m Q R
      → ((a : A) (s : Session Answer) → Q a s → Q' a s)
      → ((s : Session Answer) → R s → R' s)
      → Triple P m Q' R'
  Triple-weaken {Q} {Q'} {R} {R'} t q r = record {
    at = λ s h. Post-weaken Q Q' R R' q r _ _ (t.at s h);
  }

  Post-either :
      {A : Type 0} (R : Session Answer → Type 0) (o : Outcome A) (s : Session Answer)
      → Post (λ _. R) R o s
      → R s
  Post-either R (returned a) s h = h
  Post-either R (raised e) s h = h

  -- What holds either way, read off the final session.
  pub Triple-either :
      {A : Type 0} {P R : Session Answer → Type 0} (m : Action Answer A)
      → Triple P m (λ _. R) R
      → (s : Session Answer) → P s
      → R (m s).1
  Triple-either {R} m t s h = Post-either R (m s).0 (m s).1 (t.at s h)

  Post-recover :
      {A : Type 0} (Q : A → Session Answer → Type 0) (R R' : Session Answer → Type 0)
      (f : Failure → Action Answer A)
      → ((e : Failure) → Triple R (f e) Q R')
      → (o : Outcome A) (s : Session Answer) → Post Q R o s
      → Post Q R' (recover o f s).0 (recover o f s).1
  Post-recover Q R R' f handler (returned a) s h = h
  Post-recover Q R R' f handler (raised e) s h = (handler e).at s h

  -- The rule for `catch m f`.
  pub Triple-catch :
      {A : Type 0} {P : Session Answer → Type 0} {m : Action Answer A}
      {Q : A → Session Answer → Type 0} (R : Session Answer → Type 0) {R' : Session Answer → Type 0}
      {f : Failure → Action Answer A}
      → Triple P m Q R
      → ((e : Failure) → Triple R (f e) Q R')
      → Triple P (catch m f) Q R'
  Triple-catch {Q} R {R'} {f} t handler = record {
    at = λ s h. Post-recover Q R R' f handler _ _ (t.at s h);
  }

  Post-frame :
      {A : Type 0} (C : Type 0) (Q : A → Session Answer → Type 0) (R : Session Answer → Type 0)
      → C
      → (o : Outcome A) (s : Session Answer) → Post Q R o s
      → Post (λ a s'. C × Q a s') R o s
  Post-frame C Q R c (returned a) s h = (c, h)
  Post-frame C Q R c (raised e) s h = h

  -- What does not depend on the session is kept.
  pub Triple-frame :
      {A : Type 0} {P : Session Answer → Type 0} {m : Action Answer A}
      {Q : A → Session Answer → Type 0} {R : Session Answer → Type 0} (C : Type 0)
      → Triple P m Q R
      → Triple (λ s. C × P s) m (λ a s. C × Q a s) R
  Triple-frame {Q} {R} C t = record { at = λ s h. Post-frame C Q R h.0 _ _ (t.at s h.1) }
