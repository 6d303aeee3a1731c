-- ===== src/Effect/Agreement.antt =====
-- Two actions agree where their parts do.
use bug_bounty_escrow.Prelude.{◌≡◌, refl}
use bug_bounty_escrow.Effect.{
  Failure, Outcome, returned, raised, Session, Action, continue, recover,
}

module _ {Op : Type 0} {Answer : Op → Type 0} where
  pub recover-agrees :
      {A : Type 0} (f g : Failure → Action Answer A) (o : Outcome A) (s : Session Answer)
      → ((e : Failure) → f e s ≡ g e s)
      → recover o f s ≡ recover o g s
  recover-agrees f g (returned a) s h = refl
  recover-agrees f g (raised e) s h = h e

  pub continue-agrees :
      {A B : Type 0} (f g : A → Action Answer B) (o : Outcome A) (s : Session Answer)
      → ((a : A) → o ≡ returned a → f a s ≡ g a s)
      → continue o f s ≡ continue o g s
  continue-agrees f g (returned a) s h = h a refl
  continue-agrees f g (raised e) s h = refl
