-- ===== src/Domain/Programs.antt =====
-- The paths of a program, and its public view.
use bug_bounty_escrow.Prelude.{true, some, ◌≡◌, refl, ◌↔◌, ◌⊎◌, arith, any}
use bug_bounty_escrow.Domain.{
  ProgramStatus, PublicStatus, same_program, can_transition_program, to_public, statuses_for_public,
}

-- A listing by public status holds exactly the programs that are shown with this status.
pub statuses_for_public-to_public :
    (shown : PublicStatus) (s : ProgramStatus)
    → (any (same_program s) (statuses_for_public shown) ≡ true) ↔ (to_public s ≡ some shown)
unfolding statuses_for_public to_public
statuses_for_public-to_public shown s = (λ h. ground arith, λ h. ground arith)

-- Moves of a program, one after another.
pub data Reaches : ProgramStatus → ProgramStatus → Type 0 where
  here : (s : ProgramStatus) → Reaches s s
  there : (s t u : ProgramStatus) → can_transition_program s t ≡ true → Reaches t u → Reaches s u

-- No sequence of moves of the table leads into deactivation, or out of it.
pub deactivated-IsIsolated :
    (s t : ProgramStatus)
    → Reaches s t
    → (s ≡ ProgramStatus.deactivated) ⊎ (t ≡ ProgramStatus.deactivated)
    → s ≡ t
unfolding can_transition_program
deactivated-IsIsolated s t (here _) h = refl
deactivated-IsIsolated s t (there _ u _ ok r) h = ground (arith, deactivated-IsIsolated u t r)
