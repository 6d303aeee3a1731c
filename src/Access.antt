-- ===== src/Access.antt =====
-- Roles and the guards on them: `RolesGuard` (apps/api/src/auth/roles.guard.ts) and the private
-- `requireOwner` of `EscrowService` (apps/api/src/escrow/escrow.service.ts).
use bug_bounty_escrow.Prelude.{
  String, Bool, true, false, not, Option, none, some, List, [], ◌∷◌, any, if◌then◌else◌,
}
use bug_bounty_escrow.Effect.{
  forbidden, not_found, Outcome, returned, raised, Action, throw, ◌>>=◌, throw_if,
}

pub data Role : Type 0 where
  owner researcher reviewer : Role

-- `RequestPrincipal`, less the e-mail address.
pub record Principal : Type 0 where
  pub user_id : String
  pub role : Role

abbrev pub same_role : Role → Role → Bool
same_role owner owner = true
same_role researcher researcher = true
same_role reviewer reviewer = true
same_role _ _ = false

abbrev pub is_owner : Role → Bool
is_owner role = same_role role owner

-- `RolesGuard.canActivate`: the roles that the route wants, if it wants any.
pub can_activate : Option (List Role) → Option Principal → Outcome Bool
can_activate none principal = returned true
can_activate (some []) principal = returned true
can_activate (some (r ∷ rs)) none = raised forbidden
can_activate (some (r ∷ rs)) (some p) =
    if any (same_role p.role) (r ∷ rs) then returned true else raised forbidden

-- `requireOwner`; `owns` is the call of `isProgramOwner`.
unfoldable pub require_owner :
    {Op : Type 0} {Answer : Op → Type 0}
    → (String → String → Action Answer Bool)
    → Principal
    → String
    → Action Answer (Unit {0})
require_owner owns principal program_id =
    if is_owner principal.role
    then (do owned ← owns program_id principal.user_id; throw_if (not owned) not_found)
    else throw forbidden
