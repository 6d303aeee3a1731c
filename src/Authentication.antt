-- ===== src/Authentication.antt =====
-- Who a request comes from, `AuthenticationGuard` (apps/api/src/auth/authentication.guard.ts). A text
-- that the guard reads is a list of code points; `Date.parse`, `toISOString`, the identity provider
-- and the profiles are outside.
pub mod Identity
mod Tests
use bug_bounty_escrow.Prelude.{
  ℕ, suc, ◌-◌, String, Bool, true, false, not, ◌&&◌, ◌||◌, Option, none, some, List, [], ◌∷◌, ◌++◌,
  length, take, drop, all, ltb, leb, ◌==◌, if◌then◌else◌, codes, codes_eq, lower, includes,
}
use bug_bounty_escrow.Effect.{
  unauthorized, Environment, Action, pure, throw, ◌>>=◌, ◌>>◌, throw_if, require, perform,
}
use bug_bounty_escrow.Access.{Role, Principal}

abbrev pub Text : Type 0
Text = List ℕ

-- The user of the identity provider.
pub record User : Type 0 where
  pub id : String
  pub email : Option String

pub data Op : Type 0 where
  get_user : Text → Op
  now : Op
  find_profile : String → Op

-- A token may belong to nobody, and a user may have no profile.
abbrev pub Answer : Op → Type 0
Answer (get_user _) = Option User
Answer now = ℕ
Answer (find_profile _) = Option Role

-- `NODE_ENV === 'production'`, `LOCAL_DEMO_IDENTITIES_ALLOWED_UNTIL ?? ''`
pub record Config : Type 0 where
  pub production : Bool
  pub demo_until : Text

-- `Date.parse` where it is finite, and `new Date(time).toISOString()`.
pub record Dates : Type 0 where
  pub parse : Text → Option ℕ
  pub iso : ℕ → Text

abbrev is_digit : ℕ → Bool
is_digit c = leb b'0' c && leb c b'9'

abbrev is_letter : ℕ → Bool
is_letter c = (leb b'a' c && leb c b'z') || (leb b'A' c && leb c b'Z')

-- `[A-Za-z0-9._~-]`
abbrev is_token : ℕ → Bool
is_token c = is_letter c || (is_digit c || (c == b'.' || (c == b'_' || (c == b'~' || c == b'-'))))

-- The rest after a prefix.
unfoldable pub strip_prefix : Text → Text → Option Text
strip_prefix [] t = some t
strip_prefix (p ∷ ps) [] = none
strip_prefix (p ∷ ps) (c ∷ t) = let rest = strip_prefix ps t in if p == c then rest else none

abbrev token_of : Option Text → Option Text
token_of none = none
token_of (some []) = none
token_of (some (c ∷ t)) = if all is_token (c ∷ t) then some (c ∷ t) else none

-- `readBearerToken`
unfoldable pub read_bearer : Option Text → Option Text
read_bearer none = none
read_bearer (some header) = token_of (strip_prefix (codes "Bearer ") header)

-- `LOCAL_DEMO_USER_IDS`
abbrev pub demo_ids : List String
demo_ids =
    "30000000-0000-4000-8000-000000000001" ∷ "30000000-0000-4000-8000-000000000002"
    ∷ "30000000-0000-4000-8000-000000000003" ∷ "30000000-0000-4000-8000-000000000004"
    ∷ "30000000-0000-4000-8000-000000000005" ∷ "30000000-0000-4000-8000-000000000006"
    ∷ "30000000-0000-4000-8000-000000000007" ∷ []

-- `isApprovedLocalDemoIdentity`
unfoldable pub is_approved_demo : User → Bool
is_approved_demo user = includes demo_ids user.id

-- `text.endsWith(suffix)`
abbrev ends_with : Text → Text → Bool
ends_with suffix t =
    leb (length suffix) (length t) && codes_eq (drop (length t - length suffix) t) suffix

abbrev is_demo_email : Option String → Bool
is_demo_email none = false
is_demo_email (some email) = ends_with (codes "@local.demo") (lower email)

-- `hasLocalDemoIdentityMarker`
unfoldable pub has_demo_marker : User → Bool
has_demo_marker user = is_approved_demo user || is_demo_email user.email

-- A text by its pattern, in which `d` stands for a digit.
unfoldable pub fits : Text → Text → Bool
fits [] [] = true
fits (p ∷ ps) (c ∷ t) = (if p == b'd' then is_digit c else p == c) && fits ps t
fits _ _ = false

abbrev seconds_pattern : Text
seconds_pattern = codes "dddd-dd-ddTdd:dd:ddZ"

abbrev millis_pattern : Text
millis_pattern = codes "dddd-dd-ddTdd:dd:dd.dddZ"

-- `canonicalAllowedUntil`
unfoldable pub canonical_until : Text → Text
canonical_until t = if fits millis_pattern t then t else take (length t - 1) t ++ codes ".000Z"

abbrev runs_until : Dates → Text → ℕ → Option ℕ → Bool
runs_until d t time none = false
runs_until d t time (some expires) =
    codes_eq (d.iso expires) (canonical_until t) && ltb time expires

-- `isLocalDemoIdentityWaiverActive`
unfoldable pub is_waiver_active : Dates → Text → ℕ → Bool
is_waiver_active d t time =
    (fits seconds_pattern t || fits millis_pattern t) && runs_until d t time (d.parse t)

module _ (env : Environment Answer) (d : Dates) (c : Config) where
  -- `isApprovedLocalDemoIdentity(user) && isLocalDemoIdentityWaiverActive(config)`
  unfoldable pub is_waived : User → Action Answer Bool
  is_waived user =
      if is_approved_demo user
      then (do time ← perform env now; pure (is_waiver_active d c.demo_until time))
      else pure false

  -- A demo identity is let in to production only by the waiver.
  unfoldable pub check_demo : User → Action Answer (Unit {0})
  check_demo user =
      if c.production && has_demo_marker user
      then (do waived ← is_waived user; throw_if (not waived) unauthorized)
      else pure tt

  unfoldable pub identify : Text → Action Answer (Option Principal)
  identify token = do
    found ← perform env (get_user token)
    user ← require found unauthorized
    check_demo user
    require user.email unauthorized
    profile ← perform env (find_profile user.id)
    role ← require profile unauthorized
    pure (some (record { user_id = user.id; role = role }))

  -- `canActivate`: the principal of the request, if it has one.
  unfoldable pub authenticate : Bool → Option Text → Action Answer (Option Principal)
  authenticate is_public header = elim (read_bearer header) [
    | some token ↦ identify token
    | none ↦ if is_public then pure none else throw unauthorized
  ]
