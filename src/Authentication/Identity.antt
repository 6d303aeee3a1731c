-- ===== src/Authentication/Identity.antt =====
-- What is known of the principal of a request.
use bug_bounty_escrow.Prelude.{
  ℕ, String, Bool, true, false, not, ◌&&◌, ◌||◌, Option, none, some, List, [], ◌∷◌, ◌≡◌, refl,
  arith, is_none, if◌then◌else◌,
}
use bug_bounty_escrow.Effect.{
  unauthorized, Outcome, returned, raised, Event, did, Session, Environment, Action, pure, throw,
  require, perform,
}
use bug_bounty_escrow.Effect.Triples.{Post, Triple, Triple-bind}
use bug_bounty_escrow.Access.{Role, Principal}
use bug_bounty_escrow.Authentication.{
  Text, User, Answer, get_user, now, find_profile, Config, Dates, read_bearer, is_approved_demo,
  has_demo_marker, is_waiver_active, is_waived, check_demo, identify, authenticate,
}

-- The last token that was asked for, with its user.
abbrev pub latest_user : List (Event Answer) → Option (Text × User)
latest_user [] = none
latest_user (did (get_user token) (returned (some user)) ∷ _) = some (token, user)
latest_user (did (get_user token) _ ∷ _) = none
latest_user (did _ _ ∷ calls) = latest_user calls

abbrev pub latest_time : List (Event Answer) → Option ℕ
latest_time [] = none
latest_time (did now (returned time) ∷ _) = some time
latest_time (did _ _ ∷ calls) = latest_time calls

-- The profile of the last call.
abbrev pub last_profile : List (Event Answer) → Option (String × Role)
last_profile (did (find_profile id) (returned (some role)) ∷ _) = some (id, role)
last_profile _ = none

abbrev pub is_waived_at : Dates → Text → Option ℕ → Bool
is_waived_at d until none = false
is_waived_at d until (some time) = is_waiver_active d until time

-- In production a user with a mark of the demo has an approved identity and a running waiver.
abbrev pub IsAdmitted : Dates → Config → User → Option ℕ → Type 0
IsAdmitted d c user time =
    (not (c.production && has_demo_marker user)
      || (is_approved_demo user && is_waived_at d c.demo_until time))
    ≡ true

-- The identity provider knows the token of the header as this user, who has an e-mail address, may be
-- here, and has a profile with this role.
abbrev pub IsKnown :
    Dates
    → Config
    → Option Text
    → Principal
    → Option (Text × User)
    → Option ℕ
    → Option (String × Role)
    → Type 0
IsKnown d c header p (some (token, user)) time (some (id, role)) =
    (read_bearer header ≡ some token)
    × ((user.id ≡ p.user_id)
        × ((is_none user.email ≡ false)
            × (IsAdmitted d c user time × ((id ≡ p.user_id) × (role ≡ p.role)))))
IsKnown d c header p _ _ _ = ⊥

abbrev pub IsIdentified :
    Dates → Config → Bool → Option Text → Outcome (Option Principal) → List (Event Answer) → Type 0
IsIdentified d c is_public header (raised e) calls = Unit
IsIdentified d c is_public header (returned none) calls =
    (is_public ≡ true) × (read_bearer header ≡ none)
IsIdentified d c is_public header (returned (some p)) calls =
    IsKnown d c header p (latest_user calls) (latest_time calls) (last_profile calls)

module _ (env : Environment Answer) (d : Dates) (c : Config) (token : Text) where
  abbrev Any : Session Answer → Type 0
  Any s = Unit

  abbrev Asked : User → Session Answer → Type 0
  Asked user s = latest_user s.calls ≡ some (token, user)

  abbrev Admitted : User → Session Answer → Type 0
  Admitted user s = IsAdmitted d c user (latest_time s.calls) × Asked user s

  abbrev Mailed : User → Session Answer → Type 0
  Mailed user s = (is_none user.email ≡ false) × Admitted user s

  abbrev FoundUser : Option User → Session Answer → Type 0
  FoundUser none s = Unit
  FoundUser (some user) s = Asked user s

  user-FoundUser : Triple Any (perform env (get_user token)) FoundUser Any
  user-FoundUser = record { at = λ s z. ground arith }

  require-Asked :
      (found : Option User) → Triple (FoundUser found) (require found unauthorized) Asked Any
  require-Asked none = record { at = λ s z. tt }
  require-Asked (some user) = record { at = λ s z. z }

  check_demo-Admitted :
      (user : User) → Triple (Asked user) (check_demo env d c user) (λ _. Admitted user) Any
  unfolding check_demo is_waived
  check_demo-Admitted user = record { at = λ s z. ground arith }

  email-Mailed :
      (user : User)
      → Triple (Admitted user) (require user.email unauthorized) (λ _. Mailed user) Any
  email-Mailed user = record { at = λ s z. ground arith }

  -- What the guard knows after the profile.
  abbrev Known : User → Option Role → Session Answer → Type 0
  Known user none s = Unit
  Known user (some role) s = (last_profile s.calls ≡ some (user.id, role)) × Mailed user s

  profile-Known :
      (user : User) → Triple (Mailed user) (perform env (find_profile user.id)) (Known user) Any
  profile-Known user = record { at = λ s z. ground arith }

  role-Known :
      (user : User) (profile : Option Role)
      → Triple
          (Known user profile)
          (require profile unauthorized)
          (λ role. Known user (some role))
          Any
  role-Known user none = record { at = λ s z. tt }
  role-Known user (some role) = record { at = λ s z. z }

  abbrev Identified : Bool → Option Text → Option Principal → Session Answer → Type 0
  Identified is_public header p s = IsIdentified d c is_public header (returned p) s.calls

  pure-Identified :
      (is_public : Bool) (header : Option Text) (user : User) (role : Role)
      → read_bearer header ≡ some token
      → Triple
          (Known user (some role))
          (pure (some (record { user_id = user.id; role = role })))
          (Identified is_public header)
          Any
  pure-Identified is_public header user role e = record { at = λ s z. ground arith }

  identify-Identified :
      (is_public : Bool) (header : Option Text)
      → read_bearer header ≡ some token
      → Triple Any (identify env d c token) (Identified is_public header) Any
  unfolding identify
  identify-Identified is_public header e = Triple-bind FoundUser user-FoundUser λ found.
      Triple-bind Asked (require-Asked found) λ user.
        Triple-bind (λ _. Admitted user) (check_demo-Admitted user)
          λ _.
            Triple-bind (λ _. Mailed user) (email-Mailed user)
              λ _. Triple-bind (Known user) (profile-Known user) λ profile.
                Triple-bind (λ role. Known user (some role)) (role-Known user profile)
                  (λ role. pure-Identified is_public header user role e)

identified :
    (d : Dates) (c : Config) (is_public : Bool) (header : Option Text)
    (o : Outcome (Option Principal)) (s : Session Answer)
    → Post (λ p s'. IsIdentified d c is_public header (returned p) s'.calls) (λ _. Unit) o s
    → IsIdentified d c is_public header o s.calls
identified d c is_public header (returned p) s z = z
identified d c is_public header (raised e) s z = tt

-- Whatever the answers, a request passes without a principal only on a public route and without a
-- bearer token; it passes with a principal only if the identity provider gave a user for the token of
-- its header, whose identity is that of the principal and who has an e-mail address, and the profile
-- of this user has the role of the principal; and a user with a mark of the local demo passes in
-- production only with an approved identity and a waiver that was running at the last reading of the
-- clock.
pub authenticate-IsIdentified :
    (env : Environment Answer) (d : Dates) (c : Config) (is_public : Bool) (header : Option Text)
    (s : Session Answer)
    → IsIdentified d c is_public header
        (authenticate env d c is_public header s).0
        (authenticate env d c is_public header s).1.calls
unfolding authenticate
authenticate-IsIdentified env d c is_public header s = split (read_bearer header) refl
  where
    split :
        (found : Option Text)
        → read_bearer header ≡ found
        → let end =
            (elim found as (λ _. Action Answer (Option Principal)) [
              | some token ↦ identify env d c token
              | none ↦ if is_public then pure none else throw unauthorized
            ])
              s in
          IsIdentified d c is_public header end.0 end.1.calls
    split (some token) e =
        identified d c is_public header (identify env d c token s).0 (identify env d c token s).1
          ((identify-Identified env d c token is_public header e).at s tt)
    split none e = ground arith
