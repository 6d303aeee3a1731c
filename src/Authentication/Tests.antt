-- ===== src/Authentication/Tests.antt =====
-- A request with a bearer token in a scripted world, and the theorem at it.
use bug_bounty_escrow.Prelude.{true, false, none, some, codes, ◌≡◌, refl}
use bug_bounty_escrow.Effect.{returned, fresh, Environment}
use bug_bounty_escrow.Access.{Role}
use bug_bounty_escrow.Authentication.{
  Answer, get_user, now, find_profile, Config, Dates, authenticate, read_bearer, strip_prefix,
  is_waiver_active, fits, canonical_until,
}
use bug_bounty_escrow.Authentication.Identity.{IsIdentified, authenticate-IsIdentified}

abbrev dates : Dates
dates = record { parse = λ t. some 2000; iso = λ time. codes "2026-01-01T00:00:00.000Z" }

abbrev config : Config
config = record { production = true; demo_until = codes "2026-01-01T00:00:00Z" }

-- A demo user while the waiver runs.
abbrev world : Environment Answer
world n (get_user _) =
    returned (
      some
        (record { id = "30000000-0000-4000-8000-000000000001"; email = some "owner@local.demo" }))
world n now = returned 1000
world n (find_profile _) = returned (some Role.owner)

token_read : read_bearer (some (codes "Bearer a.b-c")) ≡ some (codes "a.b-c")
unfolding read_bearer strip_prefix
token_read = refl

token_refused : read_bearer (some (codes "Bearer a b")) ≡ none
unfolding read_bearer strip_prefix
token_refused = refl

waiver_running : is_waiver_active dates config.demo_until 1000 ≡ true
unfolding is_waiver_active fits canonical_until
waiver_running = refl

waiver_over : is_waiver_active dates config.demo_until 2000 ≡ false
unfolding is_waiver_active fits canonical_until
waiver_over = refl

authenticate-IsIdentified_example :
    IsIdentified dates config false
      (some (codes "Bearer a.b-c"))
      (authenticate world dates config false (some (codes "Bearer a.b-c")) (fresh Answer)).0
      (authenticate world dates config false (some (codes "Bearer a.b-c")) (fresh Answer)).1.calls
authenticate-IsIdentified_example =
    authenticate-IsIdentified world dates config false (some (codes "Bearer a.b-c")) (fresh Answer)
