-- ===== src/RateLimit/Tests.antt =====
-- The limit, at three calls of one key and one of another.
use bug_bounty_escrow.Prelude.{◌-◌, min, List, [], ◌∷◌, none, some, ◌≡◌, refl, arith}
use bug_bounty_escrow.RateLimit.{Policy, Windows, get}
use bug_bounty_escrow.RateLimit.Refinement.{IsOrdered, run_guard, run_ideal, run_guard-Refines}
use bug_bounty_escrow.RateLimit.Limits.{Call, passed, calls_of, IsDuring, passed-IsLimited}

abbrev policy : Policy
policy = record { limit = 3; window_ms = 60000 }

abbrev calls : List Call
calls =
    (policy, ("alice:GET", 1000))
    ∷ (policy, ("bob:GET", 1500))
    ∷ (policy, ("alice:GET", 2000))
    ∷ (policy, ("alice:GET", 3000))
    ∷ []

abbrev windows : Windows
windows = ("alice:GET", record { count = 1; reset_at = 60000 }) ∷ []

windows_running : get "alice:GET" windows ≡ some (record { count = 1; reset_at = 60000 })
unfolding get
windows_running = refl

calls-IsDuring : IsDuring "alice:GET" 3 60000 calls
calls-IsDuring = (
  omega arith,
  (
    λ _. refl,
    (omega arith, (λ _. refl, (omega arith, (λ _. refl, (omega arith, (λ _. refl, tt)))))),
  ),
)

passed-IsLimited_example :
    passed "alice:GET" calls windows ≡ min (calls_of "alice:GET" calls) (3 - 1)
passed-IsLimited_example =
    passed-IsLimited "alice:GET" 3 1 60000 calls windows windows_running calls-IsDuring

calls-IsOrdered : IsOrdered 1000 calls
calls-IsOrdered = (omega arith, (omega arith, (omega arith, (omega arith, tt))))

run_guard-Refines_example : run_guard calls [] ≡ run_ideal calls (λ k. none)
run_guard-Refines_example = run_guard-Refines calls 1000 calls-IsOrdered
