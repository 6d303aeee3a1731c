-- ===== src/RateLimit.antt =====
-- The rate limit of a principal on a route, `RateLimitGuard`
-- (apps/api/src/common/guards/rate-limit.guard.ts): the `Map` of windows is an association list, and
-- the time of the call is given. Requests without a policy or a principal pass before this.
pub mod Limits
pub mod Refinement
mod Tests
use bug_bounty_escrow.Prelude.{
  ℕ, suc, ◌+◌, ◌-◌, ◌/◌, String, Bool, true, false, Option, none, some, List, [], ◌∷◌, length, ltb,
  leb, if◌then◌else◌, str_eq,
}

pub record Window : Type 0 where
  pub count : ℕ
  pub reset_at : ℕ

pub record Policy : Type 0 where
  pub limit : ℕ
  pub window_ms : ℕ

abbrev pub Windows : Type 0
Windows = List (String × Window)

-- `windows.get(key)`
unfoldable pub get : String → Windows → Option Window
get key [] = none
get key ((k, w) ∷ rest) = if str_eq k key then some w else get key rest

-- `windows.set(key, window)`: in its place, or at the end.
unfoldable pub set : String → Window → Windows → Windows
set key window [] = (key, window) ∷ []
set key window ((k, w) ∷ rest) =
    let deeper = set key window rest in if str_eq k key then (k, window) ∷ rest else (k, w) ∷ deeper

unfoldable pub drop_expired : ℕ → Windows → Windows
drop_expired now [] = []
drop_expired now ((k, w) ∷ rest) =
    let kept = drop_expired now rest in if leb w.reset_at now then kept else (k, w) ∷ kept

abbrev prune_size : ℕ
prune_size = 1000

-- `prune`
unfoldable pub prune : ℕ → Windows → Windows
prune now windows = if ltb (length windows) prune_size then windows else drop_expired now windows

-- The window of the call, with the call counted.
unfoldable pub current_window : Policy → ℕ → Option Window → Window
current_window policy now none = record { count = 1; reset_at = now + policy.window_ms }
current_window policy now (some w) =
    if leb w.reset_at now
    then record { count = 1; reset_at = now + policy.window_ms }
    else record { count = suc w.count; reset_at = w.reset_at }

-- The headers of the answer.
pub record Headers : Type 0 where
  pub rate_limit : ℕ
  pub remaining : ℕ
  pub reset : ℕ
  pub retry_after : Option ℕ

-- `Math.ceil(milliseconds / 1000)`
abbrev pub seconds : ℕ → ℕ
seconds ms = (ms + 999) / 1000

abbrev pub at_least_one : ℕ → ℕ
at_least_one n = if ltb n 1 then 1 else n

-- What a call of the guard leaves: whether the request passes, the headers, and the windows.
pub record Verdict : Type 0 where
  pub allowed : Bool
  pub headers : Headers
  pub windows : Windows

-- `canActivate`, from the window on.
unfoldable pub settle : Policy → String → ℕ → Windows → Window → Verdict
settle policy key now windows window =
    if ltb policy.limit window.count
    then record {
      allowed = false;
      headers = record {
        rate_limit = policy.limit;
        remaining = policy.limit - window.count;
        reset = seconds window.reset_at;
        retry_after = some (at_least_one (seconds (window.reset_at - now)));
      };
      windows = set key window windows;
    }
    else record {
      allowed = true;
      headers = record {
        rate_limit = policy.limit;
        remaining = policy.limit - window.count;
        reset = seconds window.reset_at;
        retry_after = none;
      };
      windows = prune now (set key window windows);
    }

-- `canActivate`, with the key of the principal and the route.
unfoldable pub activate : Policy → String → ℕ → Windows → Verdict
activate policy key now windows =
    settle policy key now windows (current_window policy now (get key windows))
