-- ===== src/RateLimit/Limits.antt =====
-- How many requests pass in one window.
use bug_bounty_escrow.Prelude.{
  min, ℕ, suc, ◌-◌, ◌<◌, String, Bool, true, false, some, List, [], ◌∷◌, leb, if◌then◌else◌, str_eq,
  str_eq_iff, ◌≡◌, refl, ap, ◌∙◌, arith, Bool-cases, inl, inr,
}
use bug_bounty_escrow.RateLimit.{
  Window, Policy, Windows, get, set, drop_expired, prune, current_window, settle, activate,
}

pub str_eq_same : (k key other : String) → str_eq k key ≡ true → str_eq k other ≡ str_eq key other
str_eq_same k key other h = rw ((str_eq_iff k key).0 h)

str_eq_refl : (k : String) → str_eq k k ≡ true
str_eq_refl k = (str_eq_iff k k).1 refl

pub get-set : (key : String) (w : Window) (l : Windows) → get key (set key w l) ≡ some w
unfolding get set
get-set key w [] = ground (arith, str_eq_refl key)
get-set key w ((k, v) ∷ rest) = ground (arith, get-set key w rest)

pub get-set_other :
    (key other : String) (w : Window) (l : Windows)
    → str_eq key other ≡ false
    → get other (set key w l) ≡ get other l
unfolding get set
get-set_other key other w [] h = ground arith
get-set_other key other w ((k, v) ∷ rest) h =
    ground (arith, get-set_other key other w rest h, str_eq_same k key other)

-- A window that has not ended is not dropped while its key is there once.
get-drop_expired :
    (now : ℕ) (key : String) (w : Window) (l : Windows)
    → get key l ≡ some w
    → now < w.reset_at
    → get key (drop_expired now l) ≡ some w
unfolding get drop_expired
get-drop_expired now key w [] h live = h
get-drop_expired now key w ((k, v) ∷ rest) h live = ground (arith, get-drop_expired now key w rest)

get-prune :
    (now : ℕ) (key : String) (w : Window) (l : Windows)
    → get key l ≡ some w
    → now < w.reset_at
    → get key (prune now l) ≡ some w
unfolding prune
get-prune now key w l h live = ground (arith, get-drop_expired now key w l)

-- A call in a running window is counted, and passes exactly up to the limit.
activate-counts :
    (policy : Policy) (key : String) (now count reset : ℕ) (l : Windows)
    → get key l ≡ some (record { count = count; reset_at = reset })
    → now < reset
    → (get key (activate policy key now l).windows
        ≡ some (record { count = suc count; reset_at = reset }))
      × ((activate policy key now l).allowed ≡ leb (suc count) policy.limit)
unfolding activate settle current_window
activate-counts policy key now count reset l h live = ground (
  arith,
  h,
  get-set key (record { count = suc count; reset_at = reset }) l,
  get-prune now key (record { count = suc count; reset_at = reset })
      (set key (record { count = suc count; reset_at = reset }) l),
)

-- A call for another key leaves a running window as it is.
activate-other :
    (policy : Policy) (other key : String) (now : ℕ) (w : Window) (l : Windows)
    → get key l ≡ some w
    → now < w.reset_at
    → str_eq other key ≡ false
    → get key (activate policy other now l).windows ≡ some w
unfolding activate settle
activate-other policy other key now w l h live different = ground (
  arith,
  get-set_other other key (current_window policy now (get other l)) l different,
  get-prune now key w (set other (current_window policy now (get other l)) l),
)

-- A call with its policy, key and time.
abbrev pub Call : Type 0
Call = Policy × (String × ℕ)

-- The requests of `key` that pass in a sequence of calls.
pub passed : String → List Call → Windows → ℕ
passed key [] l = 0
passed key ((policy, (k, now)) ∷ calls) l =
    let rest = passed key calls (activate policy k now l).windows in
    if str_eq k key then (if (activate policy k now l).allowed then suc rest else rest) else rest

-- The calls are before the end of the window, and those of the key have its limit.
abbrev pub IsDuring : String → ℕ → ℕ → List Call → Type 0
IsDuring key limit reset [] = Unit
IsDuring key limit reset ((policy, (k, now)) ∷ calls) =
    (now < reset) × ((str_eq k key ≡ true → policy.limit ≡ limit) × IsDuring key limit reset calls)

-- The calls of the key.
pub calls_of : String → List Call → ℕ
calls_of key [] = 0
calls_of key ((policy, (k, now)) ∷ calls) =
    let rest = calls_of key calls in if str_eq k key then suc rest else rest

own-counts :
    (policy : Policy) (k key : String) (now count reset : ℕ) (l : Windows)
    → k ≡ key
    → get key l ≡ some (record { count = count; reset_at = reset })
    → now < reset
    → (get key (activate policy k now l).windows
        ≡ some (record { count = suc count; reset_at = reset }))
      × ((activate policy k now l).allowed ≡ leb (suc count) policy.limit)
own-counts policy k key now count reset l eq h live = (
  ap (λ x. get key (activate policy x now l).windows) eq
      ∙ (activate-counts policy key now count reset l h live).0,
  ap (λ x. (activate policy x now l).allowed) eq
      ∙ (activate-counts policy key now count reset l h live).1,
)

-- One step of the count, in numbers.
count_step :
    (rest n limit count : ℕ) (allowed : Bool)
    → allowed ≡ leb (suc count) limit
    → rest ≡ min n (limit - suc count)
    → (if allowed then suc rest else rest) ≡ min (suc n) (limit - count)
count_step rest n limit count allowed a r = ground arith

-- While a window runs, whatever other keys do meanwhile and whatever is pruned, of the calls of a
-- key exactly as many pass as the limit leaves: the first ones up to it, and none after that.
pub passed-IsLimited :
    (key : String) (limit count reset : ℕ) (calls : List Call) (l : Windows)
    → get key l ≡ some (record { count = count; reset_at = reset })
    → IsDuring key limit reset calls
    → passed key calls l ≡ min (calls_of key calls) (limit - count)
unfolding passed calls_of
passed-IsLimited key limit count reset [] l h d = omega arith
passed-IsLimited key limit count reset ((policy, (k, now)) ∷ calls) l h d =
    elim (Bool-cases (str_eq k key)) [
      | inl same ↦
          let step = own-counts policy k key now count reset l ((str_eq_iff k key).0 same) h d.0 in
          let rest =
            passed-IsLimited key limit (suc count) reset calls (activate policy k now l).windows
              step.0 d.1.1 in
          rw same (
            count_step (passed key calls (activate policy k now l).windows) (calls_of key calls)
              limit count (activate policy k now l).allowed
              (step.1 ∙ ap (leb (suc count)) (d.1.0 same)) rest)
      | inr other ↦
          let kept =
            activate-other policy k key now (record { count = count; reset_at = reset }) l h d.0
              other in
          let rest =
            passed-IsLimited key limit count reset calls (activate policy k now l).windows kept
              d.1.1 in
          ground (arith, rest)
    ]
