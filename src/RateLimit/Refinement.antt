-- ===== src/RateLimit/Refinement.antt =====
-- The guard with its pruned map answers as an ideal one that forgets no window.
use bug_bounty_escrow.Prelude.{
  ℕ, ◌-◌, ◌≤◌, String, Bool, Option, none, some, List, [], ◌∷◌, leb, if◌then◌else◌, str_eq,
  str_eq_iff, ◌≡◌, refl, sym, ap, ◌∙◌, arith, Bool-cases, inl, inr,
}
use bug_bounty_escrow.RateLimit.{
  Window, Policy, Windows, Headers, seconds, at_least_one, get, set, drop_expired, prune,
  current_window, settle, activate,
}
use bug_bounty_escrow.RateLimit.Limits.{Call, get-set, get-set_other}

-- A window that has not ended.
abbrev live : ℕ → Option Window → Option Window
live now none = none
live now (some w) = if leb w.reset_at now then none else some w

-- What a call is answered: whether it passes, and the headers.
abbrev pub Reply : Type 0
Reply = Bool × Headers

-- The ideal guard keeps for every key the window of its last call, for ever.
abbrev pub Ideal : Type 0
Ideal = String → Option Window

-- A call passes if it is within the limit of its window; only a refused call is told when to retry.
pub ideal_reply : Policy → ℕ → Window → Reply
ideal_reply policy now w = (
  leb w.count policy.limit,
  record {
    rate_limit = policy.limit;
    remaining = policy.limit - w.count;
    reset = seconds w.reset_at;
    retry_after =
        if leb w.count policy.limit then none else some (at_least_one (seconds (w.reset_at - now)));
  },
)

pub run_ideal : List Call → Ideal → List Reply
run_ideal [] f = []
run_ideal ((policy, (key, now)) ∷ calls) f =
    ideal_reply policy now (current_window policy now (f key))
    ∷ run_ideal calls (λ k. if str_eq key k then some (current_window policy now (f key)) else f k)

pub run_guard : List Call → Windows → List Reply
run_guard [] l = []
run_guard ((policy, (key, now)) ∷ calls) l =
    ((activate policy key now l).allowed, (activate policy key now l).headers)
    ∷ run_guard calls (activate policy key now l).windows

-- The clock does not run backwards.
abbrev pub IsOrdered : ℕ → List Call → Type 0
IsOrdered t [] = Unit
IsOrdered t ((_, (_, now)) ∷ calls) = (t ≤ now) × IsOrdered now calls

-- Every key is in the map once.
abbrev IsUnique : Windows → Type 0
IsUnique [] = Unit
IsUnique ((k, w) ∷ rest) = (get k rest ≡ none) × IsUnique rest

str_eq_comm : (a b : String) → str_eq a b ≡ str_eq b a
str_eq_comm a b = elim (Bool-cases (str_eq a b)) [
  | inl same ↦ rw ((str_eq_iff a b).0 same)
  | inr other ↦ ground (arith, str_eq_iff a b, str_eq_iff b a)
]

set-IsUnique : (key : String) (w : Window) (l : Windows) → IsUnique l → IsUnique (set key w l)
unfolding set get
set-IsUnique key w [] u = (refl, tt)
set-IsUnique key w ((k, v) ∷ rest) u = elim (Bool-cases (str_eq k key)) [
  | inl same ↦ rw same u
  | inr other ↦
      rw other
        (get-set_other key k w rest (str_eq_comm key k ∙ other) ∙ u.0, set-IsUnique key w rest u.1)
]

drop_expired-none :
    (now : ℕ) (k : String) (l : Windows) → get k l ≡ none → get k (drop_expired now l) ≡ none
unfolding get drop_expired
drop_expired-none now k [] h = h
drop_expired-none now k ((j, v) ∷ rest) h = ground (arith, drop_expired-none now k rest)

drop_expired-IsUnique : (now : ℕ) (l : Windows) → IsUnique l → IsUnique (drop_expired now l)
unfolding drop_expired
drop_expired-IsUnique now [] u = tt
drop_expired-IsUnique now ((j, v) ∷ rest) u =
    ground (arith, drop_expired-none now j rest, drop_expired-IsUnique now rest)

live-drop_expired :
    (now : ℕ) (k : String) (l : Windows)
    → IsUnique l
    → live now (get k (drop_expired now l)) ≡ live now (get k l)
unfolding get drop_expired
live-drop_expired now k [] u = refl
live-drop_expired now k ((j, v) ∷ rest) u = ground (
  arith,
  live-drop_expired now k rest u.1,
  drop_expired-none now j rest u.0,
  str_eq_iff j k,
  drop_expired-none now k rest,
)

live-prune :
    (now : ℕ) (k : String) (l : Windows)
    → IsUnique l
    → live now (get k (prune now l)) ≡ live now (get k l)
unfolding prune
live-prune now k l u = ground (arith, live-drop_expired now k l u)

prune-IsUnique : (now : ℕ) (l : Windows) → IsUnique l → IsUnique (prune now l)
unfolding prune
prune-IsUnique now l u = ground (arith, drop_expired-IsUnique now l u)

-- What is live later was live before.
live-live : (t now : ℕ) (o : Option Window) → t ≤ now → live now (live t o) ≡ live now o
live-live t now none le = refl
live-live t now (some w) le = ground arith

current_window-live :
    (policy : Policy) (now : ℕ) (o : Option Window)
    → current_window policy now o ≡ current_window policy now (live now o)
unfolding current_window
current_window-live policy now none = refl
current_window-live policy now (some w) = ground arith

-- The map and the ideal guard know the same live windows.
abbrev IsSame : ℕ → Windows → Ideal → Type 0
IsSame t l f = (k : String) → live t (get k l) ≡ live t (f k)

settle-ideal_reply :
    (policy : Policy) (key : String) (now : ℕ) (l : Windows) (w : Window)
    → ((settle policy key now l w).allowed, (settle policy key now l w).headers)
      ≡ ideal_reply policy now w
unfolding settle ideal_reply
settle-ideal_reply policy key now l w = ground arith

settle-IsUnique :
    (policy : Policy) (key : String) (now : ℕ) (l : Windows) (w : Window)
    → IsUnique l
    → IsUnique (settle policy key now l w).windows
unfolding settle
settle-IsUnique policy key now l w u =
    ground (arith, prune-IsUnique now (set key w l), set-IsUnique key w l u)

live-settle :
    (policy : Policy) (key k : String) (now : ℕ) (l : Windows) (w : Window)
    → IsUnique l
    → live now (get k (settle policy key now l w).windows) ≡ live now (get k (set key w l))
unfolding settle
live-settle policy key k now l w u =
    ground (arith, live-prune now k (set key w l) (set-IsUnique key w l u))

settle-IsSame :
    (policy : Policy) (key : String) (now : ℕ) (l : Windows) (w : Window) (f : Ideal)
    → IsUnique l
    → IsSame now l f
    → IsSame now (settle policy key now l w).windows (λ k. if str_eq key k then some w else f k)
settle-IsSame policy key now l w f u same k = elim (Bool-cases (str_eq key k)) [
  | inl here ↦
      live-settle policy key k now l w u
      ∙ ap (λ j. live now (get j (set key w l))) (sym ((str_eq_iff key k).0 here))
      ∙ rw here (ap (live now) (get-set key w l))
  | inr other ↦
      live-settle policy key k now l w u
      ∙ rw other (ap (live now) (get-set_other key k w l other) ∙ same k)
]

later-IsSame : (t now : ℕ) (l : Windows) (f : Ideal) → t ≤ now → IsSame t l f → IsSame now l f
later-IsSame t now l f le same k =
    sym (live-live t now (get k l) le) ∙ ap (live now) (same k) ∙ live-live t now (f k) le

same_window :
    (policy : Policy) (key : String) (now : ℕ) (l : Windows) (f : Ideal)
    → IsSame now l f
    → current_window policy now (get key l) ≡ current_window policy now (f key)
same_window policy key now l f same =
    current_window-live policy now (get key l)
    ∙ ap (current_window policy now) (same key)
    ∙ sym (current_window-live policy now (f key))

run-IsRefined :
    (calls : List Call) (t : ℕ) (l : Windows) (f : Ideal)
    → IsUnique l
    → IsSame t l f
    → IsOrdered t calls
    → run_guard calls l ≡ run_ideal calls f
unfolding run_guard run_ideal activate
run-IsRefined [] t l f u same ordered = refl
run-IsRefined ((policy, (key, now)) ∷ calls) t l f u same ordered =
    let same' : IsSame now l f = later-IsSame t now l f ordered.0 same in
    let w = current_window policy now (get key l) in
    let rest =
      run-IsRefined calls now (settle policy key now l w).windows
        (λ k. if str_eq key k then some w else f k) (settle-IsUnique policy key now l w u)
        (settle-IsSame policy key now l w f u same') ordered.1 in
    ap (λ a. a ∷ run_guard calls (settle policy key now l w).windows)
      (settle-ideal_reply policy key now l w)
    ∙ ap (λ r. ideal_reply policy now w ∷ r) rest
    ∙ ap
        (λ v.
          ideal_reply policy now v ∷ run_ideal calls (λ k. if str_eq key k then some v else f k))
        (same_window policy key now l f same')

-- Whatever the keys and the policies of the calls, while the clock does not run backwards the guard,
-- which starts with an empty map, drops ended windows when it prunes, and does not prune after a
-- refusal, lets the same calls pass and sends the same headers as an ideal guard that keeps the
-- window of every key for ever.
pub run_guard-Refines :
    (calls : List Call) (t : ℕ)
    → IsOrdered t calls
    → run_guard calls [] ≡ run_ideal calls (λ k. none)
unfolding get
run_guard-Refines calls t ordered = run-IsRefined calls t [] (λ k. none) tt (λ k. refl) ordered
