-- ===== src/Prelude/Text.antt =====
-- Texts as the program compares them: `===` on strings, and `toLowerCase` on both sides. The
-- lower-casing is that of ASCII letters, which is exact on addresses, hashes and UUIDs.
use Prim.Native.Nat.{ℕ, ◌+◌, compare, Ordering}
use Prim.Native.Char.{code}
use Prim.Native.String.{String}
use mathlib.Core.Path.{◌≡◌}
use mathlib.Core.Logic.{◌↔◌}
use mathlib.Core.Bool.{Bool, true, false, ◌&&◌}
use mathlib.Core.List.{List, [], ◌∷◌, map}
use text.Mathlib.Text.{◌==◌}
use text.Mathlib.TextEquality.{eq_iff}
use bug_bounty_escrow.Prelude.Tests.{leb, if◌then◌else◌}

-- `a === b`
abbrev pub str_eq : String → String → Bool
str_eq a b = a == b

pub str_eq_iff : (a b : String) → (str_eq a b ≡ true) ↔ (a ≡ b)
str_eq_iff a b = eq_iff a b

abbrev pub codes : String → List ℕ
codes String.[] = []
codes (String.◌∷◌ c s) = code c ∷ codes s

abbrev pub lower_code : ℕ → ℕ
lower_code c = if leb b'A' c && leb c b'Z' then c + 32 else c

-- `text.toLowerCase()`, as code points
abbrev pub lower : String → List ℕ
lower s = map lower_code (codes s)

abbrev pub codes_eq : List ℕ → List ℕ → Bool
codes_eq [] [] = true
codes_eq (a ∷ as') (b ∷ bs) = elim (compare a b) [ Ordering.eq ↦ codes_eq as' bs | _ ↦ false ]
codes_eq _ _ = false

-- `a.toLowerCase() === b.toLowerCase()`
unfoldable pub eq_ignoring_case : String → String → Bool
eq_ignoring_case a b = codes_eq (lower a) (lower b)

-- `texts.includes(text)`
abbrev pub includes : List String → String → Bool
includes [] k = false
includes (x ∷ xs) k = if str_eq x k then true else includes xs k
