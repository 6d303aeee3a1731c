-- ===== src/Usdc.antt =====
-- USDC amounts: `parseUsdcBaseUnits` and `formatUsdcBaseUnits` of
-- packages/shared/src/contracts/escrow.ts. A text is the list of its code points, and a `bigint`
-- is a natural number: a negative amount, which `formatUsdcBaseUnits` refuses, is not written.
pub mod Digits
pub mod RoundTrip
mod Tests
use bug_bounty_escrow.Prelude.{
  ℕ, zero, suc, ◌+◌, ◌-◌, ◌*◌, ◌/◌, ◌%◌, ◌^◌, String, Bool, true, false, ◌&&◌, ◌||◌, Option, none,
  some, List, [], ◌∷◌, ◌++◌, length, all, ltb, leb, ◌==◌, if◌then◌else◌, codes, ◌≡◌, refl,
}

abbrev pub max_uint256 : ℕ
max_uint256 = 2 ^ 256 - 1

abbrev pub max_program_usdc_base_units : ℕ
max_program_usdc_base_units = 10 ^ 30 - 1

abbrev pub is_digit : ℕ → Bool
is_digit c = leb b'0' c && leb c b'9'

-- `/^(0|[1-9]\d*)(?:\.(\d{1,6}))?$/`: the longest run of digits, and what follows it.
pub span_digits : List ℕ → List ℕ × List ℕ
span_digits [] = ([], [])
span_digits (c ∷ s) =
    let rest = span_digits s in if is_digit c then (c ∷ rest.0, rest.1) else ([], c ∷ s)

-- `0|[1-9]\d*`, on a run of digits.
pub is_canonical : List ℕ → Bool
is_canonical [] = false
is_canonical (c ∷ []) = true
is_canonical (c ∷ _ ∷ _) = if c == b'0' then false else true

-- `(?:\.(\d{1,6}))?$`, with the fraction `match[2] ?? ''`.
pub fraction_of : List ℕ → Option (List ℕ)
fraction_of [] = some []
fraction_of (c ∷ f) =
    if c == b'.' && (all is_digit f && (ltb 0 (length f) && leb (length f) 6)) then some f else none

-- `BigInt(text)` of a run of digits; `BigInt('')` is 0.
pub read : ℕ → List ℕ → ℕ
read n [] = n
read n (c ∷ s) = read (n * 10 + (c - b'0')) s

-- `text.padEnd(n, '0')`
pub pad_end : ℕ → List ℕ → List ℕ
pad_end zero s = s
pad_end (suc n) [] = b'0' ∷ pad_end n []
pad_end (suc n) (c ∷ s) = c ∷ pad_end n s

-- `parseUsdcBaseUnits`.
unfoldable pub parse : List ℕ → Option ℕ
unfolding span_digits is_canonical fraction_of read pad_end
parse value =
    let (whole, rest) = span_digits value in
    if is_canonical whole
    then elim (fraction_of rest) [
      | none ↦ none
      | some fraction ↦
          let base_units = read 0 whole * 1000000 + read 0 (pad_end 6 fraction) in
          if leb base_units max_uint256 && leb base_units max_program_usdc_base_units
          then some base_units
          else none
    ]
    else none

-- The decimal digits of n before `out`; there are at most as many rounds as n says.
pub digits : ℕ → ℕ → List ℕ → List ℕ
digits zero n out = out
digits (suc rounds) n out =
    let rest = digits rounds (n / 10) ((b'0' + n % 10) ∷ out) in
    if ltb n 10 then (b'0' + n) ∷ out else rest

-- `n.toString()`
pub to_string : ℕ → List ℕ
unfolding digits
to_string n = digits (suc n) n []

pub zeros : ℕ → List ℕ → List ℕ
zeros zero s = s
zeros (suc n) s = b'0' ∷ zeros n s

-- `text.padStart(n, '0')`
pub pad_start : ℕ → List ℕ → List ℕ
unfolding zeros
pad_start n s = zeros (n - length s) s

abbrev is_empty : List ℕ → Bool
is_empty [] = true
is_empty (_ ∷ _) = false

-- `text.replace(/0+$/, '')`
pub strip_zeros : List ℕ → List ℕ
strip_zeros [] = []
strip_zeros (c ∷ s) =
    let rest = strip_zeros s in if is_empty rest && c == b'0' then [] else c ∷ rest

-- `formatUsdcBaseUnits`; `none` is the `RangeError`.
unfoldable pub format : ℕ → Option (List ℕ)
unfolding to_string pad_start strip_zeros
format value =
    if ltb max_uint256 value
    then none
    else (let fraction = strip_zeros (pad_start 6 (to_string (value % 1000000))) in
        some (
          if is_empty fraction
          then to_string (value / 1000000)
          else to_string (value / 1000000) ++ b'.' ∷ fraction))

format_test : format 12340500 ≡ some (codes "12.3405")
unfolding format
format_test = refl

parse_test : parse (codes "12.3405") ≡ some 12340500
unfolding parse
parse_test = refl

parse_leading_zero : parse (codes "012") ≡ none
unfolding parse
parse_leading_zero = refl

parse_seven_places : parse (codes "1.1234567") ≡ none
unfolding parse
parse_seven_places = refl
