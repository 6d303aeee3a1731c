-- ===== src/Usdc/RoundTrip.antt =====
-- Amounts survive printing and parsing.
use bug_bounty_escrow.Prelude.{
  ℕ, ◌+◌, ◌*◌, ◌/◌, ◌%◌, ◌≤◌, true, ◌≡◌, Option, none, some, List, [], ◌∷◌, ◌++◌, length, all,
  arith, ap, sym, ◌∙◌, leb, ◌&&◌, if◌then◌else◌,
}
use bug_bounty_escrow.Usdc.{
  is_digit, is_canonical, read, pad_end, to_string, pad_start, strip_zeros, is_empty, parse, format,
  max_program_usdc_base_units, max_uint256,
}
use bug_bounty_escrow.Usdc.Digits.{
  read-to_string, all-to_string, to_string-IsCanonical, length-to_string, read-pad_start,
  all-pad_start, length-pad_start, pad_end-strip_zeros, all-strip_zeros, length-strip_zeros,
  span-all, span-dot,
}

-- The six places of the fraction.
abbrev places : ℕ → List ℕ
places v = pad_start 6 (to_string (v % 1000000))

length-places : (v : ℕ) → length (places v) ≡ 6
length-places v =
    length-pad_start 6 (to_string (v % 1000000)) (length-to_string (v % 1000000) (omega arith))

read-places : (v : ℕ) → read 0 (places v) ≡ v % 1000000
read-places v = read-pad_start 6 (to_string (v % 1000000)) ∙ read-to_string (v % 1000000)

pad_end-places : (v : ℕ) → pad_end 6 (strip_zeros (places v)) ≡ places v
pad_end-places v =
    ap (λ k. pad_end k (strip_zeros (places v))) (sym (length-places v))
    ∙ pad_end-strip_zeros (places v)

read-fraction : (v : ℕ) → read 0 (pad_end 6 (strip_zeros (places v))) ≡ v % 1000000
read-fraction v = ap (read 0) (pad_end-places v) ∙ read-places v

all-fraction : (v : ℕ) → all is_digit (strip_zeros (places v)) ≡ true
all-fraction v =
    all-strip_zeros (places v)
      (all-pad_start 6 (to_string (v % 1000000)) (all-to_string (v % 1000000)))

length-fraction : (v : ℕ) → length (strip_zeros (places v)) ≤ 6
length-fraction v = omega (arith, length-strip_zeros (places v), length-places v)

-- What `parse` makes of an amount: nothing above the bounds.
abbrev bounded : ℕ → Option ℕ
bounded v = if leb v max_uint256 && leb v max_program_usdc_base_units then some v else none

-- What `parse` makes of a whole part and a fraction.
parse-text :
    (whole fraction : List ℕ) (v : ℕ)
    → all is_digit whole ≡ true
    → is_canonical whole ≡ true
    → all is_digit fraction ≡ true
    → length fraction ≤ 6
    → read 0 whole * 1000000 + read 0 (pad_end 6 fraction) ≡ v
    → parse (if is_empty fraction then whole else whole ++ b'.' ∷ fraction) ≡ bounded v
unfolding parse
parse-text whole [] v d c df l e = ground (arith, span-all whole d)
parse-text whole (x ∷ f) v d c df l e = ground (arith, span-dot whole (x ∷ f) d)

abbrev text_of : ℕ → List ℕ
text_of v =
    if is_empty (strip_zeros (places v))
    then to_string (v / 1000000)
    else to_string (v / 1000000) ++ b'.' ∷ strip_zeros (places v)

parse-text_of : (v : ℕ) → parse (text_of v) ≡ bounded v
parse-text_of v =
    parse-text (to_string (v / 1000000)) (strip_zeros (places v)) v (all-to_string (v / 1000000))
      (to_string-IsCanonical (v / 1000000)) (all-fraction v) (length-fraction v)
      (omega (arith, read-to_string (v / 1000000), read-fraction v))

bounded-within : (v : ℕ) → v ≤ max_program_usdc_base_units → bounded v ≡ some v
bounded-within v h = ground arith

-- Every amount within the accounting bound is printed, and parsing the text gives it back.
pub parse-format :
    (v : ℕ)
    → v ≤ max_program_usdc_base_units
    → (text : List ℕ) × (format v ≡ some text) × (parse text ≡ some v)
unfolding format
parse-format v h = (text_of v, ground arith, parse-text_of v ∙ bounded-within v h)

format-text_of : (v : ℕ) (text : List ℕ) → format v ≡ some text → text_of v ≡ text
unfolding format
format-text_of v text e = ground arith

-- Whatever amount was printed, parsing the text gives the amount if it is within the accounting
-- bound, and nothing if it is above it.
pub format-parse :
    (v : ℕ) (text : List ℕ)
    → format v ≡ some text
    → parse text ≡ (if leb v max_program_usdc_base_units then some v else none)
format-parse v text e = ap parse (sym (format-text_of v text e)) ∙ parse-text_of v ∙ bounded-below v
  where
    bounded-below :
        (n : ℕ) → bounded n ≡ (if leb n max_program_usdc_base_units then some n else none)
    bounded-below n = ground arith
