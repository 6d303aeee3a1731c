-- ===== src/Usdc/Digits.antt =====
-- The decimal digits of a number, and the padding of the fraction.
use bug_bounty_escrow.Prelude.{
  ℕ, zero, suc, ◌+◌, ◌-◌, ◌*◌, ◌/◌, ◌%◌, ◌≤◌, ◌<◌, true, ◌≡◌, refl, List, [], ◌∷◌, ◌++◌, length,
  all, arith, ap, ◌∙◌, ltb, Bool-cases, inl, inr,
}
use bug_bounty_escrow.Usdc.{
  is_digit, span_digits, is_canonical, read, pad_end, digits, to_string, zeros, pad_start,
  strip_zeros,
}

-- Reading the digits gives the number back, whatever stands behind them.
read-digits : (rounds n : ℕ) (out : List ℕ) → n < rounds → read 0 (digits rounds n out) ≡ read n out
unfolding read digits
read-digits zero n out h = absurd (omega arith)
read-digits (suc rounds) n out h = elim (Bool-cases (ltb n 10)) [
  | inl small ↦ rw small (ground arith)
  | inr large ↦ rw large (
      read-digits rounds (n / 10) ((b'0' + n % 10) ∷ out) (ground arith)
      ∙ ap (λ k. read k out) (omega arith))
]

pub read-to_string : (n : ℕ) → read 0 (to_string n) ≡ n
unfolding to_string read
read-to_string n = read-digits (suc n) n [] (omega arith)

all-digits :
    (rounds n : ℕ) (out : List ℕ)
    → all is_digit out ≡ true
    → n < rounds
    → all is_digit (digits rounds n out) ≡ true
unfolding digits
all-digits zero n out h k = absurd (omega arith)
all-digits (suc rounds) n out h k = elim (Bool-cases (ltb n 10)) [
  | inl small ↦ rw small (ground arith)
  | inr large ↦
      rw large (all-digits rounds (n / 10) ((b'0' + n % 10) ∷ out) (ground arith) (ground arith))
]

pub all-to_string : (n : ℕ) → all is_digit (to_string n) ≡ true
unfolding to_string
all-to_string n = all-digits (suc n) n [] refl (omega arith)

-- The first digit of a positive number is not zero.
digits-IsCanonical :
    (rounds n : ℕ) (out : List ℕ) → 0 < n → n < rounds → is_canonical (digits rounds n out) ≡ true
unfolding digits is_canonical
digits-IsCanonical zero n out h k = absurd (omega arith)
digits-IsCanonical (suc rounds) n [] h k = elim (Bool-cases (ltb n 10)) [
  | inl small ↦ rw small refl
  | inr large ↦
      rw large
        (digits-IsCanonical rounds (n / 10) ((b'0' + n % 10) ∷ []) (ground arith) (ground arith))
]
digits-IsCanonical (suc rounds) n (c ∷ out) h k = elim (Bool-cases (ltb n 10)) [
  | inl small ↦ rw small (ground arith)
  | inr large ↦
      rw large (
        digits-IsCanonical rounds (n / 10) ((b'0' + n % 10) ∷ c ∷ out) (ground arith)
          (ground arith))
]

pub to_string-IsCanonical : (n : ℕ) → is_canonical (to_string n) ≡ true
unfolding to_string digits is_canonical
to_string-IsCanonical zero = refl
to_string-IsCanonical (suc n) =
    digits-IsCanonical (suc (suc n)) (suc n) [] (omega arith) (omega arith)

abbrev ten_power : ℕ → ℕ
ten_power zero = 1
ten_power (suc k) = 10 * ten_power k

length-digits :
    (rounds k n : ℕ) (out : List ℕ)
    → n < rounds
    → n < ten_power (suc k)
    → length (digits rounds n out) ≤ suc k + length out
unfolding digits
length-digits zero k n out h b = absurd (omega arith)
length-digits (suc rounds) zero n out h b = elim (Bool-cases (ltb n 10)) [
  | inl small ↦ rw small (omega arith)
  | inr large ↦ absurd (ground arith)
]
length-digits (suc rounds) (suc k) n out h b = elim (Bool-cases (ltb n 10)) [
  | inl small ↦ rw small (omega arith)
  | inr large ↦ rw large (
      omega (
        arith,
        length-digits rounds k (n / 10) ((b'0' + n % 10) ∷ out) (ground arith) (omega arith),
      ))
]

pub length-to_string : (n : ℕ) → n < 1000000 → length (to_string n) ≤ 6
unfolding to_string
length-to_string n h = omega (arith, length-digits (suc n) 5 n [] (omega arith) (omega arith))

-- Leading zeros do not change a number.
read-zeros : (k : ℕ) (s : List ℕ) → read 0 (zeros k s) ≡ read 0 s
unfolding read zeros
read-zeros zero s = refl
read-zeros (suc k) s = read-zeros k s

all-zeros : (k : ℕ) (s : List ℕ) → all is_digit s ≡ true → all is_digit (zeros k s) ≡ true
unfolding zeros
all-zeros zero s h = h
all-zeros (suc k) s h = ground (arith, all-zeros k s)

length-zeros : (k : ℕ) (s : List ℕ) → length (zeros k s) ≡ k + length s
unfolding zeros
length-zeros zero s = omega arith
length-zeros (suc k) s = omega (arith, length-zeros k s)

pub read-pad_start : (k : ℕ) (s : List ℕ) → read 0 (pad_start k s) ≡ read 0 s
unfolding pad_start
read-pad_start k s = read-zeros (k - length s) s

pub all-pad_start :
    (k : ℕ) (s : List ℕ) → all is_digit s ≡ true → all is_digit (pad_start k s) ≡ true
unfolding pad_start
all-pad_start k s h = all-zeros (k - length s) s h

pub length-pad_start : (k : ℕ) (s : List ℕ) → length s ≤ k → length (pad_start k s) ≡ k
unfolding pad_start
length-pad_start k s h = omega (arith, length-zeros (k - length s) s)

-- Stripped zeros come back by padding.
pub pad_end-strip_zeros : (s : List ℕ) → pad_end (length s) (strip_zeros s) ≡ s
unfolding pad_end strip_zeros
pad_end-strip_zeros [] = refl
pad_end-strip_zeros (c ∷ s) = ground (arith, pad_end-strip_zeros s)

pub all-strip_zeros : (s : List ℕ) → all is_digit s ≡ true → all is_digit (strip_zeros s) ≡ true
unfolding strip_zeros
all-strip_zeros [] h = refl
all-strip_zeros (c ∷ s) h = ground (arith, all-strip_zeros s)

pub length-strip_zeros : (s : List ℕ) → length (strip_zeros s) ≤ length s
unfolding strip_zeros
length-strip_zeros [] = omega arith
length-strip_zeros (c ∷ s) = ground (arith, length-strip_zeros s)

-- A run of digits is found whole, at the end of the text and before a dot.
pub span-all : (s : List ℕ) → all is_digit s ≡ true → span_digits s ≡ (s, [])
unfolding span_digits
span-all [] h = refl
span-all (c ∷ s) h = ground (arith, span-all s)

pub span-dot : (s f : List ℕ) → all is_digit s ≡ true → span_digits (s ++ b'.' ∷ f) ≡ (s, b'.' ∷ f)
unfolding span_digits
span-dot [] f h = refl
span-dot (c ∷ s) f h = ground (arith, span-dot s f)
