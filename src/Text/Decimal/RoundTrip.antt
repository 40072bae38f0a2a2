-- ===== src/Text/Decimal/RoundTrip.antt =====
-- What `to_string` writes of a `u64`, `parse` reads back.
use native.Mathlib.Nat.{pow-suc}
use development_kit.Prelude.{
  ℕ, zero, suc, ◌+◌, ◌*◌, ◌/◌, ◌%◌, ◌^◌, ◌≤◌, ◌<◌, Str, some, ◌≡◌, refl, ◌∙◌, ap, arith, [], ◌∷◌,
  false, ltb, is_empty, All, u64_max, Bool-cases, inl, inr, ltb→lt,
}
use development_kit.Text.Decimal.{digits, decimal, read_digits, non_empty_digits, parse_u64}

abbrev pub IsDigit : ℕ → Type 0
IsDigit c = (48 ≤ c) × (c ≤ 57)

digits-IsDigit : (fuel n : ℕ) (out : Str) → All IsDigit out → All IsDigit (digits fuel n out)
unfolding digits
digits-IsDigit zero n out a = a
digits-IsDigit (suc fuel) n out a = elim (Bool-cases (ltb n 10)) [
  | inl h ↦ rw (h, digits) ((omega arith, ground (arith, h)), a)
  | inr h ↦
      rw (h, digits)
        (digits-IsDigit fuel (n / 10) ((48 + n % 10) ∷ out) ((omega arith, omega arith), a))
]

pub decimal-IsDigit : (n : ℕ) → All IsDigit (decimal n)
unfolding decimal
decimal-IsDigit n = digits-IsDigit 20 n [] tt

is_empty-digits_cons : (fuel n c : ℕ) (out : Str) → is_empty (digits fuel n (c ∷ out)) ≡ false
unfolding digits
is_empty-digits_cons zero n c out = refl
is_empty-digits_cons (suc fuel) n c out = elim (Bool-cases (ltb n 10)) [
  | inl h ↦ rw (h, digits) refl
  | inr h ↦ rw (h, digits) (is_empty-digits_cons fuel (n / 10) (48 + n % 10) (c ∷ out))
]

is_empty-digits : (fuel n : ℕ) (out : Str) → is_empty (digits (suc fuel) n out) ≡ false
unfolding digits
is_empty-digits fuel n out = elim (Bool-cases (ltb n 10)) [
  | inl h ↦ rw (h, digits) refl
  | inr h ↦ rw (h, digits) (is_empty-digits_cons fuel (n / 10) (48 + n % 10) out)
]

-- The parser reads one more digit of a number that fits.
read_digits_cons :
    (acc d : ℕ) (s : Str)
    → d < 10
    → acc * 10 + d ≤ u64_max
    → read_digits acc ((48 + d) ∷ s) ≡ read_digits (acc * 10 + d) s
unfolding read_digits
read_digits_cons acc d s h k = ground arith

read_digits-digits :
    (fuel n : ℕ) (out : Str)
    → n < 10 ^ fuel
    → n ≤ u64_max
    → read_digits 0 (digits fuel n out) ≡ read_digits n out
unfolding digits
read_digits-digits zero n out h k = ap (λ i. read_digits i out) (omega arith)
read_digits-digits (suc fuel) n out h k = elim (Bool-cases (ltb n 10)) [
  | inl small ↦
      rw (small, digits)
        (read_digits_cons 0 n out (ltb→lt n 10 small) (omega arith)
          ∙ ap (λ i. read_digits i out) (omega arith))
  | inr large ↦
      rw (large, digits)
        (read_digits-digits fuel (n / 10) ((48 + n % 10) ∷ out) (omega (arith, pow-suc 10 fuel))
            (omega arith)
          ∙ read_digits_cons (n / 10) (n % 10) out (omega arith) (omega arith)
          ∙ ap (λ i. read_digits i out) (omega arith))
]

parse_digits : (s : Str) → All IsDigit s → is_empty s ≡ false → parse_u64 s ≡ read_digits 0 s
unfolding parse_u64 non_empty_digits
parse_digits [] a n = cc
parse_digits (c ∷ s) a n = ground arith

-- Every `u64` is read back from its decimal digits.
pub parse_u64-decimal : (n : ℕ) → n ≤ u64_max → parse_u64 (decimal n) ≡ some n
unfolding decimal
parse_u64-decimal n h =
    parse_digits (decimal n) (decimal-IsDigit n) (is_empty-digits 19 n [])
    ∙ read_digits-digits 20 n [] (omega arith) h
    ∙ unfold read_digits in refl
