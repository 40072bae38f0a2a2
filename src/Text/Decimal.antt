-- ===== src/Text/Decimal.antt =====
-- `u64::to_string` and `str::parse::<u64>`. A `u64` has at most 20 digits, which is the fuel.
pub mod RoundTrip
use development_kit.Prelude.{
  u64_max, ℕ, zero, suc, ◌+◌, ◌-◌, ◌*◌, ◌/◌, ◌%◌, ◌^◌, Str, Option, none, some, List, [], ◌∷◌, ◌++◌,
  ltb, leb, ◌==◌, ◌&&◌, if◌then◌else◌, Bool, true, false,
}

-- The digits of `n` before those already written.
unfoldable pub digits : ℕ → ℕ → Str → Str
digits zero n out = out
digits (suc fuel) n out = elim (ltb n 10) [
  | true ↦ (48 + n) ∷ out
  | false ↦ digits fuel (n / 10) ((48 + n % 10) ∷ out)
]

unfoldable pub decimal : ℕ → Str
unfolding digits
decimal n = digits 20 n []

-- The parser checks for overflow at every digit.
unfoldable pub read_digits : ℕ → Str → Option ℕ
read_digits acc [] = some acc
read_digits acc (c ∷ s) = elim (leb 48 c && leb c 57 && leb (acc * 10 + (c - 48)) u64_max) [
  | true ↦ read_digits (acc * 10 + (c - 48)) s
  | false ↦ none
]

unfoldable pub non_empty_digits : Str → Option ℕ
unfolding read_digits
non_empty_digits [] = none
non_empty_digits (c ∷ s) = read_digits 0 (c ∷ s)

-- A leading plus sign is accepted.
unfoldable pub parse_u64 : Str → Option ℕ
unfolding non_empty_digits
parse_u64 [] = none
parse_u64 (c ∷ s) = if c == b'+' then non_empty_digits s else non_empty_digits (c ∷ s)
