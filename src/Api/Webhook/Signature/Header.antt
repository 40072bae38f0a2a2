-- ===== src/Api/Webhook/Signature/Header.antt =====
-- The header that Stripe documents, `t=<seconds>,v1=<hex>`, parses to its two fields.
use development_kit.Prelude.{
  ℕ, ◌/◌, ◌%◌, ◌≤◌, ◌<◌, Str, codes, Option, none, some, ◌≡◌, refl, arith, [], ◌∷◌, ◌++◌, All,
  All-map, u64_max, ok, ◌⊎◌, inl, str_eq,
}
use development_kit.Text.{split, split_first, split_once, trim, trim_start, trim_end, is_whitespace}
use development_kit.Text.Decimal.{decimal, parse_u64}
use development_kit.Text.Decimal.RoundTrip.{decimal-IsDigit, parse_u64-decimal}
use development_kit.Api.Webhook.Signature.{read_part, read_parts, both, parse_signature_header}
use development_kit.Api.Webhook.Signature.Hex.{hex, hex_digit, IsByte}

-- A lower-case hexadecimal digit: no separator and no white space.
abbrev pub IsHexDigit : ℕ → Type 0
IsHexDigit c = ((48 ≤ c) × (c ≤ 57)) ⊎ ((97 ≤ c) × (c ≤ 102))

hex_digit-IsHexDigit : (n : ℕ) → n < 16 → IsHexDigit (hex_digit n)
hex_digit-IsHexDigit n h = ground arith

hex-IsHexDigit : (bs : Str) → All IsByte bs → All IsHexDigit (hex bs)
hex-IsHexDigit [] a = tt
hex-IsHexDigit (b ∷ bs) a = (
  hex_digit-IsHexDigit (b / 16) (omega (arith, a.0)),
  (hex_digit-IsHexDigit (b % 16) (omega arith), hex-IsHexDigit bs a.1),
)

split_first_digits : (s : Str) → All IsHexDigit s → split_first b',' s ≡ (s, [])
unfolding split_first
split_first_digits [] a = refl
split_first_digits (c ∷ s) a = ground (arith, a.0, split_first_digits s a.1)

split_first_at :
    (s rest : Str)
    → All IsHexDigit s
    → split_first b',' (s ++ (b',' ∷ rest))
      ≡ (s, (split_first b',' rest).0 ∷ (split_first b',' rest).1)
unfolding split_first
split_first_at [] rest a = refl
split_first_at (c ∷ s) rest a = ground (arith, a.0, split_first_at s rest a.1)

trim_end_digits : (s : Str) → All IsHexDigit s → trim_end s ≡ s
unfolding trim_end is_whitespace
trim_end_digits [] a = refl
trim_end_digits (c ∷ s) a = ground (arith, a.0, trim_end_digits s a.1)

trim_start_digits : (s : Str) → All IsHexDigit s → trim_start s ≡ s
unfolding trim_start is_whitespace
trim_start_digits [] a = refl
trim_start_digits (c ∷ s) a = ground (arith, a.0)

trim_digits : (s : Str) → All IsHexDigit s → trim s ≡ s
unfolding trim
trim_digits s a = rw (trim_start_digits s a) (trim_end_digits s a)

-- The header with a timestamp and a code.
abbrev pub header : ℕ → Str → Str
header timestamp code = codes "t=" ++ (decimal timestamp ++ (b',' ∷ (codes "v1=" ++ hex code)))

split-header :
    (d h : Str)
    → All IsHexDigit d
    → All IsHexDigit h
    → split b',' (codes "t=" ++ (d ++ (b',' ∷ (codes "v1=" ++ h))))
      ≡ (codes "t=" ++ d) ∷ (codes "v1=" ++ h) ∷ []
unfolding split split_first
split-header d h a b = rw (split_first_at d (codes "v1=" ++ h) a, split_first_digits h b) refl

read-t :
    (d : Str) → All IsHexDigit d → read_part (codes "t=" ++ d) (none, none) ≡ (parse_u64 d, none)
unfolding read_part split_once str_eq
read-t d a = rw (trim_digits d a) (unfold trim trim_start trim_end is_whitespace in refl)

read-v1 :
    (h : Str) (t : Option ℕ)
    → All IsHexDigit h
    → read_part (codes "v1=" ++ h) (t, none) ≡ (t, some h)
unfolding read_part split_once str_eq
read-v1 h t a = rw (trim_digits h a) (unfold trim trim_start trim_end is_whitespace in refl)

decimal-IsHexDigit : (n : ℕ) → All IsHexDigit (decimal n)
decimal-IsHexDigit n = All-map (decimal n) (λ c d. inl d) (decimal-IsDigit n)

-- A header that is written as Stripe documents parses to its timestamp and its code, for every
-- `u64` timestamp and every code made of bytes.
pub parse_signature_header-header :
    (timestamp : ℕ) (code : Str)
    → timestamp ≤ u64_max
    → All IsByte code
    → parse_signature_header (header timestamp code) ≡ ok (timestamp, hex code)
unfolding parse_signature_header read_parts both
parse_signature_header-header timestamp code h a =
    rw
      (
        split-header (decimal timestamp) (hex code) (decimal-IsHexDigit timestamp)
            (hex-IsHexDigit code a),
        read-t (decimal timestamp) (decimal-IsHexDigit timestamp),
        parse_u64-decimal timestamp h,
        read-v1 (hex code) (some timestamp) (hex-IsHexDigit code a),
      )
      refl
