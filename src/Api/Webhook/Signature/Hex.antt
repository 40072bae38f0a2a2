-- ===== src/Api/Webhook/Signature/Hex.antt =====
-- Hexadecimal: what an encoder writes, `decode_hex` reads back.
use development_kit.Prelude.{
  ℕ, ◌+◌, ◌*◌, ◌/◌, ◌%◌, ◌<◌, Str, some, ◌≡◌, refl, arith, [], ◌∷◌, true, false, ltb, ◌==◌,
  if◌then◌else◌, is_empty, length, All,
}
use development_kit.Api.Webhook.Signature.{to_digit, decode_pairs, decode_hex}

abbrev pub hex_digit : ℕ → ℕ
hex_digit n = if ltb n 10 then 48 + n else 87 + n

-- Each byte as two lower-case digits, the high one first.
abbrev pub hex : Str → Str
hex [] = []
hex (b ∷ bs) = hex_digit (b / 16) ∷ hex_digit (b % 16) ∷ hex bs

abbrev pub IsByte : ℕ → Type 0
IsByte b = b < 256

to_digit-hex_digit : (n : ℕ) → n < 16 → to_digit (hex_digit n) ≡ some n
unfolding to_digit
to_digit-hex_digit n h = ground arith

byte_parts : (b : ℕ) → b < 256 → (b / 16 * 16 + b % 16) % 256 ≡ b
byte_parts b h = omega arith

pub decode_pairs-hex : (bs : Str) → All IsByte bs → decode_pairs (hex bs) ≡ some bs
unfolding decode_pairs
decode_pairs-hex [] a = refl
decode_pairs-hex (b ∷ bs) a =
    rw
      (
        to_digit-hex_digit (b / 16) (omega (arith, a.0)),
        to_digit-hex_digit (b % 16) (omega arith),
        decode_pairs-hex bs a.1,
        byte_parts b a.0,
      )
      refl

pub length-hex : (bs : Str) → length (hex bs) ≡ 2 * length bs
length-hex [] = refl
length-hex (b ∷ bs) = omega (arith, length-hex bs)

even : (n m : ℕ) → m ≡ 2 * n → (m % 2 == 0) ≡ true
even n m h = ground arith

-- Every non-empty sequence of bytes is read back from its hexadecimal digits.
pub decode_hex-hex :
    (bs : Str) → All IsByte bs → is_empty bs ≡ false → decode_hex (hex bs) ≡ some bs
unfolding decode_hex
decode_hex-hex [] a n = cc
decode_hex-hex (b ∷ bs) a n =
    rw (even (length (b ∷ bs)) (length (hex (b ∷ bs))) (length-hex (b ∷ bs)))
      (decode_pairs-hex (b ∷ bs) a)
