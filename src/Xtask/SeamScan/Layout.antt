-- ===== src/Xtask/SeamScan/Layout.antt =====
-- The forms in which a call of `ProductFeatureKey::new` may be written.
use development_kit.Prelude.{ℕ, ◌≡◌, arith, Str, codes, true, false, ◌==◌, all, [], ◌∷◌, ◌++◌, All}
use development_kit.Text.{is_whitespace}
use development_kit.Shared.ProductFeatureKey.{is_lowercase, is_segment_char, is_snake_case_segment}
use development_kit.Xtask.SeamScan.Source.{call}

-- How the product sources write the namespace of a key.
pub data NsExpr : Type 0 where
  literal constant meta : NsExpr

abbrev pub ns_text : NsExpr → Str → Str
ns_text literal ns = b'"' ∷ (ns ++ (b'"' ∷ []))
ns_text constant ns = codes "NAMESPACE"
ns_text meta ns = codes "meta().namespace"

-- The white space of a call, before its namespace, before and after the comma, and what stands
-- between the name and the closing parenthesis.
pub record Layout : Type 0 where
  pub before_ns : Str
  pub after_ns : Str
  pub before_name : Str
  pub last : Str

-- The text from the comma on, and the text from the opening parenthesis on.
abbrev pub from_comma : Layout → Str → Str → Str
from_comma lay name rest =
    b',' ∷ (lay.before_name ++ (b'"' ∷ (name ++ (b'"' ∷ (lay.last ++ rest)))))

abbrev pub arguments : Layout → NsExpr → Str → Str → Str → Str
arguments lay form ns name rest =
    lay.before_ns ++ (ns_text form ns ++ (lay.after_ns ++ from_comma lay name rest))

-- A call, and the text that follows it.
abbrev pub planted : Layout → NsExpr → Str → Str → Str → Str
planted lay form ns name post = call ++ arguments lay form ns name (b')' ∷ post)

abbrev pub AllSpace : Str → Type 0
AllSpace = All (λ c. is_whitespace c ≡ true)

abbrev pub NoParens : Str → Type 0
NoParens = All (λ c. ((c == b'(') ≡ false) × ((c == b')') ≡ false))

-- The first three are white space, and the last has no parenthesis: it is white space, a comma or
-- both in Rust source.
pub record IsLayout (lay : Layout) : Type 0 where
  pub spaced_ns : AllSpace lay.before_ns
  pub spaced_comma : AllSpace lay.after_ns
  pub spaced_name : AllSpace lay.before_name
  pub closed : NoParens lay.last

-- A character of a segment is none of those that the scan reads.
abbrev pub IsPlain : ℕ → Type 0
IsPlain c =
    ((c == b'(') ≡ false)
    × ((c == b')') ≡ false)
    × ((c == b'[') ≡ false)
    × ((c == b']') ≡ false)
    × ((c == b',') ≡ false)
    × ((c == b'"') ≡ false)
    × (is_whitespace c ≡ false)

segment_char-IsPlain : (c : ℕ) → is_segment_char c ≡ true → IsPlain c
unfolding is_segment_char is_lowercase is_whitespace
segment_char-IsPlain c h = ground arith

segment_chars : (s : Str) → all is_segment_char s ≡ true → All IsPlain s
segment_chars [] h = tt
segment_chars (c ∷ s) h = (segment_char-IsPlain c (ground arith), segment_chars s (ground arith))

pub segment-IsPlain : (s : Str) → is_snake_case_segment s ≡ true → All IsPlain s
unfolding is_snake_case_segment is_lowercase is_segment_char
segment-IsPlain [] h = tt
segment-IsPlain (c ∷ s) h = (segment_char-IsPlain c (ground arith), segment_chars s (ground arith))
