-- ===== src/Shared/ProductFeatureKey/RoundTrip.antt =====
-- A product feature key and its wire string determine each other.
use native.Mathlib.Nat.{suc-add}
use development_kit.Prelude.{
  ℕ, ◌+◌, Str, ◌≡◌, refl, ◌∙◌, ap, arith, true, false, ◌==◌, all, length, List, [], ◌∷◌, ◌++◌, ok,
  All, Bool-cases, inl, inr, ==_iff,
}
use development_kit.Text.{split, split_first}
use development_kit.Shared.ProductFeatureKey.{
  ProductFeatureKey, is_lowercase, is_segment_char, is_snake_case_segment, new, from_parts, parse,
  as_str, take, drop, namespace, name,
}

-- A key that `new` builds from two segments.
pub record IsKey (ns nm : Str) (k : ProductFeatureKey) : Type 0 where
  pub ns_segment : is_snake_case_segment ns ≡ true
  pub nm_segment : is_snake_case_segment nm ≡ true
  pub key_eq : k.key ≡ ns ++ (b'.' ∷ nm)
  pub sep_eq : k.sep ≡ length ns

pub new-IsKey : (ns nm : Str) (k : ProductFeatureKey) → new ns nm ≡ ok k → IsKey ns nm k
unfolding new
new-IsKey ns nm k h = ground (arith, h)

joined : Str → List Str → Str
joined part [] = part
joined part (q ∷ qs) = part ++ (b'.' ∷ joined q qs)

joined_cons :
    (c : ℕ) (part : Str) (parts : List Str) → joined (c ∷ part) parts ≡ c ∷ joined part parts
unfolding joined
joined_cons c part [] = refl
joined_cons c part (q ∷ qs) = refl

-- The parts of a split, put together again.
joined-split_first : (s : Str) → joined (split_first b'.' s).0 (split_first b'.' s).1 ≡ s
unfolding joined split_first
joined-split_first [] = refl
joined-split_first (c ∷ s) = elim (Bool-cases (c == b'.')) [
  | inl e ↦ rw e (cc (joined-split_first s, (==_iff c b'.').0 e))
  | inr e ↦ rw e (
      joined_cons c (split_first b'.' s).0 (split_first b'.' s).1
      ∙ ap (λ r. c ∷ r) (joined-split_first s))
]

segment-no_dot : (c : ℕ) → is_segment_char c ≡ true → (c == b'.') ≡ false
unfolding is_segment_char is_lowercase
segment-no_dot c h = ground arith

abbrev NoDot : Str → Type 0
NoDot s = All (λ c. (c == b'.') ≡ false) s

segments-NoDot : (s : Str) → all is_segment_char s ≡ true → NoDot s
segments-NoDot [] h = tt
segments-NoDot (c ∷ s) h =
    (segment-no_dot c (ground (arith, h)), segments-NoDot s (ground (arith, h)))

segment-NoDot : (s : Str) → is_snake_case_segment s ≡ true → NoDot s
unfolding is_snake_case_segment is_lowercase
segment-NoDot [] h = tt
segment-NoDot (c ∷ s) h = (ground (arith, h), segments-NoDot s (ground (arith, h)))

split_first_part : (s : Str) → NoDot s → split_first b'.' s ≡ (s, [])
unfolding split_first
split_first_part [] a = refl
split_first_part (c ∷ s) a = ground (arith, a.0, split_first_part s a.1)

split_first_dot : (s t : Str) → NoDot s → NoDot t → split_first b'.' (s ++ (b'.' ∷ t)) ≡ (s, t ∷ [])
unfolding split_first
split_first_dot [] t a b = rw (split_first_part t b) refl
split_first_dot (c ∷ s) t a b = ground (arith, a.0, split_first_dot s t a.1 b)

parse_segments :
    (ns nm : Str)
    → is_snake_case_segment ns ≡ true
    → is_snake_case_segment nm ≡ true
    → parse (ns ++ (b'.' ∷ nm)) ≡ new ns nm
unfolding parse from_parts split
parse_segments ns nm a b = rw (split_first_dot ns nm (segment-NoDot ns a) (segment-NoDot nm b)) refl

parse-as_str : (ns nm : Str) (k : ProductFeatureKey) → new ns nm ≡ ok k → parse (as_str k) ≡ ok k
unfolding as_str
parse-as_str ns nm k h =
    let w = new-IsKey ns nm k h in
    ap parse w.key_eq ∙ parse_segments ns nm w.ns_segment w.nm_segment ∙ h

from_parts-key :
    (candidate part : Str) (parts : List Str) (k : ProductFeatureKey)
    → joined part parts ≡ candidate
    → from_parts candidate (part ∷ parts) ≡ ok k
    → k.key ≡ candidate
unfolding from_parts joined
from_parts-key candidate part [] k e h = cc
from_parts-key candidate part (q ∷ []) k e h = (new-IsKey part q k h).key_eq ∙ e
from_parts-key candidate part (q ∷ r ∷ qs) k e h = cc

-- A text that parses is the wire string of the key that it parses to.
pub as_str-parse :
    (candidate : Str) (k : ProductFeatureKey) → parse candidate ≡ ok k → as_str k ≡ candidate
unfolding parse split as_str
as_str-parse candidate k h =
    from_parts-key candidate (split_first b'.' candidate).0 (split_first b'.' candidate).1 k
      (joined-split_first candidate) h

take_part : (s t : Str) → take (length s) (s ++ t) ≡ s
unfolding take
take_part [] t = refl
take_part (c ∷ s) t = ap (λ r. c ∷ r) (take_part s t)

drop_part : (s t : Str) (c : ℕ) → drop (length s + 1) (s ++ (c ∷ t)) ≡ t
unfolding drop
drop_part [] t c = refl
drop_part (d ∷ s) t c = rw (suc-add (length s) 1) (drop_part s t c)

-- A key that is built from a namespace and a name gives both back, and its wire string parses back
-- to that key.
pub new_lem :
    (ns nm : Str) (k : ProductFeatureKey)
    → new ns nm ≡ ok k
    → (parse (as_str k) ≡ ok k) × (namespace k ≡ ns) × (name k ≡ nm)
unfolding namespace name
new_lem ns nm k h =
    let w = new-IsKey ns nm k h in
    (
      parse-as_str ns nm k h,
      rw (w.key_eq, w.sep_eq) (take_part ns (b'.' ∷ nm)),
      rw (w.key_eq, w.sep_eq) (drop_part ns nm b'.'),
    )
