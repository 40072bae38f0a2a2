-- ===== src/Shared/ProductFeatureKey.antt =====
-- crates/shared/src/product_feature_key.rs: feature keys of the form `namespace.name`.
pub mod RoundTrip
use development_kit.Prelude.{
  ℕ, zero, suc, ◌+◌, Str, Bool, true, false, ◌&&◌, ◌||◌, not, leb, ◌==◌, all, is_empty, length,
  List, [], ◌∷◌, ◌++◌, Result, ok, err, if◌then◌else◌,
}
use development_kit.Text.{split}

pub data ProductFeatureKeyError : Type 0 where
  empty_namespace empty_name : ProductFeatureKeyError
  not_snake_case : Str → ProductFeatureKeyError

pub record ProductFeatureKey : Type 0 where
  pub key : Str
  pub sep : ℕ

unfoldable pub is_lowercase : ℕ → Bool
is_lowercase c = leb b'a' c && leb c b'z'

unfoldable pub is_segment_char : ℕ → Bool
is_segment_char c = is_lowercase c || leb b'0' c && leb c b'9' || c == b'_'

unfoldable pub is_snake_case_segment : Str → Bool
is_snake_case_segment [] = false
is_snake_case_segment (c ∷ s) = is_lowercase c && all is_segment_char s

unfoldable pub new : Str → Str → Result ProductFeatureKeyError ProductFeatureKey
new namespace name =
    if is_empty namespace
    then err empty_namespace
    else if is_empty name
    then err empty_name
    else if not (is_snake_case_segment namespace)
    then err (not_snake_case namespace)
    else if not (is_snake_case_segment name)
    then err (not_snake_case name)
    else ok (record { key = namespace ++ (b'.' ∷ name); sep = length namespace })

-- The `match` on the first three parts.
unfoldable pub from_parts : Str → List Str → Result ProductFeatureKeyError ProductFeatureKey
from_parts candidate (ns ∷ name ∷ []) = new ns name
from_parts candidate _ = err (not_snake_case candidate)

unfoldable pub parse : Str → Result ProductFeatureKeyError ProductFeatureKey
parse candidate = from_parts candidate (split b'.' candidate)

unfoldable pub as_str : ProductFeatureKey → Str
as_str k = k.key

-- The slices `[..n]` and `[n..]` of the bytes.
unfoldable pub take : ℕ → Str → Str
take zero s = []
take (suc n) [] = []
take (suc n) (c ∷ s) = c ∷ take n s

unfoldable pub drop : ℕ → Str → Str
drop zero s = s
drop (suc n) [] = []
drop (suc n) (c ∷ s) = drop n s

unfoldable pub namespace : ProductFeatureKey → Str
namespace k = take k.sep k.key

unfoldable pub name : ProductFeatureKey → Str
name k = drop (k.sep + 1) k.key
