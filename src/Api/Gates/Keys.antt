-- ===== src/Api/Gates/Keys.antt =====
-- The path segment of a gate names a feature key.
use development_kit.Prelude.{
  Str, some, ◌≡◌, refl, sym, ◌∙◌, ap, arith, List, [], ◌∷◌, str_eq, str_eq→eq, Bool-cases, inl, inr,
  ◌↔◌,
}
use development_kit.Shared.FeatureKey.{
  FeatureKey, as_str, export_pdf, cloud_sync, advanced_reports, team_members, max_projects,
  priority_support, api_access, all_keys,
}
use development_kit.Api.Gates.{find_key, parse_feature_key}

find_key-as_str :
    (token : Str) (ks : List FeatureKey) (k : FeatureKey)
    → find_key token ks ≡ some k
    → token ≡ as_str k
unfolding find_key
find_key-as_str token [] k h = cc
find_key-as_str token (j ∷ ks) k h = elim (Bool-cases (str_eq (as_str j) token)) [
  | inl e ↦ sym (str_eq→eq (as_str j) token e) ∙ ap as_str (ground (arith, h, e))
  | inr e ↦ find_key-as_str token ks k (ground (arith, h, e))
]

pub parse_feature_key-as_str : (k : FeatureKey) → parse_feature_key (as_str k) ≡ some k
unfolding parse_feature_key find_key as_str str_eq
parse_feature_key-as_str export_pdf = refl
parse_feature_key-as_str cloud_sync = refl
parse_feature_key-as_str advanced_reports = refl
parse_feature_key-as_str team_members = refl
parse_feature_key-as_str max_projects = refl
parse_feature_key-as_str priority_support = refl
parse_feature_key-as_str api_access = refl

-- A text parses to a feature key exactly when it is the wire string of that key: every key is
-- found, no text is taken for another key's, and any other text is none.
pub parse_feature_key_iff :
    (token : Str) (k : FeatureKey) → (parse_feature_key token ≡ some k) ↔ (token ≡ as_str k)
unfolding parse_feature_key
parse_feature_key_iff token k =
    (find_key-as_str token all_keys k, λ e. ap parse_feature_key e ∙ parse_feature_key-as_str k)
