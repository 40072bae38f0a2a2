-- ===== src/Shared/FeatureKey.antt =====
-- crates/shared/src/feature_key.rs: the baseline feature keys.
use development_kit.Prelude.{ℕ, Str, codes, List, [], ◌∷◌, ◌≡◌, arith}
use development_kit.Prelude.Order.{Ord, by_index}

pub data FeatureKey : Type 0 where
  export_pdf cloud_sync advanced_reports team_members max_projects priority_support : FeatureKey
  api_access : FeatureKey

unfoldable pub as_str : FeatureKey → Str
as_str export_pdf = codes "export_pdf"
as_str cloud_sync = codes "cloud_sync"
as_str advanced_reports = codes "advanced_reports"
as_str team_members = codes "team_members"
as_str max_projects = codes "max_projects"
as_str priority_support = codes "priority_support"
as_str api_access = codes "api_access"

abbrev pub all_keys : List FeatureKey
all_keys =
    export_pdf ∷ cloud_sync ∷ advanced_reports ∷ team_members ∷ max_projects ∷ priority_support
    ∷ api_access ∷ []

abbrev pub index : FeatureKey → ℕ
index export_pdf = 0
index cloud_sync = 1
index advanced_reports = 2
index team_members = 3
index max_projects = 4
index priority_support = 5
index api_access = 6

pub index_injective : (a b : FeatureKey) → index a ≡ index b → a ≡ b
index_injective a b h = ground arith

-- The derived `Ord`: by position.
instance abbrev pub feature_key_ord : Ord FeatureKey
feature_key_ord = by_index index index_injective
