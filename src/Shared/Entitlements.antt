-- ===== src/Shared/Entitlements.antt =====
-- crates/shared/src/entitlements.rs: what an account may use.
use development_kit.Prelude.{ℕ, Str, Option, none, some, Bool, false, ltb}
use development_kit.TreeMap
use development_kit.TreeMap.{TreeMap}
use development_kit.Shared.FeatureKey.{FeatureKey, feature_key_ord}
use development_kit.Shared.Plan.{PlanTier, SubscriptionStatus}

pub data FeatureValue : Type 0 where
  enabled : Bool → FeatureValue
  limit : ℕ → FeatureValue

pub record Entitlements : Type 0 where
  pub account_id : Str
  pub plan : PlanTier
  pub status : SubscriptionStatus
  pub trial : Bool
  pub features : TreeMap FeatureKey FeatureValue
  pub license_expires_at : Option ℕ

-- The `match` of `allows` on a looked-up value.
unfoldable pub value_allows : Option FeatureValue → Bool
value_allows (some (enabled b)) = b
value_allows (some (limit n)) = ltb 0 n
value_allows none = false

unfoldable pub allows : Entitlements → FeatureKey → Bool
unfolding value_allows
allows entitlements feature = value_allows (TreeMap.get feature entitlements.features)
