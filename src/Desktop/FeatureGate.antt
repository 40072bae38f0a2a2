-- ===== src/Desktop/FeatureGate.antt =====
-- apps/desktop/src-tauri/src/feature_gate.rs: the local guard of a paid action.
use development_kit.Prelude.{Str, codes, Result, ok, err, ◌>>=◌, if◌then◌else◌}
use development_kit.Shared.FeatureKey.{FeatureKey, as_str, advanced_reports}
use development_kit.Shared.Entitlements.{Entitlements, allows}

pub record FeatureDenied : Type 0 where
  pub feature : Str

unfoldable pub decide_feature : Entitlements → FeatureKey → Result FeatureDenied (Unit {0})
decide_feature entitlements feature =
    if allows entitlements feature then ok tt else err (record { feature = as_str feature })

unfoldable pub request_advanced_report : Entitlements → Result FeatureDenied Str
request_advanced_report entitlements =
    decide_feature entitlements advanced_reports >>= λ _. ok (codes "advanced-report:ready")
