-- ===== src/Shared/License.antt =====
-- crates/shared/src/license.rs and the response of dto.rs: the payload of a signed license.
use development_kit.Prelude.{ℕ, Str, Bool, leb}
use development_kit.TreeMap.{TreeMap}
use development_kit.Shared.FeatureKey.{FeatureKey}
use development_kit.Shared.Entitlements.{FeatureValue}

pub record LicenseToken : Type 0 where
  pub token_id : Str
  pub user_id : Str
  pub account_id : Str
  pub plan : Str
  pub features : TreeMap FeatureKey FeatureValue
  pub issued_at : ℕ
  pub expires_at : ℕ

unfoldable pub is_expired_at : LicenseToken → ℕ → Bool
is_expired_at token now = leb token.expires_at now

pub record LicenseRefreshResponse : Type 0 where
  pub payload_b64 : Str
  pub signature_b64 : Str
  pub expires_at : ℕ
