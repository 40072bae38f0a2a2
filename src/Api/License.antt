-- ===== src/Api/License.antt =====
-- services/api/src/license.rs: issuing a license, and the handler `POST /license/refresh`. The
-- clock is an argument.
use development_kit.Prelude.{
  saturating_add, ℕ, ◌*◌, Str, codes, Option, none, Result, ok, err, unwrap_or, ◌++◌, false,
}
use development_kit.Text.Decimal.{decimal}
use development_kit.Shared.Plan
use development_kit.Shared.Plan.{PlanTier, SubscriptionStatus}
use development_kit.Shared.Entitlements.{Entitlements}
use development_kit.Shared.License.{LicenseToken, LicenseRefreshResponse}
use development_kit.Crypto.{Ed25519, TokenCodec, Base64}
use development_kit.Licenses.{sign}
use development_kit.Api.Http.{StatusCode, unauthorized}
use development_kit.Api.Principal.{Principal, resolve_principal}
use development_kit.Api.Entitlement.{AccountState, resolve_entitlements}
use development_kit.Api.Accounts.{AccountStateStore}

abbrev pub default_token_ttl_secs : ℕ
default_token_ttl_secs = 7 * 24 * 60 * 60

abbrev pub free_account_state : AccountState
free_account_state = record {
  plan = PlanTier.free;
  status = SubscriptionStatus.free;
  trial = false;
  current_period_end = none;
}

-- The token that `issue_license` signs.
unfoldable pub license_token : Str → Str → Entitlements → ℕ → ℕ → LicenseToken
license_token account_id user_id entitlements now ttl_secs = record {
  token_id = codes "lic_" ++ (account_id ++ (codes "_" ++ decimal now));
  user_id = user_id;
  account_id = account_id;
  plan = Plan.as_str entitlements.plan;
  features = entitlements.features;
  issued_at = now;
  expires_at = saturating_add now ttl_secs;
}

module _ (ed : Ed25519) (codec : TokenCodec) (base64 : Base64) where
  unfoldable pub issue_license :
      ed.SigningKey → Str → Str → Entitlements → ℕ → ℕ → LicenseRefreshResponse
  issue_license signer account_id user_id entitlements now ttl_secs =
      let token = license_token account_id user_id entitlements now ttl_secs in
      let signed = sign ed codec signer token in
      record {
        payload_b64 = base64.encode signed.payload;
        signature_b64 = base64.encode signed.signature;
        expires_at = token.expires_at;
      }

  module _ (store : AccountStateStore) where
    -- The signer, the time to live, the principals and the accounts.
    pub record LicenseState : Type 0 where
      pub signer : ed.SigningKey
      pub ttl_secs : ℕ
      pub principals : Str → Option Principal
      pub accounts : store.State

    -- The entitlements of an account: those of the free tier if it has no billing state.
    unfoldable pub current_entitlements : store.State → Str → ℕ → Entitlements
    current_entitlements accounts account_id now =
        resolve_entitlements account_id
          (unwrap_or (store.account_state accounts account_id) free_account_state) now

    unfoldable pub refresh :
        LicenseState → Option Str → ℕ → Result StatusCode LicenseRefreshResponse
    refresh state auth_header now = elim (resolve_principal state.principals auth_header) [
      | err e ↦ err unauthorized
      | ok principal ↦ ok (
          issue_license state.signer principal.account_id principal.user_id
            (current_entitlements state.accounts principal.account_id now) now state.ttl_secs)
    ]
