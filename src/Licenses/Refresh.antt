-- ===== src/Licenses/Refresh.antt =====
-- From the billing state to the offline desktop: `POST /license/refresh`, then `accept`.
use development_kit.Prelude.{ℕ, ◌<◌, Str, Option, ◌≡◌, refl, ok, unwrap_or, saturating_add}
use development_kit.TreeMap
use development_kit.Shared.FeatureKey.{FeatureKey, feature_key_ord}
use development_kit.Shared.Entitlements.{value_allows, allows}
use development_kit.Shared.License.{LicenseToken, LicenseRefreshResponse}
use development_kit.Crypto.{Ed25519, TokenCodec, Base64}
use development_kit.Desktop.LicenseStore.{accept}
use development_kit.Licenses.Offline.{accepted-issue_license}
use development_kit.Api.Principal.{Principal, resolve_principal}
use development_kit.Api.Accounts.{AccountStateStore}
use development_kit.Api.Entitlement.{AccountState}
use development_kit.Api.Entitlement.Policy.{entitled, allows-resolve_entitlements}
use development_kit.Api.License.{
  LicenseState, license_token, issue_license, current_entitlements, free_account_state, refresh,
}

module _ (ed : Ed25519) (codec : TokenCodec) (base64 : Base64) (store : AccountStateStore) where
  -- The billing state of an account, that of the free tier where there is none.
  abbrev pub billing : LicenseState ed codec base64 store → Str → AccountState
  billing state account_id =
      unwrap_or (store.account_state state.accounts account_id) free_account_state

  -- The token that a refresh signs for a principal.
  abbrev pub refreshed : LicenseState ed codec base64 store → Principal → ℕ → LicenseToken
  refreshed state principal now =
      license_token principal.account_id principal.user_id
        (current_entitlements ed codec base64 store state.accounts principal.account_id now) now
        state.ttl_secs

  refresh_ok :
      (state : LicenseState ed codec base64 store) (header : Option Str) (principal : Principal)
      (now : ℕ)
      → resolve_principal state.principals header ≡ ok principal
      → refresh ed codec base64 store state header now
        ≡ ok (
            issue_license ed codec base64 state.signer principal.account_id principal.user_id
              (current_entitlements ed codec base64 store state.accounts principal.account_id now)
              now
              state.ttl_secs)
  unfolding refresh
  refresh_ok state header principal now h = rw (h, refresh) refl

  refreshed_allows :
      (state : LicenseState ed codec base64 store) (principal : Principal) (now : ℕ)
      (key : FeatureKey)
      → value_allows (TreeMap.get key (refreshed state principal now).features)
        ≡ entitled key (billing state principal.account_id) now
  unfolding license_token current_entitlements
  refreshed_allows state principal now key =
      unfold allows in
      allows-resolve_entitlements principal.account_id (billing state principal.account_id) now key

  -- A caller who authenticates gets a license that a desktop with the matching key accepts
  -- strictly before `now + ttl` (saturating), also offline, and the token that it accepts is for
  -- the caller's own account and allows each feature exactly as the billing policy does for that
  -- account at the time of the refresh, an account with no billing state counting as free.
  pub refresh-accept :
      (state : LicenseState ed codec base64 store) (header : Option Str) (principal : Principal)
      (now at : ℕ) (current : Option LicenseToken)
      → resolve_principal state.principals header ≡ ok principal
      → at < saturating_add now state.ttl_secs
      → (response : LicenseRefreshResponse) × (token : LicenseToken) × (refresh ed codec base64
            store state header now
          ≡ ok response)
        × ((accept ed codec base64
              (record { verifier = ed.verifying_key state.signer; current = current })
              response
              at).1
            ≡ ok token)
        × (token.account_id ≡ principal.account_id)
        × ((key : FeatureKey)
            → value_allows (TreeMap.get key token.features)
              ≡ entitled key (billing state principal.account_id) now)
  refresh-accept state header principal now at current h early = (
    issue_license ed codec base64 state.signer principal.account_id principal.user_id
        (current_entitlements ed codec base64 store state.accounts principal.account_id now) now
        state.ttl_secs,
    refreshed state principal now,
    refresh_ok state header principal now h,
    accepted-issue_license ed codec base64 state.signer principal.account_id principal.user_id
        (current_entitlements ed codec base64 store state.accounts principal.account_id now) now
        state.ttl_secs at current early,
    unfold license_token in refl,
    refreshed_allows state principal now,
  )
