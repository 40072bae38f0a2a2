-- ===== src/Tests/License.antt =====
-- The license theorems on the dev account.
use development_kit.Prelude.{
  ◌<◌, saturating_add, codes, none, some, ◌≡◌, refl, ok, err, ltb, arith, str_eq, if◌then◌else◌,
}
use development_kit.TreeMap
use development_kit.Shared.FeatureKey.{FeatureKey, feature_key_ord}
use development_kit.Shared.Entitlements.{Entitlements, value_allows}
use development_kit.Shared.License.{LicenseToken, LicenseRefreshResponse}
use development_kit.Text.{split_once, trim, eq_ignore_ascii_case}
use development_kit.Licenses.{expired}
use development_kit.Licenses.Offline.{accept-issue_license, accepted-issue_license}
use development_kit.Licenses.Refresh.{billing, refresh-accept}
use development_kit.Desktop.LicenseStore
use development_kit.Desktop.LicenseStore.{LicenseStore, LicenseStoreError, accept, is_valid_at}
use development_kit.Desktop.LicenseStore.Acceptance.{
  IsGenuine, accept-IsGenuine, is_valid_at-accept,
}
use development_kit.Api.Principal.{Principal, owner, resolve_principal, bearer_token}
use development_kit.Api.Accounts.{in_memory, dev_seed, dev_account_state}
use development_kit.Api.Entitlement.{resolve_entitlements}
use development_kit.Api.Entitlement.Policy.{entitled}
use development_kit.Api.License.{LicenseState, license_token, issue_license, refresh}
use development_kit.Tests.Codecs.{token_codec, plain, padded}

abbrev ents : Entitlements
ents = resolve_entitlements (codes "acct_acme") dev_account_state 100

abbrev token : LicenseToken
token = license_token (codes "acct_acme") (codes "usr") ents 100 60

abbrev response : LicenseRefreshResponse
response = issue_license padded token_codec plain 7 (codes "acct_acme") (codes "usr") ents 100 60

abbrev desktop : LicenseStore padded token_codec plain
desktop = record { verifier = 7; current = none }

accept-issue_license_example : accept padded token_codec plain desktop response 120 ≡ (
    if ltb 120 (saturating_add 100 60)
    then (record { verifier = 7; current = some token }, ok token)
    else (desktop, err (LicenseStore.verify (expired (saturating_add 100 60) 120))))
accept-issue_license_example =
    accept-issue_license padded token_codec plain 7 (codes "acct_acme") (codes "usr") ents 100 60
      120 none

in_time : 120 < saturating_add 100 60
unfolding saturating_add
in_time = omega arith

accepted : (accept padded token_codec plain desktop response 120).1 ≡ ok token
accepted =
    accepted-issue_license padded token_codec plain 7 (codes "acct_acme") (codes "usr") ents 100 60
      120 none in_time

accept-IsGenuine_example : IsGenuine padded token_codec plain 7 response 120 token
accept-IsGenuine_example =
    accept-IsGenuine padded token_codec plain desktop response 120 token accepted

is_valid_at-accept_example :
    is_valid_at padded token_codec plain
      (accept padded token_codec plain desktop response 120).0
      159
    ≡ ltb 159 token.expires_at
is_valid_at-accept_example =
    is_valid_at-accept padded token_codec plain desktop response 120 159 token accepted

abbrev ada : Principal
ada = record {
  user_id = codes "usr_ada";
  email = codes "ada@acme.test";
  account_id = codes "acct_acme";
  account_name = codes "Acme";
  role = owner;
}

abbrev backend : LicenseState padded token_codec plain in_memory
backend = record {
  signer = 7;
  ttl_secs = 60;
  principals = λ t. if str_eq t (codes "tok") then some ada else none;
  accounts = dev_seed;
}

authenticated : resolve_principal backend.principals (some (codes "Bearer tok")) ≡ ok ada
unfolding resolve_principal bearer_token split_once eq_ignore_ascii_case trim str_eq
authenticated = refl

refresh-accept_example :
    (r : LicenseRefreshResponse) × (t : LicenseToken) × (refresh padded token_codec plain in_memory
        backend
        (some (codes "Bearer tok"))
        100
      ≡ ok r)
    × ((accept padded token_codec plain (record { verifier = 7; current = none }) r 120).1 ≡ ok t)
    × (t.account_id ≡ ada.account_id)
    × ((key : FeatureKey)
        → value_allows (TreeMap.get key t.features)
          ≡ entitled key (billing padded token_codec plain in_memory backend ada.account_id) 100)
refresh-accept_example =
    refresh-accept padded token_codec plain in_memory backend (some (codes "Bearer tok")) ada 100
      120 none authenticated in_time
