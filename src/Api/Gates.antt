-- ===== src/Api/Gates.antt =====
-- The routes that read entitlements: services/api/src/feature_gate.rs (`POST /gated-feature/{feature}`)
-- and services/api/src/me_entitlements.rs (`GET /me/entitlements`). Both handlers have the same state.
pub mod Keys
pub mod Authority
use development_kit.Prelude.{
  ℕ, Str, Option, none, some, Result, ok, err, ◌>>=◌, ok_or, List, [], ◌∷◌, Bool, str_eq,
  if◌then◌else◌,
}
use development_kit.Shared.FeatureKey
use development_kit.Shared.FeatureKey.{FeatureKey, all_keys}
use development_kit.Shared.Entitlements.{Entitlements, allows}
use development_kit.Api.Http.{StatusCode, unauthorized, forbidden, not_found}
use development_kit.Api.Principal.{Principal, resolve_principal}
use development_kit.Api.Entitlement.{AccountState, resolve_entitlements}
use development_kit.Api.Accounts.{AccountStateStore}

-- `Iterator::find` on the keys.
unfoldable pub find_key : Str → List FeatureKey → Option FeatureKey
find_key token [] = none
find_key token (k ∷ ks) = if str_eq (FeatureKey.as_str k) token then some k else find_key token ks

unfoldable pub parse_feature_key : Str → Option FeatureKey
parse_feature_key token = find_key token all_keys

unfoldable pub require_feature : Entitlements → FeatureKey → Result StatusCode (Unit {0})
require_feature entitlements feature = if allows entitlements feature then ok tt else err forbidden

-- The status of a gate's verdict.
unfoldable pub verdict : Result StatusCode (Unit {0}) → StatusCode
verdict (ok _) = StatusCode.ok
verdict (err status) = status

module _ (store : AccountStateStore) where
  -- `FeatureGateState` and `EntitlementsState`.
  pub record FeatureGateState : Type 0 where
    pub principals : Str → Option Principal
    pub accounts : store.State

  -- The gate once its caller is known.
  unfoldable pub gate_for : FeatureGateState → FeatureKey → Principal → ℕ → StatusCode
  gate_for state key principal now =
      elim (store.account_state state.accounts principal.account_id) [
        | none ↦ forbidden
        | some account_state ↦
            verdict
              (require_feature (resolve_entitlements principal.account_id account_state now) key)
      ]

  unfoldable pub authenticated_gate : FeatureGateState → Str → Option Str → ℕ → StatusCode
  authenticated_gate state feature auth_header now = elim (parse_feature_key feature) [
    | none ↦ not_found
    | some key ↦ elim (resolve_principal state.principals auth_header) [
      | err e ↦ unauthorized
      | ok principal ↦ gate_for state key principal now
    ]
  ]

  unfoldable pub get_me_entitlements :
      FeatureGateState → Option Str → ℕ → Result StatusCode Entitlements
  get_me_entitlements state auth_header now =
      elim (resolve_principal state.principals auth_header) [
        | err e ↦ err unauthorized
        | ok principal ↦
            ok_or (store.account_state state.accounts principal.account_id) not_found
            >>= λ account_state. ok (resolve_entitlements principal.account_id account_state now)
      ]
