-- ===== src/Api/Gates/Authority.antt =====
-- The verdict of the server's gate, against the billing policy and against the desktop's own guard.
use development_kit.Prelude.{
  ℕ, Str, Option, some, ◌≡◌, arith, Result, ok, err, is_ok, true, if◌then◌else◌, Result-cases,
  Option-cases, inl, inr,
}
use development_kit.Shared.FeatureKey.{FeatureKey, as_str}
use development_kit.Shared.Entitlements.{Entitlements}
use development_kit.Api.Http.{StatusCode, unauthorized, forbidden}
use development_kit.Api.Principal.{Principal, resolve_principal}
use development_kit.Api.Entitlement.{AccountState}
use development_kit.Api.Entitlement.Policy.{entitled, allows-resolve_entitlements}
use development_kit.Api.Accounts.{AccountStateStore}
use development_kit.Api.Gates.{
  FeatureGateState, parse_feature_key, require_feature, verdict, gate_for, authenticated_gate,
  get_me_entitlements,
}
use development_kit.Api.Gates.Keys.{parse_feature_key-as_str, parse_feature_key_iff}
use development_kit.Desktop.FeatureGate.{decide_feature}

module _ (store : AccountStateStore) where
  -- The gate asks the policy.
  pub gate_for_lem :
      (state : FeatureGateState store) (key : FeatureKey) (principal : Principal)
      (account : AccountState) (now : ℕ)
      → store.account_state state.accounts principal.account_id ≡ some account
      → gate_for store state key principal now
        ≡ (if entitled key account now then StatusCode.ok else forbidden)
  unfolding gate_for verdict require_feature
  gate_for_lem state key principal account now h =
      rw (h, gate_for)
        (rw (allows-resolve_entitlements principal.account_id account now key) (ground arith))

  -- What a 200 shows of a request.
  pub record IsEntitled (state : FeatureGateState store) (feature : Str) (header : Option Str)
      (now : ℕ) : Type 0 where
    pub key : FeatureKey
    pub principal : Principal
    pub account : AccountState
    pub named : feature ≡ as_str key
    pub authenticated : resolve_principal state.principals header ≡ ok principal
    pub billed : store.account_state state.accounts principal.account_id ≡ some account
    pub allowed : entitled key account now ≡ true

  gate_for-entitled :
      (state : FeatureGateState store) (key : FeatureKey) (principal : Principal) (now : ℕ)
      → gate_for store state key principal now ≡ StatusCode.ok
      → (account : AccountState) × (store.account_state state.accounts principal.account_id
          ≡ some account)
        × (entitled key account now ≡ true)
  gate_for-entitled state key principal now h =
      elim (Option-cases (store.account_state state.accounts principal.account_id)) [
        | inl e ↦ absurd (unfold gate_for in ground (arith, h, e))
        | inr (account, e) ↦
            (account, e, ground (arith, gate_for_lem state key principal account now e, h))
      ]

  -- The gate answers 200 only to a caller who authenticates, for a known feature, and only if the
  -- caller's own account has a billing state to which the billing policy allows that feature at
  -- that time.
  pub authenticated_gate-IsEntitled :
      (state : FeatureGateState store) (feature : Str) (header : Option Str) (now : ℕ)
      → authenticated_gate store state feature header now ≡ StatusCode.ok
      → IsEntitled state feature header now
  unfolding authenticated_gate
  authenticated_gate-IsEntitled state feature header now h =
      elim (Option-cases (parse_feature_key feature)) [
        | inl e ↦ absurd (ground (arith, h, e))
        | inr (key, e) ↦ elim (Result-cases (resolve_principal state.principals header)) [
          | inr (er, f) ↦ absurd (ground (arith, h, e, f))
          | inl (principal, f) ↦
              (let (account, g, k) =
                  gate_for-entitled state key principal now (ground (arith, h, e, f)) in
                record {
                  key = key;
                  principal = principal;
                  account = account;
                  named = (parse_feature_key_iff feature key).0 e;
                  authenticated = f;
                  billed = g;
                  allowed = k;
                })
        ]
      ]

  -- What the desktop concludes from the snapshot that it fetched.
  abbrev pub local_verdict : Result StatusCode Entitlements → FeatureKey → StatusCode
  local_verdict (ok entitlements) key =
      if is_ok (decide_feature entitlements key) then StatusCode.ok else forbidden
  local_verdict (err unauthorized) key = unauthorized
  local_verdict (err _) key = forbidden

  -- For every feature key the server's gate and the desktop's guard agree at one time: the gate
  -- answers what the guard decides on the snapshot of `GET /me/entitlements`, 401 where that route
  -- answers 401, and 403 where the account has no billing state.
  pub authenticated_gate-decide_feature :
      (state : FeatureGateState store) (key : FeatureKey) (header : Option Str) (now : ℕ)
      → authenticated_gate store state (as_str key) header now
        ≡ local_verdict (get_me_entitlements store state header now) key
  unfolding authenticated_gate get_me_entitlements gate_for verdict require_feature decide_feature
  authenticated_gate-decide_feature state key header now =
      rw (parse_feature_key-as_str key, authenticated_gate)
        (elim (Result-cases (resolve_principal state.principals header)) [
          | inr (e, f) ↦ ground (arith, f)
          | inl (principal, f) ↦
              elim (Option-cases (store.account_state state.accounts principal.account_id)) [
                | inl e ↦ ground (arith, f, e)
                | inr (account, e) ↦ ground (arith, f, e)
              ]
        ])
