-- ===== src/Api/Products/Notes.antt =====
-- services/api/src/products/notes: the entitlement policy and the route `POST /notes/publish`.
use development_kit.Prelude.{
  ℕ, Str, codes, Option, none, some, ◌≡◌, refl, arith, Result, ok, err, ◌>>=◌, ok_or, Bool, true,
  false, ltb, if◌then◌else◌,
}
use development_kit.TreeMap
use development_kit.TreeMap.Lookup.{get-insert_self}
use development_kit.Shared.Plan.{trialing, active, canceled}
use development_kit.Shared.Entitlements.{enabled, value_allows}
use development_kit.Shared.ProductFeatureKey.{
  ProductFeatureKey, is_snake_case_segment, is_lowercase, is_segment_char,
}
use development_kit.Shared.ProductFeatureKey as Key
use development_kit.Shared.ProductEntitlements.{
  ProductEntitlements, none_granted, grant, product_allows, product_feature_key_ord,
}
use development_kit.Api.Http.{StatusCode, unauthorized, forbidden}
use development_kit.Api.Principal.{Principal, resolve_principal}
use development_kit.Api.Entitlement.{AccountState}
use development_kit.Api.Entitlement.Policy.{has_full_access}
use development_kit.Api.Accounts.{AccountStateStore}
use development_kit.Api.Gates.{FeatureGateState}
use development_kit.Api.Products.{require_product_feature}

abbrev pub notes_namespace : Str
notes_namespace = codes "notes"

-- What the validated constructor returns for `notes` and `publish_note`.
abbrev pub publish_note_key : ProductFeatureKey
publish_note_key = record { key = codes "notes.publish_note"; sep = 5 }

publish_note_key_lem : Key.new notes_namespace (codes "publish_note") ≡ ok publish_note_key
unfolding Key.new is_snake_case_segment is_lowercase is_segment_char
publish_note_key_lem = refl

unfoldable pub grants_paid_access : AccountState → ℕ → Bool
grants_paid_access state now = elim state.status [
  | trialing ↦ true
  | active ↦ true
  | canceled ↦ elim state.current_period_end [ some end ↦ ltb now end | none ↦ false ]
  | _ ↦ false
]

unfoldable pub resolve_product_entitlements : Str → AccountState → ℕ → ProductEntitlements
resolve_product_entitlements account_id state now =
    grant (none_granted account_id notes_namespace) publish_note_key
      (enabled (grants_paid_access state now))

module _ (store : AccountStateStore) where
  unfoldable pub publish_note :
      FeatureGateState store → Option Str → ℕ → Result StatusCode (Unit {0})
  publish_note state auth_header now = elim (resolve_principal state.principals auth_header) [
    | err e ↦ err unauthorized
    | ok principal ↦
        ok_or (store.account_state state.accounts principal.account_id) forbidden
        >>= λ account_state.
            require_product_feature
              (resolve_product_entitlements principal.account_id account_state now) publish_note_key
  ]

granted_eq :
    (state : AccountState) (now : ℕ)
    → grants_paid_access state now ≡ has_full_access state.status state.current_period_end now
unfolding grants_paid_access
granted_eq state now = ground arith

pub product_allows-resolve :
    (id : Str) (state : AccountState) (now : ℕ)
    → product_allows (resolve_product_entitlements id state now) publish_note_key
      ≡ has_full_access state.status state.current_period_end now
unfolding product_allows resolve_product_entitlements grant none_granted value_allows
product_allows-resolve id state now =
    rw (get-insert_self publish_note_key (enabled (grants_paid_access state now)) TreeMap.empty)
      (granted_eq state now)

module _ (store : AccountStateStore) where
  -- A caller who authenticates, and whose account has a billing state, may publish exactly while the
  -- account has full access by the billing policy: while its status is trialing or
  -- active, or canceled strictly before the end of its period.
  pub publish_note_lem :
      (state : FeatureGateState store) (header : Option Str) (principal : Principal)
      (account : AccountState) (now : ℕ)
      → resolve_principal state.principals header ≡ ok principal
      → store.account_state state.accounts principal.account_id ≡ some account
      → publish_note store state header now ≡ (
          if has_full_access account.status account.current_period_end now
          then ok tt
          else err forbidden)
  unfolding publish_note require_product_feature
  publish_note_lem state header principal account now h k =
      rw (h, publish_note)
        (rw k (rw (product_allows-resolve principal.account_id account now) refl))
