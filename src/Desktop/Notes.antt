-- ===== src/Desktop/Notes.antt =====
-- apps/desktop/src-tauri/src/products/notes/mod.rs: the local guard of the paid action of Notes, with
-- a namespace and a key of its own.
use development_kit.Prelude.{
  ℕ, Str, codes, Option, ◌≡◌, refl, Bool-cases, inl, inr, some, Result, ok, err, ◌>>=◌,
  if◌then◌else◌,
}
use development_kit.Shared.ProductFeatureKey.{
  ProductFeatureKey, as_str, is_snake_case_segment, is_lowercase, is_segment_char,
}
use development_kit.Shared.ProductFeatureKey as Key
use development_kit.Shared.ProductEntitlements.{ProductEntitlements, product_allows}
use development_kit.Api.Http.{forbidden}
use development_kit.Api.Principal.{Principal, resolve_principal}
use development_kit.Api.Entitlement.{AccountState}
use development_kit.Api.Entitlement.Policy.{has_full_access}
use development_kit.Api.Accounts.{AccountStateStore}
use development_kit.Api.Gates.{FeatureGateState}
use development_kit.Api.Products.Notes.{
  resolve_product_entitlements, publish_note, publish_note_lem, product_allows-resolve,
}

-- `NAMESPACE`.
abbrev pub namespace : Str
namespace = codes "notes"

-- What the validated constructor returns for this namespace and `publish_note`.
abbrev pub publish_note_key : ProductFeatureKey
publish_note_key = record { key = codes "notes.publish_note"; sep = 5 }

publish_note_key_lem : Key.new namespace (codes "publish_note") ≡ ok publish_note_key
unfolding Key.new is_snake_case_segment is_lowercase is_segment_char
publish_note_key_lem = refl

pub record ProductFeatureDenied : Type 0 where
  pub feature : Str

pub data ProductEntitlementsFetchError : Type 0 where
  unreachable unauthenticated : ProductEntitlementsFetchError
  backend : Str → ProductEntitlementsFetchError

unfoldable pub publish_note_denied : ProductFeatureDenied
unfolding as_str
publish_note_denied = record { feature = as_str publish_note_key }

unfoldable pub decide_product_feature :
    ProductEntitlements → ProductFeatureKey → Result ProductFeatureDenied (Unit {0})
unfolding product_allows as_str
decide_product_feature entitlements key =
    if product_allows entitlements key then ok tt else err (record { feature = as_str key })

-- `fetched` is what the source's `fetch` returns.
unfoldable pub publish_with_source :
    Result ProductEntitlementsFetchError ProductEntitlements → Result ProductFeatureDenied Str
unfolding publish_note_denied decide_product_feature
publish_with_source (err _) = err publish_note_denied
publish_with_source (ok snapshot) =
    decide_product_feature snapshot publish_note_key >>= λ _. ok (codes "note:published")

-- The guard on a snapshot that the server resolves, which grants the server's own key.
guard_lem :
    (id : Str) (account : AccountState) (now : ℕ)
    → publish_with_source (ok (resolve_product_entitlements id account now)) ≡ (
        if has_full_access account.status account.current_period_end now
        then ok (codes "note:published")
        else err (record { feature = codes "notes.publish_note" }))
unfolding publish_with_source decide_product_feature as_str
guard_lem id account now =
    rw (product_allows-resolve id account now)
      (elim (Bool-cases (has_full_access account.status account.current_period_end now)) [
        | inl t ↦ rw t refl
        | inr f ↦ rw f refl
      ])

module _ (store : AccountStateStore) where
  -- For a caller who authenticates, and whose account has a billing state, the server's route and the
  -- desktop's guard on the snapshot that the server resolves, each under its own key, give one
  -- verdict: both allow the publish action exactly while the account has full access by the billing
  -- policy, and otherwise the server answers 403 and the desktop denies `notes.publish_note`. Where
  -- the snapshot cannot be fetched, the desktop denies it too.
  pub publish_with_source-publish_note :
      (state : FeatureGateState store) (header : Option Str) (principal : Principal)
      (account : AccountState) (now : ℕ) (e : ProductEntitlementsFetchError)
      → resolve_principal state.principals header ≡ ok principal
      → store.account_state state.accounts principal.account_id ≡ some account
      → (publish_with_source (ok (resolve_product_entitlements principal.account_id account now))
          ≡ (if has_full_access account.status account.current_period_end now
              then ok (codes "note:published")
              else err (record { feature = codes "notes.publish_note" })))
        × (publish_note store state header now ≡ (
            if has_full_access account.status account.current_period_end now
            then ok tt
            else err forbidden))
        × (publish_with_source (err e) ≡ err (record { feature = codes "notes.publish_note" }))
  unfolding publish_with_source publish_note_denied as_str
  publish_with_source-publish_note state header principal account now e h k = (
    guard_lem principal.account_id account now,
    publish_note_lem store state header principal account now h k,
    refl,
  )
