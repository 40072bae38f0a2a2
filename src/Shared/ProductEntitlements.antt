-- ===== src/Shared/ProductEntitlements.antt =====
-- crates/shared/src/product_entitlements.rs: what an account may use of a product.
use development_kit.Prelude.{Str, ◌≡◌, arith, Bool, Ordering, compare}
use development_kit.Prelude.Order.{
  Ord, str_cmp, str_cmp_refl, str_cmp_eq, str_cmp_gt, str_cmp_trans,
}
use development_kit.TreeMap
use development_kit.TreeMap.{TreeMap}
use development_kit.Shared.ProductFeatureKey.{ProductFeatureKey}
use development_kit.Shared.Entitlements.{FeatureValue, value_allows}

-- The derived `Ord`: by the key, then by the separator.
abbrev pub key_cmp : ProductFeatureKey → ProductFeatureKey → Ordering
key_cmp a b = elim (str_cmp a.key b.key) [
  | Ordering.lt ↦ Ordering.lt
  | Ordering.eq ↦ compare a.sep b.sep
  | Ordering.gt ↦ Ordering.gt
]

pub key_cmp_refl : (a : ProductFeatureKey) → key_cmp a a ≡ Ordering.eq
key_cmp_refl a = ground (arith, str_cmp_refl a.key)

pub key_cmp_eq : (a b : ProductFeatureKey) → key_cmp a b ≡ Ordering.eq → a ≡ b
key_cmp_eq a b h = ground (arith, str_cmp_eq a.key b.key)

pub key_cmp_gt : (a b : ProductFeatureKey) → key_cmp a b ≡ Ordering.gt → key_cmp b a ≡ Ordering.lt
key_cmp_gt a b h =
    ground (arith, str_cmp_gt a.key b.key, str_cmp_eq a.key b.key, str_cmp_refl a.key)

pub key_cmp_trans :
    (a b c : ProductFeatureKey)
    → key_cmp a b ≡ Ordering.lt
    → key_cmp b c ≡ Ordering.lt
    → key_cmp a c ≡ Ordering.lt
key_cmp_trans a b c h k =
    ground (arith, str_cmp_trans a.key b.key c.key, str_cmp_eq a.key b.key, str_cmp_eq b.key c.key)

instance abbrev pub product_feature_key_ord : Ord ProductFeatureKey
product_feature_key_ord = record {
  cmp = key_cmp;
  cmp_refl = key_cmp_refl;
  cmp_eq = key_cmp_eq;
  cmp_gt = key_cmp_gt;
  cmp_trans = key_cmp_trans;
}

pub record ProductEntitlements : Type 0 where
  pub account_id : Str
  pub namespace : Str
  pub features : TreeMap ProductFeatureKey FeatureValue

unfoldable pub none_granted : Str → Str → ProductEntitlements
none_granted account_id namespace = record {
  account_id = account_id;
  namespace = namespace;
  features = TreeMap.empty;
}

unfoldable pub grant : ProductEntitlements → ProductFeatureKey → FeatureValue → ProductEntitlements
grant e key value = record e { features = TreeMap.insert key value e.features }

unfoldable pub product_allows : ProductEntitlements → ProductFeatureKey → Bool
product_allows e key = value_allows (TreeMap.get key e.features)
