-- ===== src/Shared/ProductModule.antt =====
-- crates/shared/src/product_module.rs: the identity of a product and its prefixes.
use development_kit.Prelude.{Str, codes, Option, none, some, ◌++◌, if◌then◌else◌}
use development_kit.Shared.ProductFeatureKey.{is_snake_case_segment}

pub record ProductModuleMeta : Type 0 where
  pub id : Str
  pub namespace : Str

-- `is_snake_case` is the same test as that of a feature key's segment.
unfoldable pub new : Str → Str → Option ProductModuleMeta
new id namespace =
    if is_snake_case_segment namespace
    then some (record { id = id; namespace = namespace })
    else none

unfoldable pub route_prefix : ProductModuleMeta → Str
route_prefix meta = codes "/" ++ meta.namespace

unfoldable pub table_prefix : ProductModuleMeta → Str
table_prefix meta = meta.namespace ++ codes "_"
