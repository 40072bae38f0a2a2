-- ===== src/Api/Products.antt =====
-- Products on the backend: `apply_module` of services/api/src/product_module.rs,
-- and `require_product_feature` of feature_gate.rs.
pub mod Notes
pub mod Modules
use development_kit.Prelude.{
  ℕ, ◌+◌, Str, codes, Option, none, some, Result, ok, err, ◌>>=◌, List, [], ◌∷◌, ◌++◌, Bool, all,
  false, if◌then◌else◌, Ordering, compare,
}
use development_kit.Prelude.Order.{Ord, str_cmp}
use development_kit.TreeMap
use development_kit.TreeMap.{TreeMap}
use development_kit.Shared.ProductFeatureKey.{ProductFeatureKey}
use development_kit.Shared.ProductModule.{ProductModuleMeta, table_prefix}
use development_kit.Shared.ProductEntitlements.{ProductEntitlements, product_allows}
use development_kit.Api.Http.{StatusCode, forbidden}
use development_kit.Api.PgMigration.{
  PgMigration, PgMigrationError, misconfigured, PgExecutor, run_migrations, starts_with,
}

unfoldable pub require_product_feature :
    ProductEntitlements → ProductFeatureKey → Result StatusCode (Unit {0})
require_product_feature entitlements feature =
    if product_allows entitlements feature then ok tt else err forbidden

-- The message for a version without its prefix.
unfoldable pub unprefixed : Str → Str → Str
unprefixed version prefix =
    codes "product migration '"
    ++ (version
        ++ (codes "' must start with the namespace prefix '"
            ++ (prefix
                ++ codes
                    "' (the shared schema_migrations ledger is keyed on the raw version, so an unprefixed version collides with the baseline or another product)")))

-- The loop that checks the prefix of every migration.
unfoldable pub check_prefixes : Str → List PgMigration → Result PgMigrationError (Unit {0})
check_prefixes prefix [] = ok tt
check_prefixes prefix (m ∷ ms) =
    let rest = check_prefixes prefix ms in
    if starts_with m.version prefix then rest else err (misconfigured (unprefixed m.version prefix))

module _ (pg : PgExecutor) (baseline : List PgMigration) where
  -- The runs of the baseline and of the product, one after the other.
  unfoldable pub run_both : pg.Executor → List PgMigration → pg.Executor × Result PgMigrationError ℕ
  run_both e migrations =
      let (e₁, first) = run_migrations pg e baseline in
      elim first [
        | err x ↦ (e₁, err x)
        | ok n ↦
            (let (e₂, second) = run_migrations pg e₁ migrations in
              elim second [ err x ↦ (e₂, err x) | ok k ↦ (e₂, ok (n + k)) ])
      ]

  unfoldable pub apply_module :
      pg.Executor → ProductModuleMeta → List PgMigration → pg.Executor × Result PgMigrationError ℕ
  apply_module e meta migrations = elim (check_prefixes (table_prefix meta) migrations) [
    | err x ↦ (e, err x)
    | ok _ ↦ run_both e migrations
  ]
