-- ===== src/Tests/Products.antt =====
-- The notes product on a fresh ledger, and its key.
use development_kit.Prelude.{
  codes, some, ◌≡◌, refl, ok, err, List, [], ◌∷◌, true, false, if◌then◌else◌, str_eq,
}
use development_kit.Prelude.Order.{str_cmp}
use development_kit.TreeMap
use development_kit.Text.{split_once, trim, eq_ignore_ascii_case}
use development_kit.Shared.ProductFeatureKey
use development_kit.Shared.ProductFeatureKey.{
  ProductFeatureKey, parse, as_str, namespace, name, is_snake_case_segment, is_lowercase,
  is_segment_char, from_parts,
}
use development_kit.Shared.ProductFeatureKey.RoundTrip.{new_lem}
use development_kit.Shared.ProductModule.{ProductModuleMeta, table_prefix}
use development_kit.Api.Http.{forbidden}
use development_kit.Api.Principal.{resolve_principal, bearer_token}
use development_kit.Api.Accounts.{in_memory, dev_seed, dev_account_state, read, write}
use development_kit.Api.Entitlement.Policy.{has_full_access}
use development_kit.Api.PgMigration.{
  PgMigration, run_migrations, run_ledger, run_each, reject_duplicate_versions, reject_seen,
  starts_with,
}
use development_kit.Api.PgMigration.Memory.{
  InMemoryPgExecutor, ensure_ledger, is_applied, apply, recorded, in_memory_pg,
}
use development_kit.Api.Products.{apply_module, check_prefixes, run_both}
use development_kit.Api.Products.Modules.{IsInstalled, apply_module-IsInstalled}
use development_kit.Desktop.Notes.{
  unreachable, publish_with_source, publish_with_source-publish_note,
}
use development_kit.Api.Products.Notes.{
  publish_note_key, publish_note, publish_note_lem, resolve_product_entitlements,
}
use development_kit.Tests.Gates.{gate, bearer, alice}

new_publish_note :
    ProductFeatureKey.new (codes "notes") (codes "publish_note") ≡ ok publish_note_key
unfolding ProductFeatureKey.new is_snake_case_segment is_lowercase is_segment_char
new_publish_note = refl

parse_published : parse (codes "notes.publish_note") ≡ ok publish_note_key
unfolding as_str
parse_published =
    (new_lem (codes "notes") (codes "publish_note") publish_note_key new_publish_note).0

authenticated : resolve_principal gate.principals bearer ≡ ok alice
unfolding resolve_principal bearer_token split_once eq_ignore_ascii_case trim str_eq
authenticated = refl

billed : in_memory.account_state gate.accounts alice.account_id ≡ some dev_account_state
unfolding read write dev_seed TreeMap.get TreeMap.insert str_cmp
billed = refl

publish_note_lem_example : publish_note in_memory gate bearer 100 ≡ (
    if has_full_access dev_account_state.status dev_account_state.current_period_end 100
    then ok tt
    else err forbidden)
publish_note_lem_example =
    publish_note_lem in_memory gate bearer alice dev_account_state 100 authenticated billed

publish_with_source-publish_note_example :
    (publish_with_source (ok (resolve_product_entitlements alice.account_id dev_account_state 100))
      ≡ (if has_full_access dev_account_state.status dev_account_state.current_period_end 100
          then ok (codes "note:published")
          else err (record { feature = codes "notes.publish_note" })))
    × (publish_note in_memory gate bearer 100 ≡ (
        if has_full_access dev_account_state.status dev_account_state.current_period_end 100
        then ok tt
        else err forbidden))
    × (publish_with_source (err unreachable)
        ≡ err (record { feature = codes "notes.publish_note" }))
publish_with_source-publish_note_example =
    publish_with_source-publish_note in_memory gate bearer alice dev_account_state 100 unreachable
      authenticated billed

abbrev baseline : List PgMigration
baseline = record { version = codes "0001_init"; sql = codes "CREATE" } ∷ []

abbrev notes : List PgMigration
notes = record { version = codes "notes_0001_init"; sql = codes "CREATE" } ∷ []

abbrev meta : ProductModuleMeta
meta = record { id = codes "Notes"; namespace = codes "notes" }

abbrev fresh : InMemoryPgExecutor
fresh = record { ledger_ready = false; applied = []; ran_sql = [] }

abbrev migrated : InMemoryPgExecutor
migrated = record {
  ledger_ready = true;
  applied = codes "0001_init" ∷ codes "notes_0001_init" ∷ [];
  ran_sql = (codes "0001_init", codes "CREATE") ∷ (codes "notes_0001_init", codes "CREATE") ∷ [];
}

installed : apply_module in_memory_pg baseline fresh meta notes ≡ (migrated, ok 2)
unfolding apply_module check_prefixes run_both table_prefix starts_with run_migrations run_ledger
    run_each reject_duplicate_versions reject_seen str_eq ensure_ledger is_applied apply recorded
installed = refl

apply_module-IsInstalled_example : IsInstalled in_memory_pg baseline meta notes migrated
apply_module-IsInstalled_example =
    apply_module-IsInstalled in_memory_pg baseline meta notes fresh migrated 2 installed
