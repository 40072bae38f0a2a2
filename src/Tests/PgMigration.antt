-- ===== src/Tests/PgMigration.antt =====
-- Two migrations on a fresh ledger in memory.
use development_kit.Prelude.{codes, ◌≡◌, refl, ok, List, [], ◌∷◌, true, false, str_eq}
use development_kit.Api.PgMigration.{
  PgMigration, run_migrations, run_ledger, run_each, reject_duplicate_versions, reject_seen,
}
use development_kit.Api.PgMigration.Memory.{
  InMemoryPgExecutor, ensure_ledger, is_applied, apply, recorded, in_memory_pg,
}
use development_kit.Api.PgMigration.Ledger.{IsRun}
use development_kit.Api.PgMigration.Rerun.{run_migrations-IsRun}

abbrev migrations : List PgMigration
migrations =
    record { version = codes "0001_init"; sql = codes "CREATE" }
    ∷ record { version = codes "notes_0001_init"; sql = codes "CREATE" }
    ∷ []

abbrev fresh : InMemoryPgExecutor
fresh = record { ledger_ready = false; applied = []; ran_sql = [] }

abbrev migrated : InMemoryPgExecutor
migrated = record {
  ledger_ready = true;
  applied = codes "0001_init" ∷ codes "notes_0001_init" ∷ [];
  ran_sql = (codes "0001_init", codes "CREATE") ∷ (codes "notes_0001_init", codes "CREATE") ∷ [];
}

first_run : run_migrations in_memory_pg fresh migrations ≡ (migrated, ok 2)
unfolding run_migrations run_ledger run_each reject_duplicate_versions reject_seen str_eq
    ensure_ledger is_applied apply recorded
first_run = refl

second_run : run_migrations in_memory_pg migrated migrations ≡ (migrated, ok 0)
unfolding run_migrations run_ledger run_each reject_duplicate_versions reject_seen str_eq
    ensure_ledger is_applied apply recorded
second_run = refl

run_migrations-IsRun_example : IsRun in_memory_pg migrations fresh 0 migrated 2
run_migrations-IsRun_example =
    run_migrations-IsRun in_memory_pg migrations fresh migrated 2 first_run
