-- ===== src/LocalStore.antt =====
-- migration.rs, product_module.rs and LocalDb (db.rs) of crates/local-store/src: applying migrations
-- to the SQLite connection. The connection is an interface: an operation returns the new state
-- beside its result, whose error is rusqlite's text, and `recorded` is what the table
-- `schema_migrations` holds.
pub mod Ledger
pub mod Migrated
use development_kit.Prelude.{
  ℕ, ◌+◌, Str, codes, ◌≡◌, Result, ok, err, List, [], ◌∷◌, ◌++◌, Bool, true, false, ◌||◌, ◌==◌, any,
  str_eq,
}

pub record Migration : Type 0 where
  pub version : Str
  pub sql : Str

pub data LocalStoreError : Type 0 where
  database migration not_found : Str → LocalStoreError

unfoldable pub bootstrap_sql : Str
bootstrap_sql =
    codes "CREATE TABLE IF NOT EXISTS schema_migrations (\n"
    ++ (codes "            version     TEXT PRIMARY KEY,\n"
        ++ (codes "            applied_at  TEXT NOT NULL DEFAULT (datetime('now'))\n"
            ++ codes "        );"))

unfoldable pub pragmas : Str
pragmas = codes "PRAGMA journal_mode=WAL; PRAGMA foreign_keys=ON;"

unfoldable pub batch : Str → Str → Str
batch version sql =
    codes "BEGIN;\n"
    ++ (sql
        ++ (codes "\nINSERT INTO schema_migrations (version) VALUES ('"
            ++ (version ++ codes "');\nCOMMIT;")))

-- The version is pasted into the statement between two quotes.
abbrev pub has_quote : Str → Bool
has_quote version = any (λ c. c == 39) version

pub record Connection : Type 1 where
  pub Conn : Type 0
  pub execute_batch : Conn → Str → Conn × Result Str (Unit {0})
  -- `prepare` and `exists`, at the query of a version in the table.
  pub exists : Conn → Str → Result Str Bool
  pub recorded : Conn → Str → Bool
  -- The statements that leave the table `schema_migrations` alone.
  pub spares_ledger : Str → Bool
  pub recorded-bootstrap_sql :
      (conn : Conn) (w : Str) → recorded (execute_batch conn bootstrap_sql).0 w ≡ recorded conn w
  pub exists-recorded :
      (conn : Conn) (w : Str) (b : Bool) → exists conn w ≡ ok b → b ≡ recorded conn w
  pub recorded-batch :
      (conn : Conn) (version sql w : Str) (u : Unit {0})
      → spares_ledger sql ≡ true
      → has_quote version ≡ false
      → (execute_batch conn (batch version sql)).1 ≡ ok u
      → recorded (execute_batch conn (batch version sql)).0 w
        ≡ (str_eq version w || recorded conn w)

-- The embedded migrations, whose SQL the build reads from two files.
unfoldable pub baseline_migrations : Str → Str → List Migration
baseline_migrations init local_product_state =
    record { version = codes "0001_init"; sql = init }
    ∷ record { version = codes "0002_local_product_state"; sql = local_product_state }
    ∷ []

module _ (db : Connection) where
  open db use {Conn, execute_batch, exists}

  -- The loop, with the count so far.
  unfoldable pub run_each : List Migration → Conn → ℕ → Conn × Result LocalStoreError ℕ
  run_each [] conn applied = (conn, ok applied)
  run_each (m ∷ ms) conn applied = elim (exists conn m.version) [
    | err e ↦ (conn, err (database e))
    | ok true ↦ run_each ms conn applied
    | ok false ↦
        (let (conn', outcome) = execute_batch conn (batch m.version m.sql) in
          elim outcome [
            | err e ↦ (
              conn',
              err (migration (codes "applying migration '" ++ (m.version ++ (codes "': " ++ e)))),
            )
            | ok _ ↦ run_each ms conn' (applied + 1)
          ])
  ]

  unfoldable pub run_migrations : Conn → List Migration → Conn × Result LocalStoreError ℕ
  run_migrations conn migrations =
      let (conn', outcome) = execute_batch conn bootstrap_sql in
      elim outcome [
        | err e ↦ (conn', err (migration (codes "bootstrap table: " ++ e)))
        | ok _ ↦ run_each migrations conn' 0
      ]

  -- `LocalDb::configure_and_migrate`, at the baseline; the connection is what `LocalDb` keeps.
  unfoldable pub configure_and_migrate :
      List Migration → Conn → Conn × Result LocalStoreError (Unit {0})
  configure_and_migrate baseline conn =
      let (conn', outcome) = execute_batch conn pragmas in
      elim outcome [
        | err e ↦ (conn', err (database e))
        | ok _ ↦
            (let (conn'', result) = run_migrations conn' baseline in
              elim result [ err e ↦ (conn'', err e) | ok _ ↦ (conn'', ok tt) ])
      ]

  -- `apply_module`, at the baseline and the module's migrations.
  unfoldable pub apply_module :
      List Migration → Conn → List Migration → Conn × Result LocalStoreError ℕ
  apply_module baseline conn migrations =
      let (conn', outcome) = run_migrations conn baseline in
      elim outcome [
        | err e ↦ (conn', err e)
        | ok first ↦
            (let (conn'', result) = run_migrations conn' migrations in
              elim result [ err e ↦ (conn'', err e) | ok second ↦ (conn'', ok (first + second)) ])
      ]
