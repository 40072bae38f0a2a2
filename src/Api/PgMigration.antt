-- ===== src/Api/PgMigration.antt =====
-- services/api/src/pg_migration.rs and `apply_module` of product_module.rs: applying migrations
-- against a ledger of versions. The executor is a trait: its operations return the new state beside
-- their result, and `recorded` is what its ledger holds.
pub mod Memory
pub mod Ledger
pub mod Rerun
use development_kit.Prelude.{
  ℕ, ◌+◌, Str, codes, ◌≡◌, Result, ok, err, is_ok, ◌>>=◌, List, [], ◌∷◌, ◌++◌, Bool, true, false,
  not, ◌&&◌, ◌||◌, ◌==◌, any, is_empty, str_eq, if◌then◌else◌,
}

pub record PgMigration : Type 0 where
  pub version : Str
  pub sql : Str

pub data PgMigrationError : Type 0 where
  migration misconfigured : Str → PgMigrationError

pub record PgExecutor : Type 1 where
  pub Executor : Type 0
  pub ensure_ledger : Executor → Executor × Result PgMigrationError (Unit {0})
  pub is_applied : Executor → Str → Result PgMigrationError Bool
  pub apply : Executor → Str → Str → Executor × Result PgMigrationError (Unit {0})
  pub recorded : Executor → Str → Bool
  pub recorded-ensure_ledger :
      (e : Executor) (v : Str) → recorded (ensure_ledger e).0 v ≡ recorded e v
  pub is_applied-recorded :
      (e : Executor) (v : Str) (b : Bool) → is_applied e v ≡ ok b → b ≡ recorded e v
  -- The statement and the ledger entry are one transaction.
  pub recorded-apply :
      (e : Executor) (v sql w : Str)
      → recorded (apply e v sql).0 w
        ≡ (if is_ok (apply e v sql).1 then str_eq v w || recorded e w else recorded e w)

-- The loop of `reject_duplicate_versions`, with the versions seen so far.
unfoldable pub reject_seen : List Str → List PgMigration → Result PgMigrationError (Unit {0})
reject_seen seen [] = ok tt
reject_seen seen (m ∷ ms) =
    let rest = reject_seen (m.version ∷ seen) ms in
    if any (λ v. str_eq v m.version) seen
    then err (
        misconfigured
          (codes "duplicate migration version '" ++ (m.version ++ codes "' in the slice")))
    else rest

unfoldable pub reject_duplicate_versions : List PgMigration → Result PgMigrationError (Unit {0})
reject_duplicate_versions migrations = reject_seen [] migrations

-- `str::starts_with`.
unfoldable pub starts_with : Str → Str → Bool
starts_with s [] = true
starts_with [] (c ∷ prefix) = false
starts_with (d ∷ s) (c ∷ prefix) = c == d && starts_with s prefix

module _ (pg : PgExecutor) where
  open pg use {Executor, ensure_ledger, is_applied, apply}

  -- The loop, with the count so far.
  unfoldable pub run_each : List PgMigration → Executor → ℕ → Executor × Result PgMigrationError ℕ
  run_each [] e applied = (e, ok applied)
  run_each (m ∷ ms) e applied = elim (is_applied e m.version) [
    | err x ↦ (e, err x)
    | ok true ↦ run_each ms e applied
    | ok false ↦
        (let (e', outcome) = apply e m.version m.sql in
          elim outcome [ err x ↦ (e', err x) | ok _ ↦ run_each ms e' (applied + 1) ])
  ]

  -- The part of `run_migrations` that reaches the executor.
  unfoldable pub run_ledger : List PgMigration → Executor → Executor × Result PgMigrationError ℕ
  run_ledger migrations e =
      let (e', outcome) = ensure_ledger e in
      elim outcome [ err x ↦ (e', err x) | ok _ ↦ run_each migrations e' 0 ]

  unfoldable pub run_migrations : Executor → List PgMigration → Executor × Result PgMigrationError ℕ
  run_migrations e migrations = elim (reject_duplicate_versions migrations) [
    | err x ↦ (e, err x)
    | ok _ ↦ if is_empty migrations then (e, ok 0) else run_ledger migrations e
  ]
