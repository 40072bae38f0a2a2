-- ===== src/Tests/LocalStore.antt =====
-- A connection that keeps the recorded versions, and a module's migration on an empty ledger.
use development_kit.Prelude.{
  Str, Bool, codes, ◌≡◌, refl, ap, arith, Result, ok, none, some, List, [], ◌∷◌, ◌++◌, true, false,
  ◌||◌, any, str_eq, str_eq→eq,
}
use development_kit.Text.{split_once}
use development_kit.Text.Search.{strip_prefix}
use development_kit.Text.Search.Cut.{Lacks, split_once_append}
use development_kit.LocalStore.{
  Migration, Connection, bootstrap_sql, batch, has_quote, run_each, run_migrations, apply_module,
}
use development_kit.LocalStore.Ledger.{IsMigrated}
use development_kit.LocalStore.Migrated.{apply_module-IsMigrated}

-- What stands before the version, when the statement is `CREATE`.
abbrev insert_into : Str
insert_into = codes "BEGIN;\nCREATE\nINSERT INTO schema_migrations (version) VALUES ('"

unfoldable record_version : List Str → Str → List Str
unfolding split_once
record_version rows text = elim (split_once b'\'' text) [
  | none ↦ rows
  | some (version, _) ↦ version ∷ rows
]

unfoldable execute_batch : List Str → Str → List Str × Result Str (Unit {0})
unfolding strip_prefix record_version
execute_batch rows text = elim (strip_prefix insert_into text) [
  | none ↦ (rows, ok tt)
  | some rest ↦ (record_version rows rest, ok tt)
]

unfoldable recorded : List Str → Str → Bool
recorded rows w = any (λ v. str_eq v w) rows

recorded-bootstrap_sql :
    (rows : List Str) (w : Str) → recorded (execute_batch rows bootstrap_sql).0 w ≡ recorded rows w
unfolding execute_batch bootstrap_sql strip_prefix
recorded-bootstrap_sql rows w = refl

has_quote-Lacks : (v : Str) → has_quote v ≡ false → Lacks b'\'' v
has_quote-Lacks [] h = tt
has_quote-Lacks (c ∷ v) h = ground (arith, has_quote-Lacks v)

record_version-append :
    (rows : List Str) (v rest : Str)
    → Lacks b'\'' v
    → record_version rows (v ++ (b'\'' ∷ rest)) ≡ v ∷ rows
unfolding record_version
record_version-append rows v rest h = rw (split_once_append b'\'' v rest h, record_version) refl

executed :
    (rows : List Str) (v : Str)
    → has_quote v ≡ false
    → (execute_batch rows (batch v (codes "CREATE"))).0 ≡ v ∷ rows
unfolding execute_batch batch strip_prefix
executed rows v h = record_version-append rows v (codes ");\nCOMMIT;") (has_quote-Lacks v h)

recorded-batch :
    (rows : List Str) (v sql w : Str) (u : Unit {0})
    → str_eq sql (codes "CREATE") ≡ true
    → has_quote v ≡ false
    → (execute_batch rows (batch v sql)).1 ≡ ok u
    → recorded (execute_batch rows (batch v sql)).0 w ≡ str_eq v w || recorded rows w
unfolding recorded
recorded-batch rows v sql w u spares plain done =
    rw (str_eq→eq sql (codes "CREATE") spares) (ap (λ r. recorded r w) (executed rows v plain))

abbrev connection : Connection
connection = record {
  Conn = List Str;
  execute_batch = execute_batch;
  exists = λ rows w. ok (recorded rows w);
  recorded = recorded;
  spares_ledger = λ sql. str_eq sql (codes "CREATE");
  recorded-bootstrap_sql = recorded-bootstrap_sql;
  exists-recorded = λ rows w b h. cc h;
  recorded-batch = recorded-batch;
}

abbrev baseline : List Migration
baseline = record { version = codes "0001_init"; sql = codes "CREATE" } ∷ []

abbrev vault : List Migration
vault = record { version = codes "vault_0001_init"; sql = codes "CREATE" } ∷ []

abbrev migrated : List Str
migrated = codes "vault_0001_init" ∷ codes "0001_init" ∷ []

vault_applied : apply_module connection baseline [] vault ≡ (migrated, ok 2)
unfolding apply_module run_migrations run_each execute_batch record_version recorded batch
    bootstrap_sql strip_prefix split_once str_eq
vault_applied = refl

vault_again : apply_module connection baseline migrated vault ≡ (migrated, ok 0)
unfolding apply_module run_migrations run_each execute_batch record_version recorded batch
    bootstrap_sql strip_prefix split_once str_eq
vault_again = refl

baseline_safe : str_eq (codes "CREATE") (codes "CREATE") ≡ true
unfolding str_eq
baseline_safe = refl

apply_module-IsMigrated_example : IsMigrated connection (baseline ++ vault) [] 0 migrated 2
apply_module-IsMigrated_example =
    apply_module-IsMigrated connection baseline vault [] migrated 2 ((baseline_safe, refl), tt)
      ((baseline_safe, refl), tt) vault_applied
