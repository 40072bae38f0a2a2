-- ===== src/Api/Products/Modules.antt =====
-- What applying a product's migrations leaves in the ledger.
use development_kit.Prelude.{
  ℕ, ◌+◌, Str, ◌≡◌, refl, sym, ◌∙◌, ap, arith, Result, ok, err, is_ok, List, [], ◌∷◌, true, All,
  All-map, Bool-cases, Result-cases, inl, inr,
}
use development_kit.Shared.ProductModule.{ProductModuleMeta, table_prefix}
use development_kit.Api.PgMigration.{
  PgMigration, PgMigrationError, PgExecutor, run_migrations, starts_with,
}
use development_kit.Api.PgMigration.Ledger.{IsRun, AllRecorded}
use development_kit.Api.PgMigration.Rerun.{run_migrations-IsRun}
use development_kit.Api.Products.{check_prefixes, run_both, apply_module}

abbrev pub AllPrefixed : Str → List PgMigration → Type 0
AllPrefixed prefix ms = All (λ m. starts_with m.version prefix ≡ true) ms

check_prefixes-AllPrefixed :
    (prefix : Str) (ms : List PgMigration)
    → is_ok (check_prefixes prefix ms) ≡ true
    → AllPrefixed prefix ms
unfolding check_prefixes
check_prefixes-AllPrefixed prefix [] h = tt
check_prefixes-AllPrefixed prefix (m ∷ ms) h = elim (Bool-cases (starts_with m.version prefix)) [
  | inl e ↦ (e, check_prefixes-AllPrefixed prefix ms (ground (arith, h, e)))
  | inr e ↦ absurd (ground (arith, h, e))
]

module _ (pg : PgExecutor) (baseline : List PgMigration) where
  open pg use {Executor, recorded}

  -- A run of both sets that succeeds, step by step.
  pub record IsApplied (ms : List PgMigration) (e e' : Executor) (n : ℕ) : Type 0 where
    pub between : Executor
    pub first_count : ℕ
    pub second_count : ℕ
    pub first_run : IsRun pg baseline e 0 between first_count
    pub second_run : IsRun pg ms between 0 e' second_count
    pub total : n ≡ first_count + second_count

  -- The product's run, which starts from the state that the baseline's leaves.
  abbrev second : List PgMigration → Executor → Executor × Result PgMigrationError ℕ
  second ms e = run_migrations pg (run_migrations pg e baseline).0 ms

  second_step :
      (ms : List PgMigration) (e : Executor) (k : ℕ) (x : PgMigrationError)
      → (run_migrations pg e baseline).1 ≡ ok k
      → (second ms e).1 ≡ err x
      → run_both pg baseline e ms ≡ ((second ms e).0, err x)
  unfolding run_both
  second_step ms e k x h g = rw (h, run_both) (rw g refl)

  both_step :
      (ms : List PgMigration) (e : Executor) (k j : ℕ)
      → (run_migrations pg e baseline).1 ≡ ok k
      → (second ms e).1 ≡ ok j
      → run_both pg baseline e ms ≡ ((second ms e).0, ok (k + j))
  unfolding run_both
  both_step ms e k j h g = rw (h, run_both) (rw g refl)

  first_step :
      (ms : List PgMigration) (e : Executor) (x : PgMigrationError)
      → (run_migrations pg e baseline).1 ≡ err x
      → run_both pg baseline e ms ≡ ((run_migrations pg e baseline).0, err x)
  unfolding run_both
  first_step ms e x g = rw (g, run_both) refl

  pair_eq : (r : Executor × Result PgMigrationError ℕ) (k : ℕ) → r.1 ≡ ok k → r ≡ (r.0, ok k)
  pair_eq (e, outcome) k h = ap (λ o. (e, o)) h

  run_both-IsApplied :
      (ms : List PgMigration) (e e' : Executor) (n : ℕ)
      → run_both pg baseline e ms ≡ (e', ok n)
      → IsApplied ms e e' n
  run_both-IsApplied ms e e' n h = elim (Result-cases (run_migrations pg e baseline).1) [
    | inr (x, g) ↦ absurd (cc (ap (λ r. r.1) (sym (first_step ms e x g) ∙ h)))
    | inl (k, g) ↦
        (let f = (run_migrations pg e baseline).0 in
          let q = pair_eq (run_migrations pg e baseline) k g in
          elim (Result-cases (run_migrations pg f ms).1) [
            | inr (x, p) ↦ absurd (cc (ap (λ r. r.1) (sym (second_step ms e k x g p) ∙ h)))
            | inl (j, p) ↦
                (let whole = sym (both_step ms e k j g p) ∙ h in
                  let last : (run_migrations pg f ms).0 ≡ e' = ap (λ r. r.0) whole in
                  let sum : k + j ≡ n = cc (ap (λ r. r.1) whole) in
                  record {
                    between = f;
                    first_count = k;
                    second_count = j;
                    first_run = run_migrations-IsRun pg baseline e f k q;
                    second_run =
                        run_migrations-IsRun pg ms f e' j
                          (pair_eq (run_migrations pg f ms) j p ∙ ap (λ t. (t, ok j)) last);
                    total = sym sum;
                  })
          ])
  ]

  -- What a module that was applied leaves: its versions carry its prefix, and the ledger has them and
  -- those of the baseline.
  pub record IsInstalled (meta : ProductModuleMeta) (ms : List PgMigration) (e' : Executor)
      : Type 0 where
    pub prefixed : AllPrefixed (table_prefix meta) ms
    pub baseline_recorded : AllRecorded pg e' baseline
    pub product_recorded : AllRecorded pg e' ms

  apply_module-run_both :
      (meta : ProductModuleMeta) (ms : List PgMigration) (e : Executor) (u : Unit {0})
      → check_prefixes (table_prefix meta) ms ≡ ok u
      → apply_module pg baseline e meta ms ≡ run_both pg baseline e ms
  unfolding apply_module
  apply_module-run_both meta ms e u h = rw (h, apply_module) refl

  apply_module_rejected :
      (meta : ProductModuleMeta) (ms : List PgMigration) (e : Executor) (x : PgMigrationError)
      → check_prefixes (table_prefix meta) ms ≡ err x
      → apply_module pg baseline e meta ms ≡ (e, err x)
  unfolding apply_module
  apply_module_rejected meta ms e x h = rw (h, apply_module) refl

  -- When a module is applied with success, each of its versions starts with the module's prefix, and
  -- the ledger has all of them and all versions of the baseline.
  pub apply_module-IsInstalled :
      (meta : ProductModuleMeta) (ms : List PgMigration) (e e' : Executor) (n : ℕ)
      → apply_module pg baseline e meta ms ≡ (e', ok n)
      → IsInstalled meta ms e'
  apply_module-IsInstalled meta ms e e' n h =
      elim (Result-cases (check_prefixes (table_prefix meta) ms)) [
        | inr (x, g) ↦ absurd (cc (ap (λ r. r.1) (sym (apply_module_rejected meta ms e x g) ∙ h)))
        | inl (u, g) ↦
            (let a = run_both-IsApplied ms e e' n (sym (apply_module-run_both meta ms e u g) ∙ h) in
              record {
                prefixed = check_prefixes-AllPrefixed (table_prefix meta) ms (rw g refl);
                baseline_recorded =
                    All-map baseline (λ m r. a.second_run.kept m.version r)
                      a.first_run.all_recorded;
                product_recorded = a.second_run.all_recorded;
              })
      ]
