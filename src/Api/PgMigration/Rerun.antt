-- ===== src/Api/PgMigration/Rerun.antt =====
-- `run_migrations`: what a run leaves in the ledger, and a second run.
use development_kit.Prelude.{
  ℕ, ◌≡◌, refl, sym, ◌∙◌, ap, arith, ok, err, List, [], ◌∷◌, length, All-Among, Result-cases, inl,
  inr,
}
use development_kit.Api.PgMigration.{
  PgMigration, PgMigrationError, PgExecutor, reject_seen, reject_duplicate_versions, run_each,
  run_ledger, run_migrations,
}
use development_kit.Api.PgMigration.Ledger.{
  IsDistinct, IsRun, reject_seen-IsDistinct, missing-recorded, missing_same, run_each_nil,
  run_each-IsRun,
}

module _ (pg : PgExecutor) where
  open pg use {Executor, recorded, is_applied, apply}

  ledger_fault :
      (ms : List PgMigration) (e : Executor) (x : PgMigrationError)
      → (pg.ensure_ledger e).1 ≡ err x
      → run_ledger pg ms e ≡ ((pg.ensure_ledger e).0, err x)
  unfolding run_ledger
  ledger_fault ms e x p = rw (p, run_ledger) refl

  ledger_ready :
      (ms : List PgMigration) (e : Executor) (u : Unit {0})
      → (pg.ensure_ledger e).1 ≡ ok u
      → run_ledger pg ms e ≡ run_each pg ms (pg.ensure_ledger e).0 0
  unfolding run_ledger
  ledger_ready ms e u p = rw (p, run_ledger) refl

  same_ledger :
      (ms : List PgMigration) (e e' : Executor) (n : ℕ)
      → IsRun pg ms (pg.ensure_ledger e).0 0 e' n
      → IsRun pg ms e 0 e' n
  same_ledger ms e e' n r = record {
    all_recorded = r.all_recorded;
    kept = λ w k. r.kept w (pg.recorded-ensure_ledger e w ∙ k);
    counted = omega (
      arith,
      r.counted,
      ap length (
          missing_same pg e (pg.ensure_ledger e).0 ms
            (All-Among ms (λ m a. pg.recorded-ensure_ledger e m.version))),
    );
  }

  -- A set of migrations that passes the check for duplicates, by what the run does.
  run_ledger-IsRun :
      (ms : List PgMigration) (e e' : Executor) (n : ℕ)
      → IsDistinct [] ms
      → run_ledger pg ms e ≡ (e', ok n)
      → IsRun pg ms e 0 e' n
  unfolding run_ledger
  run_ledger-IsRun ms e e' n d h = elim (Result-cases (pg.ensure_ledger e).1) [
    | inr (x, p) ↦ absurd (cc (ap (λ r. r.1) (sym (ledger_fault ms e x p) ∙ h)))
    | inl (u, p) ↦
        same_ledger ms e e' n (
          run_each-IsRun pg ms [] (pg.ensure_ledger e).0 e' 0 n d (sym (ledger_ready ms e u p) ∙ h))
  ]

  run_migrations_nil : (e : Executor) → run_migrations pg e [] ≡ (e, ok 0)
  unfolding run_migrations reject_duplicate_versions reject_seen
  run_migrations_nil e = refl

  run_migrations_rejected :
      (m : PgMigration) (ms : List PgMigration) (e : Executor) (x : PgMigrationError)
      → reject_seen [] (m ∷ ms) ≡ err x
      → run_migrations pg e (m ∷ ms) ≡ (e, err x)
  unfolding run_migrations reject_duplicate_versions
  run_migrations_rejected m ms e x p = rw (p, run_migrations, reject_duplicate_versions) refl

  run_migrations_ledger :
      (m : PgMigration) (ms : List PgMigration) (e : Executor) (u : Unit {0})
      → reject_seen [] (m ∷ ms) ≡ ok u
      → run_migrations pg e (m ∷ ms) ≡ run_ledger pg (m ∷ ms) e
  unfolding run_migrations reject_duplicate_versions
  run_migrations_ledger m ms e u p = rw (p, run_migrations, reject_duplicate_versions) refl

  -- When a run succeeds, every version of the set is in the ledger, no version was taken out of it,
  -- and the count returned is that of the migrations that were missing before the run.
  pub run_migrations-IsRun :
      (ms : List PgMigration) (e e' : Executor) (n : ℕ)
      → run_migrations pg e ms ≡ (e', ok n)
      → IsRun pg ms e 0 e' n
  run_migrations-IsRun [] e e' n h =
      run_each-IsRun pg [] [] e e' 0 n tt (run_each_nil pg e 0 ∙ sym (run_migrations_nil e) ∙ h)
  run_migrations-IsRun (m ∷ ms) e e' n h = elim (Result-cases (reject_seen [] (m ∷ ms))) [
    | inr (x, p) ↦ absurd (cc (ap (λ r. r.1) (sym (run_migrations_rejected m ms e x p) ∙ h)))
    | inl (u, p) ↦
        run_ledger-IsRun (m ∷ ms) e e' n (reject_seen-IsDistinct [] (m ∷ ms) (rw p refl))
          (sym (run_migrations_ledger m ms e u p) ∙ h)
  ]

  -- Running a set again applies nothing: after a run that succeeds, whenever a second run of the
  -- same set succeeds its count is 0.
  pub run_migrations_again :
      (ms : List PgMigration) (e e' f : Executor) (n k : ℕ)
      → run_migrations pg e ms ≡ (e', ok n)
      → run_migrations pg e' ms ≡ (f, ok k)
      → k ≡ 0
  run_migrations_again ms e e' f n k h again = omega (
    arith,
    (run_migrations-IsRun ms e' f k again).counted,
    ap length (missing-recorded pg e' ms (run_migrations-IsRun ms e e' n h).all_recorded),
  )
