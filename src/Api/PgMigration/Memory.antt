-- ===== src/Api/PgMigration/Memory.antt =====
-- `InMemoryPgExecutor`, which keeps the promises of `PgExecutor`.
use development_kit.Prelude.{
  Str, ◌≡◌, refl, ◌∙◌, arith, Result, ok, List, [], ◌∷◌, ◌++◌, Bool, true, ◌||◌, any, str_eq, is_ok,
  if◌then◌else◌,
}
use development_kit.Api.PgMigration.{PgExecutor, PgMigrationError}

pub record InMemoryPgExecutor : Type 0 where
  pub ledger_ready : Bool
  pub applied : List Str
  pub ran_sql : List (Str × Str)

unfoldable pub ensure_ledger :
    InMemoryPgExecutor → InMemoryPgExecutor × Result PgMigrationError (Unit {0})
ensure_ledger e = (record e { ledger_ready = true }, ok tt)

unfoldable pub recorded : InMemoryPgExecutor → Str → Bool
recorded e version = any (λ v. str_eq v version) e.applied

unfoldable pub is_applied : InMemoryPgExecutor → Str → Result PgMigrationError Bool
is_applied e version = ok (recorded e version)

unfoldable pub apply :
    InMemoryPgExecutor → Str → Str → InMemoryPgExecutor × Result PgMigrationError (Unit {0})
apply e version sql = (
  record e { applied = e.applied ++ (version ∷ []); ran_sql = e.ran_sql ++ ((version, sql) ∷ []) },
  ok tt,
)

any-append_one :
    (vs : List Str) (v w : Str)
    → any (λ x. str_eq x w) (vs ++ (v ∷ [])) ≡ str_eq v w || any (λ x. str_eq x w) vs
any-append_one [] v w = ground arith
any-append_one (x ∷ vs) v w = ground (arith, any-append_one vs v w)

pub recorded-ensure_ledger :
    (e : InMemoryPgExecutor) (v : Str) → recorded (ensure_ledger e).0 v ≡ recorded e v
unfolding ensure_ledger recorded
recorded-ensure_ledger e v = refl

pub is_applied-recorded :
    (e : InMemoryPgExecutor) (v : Str) (b : Bool) → is_applied e v ≡ ok b → b ≡ recorded e v
unfolding is_applied
is_applied-recorded e v b h = cc h

pub recorded-apply :
    (e : InMemoryPgExecutor) (v sql w : Str)
    → recorded (apply e v sql).0 w ≡ str_eq v w || recorded e w
unfolding recorded apply
recorded-apply e v sql w = any-append_one e.applied v w

pub recorded-apply_result :
    (e : InMemoryPgExecutor) (v sql w : Str)
    → recorded (apply e v sql).0 w
      ≡ (if is_ok (apply e v sql).1 then str_eq v w || recorded e w else recorded e w)
recorded-apply_result e v sql w = recorded-apply e v sql w ∙ (unfold apply in refl)

abbrev pub in_memory_pg : PgExecutor
in_memory_pg = record {
  Executor = InMemoryPgExecutor;
  ensure_ledger = ensure_ledger;
  is_applied = is_applied;
  apply = apply;
  recorded = recorded;
  recorded-ensure_ledger = recorded-ensure_ledger;
  is_applied-recorded = is_applied-recorded;
  recorded-apply = recorded-apply_result;
}
