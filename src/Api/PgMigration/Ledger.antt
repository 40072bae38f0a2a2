-- ===== src/Api/PgMigration/Ledger.antt =====
-- What a run of the migrations leaves in the ledger.
use development_kit.Prelude.{
  ℕ, ◌+◌, Str, ◌≡◌, refl, sym, ◌∙◌, ap, arith, ok, err, is_ok, List, [], ◌∷◌, true, false, not,
  ◌||◌, any, length, select, All, All-map, str_eq, str_eq_refl, str_eq→eq, Bool-cases, Result-cases,
  inl, inr,
}
use development_kit.Api.PgMigration.{
  PgMigration, PgMigrationError, PgExecutor, reject_seen, run_each,
}

-- The versions of a list of migrations differ from the ones seen and from each other.
abbrev pub IsDistinct : List Str → List PgMigration → Type 0
IsDistinct seen [] = Unit
IsDistinct seen (m ∷ ms) =
    (any (λ v. str_eq v m.version) seen ≡ false) × IsDistinct (m.version ∷ seen) ms

pub reject_seen-IsDistinct :
    (seen : List Str) (ms : List PgMigration)
    → is_ok (reject_seen seen ms) ≡ true
    → IsDistinct seen ms
unfolding reject_seen
reject_seen-IsDistinct seen [] h = tt
reject_seen-IsDistinct seen (m ∷ ms) h = elim (Bool-cases (any (λ v. str_eq v m.version) seen)) [
  | inl e ↦ absurd (ground (arith, h, e))
  | inr e ↦ (e, reject_seen-IsDistinct (m.version ∷ seen) ms (ground (arith, h, e)))
]

-- No migration of the list has this version.
abbrev pub Lacks : Str → List PgMigration → Type 0
Lacks v ms = All (λ m. str_eq v m.version ≡ false) ms

IsDistinct-Lacks :
    (v : Str) (seen : List Str) (ms : List PgMigration)
    → any (λ x. str_eq x v) seen ≡ true
    → IsDistinct seen ms
    → Lacks v ms
IsDistinct-Lacks v seen [] h d = tt
IsDistinct-Lacks v seen (m ∷ ms) h d = elim (Bool-cases (str_eq v m.version)) [
  | inl e ↦ absurd (cc (h, d.0, ap (λ w. any (λ x. str_eq x w) seen) (str_eq→eq v m.version e)))
  | inr e ↦ (e, IsDistinct-Lacks v (m.version ∷ seen) ms (ground (arith, h)) d.1)
]

module _ (pg : PgExecutor) where
  open pg use {Executor, recorded, is_applied, apply}

  -- The migrations that the ledger does not have yet.
  abbrev pub missing : Executor → List PgMigration → List PgMigration
  missing e ms = select (λ m. not (recorded e m.version)) ms

  abbrev pub AllRecorded : Executor → List PgMigration → Type 0
  AllRecorded e ms = All (λ m. recorded e m.version ≡ true) ms

  pub missing-recorded :
      (e : Executor) (ms : List PgMigration) → AllRecorded e ms → missing e ms ≡ []
  missing-recorded e [] a = refl
  missing-recorded e (m ∷ ms) a = rw a.0 (missing-recorded e ms a.1)

  pub missing_same :
      (e e' : Executor) (ms : List PgMigration)
      → All (λ m. recorded e' m.version ≡ recorded e m.version) ms
      → missing e' ms ≡ missing e ms
  missing_same e e' [] a = refl
  missing_same e e' (m ∷ ms) a = ground (arith, a.0, missing_same e e' ms a.1)

  -- The outcome of the loop: what it returns, and the ledger that it leaves.
  pub record IsRun (ms : List PgMigration) (e : Executor) (applied : ℕ) (e' : Executor) (n : ℕ)
      : Type 0 where
    pub all_recorded : AllRecorded e' ms
    pub kept : (w : Str) → recorded e w ≡ true → recorded e' w ≡ true
    pub counted : n ≡ applied + length (missing e ms)

  IsRun-skip :
      (m : PgMigration) (ms : List PgMigration) (e e' : Executor) (a n : ℕ)
      → recorded e m.version ≡ true
      → IsRun ms e a e' n
      → IsRun (m ∷ ms) e a e' n
  IsRun-skip m ms e e' a n h r = record {
    all_recorded = (r.kept m.version h, r.all_recorded);
    kept = r.kept;
    counted = rw h r.counted;
  }

  IsRun-apply :
      (m : PgMigration) (ms : List PgMigration) (e f e' : Executor) (a n : ℕ)
      → recorded e m.version ≡ false
      → ((w : Str) → recorded f w ≡ (str_eq m.version w || recorded e w))
      → Lacks m.version ms
      → IsRun ms f (a + 1) e' n
      → IsRun (m ∷ ms) e a e' n
  IsRun-apply m ms e f e' a n h wrote lacks r = record {
    all_recorded =
        (r.kept m.version (wrote m.version ∙ rw (str_eq_refl m.version) refl), r.all_recorded);
    kept = λ w k. r.kept w (ground (arith, wrote w, k));
    counted = rw h (
        omega (
          arith,
          r.counted,
          ap length (missing_same e f ms (All-map ms (λ x l. wrote x.version ∙ rw l refl) lacks)),
        ));
  }

  -- One turn of the loop, by what the executor answers.
  run_each_fault :
      (m : PgMigration) (ms : List PgMigration) (e : Executor) (a : ℕ) (x : PgMigrationError)
      → is_applied e m.version ≡ err x
      → run_each pg (m ∷ ms) e a ≡ (e, err x)
  unfolding run_each
  run_each_fault m ms e a x p = rw (p, run_each) refl

  pub run_each_nil : (e : Executor) (a : ℕ) → run_each pg [] e a ≡ (e, ok a)
  unfolding run_each
  run_each_nil e a = refl

  run_each_skip :
      (m : PgMigration) (ms : List PgMigration) (e : Executor) (a : ℕ)
      → is_applied e m.version ≡ ok true
      → run_each pg (m ∷ ms) e a ≡ run_each pg ms e a
  unfolding run_each
  run_each_skip m ms e a p = rw (p, run_each) refl

  run_each_refused :
      (m : PgMigration) (ms : List PgMigration) (e : Executor) (a : ℕ) (x : PgMigrationError)
      → is_applied e m.version ≡ ok false
      → (apply e m.version m.sql).1 ≡ err x
      → run_each pg (m ∷ ms) e a ≡ ((apply e m.version m.sql).0, err x)
  unfolding run_each
  run_each_refused m ms e a x p q = rw (p, run_each) (rw q refl)

  run_each_apply :
      (m : PgMigration) (ms : List PgMigration) (e : Executor) (a : ℕ) (u : Unit {0})
      → is_applied e m.version ≡ ok false
      → (apply e m.version m.sql).1 ≡ ok u
      → run_each pg (m ∷ ms) e a ≡ run_each pg ms (apply e m.version m.sql).0 (a + 1)
  unfolding run_each
  run_each_apply m ms e a u p q = rw (p, run_each) (rw q refl)

  wrote :
      (m : PgMigration) (e : Executor) (u : Unit {0}) (w : Str)
      → (apply e m.version m.sql).1 ≡ ok u
      → recorded (apply e m.version m.sql).0 w ≡ (str_eq m.version w || recorded e w)
  wrote m e u w q = pg.recorded-apply e m.version m.sql w ∙ rw q refl

  pub run_each-IsRun :
      (ms : List PgMigration) (seen : List Str) (e e' : Executor) (a n : ℕ)
      → IsDistinct seen ms
      → run_each pg ms e a ≡ (e', ok n)
      → IsRun ms e a e' n
  run_each-IsRun [] seen e e' a n d h =
      let q = sym (run_each_nil e a) ∙ h in
      let c : a ≡ n = cc (ap (λ r. r.1) q) in
      record {
        all_recorded = tt;
        kept = λ w k. rw (← ap (λ r. r.0) q) k;
        counted = omega (arith, c);
      }
  run_each-IsRun (m ∷ ms) seen e e' a n d h = elim (Result-cases (is_applied e m.version)) [
    | inr (x, p) ↦ absurd (cc (ap (λ r. r.1) (sym (run_each_fault m ms e a x p) ∙ h)))
    | inl (true, p) ↦
        IsRun-skip m ms e e' a n (sym (pg.is_applied-recorded e m.version true p))
          (run_each-IsRun ms (m.version ∷ seen) e e' a n d.1 (sym (run_each_skip m ms e a p) ∙ h))
    | inl (false, p) ↦ elim (Result-cases (apply e m.version m.sql).1) [
      | inr (x, q) ↦ absurd (cc (ap (λ r. r.1) (sym (run_each_refused m ms e a x p q) ∙ h)))
      | inl (u, q) ↦
          IsRun-apply m ms e (apply e m.version m.sql).0 e' a n
            (sym (pg.is_applied-recorded e m.version false p)) (λ w. wrote m e u w q)
            (IsDistinct-Lacks m.version (m.version ∷ seen) ms (rw (str_eq_refl m.version) refl) d.1)
            (run_each-IsRun ms (m.version ∷ seen) (apply e m.version m.sql).0 e' (a + 1) n d.1
              (sym (run_each_apply m ms e a u p q) ∙ h))
    ]
  ]
