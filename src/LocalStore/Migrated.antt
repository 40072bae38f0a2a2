-- ===== src/LocalStore/Migrated.antt =====
-- What a run of the local store's migrations leaves in its ledger, and what it counts.
use development_kit.Prelude.{
  ℕ, ◌+◌, Str, ◌≡◌, ◌≢◌, refl, sym, ◌∙◌, ap, Result, ok, err, List, [], ◌∷◌, ◌++◌, true, false,
  Result-cases, inl, inr,
}
use development_kit.LocalStore.Ledger.{
  AllSafe, IsMigrated, IsMigrated-nil, IsMigrated-skip, IsMigrated-apply, IsMigrated-ledger,
  IsMigrated-append,
}
use development_kit.LocalStore.{
  Migration, LocalStoreError, Connection, bootstrap_sql, batch, run_each, run_migrations,
  apply_module, database,
}

module _ (db : Connection) where
  open db use {Conn, execute_batch, exists, recorded}

  run_each_fault :
      (m : Migration) (ms : List Migration) (e : Conn) (a : ℕ) (x : Str)
      → exists e m.version ≡ err x
      → (run_each db (m ∷ ms) e a).1 ≡ err (database x)
  unfolding run_each
  run_each_fault m ms e a x p = rw (p, run_each) refl

  run_each_skip :
      (m : Migration) (ms : List Migration) (e : Conn) (a : ℕ)
      → exists e m.version ≡ ok true
      → run_each db (m ∷ ms) e a ≡ run_each db ms e a
  unfolding run_each
  run_each_skip m ms e a p = rw (p, run_each) refl

  abbrev applied : Migration → Conn → Conn × Result Str (Unit {0})
  applied m e = execute_batch e (batch m.version m.sql)

  run_each_refused :
      (m : Migration) (ms : List Migration) (e : Conn) (a : ℕ) (x : Str)
      → exists e m.version ≡ ok false
      → (applied m e).1 ≡ err x
      → (n : ℕ) → (run_each db (m ∷ ms) e a).1 ≢ ok n
  unfolding run_each
  run_each_refused m ms e a x p q n = rw (p, run_each) (rw q (λ h. cc h))

  run_each_apply :
      (m : Migration) (ms : List Migration) (e : Conn) (a : ℕ) (u : Unit {0})
      → exists e m.version ≡ ok false
      → (applied m e).1 ≡ ok u
      → run_each db (m ∷ ms) e a ≡ run_each db ms (applied m e).0 (a + 1)
  unfolding run_each
  run_each_apply m ms e a u p q = rw (p, run_each) (rw q refl)

  run_each_nil : (e : Conn) (a : ℕ) → run_each db [] e a ≡ (e, ok a)
  unfolding run_each
  run_each_nil e a = refl

  run_each-IsMigrated :
      (ms : List Migration) (e f : Conn) (a n : ℕ)
      → AllSafe db ms
      → run_each db ms e a ≡ (f, ok n)
      → IsMigrated db ms e a f n
  run_each-IsMigrated [] e f a n safe h =
      let q = sym (run_each_nil e a) ∙ h in
      let c : a ≡ n = cc (ap (λ r. r.1) q) in rw (← ap (λ r. r.0) q, ← c) (IsMigrated-nil db e a)
  run_each-IsMigrated (m ∷ ms) e f a n safe h = elim (Result-cases (exists e m.version)) [
    | inr (x, p) ↦ absurd (cc (sym (run_each_fault m ms e a x p) ∙ ap (λ r. r.1) h))
    | inl (true, p) ↦
        IsMigrated-skip db m ms e f a n (sym (db.exists-recorded e m.version true p))
          (run_each-IsMigrated ms e f a n safe.1 (sym (run_each_skip m ms e a p) ∙ h))
    | inl (false, p) ↦ elim (Result-cases (applied m e).1) [
      | inr (x, q) ↦ absurd (run_each_refused m ms e a x p q n (ap (λ r. r.1) h))
      | inl (u, q) ↦
          IsMigrated-apply db m ms e (applied m e).0 f a n
            (sym (db.exists-recorded e m.version false p))
            (λ w. db.recorded-batch e m.version m.sql w u safe.0.0 safe.0.1 q)
            (run_each-IsMigrated ms (applied m e).0 f (a + 1) n safe.1
              (sym (run_each_apply m ms e a u p q) ∙ h))
    ]
  ]

  -- The table is created first, which leaves its rows.
  abbrev booted : Conn → Conn × Result Str (Unit {0})
  booted e = execute_batch e bootstrap_sql

  run_migrations_fault :
      (ms : List Migration) (e : Conn) (x : Str)
      → (booted e).1 ≡ err x
      → (n : ℕ) → (run_migrations db e ms).1 ≢ ok n
  unfolding run_migrations
  run_migrations_fault ms e x p n = rw (p, run_migrations) (λ h. cc h)

  run_migrations_ready :
      (ms : List Migration) (e : Conn) (u : Unit {0})
      → (booted e).1 ≡ ok u
      → run_migrations db e ms ≡ run_each db ms (booted e).0 0
  unfolding run_migrations
  run_migrations_ready ms e u p = rw (p, run_migrations) refl

  pub run_migrations-IsMigrated :
      (ms : List Migration) (e f : Conn) (n : ℕ)
      → AllSafe db ms
      → run_migrations db e ms ≡ (f, ok n)
      → IsMigrated db ms e 0 f n
  run_migrations-IsMigrated ms e f n safe h = elim (Result-cases (booted e).1) [
    | inr (x, p) ↦ absurd (run_migrations_fault ms e x p n (ap (λ r. r.1) h))
    | inl (u, p) ↦
        IsMigrated-ledger db ms e (booted e).0 f 0 n (db.recorded-bootstrap_sql e)
          (run_each-IsMigrated ms (booted e).0 f 0 n safe (sym (run_migrations_ready ms e u p) ∙ h))
  ]

  abbrev second : List Migration → Conn → List Migration → Conn × Result LocalStoreError ℕ
  second baseline e ms = run_migrations db (run_migrations db e baseline).0 ms

  apply_module_fault :
      (baseline ms : List Migration) (e : Conn) (x : LocalStoreError)
      → (run_migrations db e baseline).1 ≡ err x
      → (apply_module db baseline e ms).1 ≡ err x
  unfolding apply_module
  apply_module_fault baseline ms e x p = rw (p, apply_module) refl

  apply_module_halted :
      (baseline ms : List Migration) (e : Conn) (k : ℕ) (x : LocalStoreError)
      → (run_migrations db e baseline).1 ≡ ok k
      → (second baseline e ms).1 ≡ err x
      → (apply_module db baseline e ms).1 ≡ err x
  unfolding apply_module
  apply_module_halted baseline ms e k x p q = rw (p, apply_module) (rw q refl)

  apply_module_both :
      (baseline ms : List Migration) (e : Conn) (k j : ℕ)
      → (run_migrations db e baseline).1 ≡ ok k
      → (second baseline e ms).1 ≡ ok j
      → apply_module db baseline e ms ≡ ((second baseline e ms).0, ok (k + j))
  unfolding apply_module
  apply_module_both baseline ms e k j p q = rw (p, apply_module) (rw q refl)

  -- When the baseline and a module's migrations, none of which touches the ledger or has a quote in
  -- its version, are applied with success, the ledger gains exactly their versions, at most one is
  -- counted for each, and the count is 0 when the ledger had them all, as on a second run.
  pub apply_module-IsMigrated :
      (baseline ms : List Migration) (e f : Conn) (n : ℕ)
      → AllSafe db baseline
      → AllSafe db ms
      → apply_module db baseline e ms ≡ (f, ok n)
      → IsMigrated db (baseline ++ ms) e 0 f n
  apply_module-IsMigrated baseline ms e f n safe more h =
      elim (Result-cases (run_migrations db e baseline).1) [
        | inr (x, p) ↦ absurd (cc (sym (apply_module_fault baseline ms e x p) ∙ ap (λ r. r.1) h))
        | inl (k, p) ↦ elim (Result-cases (second baseline e ms).1) [
          | inr (x, q) ↦
              absurd (cc (sym (apply_module_halted baseline ms e k x p q) ∙ ap (λ r. r.1) h))
          | inl (j, q) ↦
              let r = sym (apply_module_both baseline ms e k j p q) ∙ h in
              let c : k + j ≡ n = cc (ap (λ r. r.1) r) in
              rw (← ap (λ r. r.0) r, ← c)
                (IsMigrated-append db baseline ms e (run_migrations db e baseline).0
                  (second baseline e ms).0 k j
                  (run_migrations-IsMigrated baseline e (run_migrations db e baseline).0 k safe
                    (ap (λ o. ((run_migrations db e baseline).0, o)) p))
                  (run_migrations-IsMigrated ms (run_migrations db e baseline).0
                    (second baseline e ms).0 j more (ap (λ o. ((second baseline e ms).0, o)) q)))
        ]
      ]
