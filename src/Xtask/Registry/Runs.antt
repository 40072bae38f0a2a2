-- ===== src/Xtask/Registry/Runs.antt =====
-- What a run of checks records, and when it passes.
use development_kit.Prelude.{
  ◌≡◌, refl, ap, inl, inr, true, Bool-cases, List, [], ◌∷◌, ◌++◌, map, is_empty, is_ok, Among,
  first, later, ok, Result-cases,
}
use development_kit.Xtask.Registry.{Check, CheckResult, run_checks, failures, passed}

module _ {W : Type 0} where
  -- Each check has one result under its name, in the order of the checks.
  pub run_checks_names :
      (cs : List (Check W)) (w : W)
      → map (λ (r : CheckResult). r.name) (run_checks cs w).1 ≡ map (λ (c : Check W). c.name) cs
  unfolding run_checks
  run_checks_names [] w = refl
  run_checks_names (c ∷ cs) w = ap (λ t. c.name ∷ t) (run_checks_names cs (c.run w).0)

  passed_head :
      (c : Check W) (cs : List (Check W)) (w : W)
      → passed (run_checks (c ∷ cs) w).1 ≡ true
      → ((c.run w).1 ≡ ok tt) × (passed (run_checks cs (c.run w).0).1 ≡ true)
  unfolding passed run_checks
  passed_head c cs w h = elim (Result-cases (c.run w).1) [
    | inr (e, r) ↦ absurd (let h' = rw r at h in cc)
    | inl (tt, r) ↦ (r, rw r at h)
  ]

  -- In a run of the checks from `w`, the check `c` ran in the state `at`: the one that the checks
  -- before it left.
  pub record RanAt (cs : List (Check W)) (w : W) (c : Check W) (at : W) : Type 0 where
    pub earlier : List (Check W)
    pub others : List (Check W)
    pub split : cs ≡ earlier ++ c ∷ others
    pub left : at ≡ (run_checks earlier w).0

  RanAt-first : (c : Check W) (cs : List (Check W)) (w : W) → RanAt (c ∷ cs) w c w
  unfolding run_checks
  RanAt-first c cs w = record { earlier = []; others = cs; split = refl; left = refl }

  RanAt-later :
      (c' c : Check W) (cs : List (Check W)) (w at : W)
      → RanAt cs (c'.run w).0 c at
      → RanAt (c' ∷ cs) w c at
  unfolding run_checks
  RanAt-later c' c cs w at r = record {
    earlier = c' ∷ r.earlier;
    others = r.others;
    split = ap (λ l. c' ∷ l) r.split;
    left = r.left;
  }

  -- Where a run passes, each of its checks succeeded in the state in which it ran.
  pub passed-ok :
      (cs : List (Check W)) (w : W) (c : Check W)
      → passed (run_checks cs w).1 ≡ true
      → Among c cs
      → (at : W) × RanAt cs w c at × ((c.run at).1 ≡ ok tt)
  passed-ok [] w c h m = elim m [ ]
  passed-ok (c' ∷ cs) w c h (first e) =
      (w, rw e (RanAt-first c' cs w), rw e (passed_head c' cs w h).0)
  passed-ok (c' ∷ cs) w c h (later m) =
      let (at, r, o) = passed-ok cs (c'.run w).0 c (passed_head c' cs w h).1 m in
      (at, RanAt-later c' c cs w at r, o)

passed-failures : (results : List CheckResult) → passed results ≡ is_empty (failures results)
unfolding passed failures
passed-failures [] = refl
passed-failures (r ∷ rs) = elim (Bool-cases (is_ok r.outcome)) [
  | inl t ↦ rw t (passed-failures rs)
  | inr f ↦ rw f refl
]

module _ {W : Type 0} where
  -- A run of checks records one result for each, under its name and in their order, whatever the
  -- others return, and it passes exactly when no check is listed as failed.
  pub run_checks_lem :
      (cs : List (Check W)) (w : W)
      → (map (λ (r : CheckResult). r.name) (run_checks cs w).1 ≡ map (λ (c : Check W). c.name) cs)
        × (passed (run_checks cs w).1 ≡ is_empty (failures (run_checks cs w).1))
  run_checks_lem cs w = (run_checks_names cs w, passed-failures (run_checks cs w).1)
