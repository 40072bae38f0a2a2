-- ===== src/Xtask/Gate/Linked.antt =====
-- What the crate-edge check says of the workspace when it passes.
use development_kit.Prelude.{
  ◌≡◌, inl, inr, true, Bool-cases, List, [], ◌∷◌, map, is_empty, Among, ok, Result-cases,
}
use development_kit.Xtask.Edges.{EdgeViolation, EdgeRule, PackageDeps, evaluate_edges}
use development_kit.Xtask.Edges.Found.{IsBroken, evaluate_edges_iff}
use development_kit.Xtask.Gate.Host.{Machine, Metadata}
use development_kit.Xtask.Gate.{
  edges_step, check_rule_coverage, check_dependency_edges, read_metadata, members, package_deps,
}

module _ (m : Machine) where
  -- `cargo metadata` could be read, and no direct dependency of a member breaks a rule.
  pub record IsLinked (w : m.W) : Type 0 where
    pub metadata : Metadata
    pub was_read : m.metadata w ≡ ok metadata
    pub unbroken :
        (v : EdgeViolation) (rule : EdgeRule) (pkg : PackageDeps)
        → ¬ IsBroken (map (package_deps m) (members m metadata)) v rule pkg

  no_violation : (v : EdgeViolation) (vs : List EdgeViolation) → is_empty vs ≡ true → ¬ Among v vs
  no_violation v [] h a = elim a [ ]
  no_violation v (x ∷ xs) h a = cc

  edges_step-evaluate_edges :
      (w : m.W) (metadata : Metadata)
      → m.metadata w ≡ ok metadata
      → edges_step m w ≡ ok tt
      → is_empty (evaluate_edges (map (package_deps m) (members m metadata))) ≡ true
  unfolding edges_step check_dependency_edges read_metadata
  edges_step-evaluate_edges w metadata r h = elim (Result-cases (check_rule_coverage m w)) [
    | inr (e, c) ↦ absurd (let h' = rw c at h in cc)
    | inl (_, c) ↦
        elim (Bool-cases (is_empty (evaluate_edges (map (package_deps m) (members m metadata))))) [
          | inl t ↦ t
          | inr f ↦ absurd (let h' = rw f at (rw (r, read_metadata) at (rw c at h)) in cc)
        ]
  ]

  pub edges_step-IsLinked : (w : m.W) → edges_step m w ≡ ok tt → IsLinked w
  unfolding edges_step check_rule_coverage read_metadata
  edges_step-IsLinked w h = elim (Result-cases (m.metadata w)) [
    | inr (e, r) ↦ absurd (let h' = rw (r, read_metadata) at h in cc)
    | inl (metadata, r) ↦ record {
      metadata = metadata;
      was_read = r;
      unbroken = λ v rule pkg b.
          no_violation v (evaluate_edges (map (package_deps m) (members m metadata)))
            (edges_step-evaluate_edges w metadata r h)
            ((evaluate_edges_iff (map (package_deps m) (members m metadata)) v).1 (rule, pkg, b));
    }
  ]
