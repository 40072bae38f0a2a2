-- ===== src/Xtask/Edges/Found.antt =====
-- Which edges are reported, and how the bans on the desktop's whole tree bear on its direct edges.
use development_kit.Prelude.{
  ◌≡◌, refl, ap, ◌↔◌, ◌⊎◌, inl, inr, Str, some, Option-cases, true, Bool-cases, List, [], ◌∷◌, map,
  any_of, Among-any, is_empty, All, Among, first, later, cons-Among, Among-append_left,
  Among-append_right, append-Among, ok, str_eq, str_eq→eq, str_eq_refl,
}
use development_kit.Xtask.Edges.{
  PackageDeps, EdgeViolation, EdgeRule, rules, rule_exempt_packages, has, unconstrained_packages,
  evaluate_rule_coverage, find_package, banned_edges, evaluate_rule, evaluate_rules, evaluate_edges,
}

pub has-Among : (names : List Str) (name : Str) → has names name ≡ true → Among name names
has-Among names name h =
    let (n, m, e) = Among-any (λ n. str_eq n name) names h in rw (← str_eq→eq n name e) m

pub Among-has : (names : List Str) (name : Str) → Among name names → has names name ≡ true
Among-has names name m = any_of (λ n. str_eq n name) names m (str_eq_refl name)

-- One rule is broken by a dependency of the first package that has the rule's name.
pub record IsBroken (packages : List PackageDeps) (v : EdgeViolation) (rule : EdgeRule)
    (pkg : PackageDeps) : Type 0 where
  pub ruled : Among rule rules
  pub present : find_package rule.package_name packages ≡ some pkg
  pub banned : Among (v.dependency, v.reason) rule.banned
  pub direct : Among v.dependency pkg.direct_deps
  pub named : v.package_name ≡ rule.package_name

banned_edges-Among :
    (owner : Str) (deps : List Str) (v : EdgeViolation) (banned : List (Str × Str))
    → Among v (banned_edges owner deps banned)
    → Among (v.dependency, v.reason) banned × Among v.dependency deps × (v.package_name ≡ owner)
unfolding banned_edges
banned_edges-Among owner deps v [] m = elim m [ ]
banned_edges-Among owner deps v ((dep, reason) ∷ banned) m = elim (Bool-cases (has deps dep)) [
  | inr f ↦ (let (a, d, e) = banned_edges-Among owner deps v banned (rw f at m) in (later a, d, e))
  | inl t ↦ elim (cons-Among (rw t at m)) [
    | inl e ↦ (
      first (ap (λ (w : EdgeViolation). (w.dependency, w.reason)) e),
      rw e (has-Among deps dep t),
      ap (λ (w : EdgeViolation). w.package_name) e,
    )
    | inr m' ↦ (let (a, d, e) = banned_edges-Among owner deps v banned m' in (later a, d, e))
  ]
]

Among-banned_edges :
    (owner : Str) (deps : List Str) (v : EdgeViolation) (banned : List (Str × Str))
    → Among (v.dependency, v.reason) banned
    → Among v.dependency deps
    → v.package_name ≡ owner
    → Among v (banned_edges owner deps banned)
unfolding banned_edges
Among-banned_edges owner deps v [] m d n = elim m [ ]
Among-banned_edges owner deps v ((dep, reason) ∷ banned) (first e) d n =
    let same : v.dependency ≡ dep = ap (λ (p : Str × Str). p.0) e in
    let same_reason : v.reason ≡ reason = ap (λ (p : Str × Str). p.1) e in
    rw (Among-has deps dep (rw same at d)) (first (cc))
Among-banned_edges owner deps v ((dep, reason) ∷ banned) (later m) d n =
    elim (Bool-cases (has deps dep)) [
      | inr f ↦ rw f (Among-banned_edges owner deps v banned m d n)
      | inl t ↦ rw t (later (Among-banned_edges owner deps v banned m d n))
    ]

evaluate_rules-Among :
    (packages : List PackageDeps) (v : EdgeViolation) (rs : List EdgeRule)
    → Among v (evaluate_rules packages rs)
    → (rule : EdgeRule) × Among rule rs × Among v (evaluate_rule packages rule)
unfolding evaluate_rules
evaluate_rules-Among packages v [] m = elim m [ ]
evaluate_rules-Among packages v (r ∷ rs) m = elim (append-Among (evaluate_rule packages r) _ m) [
  | inl l ↦ (r, first refl, l)
  | inr m' ↦ (let (rule, a, b) = evaluate_rules-Among packages v rs m' in (rule, later a, b))
]

Among-evaluate_rules :
    (packages : List PackageDeps) (v : EdgeViolation) (rule : EdgeRule) (rs : List EdgeRule)
    → Among rule rs
    → Among v (evaluate_rule packages rule)
    → Among v (evaluate_rules packages rs)
unfolding evaluate_rules
Among-evaluate_rules packages v rule [] a m = elim a [ ]
Among-evaluate_rules packages v rule (r ∷ rs) (first e) m =
    Among-append_left (evaluate_rule packages r) _ (rw e at m)
Among-evaluate_rules packages v rule (r ∷ rs) (later a) m =
    Among-append_right (evaluate_rule packages r) _ (Among-evaluate_rules packages v rule rs a m)

evaluate_rule-IsBroken :
    (packages : List PackageDeps) (v : EdgeViolation) (rule : EdgeRule)
    → Among rule rules
    → Among v (evaluate_rule packages rule)
    → (pkg : PackageDeps) × IsBroken packages v rule pkg
unfolding evaluate_rule
evaluate_rule-IsBroken packages v rule a m =
    elim (Option-cases (find_package rule.package_name packages)) [
      | inl e ↦ absurd (let m' = rw (e, evaluate_rule) at m in elim m' [ ])
      | inr (pkg, e) ↦
          (let (b, d, n) =
              banned_edges-Among rule.package_name pkg.direct_deps v rule.banned
                (rw (e, evaluate_rule) at m) in
            (pkg, record { ruled = a; present = e; banned = b; direct = d; named = n }))
    ]

-- A violation is reported exactly when it names a rule's package and a dependency that the rule
-- bans, with the rule's reason, and the package of that name has it as a direct dependency.
pub evaluate_edges_iff :
    (packages : List PackageDeps) (v : EdgeViolation)
    → Among v (evaluate_edges packages)
      ↔ ((rule : EdgeRule) × (pkg : PackageDeps) × IsBroken packages v rule pkg)
unfolding evaluate_edges evaluate_rule
evaluate_edges_iff packages v = (
  λ m.
      let (rule, a, n) = evaluate_rules-Among packages v rules m in
      let (pkg, b) = evaluate_rule-IsBroken packages v rule a n in (rule, pkg, b),
  λ (rule, pkg, b). Among-evaluate_rules packages v rule rules b.ruled (
      rw (b.present, evaluate_rule)
        (Among-banned_edges rule.package_name pkg.direct_deps v rule.banned b.banned b.direct
          b.named)),
)

-- The package is exempt, or a rule names it.
abbrev pub IsConstrained : Str → Type 0
IsConstrained pkg =
    Among pkg rule_exempt_packages ⊎ Among pkg (map (λ (r : EdgeRule). r.package_name) rules)

unconstrained_packages-IsConstrained :
    (packages : List Str)
    → is_empty (unconstrained_packages packages) ≡ true
    → All IsConstrained packages
unfolding unconstrained_packages
unconstrained_packages-IsConstrained [] h = tt
unconstrained_packages-IsConstrained (p ∷ ps) h = elim (Bool-cases (has rule_exempt_packages p)) [
  | inl t ↦ (
    inl (has-Among rule_exempt_packages p t),
    unconstrained_packages-IsConstrained ps (rw t at h),
  )
  | inr f ↦ elim (Bool-cases (has (map (λ (r : EdgeRule). r.package_name) rules) p)) [
    | inl t ↦ (
      inr (has-Among (map (λ (r : EdgeRule). r.package_name) rules) p t),
      unconstrained_packages-IsConstrained ps (rw t at (rw f at h)),
    )
    | inr f' ↦ absurd (let h' = rw f' at (rw f at h) in cc)
  ]
]

-- The rule-coverage check passes only if every package of the workspace has a rule or is exempt.
pub evaluate_rule_coverage-IsConstrained :
    (packages : List Str) → evaluate_rule_coverage packages ≡ ok tt → All IsConstrained packages
unfolding evaluate_rule_coverage
evaluate_rule_coverage-IsConstrained packages h =
    elim (Bool-cases (is_empty (unconstrained_packages packages))) [
      | inl t ↦ unconstrained_packages-IsConstrained packages t
      | inr f ↦ absurd (let h' = rw f at h in cc)
    ]
