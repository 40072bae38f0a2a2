-- ===== src/Xtask/Edges.antt =====
-- xtask/src/edges.rs: the direct dependencies that the packages of the workspace may not have.
pub mod Found
use development_kit.Prelude.{
  ℕ, Str, codes, em_dash, Option, none, some, Bool, true, false, not, ◌&&◌, List, [], ◌∷◌, ◌++◌,
  map, any, select, length, is_empty, Result, ok, err, str_eq, if◌then◌else◌,
}
use development_kit.Text.Search.{join}
use development_kit.Text.Decimal.{decimal}

pub record PackageDeps : Type 0 where
  pub name : Str
  pub direct_deps : List Str

pub record EdgeViolation : Type 0 where
  pub package_name : Str
  pub dependency : Str
  pub reason : Str

-- `Display` of a violation.
unfoldable pub to_string : EdgeViolation → Str
to_string v =
    v.package_name ++ (codes " depends on `" ++ (v.dependency ++ (codes "`: " ++ v.reason)))

pub record EdgeRule : Type 0 where
  pub package_name : Str
  pub banned : List (Str × Str)

abbrev pub no_postgres : Str
no_postgres = codes "desktop must not reach Postgres; cloud authority only (ADR-0002)"

abbrev pub no_stripe : Str
no_stripe = codes "Stripe integration is backend-only (ADR-0002)"

abbrev pub desktop_rule : EdgeRule
desktop_rule = record {
  package_name = codes "desktop";
  banned =
      (codes "license-sign", codes "desktop must verify licenses, never issue them (ADR-0002)")
      ∷ (codes "sqlx", no_postgres)
      ∷ (codes "tokio-postgres", no_postgres)
      ∷ (codes "async-stripe", no_stripe)
      ∷ (codes "stripe", no_stripe)
      ∷ [];
}

abbrev pub api_rule : EdgeRule
api_rule = record {
  package_name = codes "api";
  banned =
      (
        codes "license-verify",
        codes "the backend issues licenses; it does not depend on the desktop verifier (ADR-0002)",
      )
      ∷ [];
}

abbrev pub rules : List EdgeRule
rules = desktop_rule ∷ api_rule ∷ []

abbrev pub rule_exempt_packages : List Str
rule_exempt_packages =
    codes "shared"
    ∷ codes "xtask"
    ∷ codes "local-store"
    ∷ codes "license-verify"
    ∷ codes "license-sign"
    ∷ []

-- `BTreeSet::contains`.
abbrev pub has : List Str → Str → Bool
has names name = any (λ n. str_eq n name) names

unfoldable pub unconstrained_packages : List Str → List Str
unconstrained_packages packages =
    select
      (λ pkg.
        not (has rule_exempt_packages pkg)
        && not (has (map (λ (r : EdgeRule). r.package_name) rules) pkg))
      packages

unfoldable pub evaluate_rule_coverage : List Str → Result Str (Unit {0})
unfolding unconstrained_packages decimal join
evaluate_rule_coverage packages =
    let missing = unconstrained_packages packages in
    if is_empty missing
    then ok tt
    else err (
        decimal (length missing)
        ++ (codes " workspace package(s) have NO crate-edge rule and are not on the "
            ++ (codes "exemption list "
                ++ (em_dash
                    ++ (codes " they are silently unconstrained (issue #59); add an "
                        ++ (codes "EdgeRule (or a conscious RULE_EXEMPT_PACKAGES entry) for each: "
                            ++ join (codes ", ") missing))))))

-- `find(|p| p.name == package)`.
unfoldable pub find_package : Str → List PackageDeps → Option PackageDeps
find_package name [] = none
find_package name (p ∷ ps) =
    let rest = find_package name ps in if str_eq p.name name then some p else rest

-- The loop over the bans of one rule.
unfoldable pub banned_edges : Str → List Str → List (Str × Str) → List EdgeViolation
banned_edges owner deps [] = []
banned_edges owner deps ((dep, reason) ∷ banned) =
    let rest = banned_edges owner deps banned in
    if has deps dep
    then record { package_name = owner; dependency = dep; reason = reason } ∷ rest
    else rest

unfoldable pub evaluate_rule : List PackageDeps → EdgeRule → List EdgeViolation
unfolding find_package banned_edges
evaluate_rule packages rule = elim (find_package rule.package_name packages) [
  | none ↦ []
  | some pkg ↦ banned_edges rule.package_name pkg.direct_deps rule.banned
]

unfoldable pub evaluate_rules : List PackageDeps → List EdgeRule → List EdgeViolation
unfolding evaluate_rule
evaluate_rules packages [] = []
evaluate_rules packages (rule ∷ rest) = evaluate_rule packages rule ++ evaluate_rules packages rest

unfoldable pub evaluate_edges : List PackageDeps → List EdgeViolation
unfolding evaluate_rules
evaluate_edges packages = evaluate_rules packages rules
