-- ===== src/Xtask/Coverage.antt =====
-- xtask/src/coverage.rs: every feature key must have a gate test outside the screen.
pub mod Manifest
pub mod Covered
use development_kit.Prelude.{
  ℕ, Str, codes, Option, Bool, true, false, not, ◌==◌, List, [], ◌∷◌, ◌++◌, map, any, select,
  length, is_empty, Result, ok, err, ◌>>=◌, if◌then◌else◌,
}
use development_kit.Text.Search.{join}
use development_kit.Text.Decimal.{decimal}
use development_kit.Shared.FeatureKey.{FeatureKey, all_keys, index}
use development_kit.Shared.FeatureKey as Feature
use development_kit.Shared.ProductFeatureKey.{ProductFeatureKey, as_str}
use development_kit.Xtask.Files.{Node}
use development_kit.Xtask.SeamScan.{key_eq, evaluate_derivation}
use Manifest.{
  CoverageEntry, ProductKeyEntry, ProductCoverageEntry, coverage_manifest, product_key_registry,
  product_coverage_manifest,
}

-- `PartialEq` of the baseline keys.
abbrev pub feature_eq : FeatureKey → FeatureKey → Bool
feature_eq a b = index a == index b

unfoldable pub uncovered_keys : List FeatureKey → List CoverageEntry → List FeatureKey
uncovered_keys keys entries =
    select (λ key. not (any (λ (e : CoverageEntry). feature_eq e.key key) entries)) keys

unfoldable pub uncovered_product_keys :
    List ProductKeyEntry → List ProductCoverageEntry → List ProductFeatureKey
unfolding key_eq
uncovered_product_keys registered entries =
    map (λ (reg : ProductKeyEntry). reg.key)
      (select
        (λ (reg : ProductKeyEntry).
          not (any (λ (e : ProductCoverageEntry). key_eq e.key reg.key) entries))
        registered)

unfoldable pub coverage_message : Str → List Str → Str
unfolding decimal join
coverage_message what names =
    decimal (length names)
    ++ (what
        ++ (codes " feature key(s) have no Tauri-command or backend gate test "
            ++ (codes "(React gating is UX only, ADR-0001): " ++ join (codes ", ") names)))

unfoldable pub evaluate_coverage : List FeatureKey → List CoverageEntry → Result Str (Unit {0})
unfolding uncovered_keys coverage_message Feature.as_str
evaluate_coverage keys entries =
    let uncovered = uncovered_keys keys entries in
    if is_empty uncovered then ok tt else err (coverage_message [] (map Feature.as_str uncovered))

unfoldable pub evaluate_product_coverage :
    List ProductKeyEntry → List ProductCoverageEntry → Result Str (Unit {0})
unfolding uncovered_product_keys coverage_message as_str
evaluate_product_coverage registered entries =
    let uncovered = uncovered_product_keys registered entries in
    if is_empty uncovered
    then ok tt
    else err (coverage_message (codes " product") (map as_str uncovered))

-- The files and the workspace root are what the process finds.
unfoldable pub run_product_key_derivation_backstop :
    (Str → Option Node) → Str → Result Str (Unit {0})
unfolding evaluate_derivation product_key_registry
run_product_key_derivation_backstop at root =
    evaluate_derivation at root (map (λ (e : ProductKeyEntry). e.key) product_key_registry)

unfoldable pub run_feature_key_coverage : (Str → Option Node) → Str → Result Str (Unit {0})
unfolding evaluate_coverage evaluate_product_coverage run_product_key_derivation_backstop
    coverage_manifest product_key_registry product_coverage_manifest
run_feature_key_coverage at root = evaluate_coverage all_keys coverage_manifest >>= λ _.
    evaluate_product_coverage product_key_registry product_coverage_manifest >>= λ _.
    run_product_key_derivation_backstop at root
