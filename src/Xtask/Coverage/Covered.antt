-- ===== src/Xtask/Coverage/Covered.antt =====
-- When the coverage checks pass, and what the whole gate then says about the product sources.
use development_kit.Prelude.{
  ◌≡◌, refl, ap, ◌↔◌, arith, inl, inr, Str, Option, some, Bool, true, false, not, ==_iff,
  Bool-cases, List, [], ◌∷◌, ◌++◌, map, any, any_of, Among-any, select, is_empty, All, All-map,
  Among, first, later, or_else, ok, ◌>>=◌, >>=-eq-ok,
}
use development_kit.Shared.FeatureKey.{FeatureKey, all_keys, index, index_injective}
use development_kit.Shared.ProductFeatureKey.{ProductFeatureKey}
use development_kit.Shared.ProductFeatureKey as Key
use development_kit.Xtask.Files.{Node, dir, Entries, path_join}
use development_kit.Xtask.SeamScan.{key_eq, discover_dir_namespace, seam_source_dirs}
use development_kit.Xtask.SeamScan.Source.{const_namespace}
use development_kit.Xtask.SeamScan.Layout.{NsExpr, Layout, IsLayout, planted}
use development_kit.Xtask.SeamScan.Planted.{NamespaceIs}
use development_kit.Xtask.SeamScan.Registered.{key_eq→eq}
use development_kit.Xtask.SeamScan.Walk.{Reached, evaluate_derivation-registered}
use development_kit.Xtask.Coverage.Manifest.{
  CoverageEntry, ProductKeyEntry, ProductCoverageEntry, coverage_manifest, product_key_registry,
  product_coverage_manifest,
}
use development_kit.Xtask.Coverage.{
  feature_eq, uncovered_keys, uncovered_product_keys, evaluate_coverage, evaluate_product_coverage,
  run_product_key_derivation_backstop, run_feature_key_coverage,
}

module _ {ℓ} {A : Type ℓ} where
  select-is_empty :
      (p : A → Bool) (xs : List A) → is_empty (select p xs) ≡ true → All (λ x. p x ≡ false) xs
  select-is_empty p [] h = tt
  select-is_empty p (x ∷ xs) h = elim (Bool-cases (p x)) [
    | inl t ↦ absurd (let h' = rw t at h in cc)
    | inr f ↦ (f, select-is_empty p xs (rw f at h))
  ]

  is_empty-select :
      (p : A → Bool) (xs : List A) → All (λ x. p x ≡ false) xs → is_empty (select p xs) ≡ true
  is_empty-select p [] h = refl
  is_empty-select p (x ∷ xs) (f, h) = rw f (is_empty-select p xs h)

-- Some entry of the manifest names the key.
abbrev pub IsCovered : List CoverageEntry → FeatureKey → Type 0
IsCovered entries key = (e : CoverageEntry) × Among e entries × (e.key ≡ key)

abbrev pub IsProductCovered : List ProductCoverageEntry → ProductFeatureKey → Type 0
IsProductCovered entries key = (e : ProductCoverageEntry) × Among e entries × (e.key ≡ key)

any-IsCovered :
    (entries : List CoverageEntry) (key : FeatureKey)
    → not (any (λ (e : CoverageEntry). feature_eq e.key key) entries) ≡ false
    → IsCovered entries key
any-IsCovered entries key h =
    let (e, m, t) =
      Among-any (λ (e : CoverageEntry). feature_eq e.key key) entries (ground arith) in
    (e, m, index_injective e.key key ((==_iff (index e.key) (index key)).0 t))

IsCovered-any :
    (entries : List CoverageEntry) (key : FeatureKey)
    → IsCovered entries key
    → not (any (λ (e : CoverageEntry). feature_eq e.key key) entries) ≡ false
IsCovered-any entries key (e, m, h) =
    let t : feature_eq e.key key ≡ true = (==_iff (index e.key) (index key)).1 (ap index h) in
    rw (any_of (λ (e : CoverageEntry). feature_eq e.key key) entries m t) refl

-- The check of the baseline keys passes exactly when each of them is named by an entry.
pub evaluate_coverage_iff :
    (keys : List FeatureKey) (entries : List CoverageEntry)
    → (evaluate_coverage keys entries ≡ ok tt) ↔ All (IsCovered entries) keys
unfolding evaluate_coverage uncovered_keys
evaluate_coverage_iff keys entries =
    let p = λ (key : FeatureKey). not (any (λ (e : CoverageEntry). feature_eq e.key key) entries) in
    elim (Bool-cases (is_empty (uncovered_keys keys entries))) [
      | inl t ↦
          rw t (λ _. All-map keys (any-IsCovered entries) (select-is_empty p keys t), λ _. refl)
      | inr f ↦
          rw f
            (λ h. cc, λ a. cc (is_empty-select p keys (All-map keys (IsCovered-any entries) a), f))
    ]

-- The product version.
any-IsProductCovered :
    (entries : List ProductCoverageEntry) (reg : ProductKeyEntry)
    → not (any (λ (e : ProductCoverageEntry). key_eq e.key reg.key) entries) ≡ false
    → IsProductCovered entries reg.key
any-IsProductCovered entries reg h =
    let (e, m, t) =
      Among-any (λ (e : ProductCoverageEntry). key_eq e.key reg.key) entries (ground arith) in
    (e, m, key_eq→eq e.key reg.key t)

is_empty-map :
    (xs : List ProductKeyEntry)
    → is_empty (map (λ (reg : ProductKeyEntry). reg.key) xs) ≡ true
    → is_empty xs ≡ true
is_empty-map [] h = refl
is_empty-map (x ∷ xs) h = h

evaluate_product_coverage-IsProductCovered :
    (registered : List ProductKeyEntry) (entries : List ProductCoverageEntry)
    → evaluate_product_coverage registered entries ≡ ok tt
    → All (λ (reg : ProductKeyEntry). IsProductCovered entries reg.key) registered
unfolding evaluate_product_coverage uncovered_product_keys
evaluate_product_coverage-IsProductCovered registered entries h =
    let p = λ (reg : ProductKeyEntry).
      not (any (λ (e : ProductCoverageEntry). key_eq e.key reg.key) entries) in
    elim (Bool-cases (is_empty (uncovered_product_keys registered entries))) [
      | inl t ↦
          All-map registered (any-IsProductCovered entries)
            (select-is_empty p registered (is_empty-map (select p registered) t))
      | inr f ↦ absurd (let h' = rw f at h in cc)
    ]

registered-IsProductCovered :
    (key : ProductFeatureKey) (registered : List ProductKeyEntry)
    (entries : List ProductCoverageEntry)
    → All (λ (reg : ProductKeyEntry). IsProductCovered entries reg.key) registered
    → Among key (map (λ (reg : ProductKeyEntry). reg.key) registered)
    → IsProductCovered entries key
registered-IsProductCovered key [] entries h m = elim m [ ]
registered-IsProductCovered key (r ∷ rs) entries (h, hs) (first e) = rw e h
registered-IsProductCovered key (r ∷ rs) entries (h, hs) (later m) =
    registered-IsProductCovered key rs entries hs m

-- If the feature-key coverage gate passes, then every baseline key has an entry in the coverage
-- manifest. So has, in the product manifest, the key of each call of `ProductFeatureKey::new` in a
-- readable Rust file under one of the two seam directories, if the call is written so: the namespace
-- as a literal, or as `NAMESPACE` or `meta().namespace` where it is that of the file or else of its
-- directories; the name as a literal; any ASCII white space around the two arguments up to the name;
-- and no parenthesis between the name and the closing one, as after a trailing comma.
pub run_feature_key_coverage-IsCovered :
    (at : Str → Option Node) (root rel : Str) (es : Entries) (path pre post nm name : Str)
    (ns : Option Str) (lay : Layout) (form : NsExpr) (key : ProductFeatureKey)
    → IsLayout lay
    → run_feature_key_coverage at root ≡ ok tt
    → Among rel seam_source_dirs
    → at (path_join root rel) ≡ some (dir es)
    → Reached path
        (pre ++ planted lay form nm name post)
        ns
        (path_join root rel)
        (discover_dir_namespace es)
        es
    → NamespaceIs form nm (or_else (const_namespace (pre ++ planted lay form nm name post)) ns)
    → Key.new nm name ≡ ok key
    → All (IsCovered coverage_manifest) all_keys × IsProductCovered product_coverage_manifest key
unfolding run_feature_key_coverage run_product_key_derivation_backstop
run_feature_key_coverage-IsCovered at root rel es path pre post nm name ns lay form key l pass a h r
      n k =
    let (_, baseline, rest) =
      >>=-eq-ok (evaluate_coverage all_keys coverage_manifest)
        (λ _. evaluate_product_coverage product_key_registry product_coverage_manifest >>= λ _.
          run_product_key_derivation_backstop at root)
        pass in
    let (_, product, backstop) =
      >>=-eq-ok (evaluate_product_coverage product_key_registry product_coverage_manifest)
        (λ _. run_product_key_derivation_backstop at root) rest in
    (
      (evaluate_coverage_iff all_keys coverage_manifest).0 baseline,
      registered-IsProductCovered key product_key_registry product_coverage_manifest
          (evaluate_product_coverage-IsProductCovered product_key_registry product_coverage_manifest
            product)
          (evaluate_derivation-registered at root rel
            (map (λ (e : ProductKeyEntry). e.key) product_key_registry) es path pre post nm name ns
            lay form key l backstop a h r n k),
    )
