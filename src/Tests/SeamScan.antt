-- ===== src/Tests/SeamScan.antt =====
-- The derivation check and the coverage gate on a small tree of product sources.
use development_kit.Prelude.{
  Str, codes, Option, some, none, ◌≡◌, refl, ◌++◌, Among, first, All, ok, str_eq, or_else,
  if◌then◌else◌,
}
use development_kit.Text.{split_once, trim, trim_start, trim_end, is_whitespace}
use development_kit.Text.Search.{after_last, strip_prefix, find_after, contains, matches_after}
use development_kit.Shared.FeatureKey.{all_keys}
use development_kit.Shared.ProductFeatureKey.{
  ProductFeatureKey, is_lowercase, is_segment_char, is_snake_case_segment,
}
use development_kit.Shared.ProductFeatureKey as Key
use development_kit.Xtask.Files.{Node, file, dir, Entries, end, entry}
use development_kit.Xtask.SeamScan.{
  key_eq, unregistered_gated_keys, report_unregistered, scan_seam_dirs, scan_seam, scan_dir_into,
  scan_dir_with_namespace, discover_dir_namespace, is_rust_file, evaluate_derivation,
}
use development_kit.Xtask.SeamScan.Source.{
  ScannedKey, const_namespace, string_literal, closed_literal, scan_text_with_namespace,
  new_call_args, each_call, call_args, balanced_arg_list, balanced, split_top_level_comma,
  split_comma, collect_keys, key_of, resolve_namespace,
}
use development_kit.Xtask.SeamScan.Layout.{Layout, IsLayout, meta, planted}
use development_kit.Xtask.SeamScan.Planted.{scan_text_with_namespace-planted}
use development_kit.Xtask.SeamScan.Walk.{Reached}
use development_kit.Xtask.Coverage.{
  run_feature_key_coverage, evaluate_coverage, uncovered_keys, evaluate_product_coverage,
  uncovered_product_keys, run_product_key_derivation_backstop,
}
use development_kit.Xtask.Coverage.Manifest.{
  coverage_manifest, product_key_registry, product_coverage_manifest, publish_note_key,
}
use development_kit.Xtask.Coverage.Covered.{
  IsCovered, IsProductCovered, run_feature_key_coverage-IsCovered,
}

-- The key is built in a file that leaves the namespace to its directory.
-- Each argument on a line of its own, with a trailing comma.
abbrev lay : Layout
lay = record {
  before_ns = codes "\n  ";
  after_ns = codes "";
  before_name = codes "\n  ";
  last = codes ",\n";
}

lay-IsLayout : IsLayout lay
unfolding is_whitespace
lay-IsLayout = record {
  spaced_ns = (refl, (refl, (refl, tt)));
  spaced_comma = tt;
  spaced_name = (refl, (refl, (refl, tt)));
  closed = ((refl, refl), ((refl, refl), tt));
}

abbrev source : Str
source = codes "fn k() { " ++ planted lay meta (codes "notes") (codes "publish_note") (codes " }")

abbrev product : Entries
product =
    entry (codes "mod.rs") (file (some (codes "pub const NAMESPACE: &str = \"notes\";")))
      (entry (codes "key.rs") (file (some source)) end)

abbrev files : Str → Option Node
files path =
    if str_eq path (codes "r/services/api/src/products")
    then some (dir (entry (codes "notes") (dir product) end))
    else none

new_runs : Key.new (codes "notes") (codes "publish_note") ≡ ok publish_note_key
unfolding Key.new is_snake_case_segment is_lowercase is_segment_char
new_runs = refl

declared : const_namespace source ≡ none
unfolding const_namespace find_after strip_prefix
declared = refl

inherits : or_else (const_namespace source) (some (codes "notes")) ≡ some (codes "notes")
unfolding const_namespace find_after strip_prefix
inherits = refl

scan_text_with_namespace-planted_example :
    Among
      (record { key = publish_note_key; source = codes "key.rs" })
      (scan_text_with_namespace source (codes "key.rs") (some (codes "notes")))
scan_text_with_namespace-planted_example =
    scan_text_with_namespace-planted lay meta (codes "notes") (codes "publish_note")
      publish_note_key (codes "fn k() { ") (codes " }") (codes "key.rs") (some (codes "notes"))
      lay-IsLayout new_runs inherits

abbrev hit : ScannedKey
hit = record { key = publish_note_key; source = codes "key.rs" }

passes : run_feature_key_coverage files (codes "r") ≡ ok tt
unfolding run_feature_key_coverage evaluate_coverage uncovered_keys evaluate_product_coverage
    uncovered_product_keys run_product_key_derivation_backstop coverage_manifest
    product_key_registry product_coverage_manifest evaluate_derivation unregistered_gated_keys
    report_unregistered key_eq scan_seam_dirs scan_seam scan_dir_into scan_dir_with_namespace
    discover_dir_namespace is_rust_file after_last str_eq const_namespace string_literal
    closed_literal scan_text_with_namespace new_call_args each_call call_args balanced_arg_list
    balanced split_top_level_comma split_comma collect_keys key_of resolve_namespace split_once trim
    trim_start trim_end is_whitespace strip_prefix find_after contains matches_after Key.new
    is_snake_case_segment is_lowercase is_segment_char
passes = refl

found_namespace : discover_dir_namespace product ≡ some (codes "notes")
unfolding discover_dir_namespace is_rust_file after_last str_eq const_namespace string_literal
    closed_literal split_once trim_start is_whitespace strip_prefix find_after
found_namespace = refl

abbrev es : Entries
es = entry (codes "notes") (dir product) end

abbrev base : Str
base = codes "r/services/api/src/products"

reached :
    Reached
      (codes "r/services/api/src/products/notes/key.rs")
      source
      (some (codes "notes"))
      base
      (discover_dir_namespace es)
      es
unfolding discover_dir_namespace is_rust_file after_last str_eq
reached = Reached.inside (Reached.further (Reached.this refl refl (rw found_namespace refl)))

at_base : files base ≡ some (dir es)
unfolding str_eq
at_base = refl

run_feature_key_coverage-IsCovered_example :
    All (IsCovered coverage_manifest) all_keys
    × IsProductCovered product_coverage_manifest publish_note_key
run_feature_key_coverage-IsCovered_example =
    run_feature_key_coverage-IsCovered files (codes "r") (codes "services/api/src/products") es
      (codes "r/services/api/src/products/notes/key.rs") (codes "fn k() { ") (codes " }")
      (codes "notes") (codes "publish_note") (some (codes "notes")) lay meta publish_note_key
      lay-IsLayout passes (first refl) at_base reached inherits new_runs
