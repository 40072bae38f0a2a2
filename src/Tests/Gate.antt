-- ===== src/Tests/Gate.antt =====
-- The gate on a small machine whose processes all succeed.
use development_kit.Prelude.{
  Str, codes, Option, some, none, true, false, ◌≡◌, refl, ◌↔◌, map, inl, List, [], ◌∷◌, Among, ok,
  str_eq, if◌then◌else◌,
}
use development_kit.Text.Search.{
  after_last, strip_prefix, any_match, matches_after, contains, find_after, before,
}
use development_kit.Api.PgMigration.{starts_with}
use development_kit.Xtask.Files.{Node, file, dir, end, entry}
use development_kit.Xtask.LeakScan.{
  scan_text, scan_directory, scan_entries, scan_artifact, is_scannable_file, is_skippable_dir,
}
use development_kit.Xtask.LeakScan.Matchers.{
  scan_kinds, scan_rules, push_new, content_has_prefixed_token, content_has_credentialed_db_url,
  content_has_pem_private_key,
}
use development_kit.Xtask.SeamScan.{
  key_eq, unregistered_gated_keys, report_unregistered, scan_seam_dirs, scan_seam,
  evaluate_derivation,
}
use development_kit.Xtask.Coverage.{
  run_feature_key_coverage, evaluate_coverage, uncovered_keys, evaluate_product_coverage,
  uncovered_product_keys, run_product_key_derivation_backstop,
}
use development_kit.Xtask.Coverage.Manifest.{
  coverage_manifest, product_key_registry, product_coverage_manifest,
}
use development_kit.Xtask.Edges.{
  PackageDeps, EdgeViolation, EdgeRule, evaluate_edges, evaluate_rules, evaluate_rule, find_package,
  banned_edges, evaluate_rule_coverage, unconstrained_packages,
}
use development_kit.Xtask.Edges.Found.{IsBroken, evaluate_edges_iff}
use development_kit.Xtask.Bans.{
  BannedCrate, desktop_banned, tree_violations, Toml, Output, run_bans_check, run_cargo_deny_bans,
  config_gaps, denied_crates_in_config, denied_in_value, entry_names, entry_name, spec_crate_name,
  judge_deny, bans_check_failed,
}
use development_kit.Xtask.Bans.Enforced.{IsEnforced, run_bans_check-IsEnforced}
use development_kit.Xtask.Registry.{
  security, select_checks, selected_by, register, run_checks, passed, parse, as_str,
}
use development_kit.Xtask.Registry.Scopes.{parse_iff}
use development_kit.Xtask.Gate.Host.{Machine}
use development_kit.Xtask.Gate.{
  run_in, cargo, leak_scan_step, source_findings, scan_built, desktop_binary_name, edges_step,
  check_rule_coverage, check_dependency_edges, read_metadata,
}
use development_kit.Xtask.Gate.Cli.{build_registry, run_gate}
use development_kit.Xtask.Gate.Clean.{IsGuarded, run_gate-IsGuarded}

-- A document that denies the listed crates.
data Doc : Type 0 where
  root : Doc
  names : Doc
  name : Str → Doc

abbrev get : Doc → Str → Option Doc
get root key = if str_eq key (codes "bans") then some root else some names
get _ key = none

abbrev as_array : Doc → Option (List Doc)
as_array names = some (map (λ (b : BannedCrate). name b.name) desktop_banned)
as_array _ = none

abbrev text_of : Doc → Option Str
text_of (name s) = some s
text_of _ = none

abbrev toml : Toml
toml = record {
  Value = Doc;
  from_str = λ s. ok root;
  get = get;
  as_array = as_array;
  as_str = text_of;
}

abbrev succeeded : Output
succeeded = record { success = true; code = some 0; stdout = []; stderr = [] }

abbrev desktop_deps : PackageDeps
desktop_deps = record { name = codes "desktop"; direct_deps = codes "shared" ∷ [] }

abbrev files : Unit {0} → Str → Option Node
files w path =
    if str_eq path (codes "r/apps/desktop")
    then some (dir (entry (codes "main.rs") (file (some (codes "fn main() {}"))) end))
    else if str_eq path (codes "r/target/debug/desktop")
    then some (file none)
    else none

abbrev machine : Machine
machine = record {
  W = Unit {0};
  root = codes "r";
  cargo_program = codes "cargo";
  windows = false;
  files = files;
  bytes = λ w path. some (codes "ELF");
  read = λ w path. ok (codes "[bans]");
  status = λ w at program args. (tt, ok (record { success = true; shown = codes "0" }));
  cargo_output = λ w at args. ok succeeded;
  metadata = λ w. ok (record {
    workspace_members = codes "id" ∷ [];
    packages =
        record { id = codes "id"; name = codes "desktop"; dependencies = codes "shared" ∷ [] } ∷ [];
  });
  toml = toml;
  show = λ n. [];
  from_utf8_lossy = λ s. s;
}

gate_passes : (run_gate machine security tt).1 ≡ true
unfolding run_gate build_registry select_checks selected_by register run_checks passed run_in cargo
    edges_step check_rule_coverage check_dependency_edges read_metadata evaluate_rule_coverage
    unconstrained_packages evaluate_edges evaluate_rules evaluate_rule find_package banned_edges
    str_eq run_bans_check config_gaps denied_crates_in_config denied_in_value entry_names entry_name
    spec_crate_name run_cargo_deny_bans judge_deny bans_check_failed contains find_after before
    strip_prefix leak_scan_step source_findings scan_built desktop_binary_name scan_directory
    scan_entries scan_text scan_artifact is_scannable_file is_skippable_dir after_last starts_with
    scan_kinds scan_rules push_new content_has_prefixed_token any_match matches_after
    content_has_credentialed_db_url content_has_pem_private_key run_feature_key_coverage
    evaluate_coverage uncovered_keys evaluate_product_coverage uncovered_product_keys
    run_product_key_derivation_backstop coverage_manifest product_key_registry
    product_coverage_manifest evaluate_derivation unregistered_gated_keys report_unregistered key_eq
    scan_seam_dirs scan_seam
gate_passes = refl

run_gate-IsGuarded_example : IsGuarded machine security tt
run_gate-IsGuarded_example = run_gate-IsGuarded machine security tt (inl refl) gate_passes

bans_pass :
    run_bans_check
      (λ n. [])
      (λ at args. ok succeeded)
      toml
      (λ path. ok (codes "[bans]"))
      (codes "r")
    ≡ ok tt
unfolding run_bans_check config_gaps denied_crates_in_config denied_in_value entry_names entry_name
    spec_crate_name run_cargo_deny_bans judge_deny bans_check_failed str_eq before
bans_pass = refl

run_bans_check-IsEnforced_example :
    IsEnforced toml (λ at args. ok succeeded) (λ path. ok (codes "[bans]")) (codes "r")
run_bans_check-IsEnforced_example =
    run_bans_check-IsEnforced (λ n. []) (λ at args. ok succeeded) toml (λ path. ok (codes "[bans]"))
      (codes "r") bans_pass

abbrev bad_api : PackageDeps
bad_api = record { name = codes "api"; direct_deps = codes "license-verify" ∷ [] }

abbrev bad_edge : EdgeViolation
bad_edge = record {
  package_name = codes "api";
  dependency = codes "license-verify";
  reason =
      codes "the backend issues licenses; it does not depend on the desktop verifier (ADR-0002)";
}

reported : evaluate_edges (desktop_deps ∷ bad_api ∷ []) ≡ bad_edge ∷ []
unfolding evaluate_edges evaluate_rules evaluate_rule find_package banned_edges str_eq
reported = refl

evaluate_edges_iff_example : Among bad_edge (evaluate_edges (desktop_deps ∷ bad_api ∷ [])) ↔ (
    (rule : EdgeRule) × (pkg : PackageDeps) × IsBroken
      (desktop_deps ∷ bad_api ∷ [])
      bad_edge
      rule
      pkg)
evaluate_edges_iff_example = evaluate_edges_iff (desktop_deps ∷ bad_api ∷ []) bad_edge

abbrev tree : List Str
tree = codes "desktop" ∷ codes "shared" ∷ []

clean_tree : tree_violations tree ≡ []
unfolding tree_violations str_eq
clean_tree = refl

found_desktop : find_package (codes "desktop") (desktop_deps ∷ bad_api ∷ []) ≡ some desktop_deps
unfolding find_package str_eq
found_desktop = refl

parse_iff_example : (parse (codes "security") ≡ ok security) ↔ (as_str security ≡ codes "security")
parse_iff_example = parse_iff (codes "security") security
