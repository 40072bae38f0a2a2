-- ===== src/Xtask/Gate/Cli.antt =====
-- `build_registry`, `parse_scope` and `main` of xtask/src/main.rs.
use development_kit.Prelude.{
  Str, codes, none, some, Bool, true, false, List, [], ◌∷◌, Result, ok, err, str_eq, if◌then◌else◌,
}
use development_kit.Text.Search.{strip_prefix}
use development_kit.Xtask.Coverage.{run_feature_key_coverage}
use development_kit.Xtask.Bans.{run_bans_check}
use development_kit.Xtask.Registry.{
  Scope, desktop, api, frontend, billing, security, every, parse, Check, register, select_checks,
  run_checks, passed,
}
use development_kit.Xtask.Gate.Host.{Machine}
use development_kit.Xtask.Gate.{cargo, edges_step, frontend_step, leak_scan_step}

module _ (m : Machine) where
  abbrev pub fmt_check : Check m.W
  fmt_check = record {
    name = codes "cargo fmt --check";
    scopes = desktop ∷ api ∷ security ∷ [];
    run = λ w. cargo m w (codes "fmt" ∷ codes "--all" ∷ codes "--" ∷ codes "--check" ∷ []);
  }

  abbrev pub clippy_check : Check m.W
  clippy_check = record {
    name = codes "cargo clippy -D warnings";
    scopes = desktop ∷ api ∷ security ∷ [];
    run = λ w. cargo m w (
        codes "clippy"
        ∷ codes "--workspace"
        ∷ codes "--all-targets"
        ∷ codes "--"
        ∷ codes "-D"
        ∷ codes "warnings"
        ∷ []);
  }

  abbrev pub test_check : Check m.W
  test_check = record {
    name = codes "cargo test --workspace";
    scopes = desktop ∷ api ∷ [];
    run = λ w. cargo m w (codes "test" ∷ codes "--workspace" ∷ []);
  }

  abbrev pub edges_check : Check m.W
  edges_check = record {
    name = codes "ADR-0002 crate-edge check";
    scopes = security ∷ desktop ∷ api ∷ [];
    run = λ w. (w, edges_step m w);
  }

  abbrev pub frontend_check : Check m.W
  frontend_check = record {
    name = codes "frontend lint/type/build (bun)";
    scopes = frontend ∷ desktop ∷ [];
    run = λ w. frontend_step m w;
  }

  abbrev pub bans_check : Check m.W
  bans_check = record {
    name = codes "cargo-deny desktop bans (#23)";
    scopes = desktop ∷ security ∷ [];
    run = λ w. (w, run_bans_check m.show (m.cargo_output w) m.toml (m.read w) m.root);
  }

  abbrev pub leak_check : Check m.W
  leak_check = record {
    name = codes "leak scan (desktop source + built artifact)";
    scopes = security ∷ desktop ∷ [];
    run = λ w. leak_scan_step m w;
  }

  abbrev pub coverage_check : Check m.W
  coverage_check = record {
    name = codes "feature-key coverage (every paid key has a non-React gate test)";
    scopes = billing ∷ security ∷ [];
    run = λ w. (w, run_feature_key_coverage (m.files w) m.root);
  }

  unfoldable pub build_registry : List (Check m.W)
  unfolding register cargo edges_step frontend_step leak_scan_step run_feature_key_coverage
      run_bans_check
  build_registry =
      let checks = register [] fmt_check in
      let checks = register checks clippy_check in
      let checks = register checks test_check in
      let checks = register checks edges_check in
      let checks = register checks frontend_check in
      let checks = register checks bans_check in
      let checks = register checks leak_check in register checks coverage_check

  -- The exit code: true is success. What is printed is left out.
  unfoldable pub run_gate : Scope → m.W → m.W × Bool
  unfolding build_registry select_checks run_checks passed
  run_gate scope w =
      let (w', results) = run_checks (select_checks build_registry scope) w in (w', passed results)

unfoldable pub parse_scope : List Str → Result Str Scope
unfolding parse strip_prefix
parse_scope [] = ok every
parse_scope (arg ∷ []) =
    if str_eq arg (codes "--scope")
    then err (codes "--scope requires a value")
    else elim (strip_prefix (codes "--scope=") arg) [ some value ↦ parse value | none ↦ ok every ]
parse_scope (arg ∷ next ∷ args) =
    let rest = parse_scope (next ∷ args) in
    if str_eq arg (codes "--scope")
    then parse next
    else elim (strip_prefix (codes "--scope=") arg) [ some value ↦ parse value | none ↦ rest ]

abbrev pub is_help : Str → Bool
is_help command =
    if str_eq command (codes "help")
    then true
    else if str_eq command (codes "--help")
    then true
    else str_eq command (codes "-h")

module _ (m : Machine) where
  unfoldable pub main : List Str → m.W → m.W × Bool
  unfolding parse_scope run_gate edges_step
  main [] w = (w, true)
  main (command ∷ args) w =
      if str_eq command (codes "gate")
      then elim (parse_scope args) [ ok scope ↦ run_gate m scope w | err _ ↦ (w, false) ]
      else if str_eq command (codes "edges")
      then (w, elim (edges_step m w) [ ok _ ↦ true | err _ ↦ false ])
      else if is_help command
      then (w, true)
      else (w, false)
