-- ===== src/Xtask/Gate.antt =====
-- xtask/src/main.rs, and the adapters of xtask/src/lib.rs: the registry of the repository's checks,
-- and the command line.
pub mod Host
pub mod Cli
pub mod Linked
pub mod Clean
use development_kit.Prelude.{
  ℕ, Str, codes, em_dash, Option, none, some, Bool, true, false, not, ◌&&◌, List, [], ◌∷◌, ◌++◌,
  map, any, select, is_empty, is_some, Result, ok, err, ◌>>=◌, str_eq, if◌then◌else◌,
}
use development_kit.Text.Search.{join}
use development_kit.Xtask.Files.{Node, path_join}
use development_kit.Xtask.LeakScan.{LeakFinding, scan_directory, scan_artifact, report_findings}
use development_kit.Xtask.Coverage.{run_feature_key_coverage}
use development_kit.Xtask.Edges.{
  PackageDeps, EdgeViolation, to_string, evaluate_edges, evaluate_rule_coverage, has,
}
use development_kit.Xtask.Bans.{run_bans_check, desktop_deny_toml}
use development_kit.Xtask.Registry.{
  Scope, desktop, api, frontend, billing, security, Check, CheckResult, register, select_checks,
  run_checks, passed,
}
use Host.{Machine, MetaPackage, Metadata, ExitStatus}

module _ (m : Machine) where
  -- `run_in`.
  unfoldable pub run_in : m.W → Str → Str → List Str → m.W × Result Str (Unit {0})
  unfolding join
  run_in w at program args =
      let (w', status) = m.status w at program args in
      (
        w',
        elim status [
          | err e ↦ err (codes "failed to spawn `" ++ (program ++ (codes "`: " ++ e)))
          | ok s ↦
              if s.success
              then ok tt
              else err (
                  codes "`"
                  ++ (program
                      ++ (codes " "
                          ++ (join (codes " ") args ++ (codes "` exited with " ++ s.shown)))))
        ],
      )

  -- `cargo`: the workspace root and the program of the environment are the machine's.
  unfoldable pub cargo : m.W → List Str → m.W × Result Str (Unit {0})
  unfolding run_in
  cargo w args = run_in w m.root m.cargo_program args

  -- `run(..)?; next`.
  unfoldable pub then_run :
      m.W × Result Str (Unit {0})
      → (m.W → m.W × Result Str (Unit {0}))
      → m.W × Result Str (Unit {0})
  then_run (w, ok _) next = next w
  then_run (w, err e) next = (w, err e)

  abbrev pub package_deps : MetaPackage → PackageDeps
  package_deps p = record { name = p.name; direct_deps = p.dependencies }

  -- The packages that are members of the workspace.
  abbrev pub members : Metadata → List MetaPackage
  members metadata =
      select (λ (p : MetaPackage). has metadata.workspace_members p.id) metadata.packages

  unfoldable pub read_metadata : m.W → Result Str Metadata
  read_metadata w = elim (m.metadata w) [
    | err e ↦ err (codes "failed to run `cargo metadata`: " ++ e)
    | ok metadata ↦ ok metadata
  ]

  unfoldable pub check_dependency_edges : m.W → Result Str (List EdgeViolation)
  unfolding read_metadata evaluate_edges
  check_dependency_edges w =
      read_metadata w >>= λ metadata. ok (evaluate_edges (map package_deps (members metadata)))

  unfoldable pub check_rule_coverage : m.W → Result Str (Unit {0})
  unfolding read_metadata evaluate_rule_coverage
  check_rule_coverage w = read_metadata w >>= λ metadata.
      evaluate_rule_coverage (map (λ (p : MetaPackage). p.name) (members metadata))

  unfoldable pub violation_lines : List EdgeViolation → Str
  unfolding to_string
  violation_lines [] = []
  violation_lines (v ∷ vs) = codes "  - " ++ (to_string v ++ (codes "\n" ++ violation_lines vs))

  unfoldable pub edges_step : m.W → Result Str (Unit {0})
  unfolding check_rule_coverage check_dependency_edges violation_lines
  edges_step w = check_rule_coverage w >>= λ _. check_dependency_edges w >>= λ violations.
      if is_empty violations
      then ok tt
      else err (codes "authority-boundary violations:\n" ++ violation_lines violations)

  unfoldable pub frontend_step : m.W → m.W × Result Str (Unit {0})
  unfolding run_in then_run
  frontend_step w =
      let at = path_join m.root (codes "apps/desktop") in
      let bun = λ (args : List Str) (w : m.W). run_in w at (codes "bun") args in
      elim (m.files w (path_join at (codes "package.json"))) [
        | none ↦ (
          w,
          err (
              codes "no package.json under "
              ++ (at ++ (codes " " ++ (em_dash ++ codes " frontend not scaffolded")))),
        )
        | some _ ↦
            then_run
              (let (w', installed) = bun (codes "install" ∷ codes "--frozen-lockfile" ∷ []) w in
                elim installed [ ok _ ↦ (w', ok tt) | err _ ↦ bun (codes "install" ∷ []) w' ])
              λ w. then_run (bun (codes "run" ∷ codes "lint" ∷ []) w) λ w.
                then_run (bun (codes "run" ∷ codes "typecheck" ∷ []) w) λ w.
                  then_run (bun (codes "run" ∷ codes "test" ∷ []) w)
                    λ w. bun (codes "run" ∷ codes "build" ∷ []) w
      ]

  abbrev pub desktop_dir : Str
  desktop_dir = path_join m.root (codes "apps/desktop")

  unfoldable pub desktop_binary_name : Str
  desktop_binary_name = if m.windows then codes "desktop.exe" else codes "desktop"

  abbrev pub artifact_path : Str
  artifact_path = path_join (path_join m.root (codes "target/debug")) desktop_binary_name

  -- The findings in the desktop's sources.
  unfoldable pub source_findings : m.W → List LeakFinding
  unfolding scan_directory
  source_findings w = elim (m.files w desktop_dir) [
    | none ↦ []
    | some node ↦ scan_directory desktop_dir node
  ]

  -- `leak_scan_step` once the desktop is built.
  unfoldable pub scan_built : m.W → List LeakFinding → Result Str (Unit {0})
  unfolding scan_artifact report_findings
  scan_built w findings =
      if is_some (m.files w artifact_path)
      then (let all_findings =
            findings ++ scan_artifact m.from_utf8_lossy artifact_path (m.bytes w artifact_path) in
          if is_empty all_findings
          then ok tt
          else err (
              codes "sensitive values must never ship in the desktop app (ADR-0001):\n"
              ++ report_findings all_findings))
      else err (
          codes "expected desktop debug artifact at "
          ++ (artifact_path ++ codes " but it was not produced"))

  unfoldable pub leak_scan_step : m.W → m.W × Result Str (Unit {0})
  unfolding source_findings cargo scan_built
  leak_scan_step w =
      let findings = source_findings w in
      let (w', built) = cargo w (codes "build" ∷ codes "-p" ∷ codes "desktop" ∷ []) in
      (
        w',
        elim built [
          | err e ↦ err (codes "could not build the desktop debug artifact to scan it: " ++ e)
          | ok _ ↦ scan_built w' findings
        ],
      )
