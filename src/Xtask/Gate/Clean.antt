-- ===== src/Xtask/Gate/Clean.antt =====
-- What a gate that passes says about the desktop's sources and program.
use development_kit.Prelude.{
  ◌≡◌, refl, ◌⊎◌, inl, inr, Str, codes, some, true, Bool-cases, List, [], ◌∷◌, ◌++◌, is_empty,
  is_some, Among, first, later, Among-append_left, Among-append_right, Among-select, ok,
  Result-cases,
}
use development_kit.Xtask.Files.{dir, Entries}
use development_kit.Xtask.LeakScan.{LeakFinding, scan_artifact}
use development_kit.Xtask.LeakScan.Matchers.{SecretKind}
use development_kit.Xtask.LeakScan.Sensitive.{Sensitive}
use development_kit.Xtask.LeakScan.Found.{scan_text-Sensitive}
use development_kit.Xtask.LeakScan.Walk.{Scanned, scan_directory-Sensitive}
use development_kit.Xtask.Registry.{Scope, security, every, Check, selected_by, select_checks}
use development_kit.Xtask.Registry.Runs.{RanAt, passed-ok}
use development_kit.Xtask.Gate.Linked.{IsLinked, edges_step-IsLinked}
use development_kit.Xtask.Gate.Host.{Machine}
use development_kit.Xtask.Gate.{
  cargo, desktop_dir, artifact_path, source_findings, scan_built, leak_scan_step,
}
use development_kit.Xtask.Gate.Cli.{
  edges_check, bans_check, leak_check, coverage_check, build_registry, run_gate,
}
use development_kit.Xtask.Coverage.{run_feature_key_coverage}
use development_kit.Xtask.Bans.Enforced.{IsEnforced, run_bans_check-IsEnforced}
use development_kit.Xtask.Registry.{register}

no_finding : (f : LeakFinding) (fs : List LeakFinding) → is_empty fs ≡ true → ¬ Among f fs
no_finding f [] h m = elim m [ ]
no_finding f (g ∷ fs) h m = cc

module _ (m : Machine) where
  -- No file that the scan reaches under the desktop's directory holds a sensitive value, nor does its
  -- built program, as decoded.
  pub record IsClean (before after : m.W) : Type 0 where
    pub sources :
        (es : Entries) (kind : SecretKind) (path content : Str)
        → m.files before (desktop_dir m) ≡ some (dir es)
        → Scanned path content (desktop_dir m) es
        → ¬ Sensitive content kind
    pub program :
        (kind : SecretKind) (bytes : Str)
        → m.bytes after (artifact_path m) ≡ some bytes
        → ¬ Sensitive (m.from_utf8_lossy bytes) kind
    pub built : is_some (m.files after (artifact_path m)) ≡ true

  scan_built-ok :
      (w : m.W) (fs : List LeakFinding)
      → scan_built m w fs ≡ ok tt
      → (is_some (m.files w (artifact_path m)) ≡ true)
        × (is_empty (
              fs ++ scan_artifact m.from_utf8_lossy (artifact_path m) (m.bytes w (artifact_path m)))
            ≡ true)
  unfolding scan_built
  scan_built-ok w fs h = elim (Bool-cases (is_some (m.files w (artifact_path m)))) [
    | inr f ↦ absurd (let h' = rw f at h in cc)
    | inl t ↦
        elim (Bool-cases (
          is_empty (
            fs
            ++ scan_artifact m.from_utf8_lossy (artifact_path m) (m.bytes w (artifact_path m))))) [
              | inl e ↦ (t, e)
              | inr e ↦ absurd (let h' = rw e at (rw t at h) in cc)
            ]
  ]

  pub leak_scan_step-IsClean :
      (w : m.W) → (leak_scan_step m w).1 ≡ ok tt → IsClean w (leak_scan_step m w).0
  unfolding leak_scan_step source_findings scan_artifact
  leak_scan_step-IsClean w h =
      elim (Result-cases (cargo m w (codes "build" ∷ codes "-p" ∷ codes "desktop" ∷ [])).1) [
        | inr (e, b) ↦ absurd (let h' = rw b at h in cc)
        | inl (_, b) ↦
            (let w' = (cargo m w (codes "build" ∷ codes "-p" ∷ codes "desktop" ∷ [])).0 in
              let (t, e) = scan_built-ok w' (source_findings m w) (rw b at h) in
              record {
                sources = λ es kind path content at s v.
                    no_finding (record { kind = kind; source = path }) _ e
                      (Among-append_left (source_findings m w) _
                        (source_found w es kind path content at s v));
                program = λ kind bytes at v.
                    no_finding (record { kind = kind; source = artifact_path m }) _ e
                      (Among-append_right (source_findings m w) _
                        (program_found w' kind bytes at v));
                built = t;
              })
      ]
    where
      source_found :
          (w : m.W) (es : Entries) (kind : SecretKind) (path content : Str)
          → m.files w (desktop_dir m) ≡ some (dir es)
          → Scanned path content (desktop_dir m) es
          → Sensitive content kind
          → Among (record { kind = kind; source = path }) (source_findings m w)
      source_found w es kind path content at s v =
          rw (at, source_findings)
            ((scan_directory-Sensitive (desktop_dir m) es kind path).1 (content, s, v))

      program_found :
          (w : m.W) (kind : SecretKind) (bytes : Str)
          → m.bytes w (artifact_path m) ≡ some bytes
          → Sensitive (m.from_utf8_lossy bytes) kind
          → Among
              (record { kind = kind; source = artifact_path m })
              (scan_artifact m.from_utf8_lossy (artifact_path m) (m.bytes w (artifact_path m)))
      program_found w kind bytes at v =
          rw at ((scan_text-Sensitive (m.from_utf8_lossy bytes) (artifact_path m) kind).0.1 v)

  -- A check of the registry that the scope selects succeeded, if the gate passed.
  selected_ok :
      (scope : Scope) (w : m.W) (c : Check m.W)
      → (run_gate m scope w).1 ≡ true
      → Among c (build_registry m)
      → selected_by c scope ≡ true
      → (at : m.W) × RanAt (select_checks (build_registry m) scope) w c at × ((c.run at).1 ≡ ok tt)
  unfolding run_gate select_checks
  selected_ok scope w c h a s =
      passed-ok (select_checks (build_registry m) scope) w c h
        (Among-select (λ (c : Check m.W). selected_by c scope) (build_registry m) a s)

-- In the gate of a scope from the state `w`, the four checks that guard the boundary of authority each
-- ran, in the state that the selected checks before it left, and passed.
pub record IsGuarded (m : Machine) (scope : Scope) (w : m.W) : Type 0 where
  pub scanned : m.W
  pub scanned_at : RanAt (select_checks (build_registry m) scope) w (leak_check m) scanned
  pub clean : IsClean m scanned (leak_scan_step m scanned).0
  pub counted : m.W
  pub counted_at : RanAt (select_checks (build_registry m) scope) w (coverage_check m) counted
  pub covered : run_feature_key_coverage (m.files counted) m.root ≡ ok tt
  pub resolved : m.W
  pub resolved_at : RanAt (select_checks (build_registry m) scope) w (bans_check m) resolved
  pub enforced : IsEnforced m.toml (m.cargo_output resolved) (m.read resolved) m.root
  pub linked : m.W
  pub linked_at : RanAt (select_checks (build_registry m) scope) w (edges_check m) linked
  pub edges : IsLinked m linked

-- If the gate passes with the scope `security`, or with `all`, then four of the checks that it selects
-- ran in it, each in the state that the selected checks before it left, and they show this. No file
-- that the leak scan reaches under the desktop's directory (text that can be read, under a scannable
-- name, below no skipped directory) held a sensitive value before the build, and after it the built
-- program was there, and holds none as it is decoded. The feature-key coverage check passed. The bans
-- on the desktop's dependency tree were enforced. No member of the workspace had a direct dependency
-- that a rule on it bans.
pub run_gate-IsGuarded :
    (m : Machine) (scope : Scope) (w : m.W)
    → (scope ≡ security) ⊎ (scope ≡ every)
    → (run_gate m scope w).1 ≡ true
    → IsGuarded m scope w
unfolding build_registry register selected_by
run_gate-IsGuarded m scope w which h =
    let (scanned, sr, s) =
      selected_ok m scope w (leak_check m) h (at_six (first refl)) (chosen which) in
    let (counted, cr, c) =
      selected_ok m scope w (coverage_check m) h (at_six (later (first refl)))
        (chosen_coverage which) in
    let (resolved, br, b) =
      selected_ok m scope w (bans_check m) h (later (later (later (later (later (first refl))))))
        (chosen_bans which) in
    let (linked, er, e) =
      selected_ok m scope w (edges_check m) h (later (later (later (first refl))))
        (chosen_edges which) in
    record {
      scanned = scanned;
      scanned_at = sr;
      clean = leak_scan_step-IsClean m scanned s;
      counted = counted;
      counted_at = cr;
      covered = c;
      resolved = resolved;
      resolved_at = br;
      enforced =
          run_bans_check-IsEnforced m.show (m.cargo_output resolved) m.toml (m.read resolved) m.root
            b;
      linked = linked;
      linked_at = er;
      edges = edges_step-IsLinked m linked e;
    }
  where
    at_six :
        {c : Check m.W}
        → Among c (leak_check m ∷ coverage_check m ∷ [])
        → Among c (build_registry m)
    at_six a = later (later (later (later (later (later a)))))

    chosen : (scope ≡ security) ⊎ (scope ≡ every) → selected_by (leak_check m) scope ≡ true
    chosen (inl e) = rw e refl
    chosen (inr e) = rw e refl

    chosen_coverage :
        (scope ≡ security) ⊎ (scope ≡ every) → selected_by (coverage_check m) scope ≡ true
    chosen_coverage (inl e) = rw e refl
    chosen_coverage (inr e) = rw e refl

    chosen_bans : (scope ≡ security) ⊎ (scope ≡ every) → selected_by (bans_check m) scope ≡ true
    chosen_bans (inl e) = rw e refl
    chosen_bans (inr e) = rw e refl

    chosen_edges : (scope ≡ security) ⊎ (scope ≡ every) → selected_by (edges_check m) scope ≡ true
    chosen_edges (inl e) = rw e refl
    chosen_edges (inr e) = rw e refl
