-- ===== src/Xtask/Bans/Enforced.antt =====
-- What a passing bans check says, and how the bans on the desktop's whole tree cover the rule on its
-- direct dependencies.
use development_kit.Prelude.{
  ℕ, ◌≡◌, ◌≢◌, refl, sym, ap, ◌∙◌, arith, inl, inr, Str, codes, some, true, false, not, Bool-cases,
  List, [], ◌∷◌, map, select, is_empty, All, All-map, All-at, Among, first, later, Among-select,
  Result, ok, err, Result-cases, unwrap_or, if◌then◌else◌,
}
use development_kit.Xtask.Files.{path_join}
use development_kit.Xtask.Bans.Denied.{IsDenied, denied_crates_in_config-IsDenied}
use development_kit.Xtask.Edges.{
  PackageDeps, EdgeViolation, EdgeRule, desktop_rule, rules, has, find_package, evaluate_edges,
}
use development_kit.Xtask.Edges.Found.{has-Among, Among-has, evaluate_edges_iff}
use development_kit.Xtask.Bans.{
  BannedCrate, violation_of, desktop_banned, tree_violations, Toml, denied_crates_in_config,
  config_gaps, bans_check_failed, cargo_deny_args, Output, minus_one, desktop_manifest,
  run_cargo_deny_bans, desktop_deny_toml, judge_deny, gaps_message, run_bans_check,
}

abbrev IsDesktopBanned : Str → Type 0
IsDesktopBanned dep = (b : BannedCrate) × Among b desktop_banned × (b.name ≡ dep)

-- Each crate that the desktop's rule bans is banned from its whole tree.
rule_covered : All (λ (ban : Str × Str). IsDesktopBanned ban.0) desktop_rule.banned
rule_covered = (
  (_, later (later (later (later (later (later (later (later (first refl)))))))), refl),
  (
    (_, first refl, refl),
    (
      (_, later (later (first refl)), refl),
      (
        (_, later (later (later (later (later (first refl))))), refl),
        ((_, later (later (later (later (later (later (later (first refl))))))), refl), tt),
      ),
    ),
  ),
)

api_not_desktop : codes "api" ≢ codes "desktop"
api_not_desktop e = cc

desktop_only :
    (rule : EdgeRule) → Among rule rules → rule.package_name ≡ codes "desktop" → rule ≡ desktop_rule
desktop_only rule (first e) h = e
desktop_only rule (later (first e)) h =
    absurd (api_not_desktop (sym (ap (λ (r : EdgeRule). r.package_name) e) ∙ h))
desktop_only rule (later (later m)) h = elim m [ ]

is_empty_of :
    (tree : List Str) (b : BannedCrate)
    → Among b desktop_banned
    → Among b.name tree
    → tree_violations tree ≢ []
unfolding tree_violations
is_empty_of tree b m n h =
    nonempty (select (λ (b : BannedCrate). has tree b.name) desktop_banned)
      (Among-select (λ (b : BannedCrate). has tree b.name) desktop_banned m
        (Among-has tree b.name n))
      h
  where
    nonempty : (bs : List BannedCrate) → Among b bs → map violation_of bs ≢ []
    nonempty [] m h = elim m [ ]
    nonempty (c ∷ bs) m h = cc

-- Where the desktop's whole dependency tree holds none of the banned crates, and its direct
-- dependencies are part of that tree, no violation of the desktop's rule is reported.
pub tree_violations-desktop :
    (tree : List Str) (packages : List PackageDeps) (desktop : PackageDeps) (v : EdgeViolation)
    → tree_violations tree ≡ []
    → find_package (codes "desktop") packages ≡ some desktop
    → All (λ dep. Among dep tree) desktop.direct_deps
    → Among v (evaluate_edges packages)
    → v.package_name ≢ codes "desktop"
tree_violations-desktop tree packages desktop v clean found within m h =
    let (rule, pkg, b) = (evaluate_edges_iff packages v).0 m in
    let is_desktop : rule ≡ desktop_rule = desktop_only rule b.ruled (sym b.named ∙ h) in
    let banned : Among (v.dependency, v.reason) desktop_rule.banned = rw is_desktop at (b.banned) in
    let present : find_package (codes "desktop") packages ≡ some pkg =
      rw is_desktop at (b.present) in
    let same : some desktop ≡ some pkg = sym found ∙ present in
    let same_pkg : desktop ≡ pkg = cc in
    let (c, n, e) =
      All-at (λ (ban : Str × Str). IsDesktopBanned ban.0) desktop_rule.banned rule_covered banned in
    let direct : Among v.dependency desktop.direct_deps = rw (← same_pkg) at (b.direct) in
    is_empty_of tree c n
      (rw (sym e) at (All-at (λ dep. Among dep tree) desktop.direct_deps within direct)) clean

-- The configuration file under the root denies each banned crate, and cargo-deny ran in the root over
-- the desktop's manifest with that file as its configuration, succeeded, and did not set the bit of a
-- failed ban.
pub record IsEnforced (toml : Toml) (cargo : Str → List Str → Result Str Output)
    (read : Str → Result Str Str) (root : Str) : Type 0 where
  pub config : Str
  pub text : Str
  pub output : Output
  pub was_read : read (path_join root config) ≡ ok text
  pub denies : All (λ (b : BannedCrate). IsDenied toml text b.name) desktop_banned
  pub ran :
      cargo root (
        codes "deny"
        ∷ codes "--manifest-path"
        ∷ codes "apps/desktop/src-tauri/Cargo.toml"
        ∷ codes "check"
        ∷ codes "bans"
        ∷ codes "--config"
        ∷ config
        ∷ [])
      ≡ ok output
  pub succeeded : output.success ≡ true
  pub no_ban_failed : bans_check_failed (unwrap_or output.code minus_one) ≡ false

no_gaps :
    (denied : List Str) (bs : List BannedCrate)
    → is_empty (select (λ name. not (has denied name)) (map (λ (b : BannedCrate). b.name) bs))
      ≡ true
    → All (λ (b : BannedCrate). Among b.name denied) bs
no_gaps denied [] h = tt
no_gaps denied (b ∷ bs) h = elim (Bool-cases (has denied b.name)) [
  | inl t ↦ (has-Among denied b.name t, no_gaps denied bs (rw t at h))
  | inr f ↦ absurd (let h' = rw f at h in cc)
]

judge_deny-ok :
    (show : ℕ → Str) (output : Output)
    → judge_deny show output ≡ ok tt
    → (output.success ≡ true) × (bans_check_failed (unwrap_or output.code minus_one) ≡ false)
unfolding judge_deny
judge_deny-ok show output h = ground arith

module _ (show : ℕ → Str) (cargo : Str → List Str → Result Str Output) (toml : Toml)
    (read : Str → Result Str Str) where
  run_cargo_deny_bans-ok :
      (root : Str)
      → run_cargo_deny_bans show cargo root ≡ ok tt
      → (output : Output) × (cargo root (cargo_deny_args desktop_manifest desktop_deny_toml)
          ≡ ok output)
        × (judge_deny show output ≡ ok tt)
  unfolding run_cargo_deny_bans
  run_cargo_deny_bans-ok root h =
      elim (Result-cases (cargo root (cargo_deny_args desktop_manifest desktop_deny_toml))) [
        | inr (e, c) ↦ absurd (let h' = rw (c, run_cargo_deny_bans) at h in cc)
        | inl (output, c) ↦ (output, c, rw (c, run_cargo_deny_bans) at h)
      ]

  -- The check from the gaps on.
  enforced :
      (root text : Str) (denied : List Str)
      → read (path_join root desktop_deny_toml) ≡ ok text
      → denied_crates_in_config toml text ≡ ok denied
      → (if not (
            is_empty (
              select
                (λ name. not (has denied name))
                (map (λ (b : BannedCrate). b.name) desktop_banned)))
          then err (
              gaps_message (path_join root desktop_deny_toml) (
                select
                  (λ name. not (has denied name))
                  (map (λ (b : BannedCrate). b.name) desktop_banned)))
          else run_cargo_deny_bans show cargo root)
        ≡ ok tt
      → IsEnforced toml cargo read root
  unfolding cargo_deny_args
  enforced root text denied r d h =
      elim (Bool-cases (
        is_empty (
          select (λ name. not (has denied name))
            (map (λ (b : BannedCrate). b.name) desktop_banned)))) [
              | inr f ↦ absurd (let h' = rw f at h in cc)
              | inl t ↦
                  (let (output, c, j) = run_cargo_deny_bans-ok root (rw t at h) in
                    let (s, b) = judge_deny-ok show output j in
                    record {
                      config = desktop_deny_toml;
                      text = text;
                      output = output;
                      was_read = r;
                      denies =
                          All-map desktop_banned
                            (λ b m. denied_crates_in_config-IsDenied toml text b.name denied d m)
                            (no_gaps denied desktop_banned t);
                      ran = c;
                      succeeded = s;
                      no_ban_failed = b;
                    })
            ]

  -- A bans check that passes has read a configuration file under the root whose `bans.deny` names
  -- every banned crate, as a text with at most a version or as a table, and cargo-deny has run in the
  -- root over the desktop's manifest with that same file as its configuration, and has succeeded
  -- without the bit of a failed ban.
  pub run_bans_check-IsEnforced :
      (root : Str)
      → run_bans_check show cargo toml read root ≡ ok tt
      → IsEnforced toml cargo read root
  unfolding run_bans_check config_gaps
  run_bans_check-IsEnforced root h = elim (Result-cases (read (path_join root desktop_deny_toml))) [
    | inr (e, r) ↦ absurd (let h' = rw (r, run_bans_check) at h in cc)
    | inl (text, r) ↦ elim (Result-cases (denied_crates_in_config toml text)) [
      | inr (e, d) ↦ absurd (let h' = rw (d, config_gaps) at (rw (r, run_bans_check) at h) in cc)
      | inl (denied, d) ↦
          enforced root text denied r d (rw (d, config_gaps) at (rw (r, run_bans_check) at h))
    ]
  ]
