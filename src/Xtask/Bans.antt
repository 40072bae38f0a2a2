-- ===== src/Xtask/Bans.antt =====
-- xtask/src/bans.rs, and `run_bans_check` of xtask/src/lib.rs: the crates that the desktop's whole
-- dependency tree may not contain.
pub mod Denied
pub mod Enforced
use development_kit.Prelude.{
  ℕ, ◌/◌, ◌%◌, Str, codes, Option, none, some, Bool, true, false, not, ◌&&◌, ◌==◌, List, [], ◌∷◌,
  ◌++◌, map, any, select, is_empty, Result, ok, err, ◌>>=◌, str_eq, unwrap_or, and_then,
  if◌then◌else◌,
}
use development_kit.Text.Search.{before, contains, join}
use development_kit.Text.Decimal.{decimal}
use development_kit.Xtask.Edges.{has}
use development_kit.Xtask.Files.{path_join}

pub record BannedCrate : Type 0 where
  pub name : Str
  pub reason : Str

pub record BanViolation : Type 0 where
  pub crate_name : Str
  pub reason : Str

abbrev no_postgres : Str
no_postgres = codes "desktop must not reach Postgres; cloud authority only (ADR-0001)"

abbrev no_billing : Str
no_billing = codes "Stripe integration is backend-only; no billing on the client (ADR-0001)"

abbrev pub desktop_banned : List BannedCrate
desktop_banned =
    record { name = codes "sqlx"; reason = no_postgres }
    ∷ record { name = codes "sqlx-postgres"; reason = no_postgres }
    ∷ record { name = codes "tokio-postgres"; reason = no_postgres }
    ∷ record { name = codes "postgres"; reason = no_postgres }
    ∷ record {
      name = codes "diesel";
      reason = codes "desktop must not embed a Postgres ORM; cloud authority only (ADR-0001)";
    }
    ∷ record { name = codes "async-stripe"; reason = no_billing }
    ∷ record { name = codes "stripe-rust"; reason = no_billing }
    ∷ record { name = codes "stripe"; reason = no_billing }
    ∷ record {
      name = codes "license-sign";
      reason = codes "desktop verifies licenses, never issues them (ADR-0001/ADR-0002)";
    }
    ∷ []

abbrev pub violation_of : BannedCrate → BanViolation
violation_of b = record { crate_name = b.name; reason = b.reason }

unfoldable pub tree_violations : List Str → List BanViolation
tree_violations tree =
    map violation_of (select (λ (b : BannedCrate). has tree b.name) desktop_banned)

-- The part of the `toml` crate that the check reads: a value's table entries, its array and its text.
pub record Toml : Type 1 where
  pub Value : Type 0
  pub from_str : Str → Result Str Value
  pub get : Value → Str → Option Value
  pub as_array : Value → Option (List Value)
  pub as_str : Value → Option Str

-- The first part of `split(['@', ':'])`, if it is not empty.
unfoldable pub spec_crate_name : Str → Option Str
unfolding before
spec_crate_name spec =
    let head = before (λ c. if c == b'@' then true else c == b':') spec in
    if is_empty head then none else some head

module _ (toml : Toml) where
  -- The name that one entry of the array denies.
  unfoldable pub entry_name : toml.Value → Option Str
  unfolding spec_crate_name
  entry_name entry = elim (toml.as_str entry) [
    | some spec ↦ spec_crate_name spec
    | none ↦ and_then (toml.get entry (codes "name")) toml.as_str
  ]

  unfoldable pub entry_names : List toml.Value → List Str
  unfolding entry_name
  entry_names [] = []
  entry_names (entry ∷ entries) =
      let names = entry_names entries in
      elim (entry_name entry) [ none ↦ names | some name ↦ name ∷ names ]

  unfoldable pub denied_in_value : toml.Value → List Str
  unfolding entry_names
  denied_in_value value =
      elim (and_then (toml.get value (codes "bans"))
        λ b. and_then (toml.get b (codes "deny")) toml.as_array) [
          | none ↦ []
          | some deny ↦ entry_names deny
        ]

  unfoldable pub denied_crates_in_config : Str → Result Str (List Str)
  unfolding denied_in_value
  denied_crates_in_config deny_toml = elim (toml.from_str deny_toml) [
    | err e ↦ err (codes "invalid deny.toml: " ++ e)
    | ok value ↦ ok (denied_in_value value)
  ]

  unfoldable pub config_gaps : Str → Result Str (List Str)
  unfolding denied_crates_in_config
  config_gaps deny_toml = denied_crates_in_config deny_toml >>= λ denied.
      ok (select (λ name. not (has denied name)) (map (λ (b : BannedCrate). b.name) desktop_banned))

-- The bit of an `i32`, which is taken as its 32-bit pattern.
unfoldable pub bans_check_failed : ℕ → Bool
bans_check_failed exit_code = exit_code / 2 % 2 == 1

unfoldable pub cargo_deny_args : Str → Str → List Str
cargo_deny_args manifest_path config_path =
    codes "deny"
    ∷ codes "--manifest-path"
    ∷ manifest_path
    ∷ codes "check"
    ∷ codes "bans"
    ∷ codes "--config"
    ∷ config_path
    ∷ []

-- What a process leaves: whether it succeeded, its exit code as a 32-bit pattern, and its output.
pub record Output : Type 0 where
  pub success : Bool
  pub code : Option ℕ
  pub stdout : Str
  pub stderr : Str

-- The pattern of -1.
abbrev pub minus_one : ℕ
minus_one = 4294967295

abbrev pub desktop_manifest : Str
desktop_manifest = codes "apps/desktop/src-tauri/Cargo.toml"

abbrev pub desktop_deny_toml : Str
desktop_deny_toml = codes "apps/desktop/src-tauri/deny.toml"

unfoldable pub gaps_message : Str → List Str → Str
unfolding join
gaps_message deny_path gaps =
    deny_path ++ (codes " no longer bans every required crate; missing: " ++ join (codes ", ") gaps)

-- `Display` of an `i32` pattern is `show`.
module _ (show : ℕ → Str) where
  -- `run_cargo_deny_bans` from the output on.
  unfoldable pub judge_deny : Output → Result Str (Unit {0})
  unfolding contains bans_check_failed
  judge_deny output =
      let code = unwrap_or output.code minus_one in
      if not output.success && contains output.stderr (codes "no such command")
      then err (
          codes "cargo-deny is not installed; run `cargo install --locked cargo-deny` "
          ++ codes "(CI installs it via taiki-e/install-action)")
      else if bans_check_failed code
      then err (
          codes "cargo-deny bans check failed (exit "
          ++ (show code ++ (codes ") for the desktop tree:\n" ++ (output.stdout ++ output.stderr))))
      else if not output.success
      then err (
          codes "cargo-deny exited with "
          ++ (show code ++ (codes " (not a bans violation):\n" ++ output.stderr)))
      else ok tt

  -- `cargo` runs the process in a directory with arguments; `read` reads the file at a path. Both
  -- are the machine's, and `root` is the workspace root.
  module _ (cargo : Str → List Str → Result Str Output) where
    unfoldable pub run_cargo_deny_bans : Str → Result Str (Unit {0})
    unfolding judge_deny cargo_deny_args
    run_cargo_deny_bans root =
        elim (cargo root (cargo_deny_args desktop_manifest desktop_deny_toml)) [
          | err e ↦ err (codes "failed to spawn `cargo deny`: " ++ e)
          | ok output ↦ judge_deny output
        ]

    module _ (toml : Toml) (read : Str → Result Str Str) where
      unfoldable pub run_bans_check : Str → Result Str (Unit {0})
      unfolding config_gaps gaps_message run_cargo_deny_bans
      run_bans_check root =
          let deny_path = path_join root desktop_deny_toml in
          elim (read deny_path) [
            | err e ↦ err (codes "cannot read " ++ (deny_path ++ (codes ": " ++ e)))
            | ok deny_toml ↦ config_gaps toml deny_toml >>= λ gaps.
                if not (is_empty gaps)
                then err (gaps_message deny_path gaps)
                else run_cargo_deny_bans root
          ]
