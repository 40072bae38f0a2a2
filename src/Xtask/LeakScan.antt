-- ===== src/Xtask/LeakScan.antt =====
-- xtask/src/leakscan.rs: refusing a sensitive value in the desktop's sources or its built program.
pub mod Matchers
pub mod Sensitive
pub mod Credentials
pub mod Kinds
pub mod Found
pub mod Walk
use development_kit.Prelude.{
  ℕ, Str, codes, Option, none, some, Bool, true, false, not, ◌&&◌, ◌||◌, List, [], ◌∷◌, ◌++◌, map,
  any, str_eq, if◌then◌else◌,
}
use development_kit.Text.Search.{after_last, join}
use development_kit.Api.PgMigration.{starts_with}
use development_kit.Xtask.Files.{Node, file, dir, unlisted, Entries, end, entry, path_join}
use Matchers.{SecretKind, scan_kinds}

-- The category and the place; never the value that was found.
pub record LeakFinding : Type 0 where
  pub kind : SecretKind
  pub source : Str

unfoldable pub label : SecretKind → Str
label SecretKind.stripe_secret_key = codes "Stripe secret/restricted key"
label SecretKind.stripe_webhook_secret = codes "Stripe webhook secret"
label SecretKind.database_url = codes "database connection URL"
label SecretKind.private_key = codes "private key"

-- `Display` of a finding.
unfoldable pub to_string : LeakFinding → Str
unfolding label
to_string f = label f.kind ++ (codes " found in " ++ f.source)

unfoldable pub scan_text : Str → Str → List LeakFinding
unfolding scan_kinds
scan_text content source =
    map (λ kind. record { kind = kind; source = source }) (scan_kinds content)

unfoldable pub report_findings : List LeakFinding → Str
unfolding to_string join
report_findings findings = join (codes "\n") (map to_string findings)

abbrev skippable_dirs : List Str
skippable_dirs =
    codes "target" ∷ codes "node_modules" ∷ codes "dist" ∷ codes ".git" ∷ codes "icons" ∷ []

unfoldable pub is_skippable_dir : Str → Bool
is_skippable_dir name = any (str_eq name) skippable_dirs

abbrev pub scannable_exts : List Str
scannable_exts = map codes (
    "rs" ∷ "ts" ∷ "tsx" ∷ "js" ∷ "jsx" ∷ "json" ∷ "toml" ∷ "yaml" ∷ "yml" ∷ "html" ∷ "css" ∷ "env"
    ∷ "sh" ∷ "md" ∷ "txt" ∷ "pem" ∷ "key" ∷ "conf" ∷ "ini" ∷ [])

unfoldable pub is_scannable_file : Str → Bool
unfolding starts_with after_last
is_scannable_file name =
    starts_with name (codes ".env")
    || str_eq name (codes ".npmrc")
    || elim (after_last b'.' name) [ some ext ↦ any (str_eq ext) scannable_exts | none ↦ false ]

unfoldable mutual
  unfolding scan_text is_skippable_dir is_scannable_file

  -- `scan_directory_into`, at an entry and at the entries of a directory.
  pub scan_entry : Str → Str → Node → List LeakFinding
  scan_entry path name (dir entries) =
      let inside = scan_entries path entries in if is_skippable_dir name then [] else inside
  scan_entry path name unlisted = []
  scan_entry path name (file none) = []
  scan_entry path name (file (some content)) =
      if is_scannable_file name then scan_text content path else []

  pub scan_entries : Str → Entries → List LeakFinding
  scan_entries path end = []
  scan_entries path (entry name node entries) =
      scan_entry (path_join path name) name node ++ scan_entries path entries

-- The root itself is listed whatever its name.
unfoldable pub scan_directory : Str → Node → List LeakFinding
unfolding scan_entries
scan_directory root (dir entries) = scan_entries root entries
scan_directory root (file _) = []
scan_directory root unlisted = []

-- The built program: its bytes, decoded by `String::from_utf8_lossy`.
module _ (from_utf8_lossy : Str → Str) where
  unfoldable pub scan_artifact : Str → Option Str → List LeakFinding
  unfolding scan_text
  scan_artifact path none = []
  scan_artifact path (some bytes) = scan_text (from_utf8_lossy bytes) path
