-- ===== src/Xtask/SeamScan.antt =====
-- xtask/src/seam_scan.rs: every product key that the product sources build must be registered.
pub mod Source
pub mod Layout
pub mod Splits
pub mod Arguments
pub mod Planted
pub mod Walk
pub mod Registered
use development_kit.Prelude.{
  ℕ, Str, codes, em_dash, Option, none, some, Bool, true, false, not, ◌&&◌, ◌||◌, ◌==◌, List, [],
  ◌∷◌, ◌++◌, map, any, length, is_empty, or_else, Result, ok, err, str_eq, if◌then◌else◌,
}
use development_kit.Text.Search.{after_last, join}
use development_kit.Text.Decimal.{decimal}
use development_kit.Shared.ProductFeatureKey.{ProductFeatureKey, as_str}
use development_kit.Xtask.Files.{Node, file, dir, unlisted, Entries, end, entry, path_join}
use Source.{ScannedKey, const_namespace, scan_text_with_namespace}

abbrev pub seam_source_dirs : List Str
seam_source_dirs =
    codes "services/api/src/products" ∷ codes "apps/desktop/src-tauri/src/products" ∷ []

-- `PartialEq` of keys, which `BTreeSet` reads too.
unfoldable pub key_eq : ProductFeatureKey → ProductFeatureKey → Bool
key_eq k l = str_eq k.key l.key && k.sep == l.sep

-- The loop of `unregistered_gated_keys`, with the keys reported so far.
unfoldable pub report_unregistered :
    List ProductFeatureKey → List ProductFeatureKey → List ScannedKey → List ProductFeatureKey
unfolding key_eq
report_unregistered registry seen [] = []
report_unregistered registry seen (hit ∷ scanned) =
    if not (any (key_eq hit.key) registry) && not (any (key_eq hit.key) seen)
    then hit.key ∷ report_unregistered registry (hit.key ∷ seen) scanned
    else report_unregistered registry seen scanned

unfoldable pub unregistered_gated_keys :
    List ScannedKey → List ProductFeatureKey → List ProductFeatureKey
unfolding report_unregistered
unregistered_gated_keys scanned registered = report_unregistered registered [] scanned

-- `Path::extension` is `rs`: a name that is only `.rs` has no extension.
unfoldable pub is_rust_file : Str → Bool
unfolding after_last
is_rust_file name =
    elim (after_last b'.' name) [ some ext ↦ str_eq ext (codes "rs") | none ↦ false ]
    && not (str_eq name (codes ".rs"))

unfoldable pub discover_dir_namespace : Entries → Option Str
unfolding is_rust_file const_namespace
discover_dir_namespace end = none
discover_dir_namespace (entry name (file (some content)) es) =
    or_else (if is_rust_file name then const_namespace content else none)
      (discover_dir_namespace es)
discover_dir_namespace (entry name _ es) = discover_dir_namespace es

-- `discover_dir_namespace(&path)`: none where the directory cannot be listed.
unfoldable pub node_namespace : Node → Option Str
unfolding discover_dir_namespace
node_namespace (dir es) = discover_dir_namespace es
node_namespace (file _) = none
node_namespace unlisted = none

unfoldable mutual
  unfolding is_rust_file node_namespace scan_text_with_namespace discover_dir_namespace

  -- `scan_dir_with_namespace`, at one entry and at those of a directory.
  pub scan_node : Str → Str → Option Str → Node → List ScannedKey
  scan_node path name ns unlisted = []
  scan_node path name ns (file none) = []
  scan_node path name ns (file (some content)) =
      if is_rust_file name then scan_text_with_namespace content path ns else []
  scan_node path name ns (dir es) =
      scan_dir_with_namespace path (or_else (discover_dir_namespace es) ns) es

  pub scan_dir_with_namespace : Str → Option Str → Entries → List ScannedKey
  scan_dir_with_namespace path ns end = []
  scan_dir_with_namespace path ns (entry name node es) =
      scan_node (path_join path name) name ns node ++ scan_dir_with_namespace path ns es

-- `scan_dir_into`.
unfoldable pub scan_dir_into : Str → Node → List ScannedKey
unfolding scan_dir_with_namespace discover_dir_namespace
scan_dir_into path (dir es) = scan_dir_with_namespace path (discover_dir_namespace es) es
scan_dir_into path (file _) = []
scan_dir_into path unlisted = []

-- `at` is what stands at a path, if it exists.
unfoldable pub scan_seam : (Str → Option Node) → Str → List Str → List ScannedKey
unfolding scan_dir_into
scan_seam at root [] = []
scan_seam at root (rel ∷ rels) =
    elim (at (path_join root rel)) [
      | none ↦ []
      | some node ↦ scan_dir_into (path_join root rel) node
    ]
    ++ scan_seam at root rels

unfoldable pub scan_seam_dirs : (Str → Option Node) → Str → List ScannedKey
unfolding scan_seam
scan_seam_dirs at root = scan_seam at root seam_source_dirs

unfoldable pub unregistered_message : List ProductFeatureKey → Str
unfolding as_str join decimal
unregistered_message missing =
    decimal (length missing)
    ++ (codes " product feature key(s) are gated in seam source but absent from "
        ++ codes "product_key_registry() "
        ++ em_dash
        ++ codes " a gated key MUST be registered or the coverage "
        ++ codes "gate cannot see it (issue #59): "
        ++ join (codes ", ") (map as_str missing))

unfoldable pub evaluate_derivation :
    (Str → Option Node) → Str → List ProductFeatureKey → Result Str (Unit {0})
unfolding scan_seam_dirs unregistered_gated_keys unregistered_message
evaluate_derivation at root registered =
    let missing = unregistered_gated_keys (scan_seam_dirs at root) registered in
    if is_empty missing then ok tt else err (unregistered_message missing)
