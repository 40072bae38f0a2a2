-- ===== src/Xtask/SeamScan/Walk.antt =====
-- The walk over the product sources, and what a passing derivation check says about them.
use development_kit.Prelude.{
  ◌≡◌, Str, Option, some, true, List, [], ◌∷◌, ◌++◌, All-at, Among, first, later, Among-append_left,
  Among-append_right, or_else, ok,
}
use development_kit.Shared.ProductFeatureKey.{ProductFeatureKey}
use development_kit.Shared.ProductFeatureKey as Key
use development_kit.Xtask.Files.{Node, file, dir, Entries, end, entry, path_join}
use development_kit.Xtask.SeamScan.Source.{ScannedKey, const_namespace, scan_text_with_namespace}
use development_kit.Xtask.SeamScan.Layout.{NsExpr, Layout, IsLayout, planted}
use development_kit.Xtask.SeamScan.Planted.{NamespaceIs, scan_text_with_namespace-planted}
use development_kit.Xtask.SeamScan.Registered.{evaluate_derivation_iff}
use development_kit.Xtask.SeamScan.{
  is_rust_file, discover_dir_namespace, scan_node, scan_dir_with_namespace, scan_dir_into,
  scan_seam, scan_seam_dirs, seam_source_dirs, evaluate_derivation,
}

-- Under a directory at `base` with the namespace `dir_ns`, the Rust file at `path` has the text
-- `content`, and `ns` is the namespace of the directory that holds it: the one that its own files
-- declare, or else that of the directory above.
pub data Reached (path content : Str) (ns : Option Str) : Str → Option Str → Entries → Type 0 where
  this :
      {base name : Str} {dir_ns : Option Str} {es : Entries}
      → is_rust_file name ≡ true
      → path ≡ path_join base name
      → ns ≡ dir_ns
      → Reached path content ns base dir_ns (entry name (file (some content)) es)
  inside :
      {base name : Str} {dir_ns : Option Str} {inner es : Entries}
      → Reached path content ns
          (path_join base name)
          (or_else (discover_dir_namespace inner) dir_ns)
          inner
      → Reached path content ns base dir_ns (entry name (dir inner) es)
  further :
      {base name : Str} {dir_ns : Option Str} {node : Node} {es : Entries}
      → Reached path content ns base dir_ns es
      → Reached path content ns base dir_ns (entry name node es)

Reached-Among :
    (path content : Str) (ns : Option Str) (hit : ScannedKey) (base : Str) (dir_ns : Option Str)
    (es : Entries)
    → Reached path content ns base dir_ns es
    → Among hit (scan_text_with_namespace content path ns)
    → Among hit (scan_dir_with_namespace base dir_ns es)
unfolding scan_dir_with_namespace scan_node
Reached-Among path content ns hit base dir_ns end r m = elim r [ ]
Reached-Among path content ns hit base dir_ns (entry name (file (some _)) es) (this t e n) m =
    rw t (
      Among-append_left (scan_text_with_namespace content (path_join base name) dir_ns) _
        (rw n at (rw e at m)))
Reached-Among path content ns hit base dir_ns (entry name (dir inner) es) (inside r) m =
    Among-append_left
      (scan_dir_with_namespace (path_join base name) (or_else (discover_dir_namespace inner) dir_ns)
        inner)
      _ (Reached-Among path content ns hit (path_join base name) _ inner r m)
Reached-Among path content ns hit base dir_ns (entry name node es) (further r) m =
    Among-append_right (scan_node (path_join base name) name dir_ns node) _
      (Reached-Among path content ns hit base dir_ns es r m)

seam-Among :
    (at : Str → Option Node) (root rel : Str) (es : Entries) (hit : ScannedKey) (rels : List Str)
    → Among rel rels
    → at (path_join root rel) ≡ some (dir es)
    → Among hit (scan_dir_with_namespace (path_join root rel) (discover_dir_namespace es) es)
    → Among hit (scan_seam at root rels)
unfolding scan_seam scan_dir_into
seam-Among at root rel es hit [] a h m = elim a [ ]
seam-Among at root rel es hit (r ∷ rels) (first e) h m = rw (rw e at h) (
    Among-append_left (scan_dir_with_namespace (path_join root r) (discover_dir_namespace es) es) _
      (rw e at m))
seam-Among at root rel es hit (r ∷ rels) (later a) h m =
    Among-append_right _ _ (seam-Among at root rel es hit rels a h m)

-- If the derivation check passes, then every product key that a call of `ProductFeatureKey::new` in a
-- Rust file under one of the two seam directories builds, where the call is written in one of the
-- forms that the scan reads (`planted`), is registered.
pub evaluate_derivation-registered :
    (at : Str → Option Node) (root rel : Str) (registered : List ProductFeatureKey) (es : Entries)
    (path pre post nm name : Str) (ns : Option Str) (lay : Layout) (form : NsExpr)
    (key : ProductFeatureKey)
    → IsLayout lay
    → evaluate_derivation at root registered ≡ ok tt
    → Among rel seam_source_dirs
    → at (path_join root rel) ≡ some (dir es)
    → Reached path
        (pre ++ planted lay form nm name post)
        ns
        (path_join root rel)
        (discover_dir_namespace es)
        es
    → NamespaceIs form nm (or_else (const_namespace (pre ++ planted lay form nm name post)) ns)
    → Key.new nm name ≡ ok key
    → Among key registered
unfolding scan_seam_dirs
evaluate_derivation-registered at root rel registered es path pre post nm name ns lay form key l
      pass a h r n k =
    let hit : ScannedKey = record { key = key; source = path } in
    All-at (λ (s : ScannedKey). Among s.key registered) (scan_seam_dirs at root)
      ((evaluate_derivation_iff at root registered).0 pass)
      (seam-Among at root rel es hit seam_source_dirs a h (
        Reached-Among path (pre ++ planted lay form nm name post) ns hit (path_join root rel)
          (discover_dir_namespace es) es r
          (scan_text_with_namespace-planted lay form nm name key pre post path ns l k n)))
