-- ===== src/Xtask/LeakScan/Walk.antt =====
-- The scan of a directory tree.
use development_kit.Prelude.{
  ◌≡◌, ◌↔◌, inl, inr, Str, none, some, true, false, Bool-cases, Among, Among-append_left,
  Among-append_right, append-Among,
}
use development_kit.Xtask.Files.{Node, file, dir, unlisted, Entries, end, entry, path_join}
use development_kit.Xtask.LeakScan.Matchers.{SecretKind}
use development_kit.Xtask.LeakScan.Sensitive.{Sensitive}
use development_kit.Xtask.LeakScan.Found.{scan_text-Sensitive, scan_text_source}
use development_kit.Xtask.LeakScan.{
  LeakFinding, scan_text, is_skippable_dir, is_scannable_file, scan_entry, scan_entries,
  scan_directory,
}

-- Under a directory at `base`, the file at `path` has a scannable name and the text `content`, and no
-- directory on the way has a name that is skipped.
pub data Scanned (path content : Str) : Str → Entries → Type 0 where
  this :
      {base name : Str} {es : Entries}
      → is_scannable_file name ≡ true
      → path ≡ path_join base name
      → Scanned path content base (entry name (file (some content)) es)
  inside :
      {base name : Str} {inner es : Entries}
      → is_skippable_dir name ≡ false
      → Scanned path content (path_join base name) inner
      → Scanned path content base (entry name (dir inner) es)
  further :
      {base name : Str} {node : Node} {es : Entries}
      → Scanned path content base es
      → Scanned path content base (entry name node es)

further_of :
    {kind : SecretKind} {path base name : Str} {node : Node} {es : Entries}
    → (content : Str) × Scanned path content base es × Sensitive content kind
    → (content : Str) × Scanned path content base (entry name node es) × Sensitive content kind
further_of (content, d, s) = (content, further d, s)

module _ (kind : SecretKind) (path : Str) where
  abbrev finding : LeakFinding
  finding = record { kind = kind; source = path }

  pub Scanned-Among :
      (content base : Str) (es : Entries)
      → Scanned path content base es
      → Sensitive content kind
      → Among finding (scan_entries base es)
  unfolding scan_entries scan_entry
  Scanned-Among content base end d s = elim d [ ]
  Scanned-Among content base (entry name (file (some _)) es) (this t e) s = rw t (
      rw (← e) (
        Among-append_left (scan_text content path) (scan_entries base es)
          ((scan_text-Sensitive content path kind).0.1 s)))
  Scanned-Among content base (entry name (dir inner) es) (inside f d) s = rw f (
      Among-append_left (scan_entries (path_join base name) inner) (scan_entries base es)
        (Scanned-Among content (path_join base name) inner d s))
  Scanned-Among content base (entry name node es) (further d) s =
      Among-append_right (scan_entry (path_join base name) name node) (scan_entries base es)
        (Scanned-Among content base es d s)

  -- The text of one file, found at `base/name`.
  file_found :
      (content base name : Str) (es : Entries)
      → is_scannable_file name ≡ true
      → Among finding (scan_text content (path_join base name))
      → (c : Str) × Scanned path c base (entry name (file (some content)) es) × Sensitive c kind
  file_found content base name es t m =
      let e : path ≡ path_join base name =
        scan_text_source content (path_join base name) finding m in
      (
        content,
        this t e,
        (scan_text-Sensitive content (path_join base name) kind).0.0 (at_path e m),
      )
    where
      at_path :
          path ≡ path_join base name
          → Among finding (scan_text content (path_join base name))
          → Among
              (record { kind = kind; source = path_join base name })
              (scan_text content (path_join base name))
      at_path e m = rw (← e) (rw (← e) at m)

  pub Among-Scanned :
      (base : Str) (es : Entries)
      → Among finding (scan_entries base es)
      → (content : Str) × Scanned path content base es × Sensitive content kind
  unfolding scan_entries scan_entry
  Among-Scanned base end m = elim m [ ]
  Among-Scanned base (entry name unlisted es) m = further_of (Among-Scanned base es m)
  Among-Scanned base (entry name (file none) es) m = further_of (Among-Scanned base es m)
  Among-Scanned base (entry name (file (some content)) es) m =
      elim (Bool-cases (is_scannable_file name)) [
        | inr f ↦ further_of (Among-Scanned base es (rw f at m))
        | inl t ↦ elim (append-Among (scan_text content (path_join base name)) _ (rw t at m)) [
          | inl l ↦ file_found content base name es t l
          | inr r ↦ further_of (Among-Scanned base es r)
        ]
      ]
  Among-Scanned base (entry name (dir inner) es) m = elim (Bool-cases (is_skippable_dir name)) [
    | inl t ↦ further_of (Among-Scanned base es (rw t at m))
    | inr f ↦ elim (append-Among (scan_entries (path_join base name) inner) _ (rw f at m)) [
      | inl l ↦ (let (c, d, s) = Among-Scanned (path_join base name) inner l in (c, inside f d, s))
      | inr r ↦ further_of (Among-Scanned base es r)
    ]
  ]

-- Scanning a directory reports a kind at a path exactly when some file that the scan reaches at that
-- path, through directories whose names are not skipped and under a scannable name, can be read as
-- text and holds a sensitive value of that kind in it. A file that is not valid UTF-8 is not read.
pub scan_directory-Sensitive :
    (root : Str) (es : Entries) (kind : SecretKind) (path : Str)
    → Among (record { kind = kind; source = path }) (scan_directory root (dir es))
      ↔ ((content : Str) × Scanned path content root es × Sensitive content kind)
unfolding scan_directory
scan_directory-Sensitive root es kind path = (
  Among-Scanned kind path root es,
  λ (content, d, s). Scanned-Among kind path content root es d s,
)
