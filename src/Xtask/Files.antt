-- ===== src/Xtask/Files.antt =====
-- The part of the file system that the scans of xtask/src/leakscan.rs and xtask/src/seam_scan.rs
-- read: `read_dir`, `read_to_string` and the paths that they join.
use development_kit.Prelude.{Str, codes, Option, ◌++◌}

-- A file's text is absent where it cannot be read as text, and so are a directory's entries where
-- they cannot be listed. The entries stand in the order in which `read_dir` returns them.
mutual
  pub data Node : Type 0 where
    file : Option Str → Node
    dir : Entries → Node
    unlisted : Node

  pub data Entries : Type 0 where
    end : Entries
    entry : Str → Node → Entries → Entries

-- `Path::join`.
abbrev pub path_join : Str → Str → Str
path_join path name = path ++ (codes "/" ++ name)

-- The entry `name` of the directory's own entries is `node`.
pub data Holds (name : Str) (node : Node) : Entries → Type 0 where
  here : {es : Entries} → Holds name node (entry name node es)
  there :
      {other : Str} {n : Node} {es : Entries}
      → Holds name node es
      → Holds name node (entry other n es)
