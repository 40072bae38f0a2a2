-- ===== src/Xtask/Gate/Host.antt =====
-- The machine on which the gate runs: its files, the processes that it starts, and `cargo metadata`.
use development_kit.Prelude.{ℕ, Str, Option, Bool, List, Result}
use development_kit.Xtask.Files.{Node}
use development_kit.Xtask.Bans.{Toml, Output}

-- The parts of `cargo_metadata` that are read.
pub record MetaPackage : Type 0 where
  pub id : Str
  pub name : Str
  pub dependencies : List Str

pub record Metadata : Type 0 where
  pub workspace_members : List Str
  pub packages : List MetaPackage

pub record ExitStatus : Type 0 where
  pub success : Bool
  pub shown : Str

-- `status` runs a process in a directory and may change the machine. `metadata` and `cargo_output`,
-- which run `cargo metadata` and `cargo deny`, only read it. `files` is what stands at a path.
pub record Machine : Type 1 where
  pub W : Type 0
  pub root : Str
  pub cargo_program : Str
  pub windows : Bool
  pub files : W → Str → Option Node
  pub bytes : W → Str → Option Str
  pub read : W → Str → Result Str Str
  pub status : W → Str → Str → List Str → W × Result Str ExitStatus
  pub cargo_output : W → Str → List Str → Result Str Output
  pub metadata : W → Result Str Metadata
  pub toml : Toml
  pub show : ℕ → Str
  pub from_utf8_lossy : Str → Str
