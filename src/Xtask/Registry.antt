-- ===== src/Xtask/Registry.antt =====
-- xtask/src/registry.rs: the scopes, the registry of checks, and a run of the selected ones. A check
-- may change the machine that it runs on, so its body takes that state and returns the next.
pub mod Scopes
pub mod Runs
use development_kit.Prelude.{
  ℕ, Str, codes, Option, none, some, Bool, true, false, not, ◌||◌, ◌==◌, List, [], ◌∷◌, ◌++◌, map,
  any, all, select, length, is_ok, ok_or, Result, ok, err, str_eq, if◌then◌else◌,
}
use development_kit.Text.Search.{join}

pub data Scope : Type 0 where
  desktop api frontend db billing security prd every : Scope

abbrev pub scope_index : Scope → ℕ
scope_index desktop = 0
scope_index api = 1
scope_index frontend = 2
scope_index db = 3
scope_index billing = 4
scope_index security = 5
scope_index prd = 6
scope_index every = 7

abbrev pub scope_eq : Scope → Scope → Bool
scope_eq a b = scope_index a == scope_index b

-- `Scope::ALL`. The constructor `every` is the source's `All`.
abbrev pub all_scopes : List Scope
all_scopes = every ∷ desktop ∷ api ∷ frontend ∷ db ∷ billing ∷ security ∷ prd ∷ []

unfoldable pub as_str : Scope → Str
as_str desktop = codes "desktop"
as_str api = codes "api"
as_str frontend = codes "frontend"
as_str db = codes "db"
as_str billing = codes "billing"
as_str security = codes "security"
as_str prd = codes "prd"
as_str every = codes "all"

-- The first scope with that token.
unfoldable pub find_scope : Str → List Scope → Option Scope
unfolding as_str
find_scope token [] = none
find_scope token (s ∷ ss) =
    let rest = find_scope token ss in if str_eq (as_str s) token then some s else rest

unfoldable pub unknown_scope : Str → Str
unfolding as_str join
unknown_scope token =
    codes "unknown scope `"
    ++ (token
        ++ (codes "` (expected one of: "
            ++ (join (codes "|") (map as_str all_scopes) ++ codes ")")))

unfoldable pub parse : Str → Result Str Scope
unfolding find_scope unknown_scope
parse token = ok_or (find_scope token all_scopes) (unknown_scope token)

-- A check on a machine whose states are `W`.
pub record Check (W : Type 0) : Type 0 where
  pub name : Str
  pub scopes : List Scope
  pub run : W → W × Result Str (Unit {0})

pub record CheckResult : Type 0 where
  pub name : Str
  pub outcome : Result Str (Unit {0})

module _ {W : Type 0} where
  unfoldable pub selected_by : Check W → Scope → Bool
  selected_by c selector = scope_eq selector every || any (scope_eq selector) c.scopes

  -- `CheckRegistry::register`: the registry is the list of its checks.
  unfoldable pub register : List (Check W) → Check W → List (Check W)
  register checks check = checks ++ check ∷ []

  -- `CheckRegistry::select`.
  unfoldable pub select_checks : List (Check W) → Scope → List (Check W)
  unfolding selected_by
  select_checks checks selector = select (λ c. selected_by c selector) checks

  -- `GateOutcome::run`: every check runs, in order, whatever the ones before it returned.
  unfoldable pub run_checks : List (Check W) → W → W × List CheckResult
  run_checks [] w = (w, [])
  run_checks (c ∷ cs) w =
      let (w', outcome) = c.run w in
      let (last, results) = run_checks cs w' in
      (last, record { name = c.name; outcome = outcome } ∷ results)

unfoldable pub failures : List CheckResult → List Str
failures results =
    map (λ (r : CheckResult). r.name) (select (λ (r : CheckResult). not (is_ok r.outcome)) results)

unfoldable pub passed : List CheckResult → Bool
passed results = all (λ (r : CheckResult). is_ok r.outcome) results
