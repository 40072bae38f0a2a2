-- ===== src/Text.antt =====
-- The methods of `str` that the program calls, on bytes. Trimming is over ASCII white space: what
-- is trimmed is header values, source text, and two values of the environment.
pub mod Decimal
pub mod Search
use development_kit.Prelude.{
  ℕ, ◌+◌, ◌-◌, Str, Option, none, some, Bool, true, false, ◌&&◌, ◌||◌, leb, ◌==◌, if◌then◌else◌,
  List, [], ◌∷◌, str_eq, is_empty,
}

-- `split_once` at the first occurrence of a byte.
unfoldable pub split_once : ℕ → Str → Option (Str × Str)
split_once sep [] = none
split_once sep (c ∷ s) = elim (c == sep) [
  | true ↦ some ([], s)
  | false ↦ elim (split_once sep s) [
    | none ↦ none
    | some (before, after) ↦ some (c ∷ before, after)
  ]
]

-- `split` at every occurrence of a byte: the first part and the others.
unfoldable pub split_first : ℕ → Str → Str × List Str
split_first sep [] = ([], [])
split_first sep (c ∷ s) =
    let (part, parts) = split_first sep s in
    if c == sep then ([], part ∷ parts) else (c ∷ part, parts)

unfoldable pub split : ℕ → Str → List Str
unfolding split_first
split sep s = let (part, parts) = split_first sep s in part ∷ parts

unfoldable pub is_whitespace : ℕ → Bool
is_whitespace c = c == b' ' || leb 9 c && leb c 13

unfoldable pub trim_start : Str → Str
unfolding is_whitespace
trim_start [] = []
trim_start (c ∷ s) = if is_whitespace c then trim_start s else c ∷ s

unfoldable pub trim_end : Str → Str
unfolding is_whitespace
trim_end [] = []
trim_end (c ∷ s) =
    let rest = trim_end s in if is_whitespace c && is_empty rest then [] else c ∷ rest

unfoldable pub trim : Str → Str
unfolding trim_start trim_end
trim s = trim_end (trim_start s)

unfoldable pub to_lower : ℕ → ℕ
to_lower c = if leb b'A' c && leb c b'Z' then c + 32 else c

unfoldable pub eq_ignore_ascii_case : Str → Str → Bool
unfolding to_lower
eq_ignore_ascii_case [] [] = true
eq_ignore_ascii_case [] (d ∷ t) = false
eq_ignore_ascii_case (c ∷ s) [] = false
eq_ignore_ascii_case (c ∷ s) (d ∷ t) = to_lower c == to_lower d && eq_ignore_ascii_case s t
