-- ===== src/Text/Search.antt =====
-- The methods of `str` that search for a substring: `match_indices`, `find`, `lines` and others.
pub mod Complete
pub mod Cut
pub mod Line
use development_kit.Prelude.{
  ℕ, zero, suc, ◌-◌, Str, Option, none, some, Bool, true, false, not, ◌&&◌, ◌==◌, length, List, [],
  ◌∷◌, ◌++◌, is_some, any, str_eq, if◌then◌else◌,
}

-- The text after the prefix.
unfoldable pub strip_prefix : Str → Str → Option Str
strip_prefix [] s = some s
strip_prefix (c ∷ p) [] = none
strip_prefix (c ∷ p) (d ∷ s) = let rest = strip_prefix p s in if c == d then rest else none

-- `match_indices` from left to right: the text after each match of `p`, of which `skip` counts the
-- bytes of the last match that are left. The pattern is not empty.
unfoldable pub matches_after : Str → ℕ → Str → List Str
unfolding strip_prefix
matches_after p skip [] = []
matches_after p (suc skip) (c ∷ s) = matches_after p skip s
matches_after p zero (c ∷ s) = elim (strip_prefix p (c ∷ s)) [
  | none ↦ matches_after p zero s
  | some rest ↦ rest ∷ matches_after p (length p - 1) s
]

-- `content.match_indices(p).any(|(i, _)| test(&content[i + p.len()..]))`.
unfoldable pub any_match : Str → (Str → Bool) → Str → Bool
unfolding matches_after
any_match p test s = any test (matches_after p zero s)

-- `find` of a text: what follows its first occurrence.
unfoldable pub find_after : Str → Str → Option Str
unfolding strip_prefix
find_after p [] = strip_prefix p []
find_after p (c ∷ s) = elim (strip_prefix p (c ∷ s)) [
  | none ↦ find_after p s
  | some rest ↦ some rest
]

unfoldable pub contains : Str → Str → Bool
unfolding find_after
contains s p = is_some (find_after p s)

unfoldable pub ends_with : Str → Str → Bool
ends_with [] suffix = str_eq [] suffix
ends_with (c ∷ s) suffix =
    let rest = ends_with s suffix in if str_eq (c ∷ s) suffix then true else rest

-- The bytes before the first one that the test accepts, as `find` on one byte gives them.
unfoldable pub before : (ℕ → Bool) → Str → Str
before stop [] = []
before stop (c ∷ s) = let rest = before stop s in if stop c then [] else c ∷ rest

unfoldable pub strip_final_cr : Str → Str
strip_final_cr [] = []
strip_final_cr (c ∷ []) = if c == 13 then [] else c ∷ []
strip_final_cr (c ∷ d ∷ s) = c ∷ strip_final_cr (d ∷ s)

-- `lines().next()`: up to the first line feed, less a carriage return before it; none of a text that
-- is empty.
unfoldable pub first_line : Str → Option Str
unfolding before strip_final_cr
first_line [] = none
first_line (c ∷ s) =
    let line = before (λ d. d == 10) (c ∷ s) in
    some (if any (λ d. d == 10) (c ∷ s) then strip_final_cr line else line)

-- `rsplit_once(sep)`: the part after the last occurrence of the byte.
unfoldable pub after_last : ℕ → Str → Option Str
after_last sep [] = none
after_last sep (c ∷ s) = elim (after_last sep s) [
  | some rest ↦ some rest
  | none ↦ if c == sep then some s else none
]

-- `join`.
unfoldable pub join : Str → List Str → Str
join sep [] = []
join sep (s ∷ []) = s
join sep (s ∷ t ∷ ts) = s ++ (sep ++ join sep (t ∷ ts))
