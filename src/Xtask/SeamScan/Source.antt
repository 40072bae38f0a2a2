-- ===== src/Xtask/SeamScan/Source.antt =====
-- What the scan reads of one source text: the calls of `ProductFeatureKey::new` and the namespace.
use development_kit.Prelude.{
  ℕ, ◌+◌, ◌-◌, zero, Str, codes, Option, none, some, ◌&&◌, ◌||◌, ◌==◌, List, [], ◌∷◌, or_else, ok,
  err, str_eq, if◌then◌else◌,
}
use development_kit.Text.{split_once, trim, trim_start}
use development_kit.Text.Search.{strip_prefix, matches_after, find_after, contains}
use development_kit.Shared.ProductFeatureKey.{ProductFeatureKey, ProductFeatureKeyError}
use development_kit.Shared.ProductFeatureKey as Key

pub record ScannedKey : Type 0 where
  pub key : ProductFeatureKey
  pub source : Str

-- The text up to the next quote, where the literal is closed.
unfoldable pub closed_literal : Option Str → Option Str
unfolding split_once
closed_literal none = none
closed_literal (some rest) = elim (split_once b'"' rest) [ none ↦ none | some (lit, _) ↦ some lit ]

unfoldable pub string_literal : Str → Option Str
unfolding closed_literal strip_prefix trim_start
string_literal s = closed_literal (strip_prefix (codes "\"") (trim_start s))

unfoldable pub const_namespace : Str → Option Str
unfolding find_after split_once string_literal
const_namespace content = elim (find_after (codes "const NAMESPACE") content) [
  | none ↦ none
  | some after ↦ elim (split_once b'=' after) [
    | none ↦ none
    | some (_, value) ↦ string_literal value
  ]
]

unfoldable pub resolve_namespace : Str → Option Str → Option Str
unfolding trim string_literal contains
resolve_namespace ns_expr file_namespace =
    let expr = trim ns_expr in
    elim (string_literal expr) [
      | some lit ↦ some lit
      | none ↦
          if str_eq expr (codes "NAMESPACE") || contains expr (codes "namespace")
          then file_namespace
          else none
    ]

-- The depth after a character other than the closing one at depth 0.
abbrev pub paren_depth : ℕ → ℕ → ℕ
paren_depth depth c = if c == b'(' then depth + 1 else if c == b')' then depth - 1 else depth

abbrev pub put_first : ℕ → Option Str → Option Str
put_first c none = none
put_first c (some s) = some (c ∷ s)

-- The loop of `balanced_arg_list`, from a depth.
unfoldable pub balanced : ℕ → Str → Option Str
balanced depth [] = none
balanced depth (c ∷ s) =
    let rest = balanced (paren_depth depth c) s in
    if c == b')' && depth == 0 then some [] else put_first c rest

unfoldable pub balanced_arg_list : Str → Option Str
unfolding balanced
balanced_arg_list after = balanced 0 after

-- Brackets count here too, and the depth stops at 0.
abbrev pub bracket_depth : ℕ → ℕ → ℕ
bracket_depth depth c =
    if c == b'(' || c == b'['
    then depth + 1
    else if c == b')' || c == b']'
    then depth - 1
    else depth

abbrev pub put_before : ℕ → Option (Str × Str) → Option (Str × Str)
put_before c none = none
put_before c (some (a, b)) = some (c ∷ a, b)

-- The loop of `split_top_level_comma`, from a depth.
unfoldable pub split_comma : ℕ → Str → Option (Str × Str)
split_comma depth [] = none
split_comma depth (c ∷ s) =
    let rest = split_comma (bracket_depth depth c) s in
    if c == b',' && depth == 0 then some ([], s) else put_before c rest

unfoldable pub split_top_level_comma : Str → Option (Str × Str)
unfolding split_comma
split_top_level_comma args = split_comma 0 args

-- The arguments of one call, whose text after the opening parenthesis is given.
unfoldable pub call_args : Str → Option (Str × Str)
unfolding balanced_arg_list split_top_level_comma string_literal trim
call_args after = elim (balanced_arg_list after) [
  | none ↦ none
  | some args ↦ elim (split_top_level_comma args) [
    | none ↦ none
    | some (ns_expr, name_arg) ↦ elim (string_literal name_arg) [
      | none ↦ none
      | some name ↦ some (trim ns_expr, name)
    ]
  ]
]

abbrev pub call : Str
call = codes "ProductFeatureKey::new("

abbrev pub prepend {ℓ} : {A : Type ℓ} → Option A → List A → List A
prepend none xs = xs
prepend (some x) xs = x ∷ xs

unfoldable pub each_call : List Str → List (Str × Str)
unfolding call_args
each_call [] = []
each_call (after ∷ rest) = prepend (call_args after) (each_call rest)

unfoldable pub new_call_args : Str → List (Str × Str)
unfolding each_call matches_after
new_call_args content = each_call (matches_after call zero content)

-- The key of one call, if its namespace is resolved and `ProductFeatureKey::new` accepts both.
unfoldable pub key_of : Str → Option Str → Str × Str → Option ScannedKey
unfolding resolve_namespace Key.new
key_of source file_namespace (ns_expr, name) = elim (resolve_namespace ns_expr file_namespace) [
  | none ↦ none
  | some ns ↦ elim (Key.new ns name) [
    | err e ↦ none
    | ok key ↦ some (record { key = key; source = source })
  ]
]

unfoldable pub collect_keys : Str → Option Str → List (Str × Str) → List ScannedKey
unfolding key_of
collect_keys source file_namespace [] = []
collect_keys source file_namespace (args ∷ rest) =
    prepend (key_of source file_namespace args) (collect_keys source file_namespace rest)

unfoldable pub scan_text_with_namespace : Str → Str → Option Str → List ScannedKey
unfolding const_namespace new_call_args collect_keys
scan_text_with_namespace content source dir_namespace =
    collect_keys source (or_else (const_namespace content) dir_namespace) (new_call_args content)

unfoldable pub scan_text : Str → Str → List ScannedKey
unfolding scan_text_with_namespace
scan_text content source = scan_text_with_namespace content source none
