-- ===== src/Xtask/SeamScan/Planted.antt =====
-- A call of `ProductFeatureKey::new` that stands anywhere in a source text is found.
use development_kit.Prelude.{
  zero, ◌≡◌, refl, sym, ap, ◌∙◌, Str, Option, some, true, List, [], ◌∷◌, ◌++◌, All, Among, first,
  later, or_else, ok, str_eq, Option-cases, inl, inr,
}
use development_kit.Text.{trim, trim_start, trim_end, is_whitespace}
use development_kit.Text.Search.{matches_after, strip_prefix, contains, find_after}
use development_kit.Text.Search.Complete.{is_border_free, Among-matches_after}
use development_kit.Text.Search.Cut.{split_once_append}
use development_kit.Shared.ProductFeatureKey.{
  ProductFeatureKey, is_lowercase, is_segment_char, is_snake_case_segment,
}
use development_kit.Shared.ProductFeatureKey as Key
use development_kit.Shared.ProductFeatureKey.RoundTrip.{new-IsKey}
use development_kit.Xtask.SeamScan.Source.{
  ScannedKey, closed_literal, string_literal, const_namespace, resolve_namespace, call_args, call,
  each_call, new_call_args, key_of, collect_keys, scan_text_with_namespace,
}
use development_kit.Xtask.SeamScan.Layout.{
  NsExpr, Layout, IsLayout, arguments, literal, constant, meta, ns_text, planted, IsPlain,
  segment-IsPlain,
}
use development_kit.Xtask.SeamScan.Arguments.{plain-Lacks_quote, trim_end_plain, call_args_planted}

-- What a form of the namespace needs: a literal nothing, the others the text's namespace.
abbrev pub NamespaceIs : NsExpr → Str → Option Str → Type 0
NamespaceIs literal ns file_namespace = Unit {0}
NamespaceIs constant ns file_namespace = file_namespace ≡ some ns
NamespaceIs meta ns file_namespace = file_namespace ≡ some ns

resolve_planted :
    (form : NsExpr) (ns : Str) (file_namespace : Option Str)
    → All IsPlain ns
    → NamespaceIs form ns file_namespace
    → resolve_namespace (ns_text form ns) file_namespace ≡ some ns
unfolding resolve_namespace trim trim_start trim_end is_whitespace string_literal closed_literal
    strip_prefix str_eq contains find_after
resolve_planted constant ns f p h = h
resolve_planted meta ns f p h = h
resolve_planted literal ns f p h =
    rw (trim_end_plain ns p, resolve_namespace)
      (rw (split_once_append b'"' ns [] (plain-Lacks_quote ns p)) refl)

each_call-Among :
    (after : Str) (args : Str × Str) (matches : List Str)
    → Among after matches
    → call_args after ≡ some args
    → Among args (each_call matches)
unfolding each_call
each_call-Among after args [] m h = elim m [ ]
each_call-Among after args (a ∷ rest) (first e) h =
    rw (sym (ap call_args e) ∙ h, each_call) (first refl)
each_call-Among after args (a ∷ rest) (later m) h = elim (Option-cases (call_args a)) [
  | inl e ↦ rw (e, each_call) (each_call-Among after args rest m h)
  | inr (x, e) ↦ rw (e, each_call) (later (each_call-Among after args rest m h))
]

collect_keys-Among :
    (source : Str) (file_namespace : Option Str) (args : Str × Str) (hit : ScannedKey)
    (calls : List (Str × Str))
    → Among args calls
    → key_of source file_namespace args ≡ some hit
    → Among hit (collect_keys source file_namespace calls)
unfolding collect_keys
collect_keys-Among source f args hit [] m h = elim m [ ]
collect_keys-Among source f args hit (a ∷ rest) (first e) h =
    rw (sym (ap (key_of source f) e) ∙ h, collect_keys) (first refl)
collect_keys-Among source f args hit (a ∷ rest) (later m) h =
    elim (Option-cases (key_of source f a)) [
      | inl e ↦ rw (e, collect_keys) (collect_keys-Among source f args hit rest m h)
      | inr (x, e) ↦ rw (e, collect_keys) (later (collect_keys-Among source f args hit rest m h))
    ]

call_border_free : is_border_free call ≡ true
unfolding is_border_free
call_border_free = refl

-- A call of `ProductFeatureKey::new` with a namespace and a name that it accepts is found with the key
-- that the call returns, wherever in a source text it stands, if it is written so: the namespace as a
-- literal, or as `NAMESPACE` or `meta().namespace` where the text's namespace, or else its
-- directory's, is it; the name as a literal; any ASCII white space around the two arguments up to the
-- name; and no parenthesis between the name and the closing one, as after a trailing comma.
pub scan_text_with_namespace-planted :
    (lay : Layout) (form : NsExpr) (ns name : Str) (key : ProductFeatureKey) (pre post source : Str)
    (dir_namespace : Option Str)
    → IsLayout lay
    → Key.new ns name ≡ ok key
    → NamespaceIs form ns
        (or_else (const_namespace (pre ++ planted lay form ns name post)) dir_namespace)
    → Among
        (record { key = key; source = source })
        (scan_text_with_namespace (pre ++ planted lay form ns name post) source dir_namespace)
unfolding scan_text_with_namespace new_call_args key_of
scan_text_with_namespace-planted lay form ns name key pre post source dir_namespace l k h =
    let w = new-IsKey ns name key k in
    let p = segment-IsPlain ns w.ns_segment in
    let q = segment-IsPlain name w.nm_segment in
    let text = pre ++ planted lay form ns name post in
    let file_namespace = or_else (const_namespace text) dir_namespace in
    let after = arguments lay form ns name (b')' ∷ post) in
    let found : Among after (matches_after call zero text) =
      Among-matches_after call pre after call_border_free in
    collect_keys-Among source file_namespace (ns_text form ns, name)
      (record { key = key; source = source }) _
      (each_call-Among after (ns_text form ns, name) _ found
        (call_args_planted lay form ns name post l p q))
      (rw (resolve_planted form ns file_namespace p h, key_of) (rw k refl))
