-- ===== src/Xtask/SeamScan/Arguments.antt =====
-- The arguments of a call of `ProductFeatureKey::new`, as the scan takes them apart.
use development_kit.Prelude.{◌≡◌, refl, ap, ◌∙◌, Str, some, [], ◌∷◌, ◌++◌, All}
use development_kit.Text.{trim, trim_start, trim_end, is_whitespace}
use development_kit.Text.Search.{strip_prefix}
use development_kit.Text.Search.Cut.{Lacks, split_once_append}
use development_kit.Xtask.SeamScan.Source.{
  closed_literal, string_literal, balanced_arg_list, split_top_level_comma, call_args,
}
use development_kit.Xtask.SeamScan.Layout.{
  NsExpr, literal, constant, meta, ns_text, Layout, arguments, AllSpace, IsLayout, IsPlain,
}
use development_kit.Xtask.SeamScan.Splits.{name_arg, balanced-arguments, split_arguments}

pub plain-Lacks_quote : (s : Str) → All IsPlain s → Lacks b'"' s
plain-Lacks_quote [] h = tt
plain-Lacks_quote (c ∷ s) (h, hs) = (h.5, plain-Lacks_quote s hs)

pub trim_end_plain : (s : Str) → All IsPlain s → trim_end (s ++ (b'"' ∷ [])) ≡ s ++ (b'"' ∷ [])
unfolding trim_end is_whitespace
trim_end_plain [] h = refl
trim_end_plain (c ∷ s) (h, hs) = rw (h.6, trim_end) (ap (λ t. c ∷ t) (trim_end_plain s hs))

trim_start_space : (a s : Str) → AllSpace a → trim_start (a ++ s) ≡ trim_start s
unfolding trim_start
trim_start_space [] s h = refl
trim_start_space (c ∷ a) s (h, hs) = rw (h, trim_start) (trim_start_space a s hs)

trim_end_space : (a : Str) → AllSpace a → trim_end (a ++ []) ≡ []
unfolding trim_end
trim_end_space [] h = refl
trim_end_space (c ∷ a) (h, hs) = rw (trim_end_space a hs, trim_end) (rw h refl)

trim_end-append_space : (s a : Str) → AllSpace a → trim_end (s ++ (a ++ [])) ≡ trim_end s
unfolding trim_end
trim_end-append_space [] a h = trim_end_space a h
trim_end-append_space (c ∷ s) a h = rw (trim_end-append_space s a h, trim_end) refl

string_literal-name_arg :
    (lay : Layout) (name : Str)
    → IsLayout lay
    → All IsPlain name
    → string_literal (name_arg lay name) ≡ some name
unfolding string_literal closed_literal strip_prefix trim_start is_whitespace
string_literal-name_arg lay name l q =
    rw (trim_start_space lay.before_name _ l.spaced_name, string_literal)
      (rw (split_once_append b'"' name (lay.last ++ []) (plain-Lacks_quote name q), closed_literal)
        refl)

pub trim-ns_text :
    (form : NsExpr) (ns : Str) → All IsPlain ns → trim (ns_text form ns) ≡ ns_text form ns
unfolding trim trim_start trim_end is_whitespace
trim-ns_text constant ns p = refl
trim-ns_text meta ns p = refl
trim-ns_text literal ns p = rw (trim_end_plain ns p) refl

trim_start-ns_text :
    (form : NsExpr) (ns s : Str) → trim_start (ns_text form ns ++ s) ≡ ns_text form ns ++ s
unfolding trim_start is_whitespace
trim_start-ns_text constant ns s = refl
trim_start-ns_text meta ns s = refl
trim_start-ns_text literal ns s = refl

trim_end-ns_text :
    (form : NsExpr) (ns : Str) → All IsPlain ns → trim_end (ns_text form ns) ≡ ns_text form ns
unfolding trim_end is_whitespace
trim_end-ns_text constant ns p = refl
trim_end-ns_text meta ns p = refl
trim_end-ns_text literal ns p = rw (trim_end_plain ns p) refl

trim-ns_arg :
    (lay : Layout) (form : NsExpr) (ns : Str)
    → IsLayout lay
    → All IsPlain ns
    → trim (lay.before_ns ++ (ns_text form ns ++ (lay.after_ns ++ []))) ≡ ns_text form ns
unfolding trim
trim-ns_arg lay form ns l p =
    ap trim_end (
      trim_start_space lay.before_ns (ns_text form ns ++ (lay.after_ns ++ [])) l.spaced_ns
      ∙ trim_start-ns_text form ns (lay.after_ns ++ []))
    ∙ trim_end-append_space (ns_text form ns) lay.after_ns l.spaced_comma
    ∙ trim_end-ns_text form ns p

pub call_args_planted :
    (lay : Layout) (form : NsExpr) (ns name post : Str)
    → IsLayout lay
    → All IsPlain ns
    → All IsPlain name
    → call_args (arguments lay form ns name (b')' ∷ post)) ≡ some (ns_text form ns, name)
unfolding call_args balanced_arg_list split_top_level_comma
call_args_planted lay form ns name post l p q =
    rw (balanced-arguments lay form ns name post l p q, call_args)
      (rw (split_arguments lay form ns name l p)
        (rw (string_literal-name_arg lay name l q) (rw (trim-ns_arg lay form ns l p) refl)))
