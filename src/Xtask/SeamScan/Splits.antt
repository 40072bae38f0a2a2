-- ===== src/Xtask/SeamScan/Splits.antt =====
-- The scan's two splits of a call's arguments, at the closing parenthesis and at the comma.
use development_kit.Prelude.{ℕ, ◌≡◌, refl, arith, Str, some, true, false, ◌==◌, [], ◌∷◌, ◌++◌, All}
use mathlib.Core.List.{append_assoc}
use development_kit.Text.{is_whitespace}
use development_kit.Xtask.SeamScan.Source.{balanced, split_comma}
use development_kit.Xtask.SeamScan.Layout.{
  NsExpr, literal, constant, meta, ns_text, Layout, from_comma, arguments, AllSpace, NoParens,
  IsLayout, IsPlain,
}

plain-NoParens : (s : Str) → All IsPlain s → NoParens s
plain-NoParens [] h = tt
plain-NoParens (c ∷ s) (h, hs) = ((h.0, h.1), plain-NoParens s hs)

space-plain :
    (c : ℕ)
    → is_whitespace c ≡ true
    → ((c == b'(') ≡ false)
      × ((c == b')') ≡ false)
      × ((c == b'[') ≡ false)
      × ((c == b']') ≡ false)
      × ((c == b',') ≡ false)
unfolding is_whitespace
space-plain c h = ground arith

space-NoParens : (s : Str) → AllSpace s → NoParens s
space-NoParens [] h = tt
space-NoParens (c ∷ s) (h, hs) = let p = space-plain c h in ((p.0, p.1), space-NoParens s hs)

balanced_free :
    (a s r : Str) (d : ℕ) → NoParens a → balanced d s ≡ some r → balanced d (a ++ s) ≡ some (a ++ r)
unfolding balanced
balanced_free [] s r d h e = e
balanced_free (c ∷ a) s r d (h, hs) e =
    rw (h.1, h.0, balanced) (rw (balanced_free a s r d hs e) refl)

-- No bracket and no comma.
abbrev NoSplit : Str → Type 0
NoSplit = All (λ c.
    ((c == b'(') ≡ false)
    × ((c == b')') ≡ false)
    × ((c == b'[') ≡ false)
    × ((c == b']') ≡ false)
    × ((c == b',') ≡ false))

space-NoSplit : (s : Str) → AllSpace s → NoSplit s
space-NoSplit [] h = tt
space-NoSplit (c ∷ s) (h, hs) = (space-plain c h, space-NoSplit s hs)

plain-NoSplit : (s : Str) → All IsPlain s → NoSplit s
plain-NoSplit [] h = tt
plain-NoSplit (c ∷ s) (h, hs) = ((h.0, h.1, h.2, h.3, h.4), plain-NoSplit s hs)

split_comma_free :
    (a s x y : Str) (d : ℕ)
    → NoSplit a
    → split_comma d s ≡ some (x, y)
    → split_comma d (a ++ s) ≡ some (a ++ x, y)
unfolding split_comma
split_comma_free [] s x y d h e = e
split_comma_free (c ∷ a) s x y d (h, hs) e =
    rw (h.4, h.0, h.2, h.1, h.3, split_comma) (rw (split_comma_free a s x y d hs e) refl)

balanced-ns_text :
    (form : NsExpr) (ns s r : Str)
    → All IsPlain ns
    → balanced 0 s ≡ some r
    → balanced 0 (ns_text form ns ++ s) ≡ some (ns_text form ns ++ r)
unfolding balanced
balanced-ns_text constant ns s r p e = rw e refl
balanced-ns_text meta ns s r p e = rw e refl
balanced-ns_text literal ns s r p e =
    let q : balanced 0 (b'"' ∷ s) ≡ some (b'"' ∷ r) = rw e refl in
    rw (append_assoc ns (b'"' ∷ []) s, append_assoc ns (b'"' ∷ []) r)
      (rw (balanced_free ns (b'"' ∷ s) (b'"' ∷ r) 0 (plain-NoParens ns p) q) refl)

balanced-from_comma :
    (lay : Layout) (name post : Str)
    → IsLayout lay
    → All IsPlain name
    → balanced 0 (from_comma lay name (b')' ∷ post)) ≡ some (from_comma lay name [])
unfolding balanced
balanced-from_comma lay name post l q =
    let end : balanced 0 (lay.last ++ (b')' ∷ post)) ≡ some (lay.last ++ []) =
      balanced_free lay.last (b')' ∷ post) [] 0 l.closed refl in
    let quoted : balanced 0 (b'"' ∷ (lay.last ++ (b')' ∷ post))) ≡ some (b'"' ∷ (lay.last ++ [])) =
      rw end refl in
    let named =
      balanced_free name (b'"' ∷ (lay.last ++ (b')' ∷ post))) (b'"' ∷ (lay.last ++ [])) 0
        (plain-NoParens name q) quoted in
    let opened : balanced 0 (b'"' ∷ (name ++ (b'"' ∷ (lay.last ++ (b')' ∷ post)))))
        ≡ some (b'"' ∷ (name ++ (b'"' ∷ (lay.last ++ [])))) =
      rw named refl in
    rw (balanced_free lay.before_name _ _ 0 (space-NoParens lay.before_name l.spaced_name) opened)
      refl

pub balanced-arguments :
    (lay : Layout) (form : NsExpr) (ns name post : Str)
    → IsLayout lay
    → All IsPlain ns
    → All IsPlain name
    → balanced 0 (arguments lay form ns name (b')' ∷ post)) ≡ some (arguments lay form ns name [])
balanced-arguments lay form ns name post l p q =
    balanced_free lay.before_ns _ _ 0 (space-NoParens lay.before_ns l.spaced_ns) (
      balanced-ns_text form ns _ _ p (
        balanced_free lay.after_ns _ _ 0 (space-NoParens lay.after_ns l.spaced_comma)
          (balanced-from_comma lay name post l q)))

split-ns_text :
    (form : NsExpr) (ns s x y : Str)
    → All IsPlain ns
    → split_comma 0 s ≡ some (x, y)
    → split_comma 0 (ns_text form ns ++ s) ≡ some (ns_text form ns ++ x, y)
unfolding split_comma
split-ns_text constant ns s x y p e = rw e refl
split-ns_text meta ns s x y p e = rw e refl
split-ns_text literal ns s x y p e =
    let q : split_comma 0 (b'"' ∷ s) ≡ some (b'"' ∷ x, y) = rw e refl in
    rw (append_assoc ns (b'"' ∷ []) s, append_assoc ns (b'"' ∷ []) x)
      (rw (split_comma_free ns (b'"' ∷ s) (b'"' ∷ x) y 0 (plain-NoSplit ns p) q) refl)

-- The argument of the name.
abbrev pub name_arg : Layout → Str → Str
name_arg lay name = lay.before_name ++ (b'"' ∷ (name ++ (b'"' ∷ (lay.last ++ []))))

pub split_arguments :
    (lay : Layout) (form : NsExpr) (ns name : Str)
    → IsLayout lay
    → All IsPlain ns
    → split_comma 0 (arguments lay form ns name [])
      ≡ some (lay.before_ns ++ (ns_text form ns ++ (lay.after_ns ++ [])), name_arg lay name)
unfolding split_comma
split_arguments lay form ns name l p =
    split_comma_free lay.before_ns _ _ _ 0 (space-NoSplit lay.before_ns l.spaced_ns) (
      split-ns_text form ns _ _ _ p (
        split_comma_free lay.after_ns (from_comma lay name []) [] (name_arg lay name) 0
          (space-NoSplit lay.after_ns l.spaced_comma) refl))
