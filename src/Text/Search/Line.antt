-- ===== src/Text/Search/Line.antt =====
-- The first line of a text, whichever way it ends.
use development_kit.Prelude.{
  ℕ, ◌≡◌, refl, sym, ap, ◌∙◌, arith, ◌⊎◌, inl, inr, Str, some, true, false, ◌==◌, Bool-cases, [],
  ◌∷◌, ◌++◌, any, if◌then◌else◌,
}
use mathlib.Core.List.{append_assoc, append-nil}
use development_kit.Text.Search.{before, strip_final_cr, first_line}
use development_kit.Text.Search.Cut.{Lacks}

-- The end of a text, or of a line.
pub data AtLineEnd : Str → Type 0 where
  at_end : AtLineEnd []
  at_lf : {s : Str} → AtLineEnd (10 ∷ s)
  at_crlf : {s : Str} → AtLineEnd (13 ∷ 10 ∷ s)

pub Lacks-append : (a b : Str) → Lacks 10 a → Lacks 10 b → Lacks 10 (a ++ b)
Lacks-append [] b h k = k
Lacks-append (c ∷ a) b h k = (h.0, Lacks-append a b h.1 k)

pub Lacks-front : (a b : Str) → Lacks 10 (a ++ b) → Lacks 10 a
Lacks-front [] b h = tt
Lacks-front (c ∷ a) b h = (h.0, Lacks-front a b h.1)

-- The line that `first_line` returns, of any text.
abbrev pub line_of : Str → Str
line_of s =
    let line = before (λ d. d == 10) s in if any (λ d. d == 10) s then strip_final_cr line else line

before-Lacks :
    (a : Str) → Lacks 10 a → (before (λ d. d == 10) a ≡ a) × (any (λ d. d == 10) a ≡ false)
unfolding before
before-Lacks [] h = (refl, refl)
before-Lacks (c ∷ a) h = ground (arith, before-Lacks a)

before_append :
    (a s : Str)
    → Lacks 10 a
    → (before (λ d. d == 10) (a ++ (10 ∷ s)) ≡ a) × (any (λ d. d == 10) (a ++ (10 ∷ s)) ≡ true)
unfolding before
before_append [] s h = (refl, refl)
before_append (c ∷ a) s h = ground (arith, before_append a s)

strip_final_cr_append :
    (a : Str) (c : ℕ) (b : Str) → strip_final_cr (a ++ (c ∷ b)) ≡ a ++ strip_final_cr (c ∷ b)
unfolding strip_final_cr
strip_final_cr_append [] c b = refl
strip_final_cr_append (d ∷ []) c b = refl
strip_final_cr_append (d ∷ e ∷ a) c b = ap (λ t. d ∷ t) (strip_final_cr_append (e ∷ a) c b)

before_cut :
    (s : Str)
    → any (λ d. d == 10) s ≡ true
    → (rest : Str) × (s ≡ before (λ d. d == 10) s ++ (10 ∷ rest))
      × Lacks 10 (before (λ d. d == 10) s)
unfolding before
before_cut [] h = cc
before_cut (c ∷ s) h = elim (Bool-cases (c == 10)) [
  | inl t ↦ (s, ground arith, rw t tt)
  | inr f ↦ (let (rest, e, l) = before_cut s (rw f at h) in (rest, ground arith, rw f (f, l)))
]

any-Lacks : (s : Str) → any (λ d. d == 10) s ≡ false → Lacks 10 s
any-Lacks [] h = tt
any-Lacks (c ∷ s) h = ground (arith, any-Lacks s)

strip_final_cr_cases : (s : Str) → (strip_final_cr s ≡ s) ⊎ (s ≡ strip_final_cr s ++ (13 ∷ []))
unfolding strip_final_cr
strip_final_cr_cases [] = inl refl
strip_final_cr_cases (c ∷ []) = elim (Bool-cases (c == 13)) [
  | inl t ↦ inr (ground arith)
  | inr f ↦ inl (ground arith)
]
strip_final_cr_cases (c ∷ d ∷ s) = elim (strip_final_cr_cases (d ∷ s)) [
  | inl e ↦ inl (ap (λ t. c ∷ t) e)
  | inr e ↦ inr (ap (λ t. c ∷ t) e)
]

pub first_line_lem : (c : ℕ) (s : Str) → first_line (c ∷ s) ≡ some (line_of (c ∷ s))
unfolding first_line before strip_final_cr
first_line_lem c s = refl

-- A line that does not end in a carriage return is read back, whatever ends it.
pub line_of_append :
    (a : Str) (c : ℕ) (b eol : Str)
    → Lacks 10 (a ++ (c ∷ b))
    → strip_final_cr (c ∷ b) ≡ c ∷ b
    → AtLineEnd eol
    → line_of ((a ++ (c ∷ b)) ++ eol) ≡ a ++ (c ∷ b)
unfolding strip_final_cr
line_of_append a c b _ l e at_end =
    rw append-nil (let (p, q) = before-Lacks (a ++ (c ∷ b)) l in rw q p)
line_of_append a c b _ l e (at_lf {s}) =
    let (p, q) = before_append (a ++ (c ∷ b)) s l in
    let r : strip_final_cr (a ++ (c ∷ b)) ≡ a ++ (c ∷ b) =
      strip_final_cr_append a c b ∙ ap (λ t. a ++ t) e in
    rw q (rw p r)
line_of_append a c b _ l e (at_crlf {s}) =
    let l' : Lacks 10 ((a ++ (c ∷ b)) ++ (13 ∷ [])) =
      Lacks-append (a ++ (c ∷ b)) (13 ∷ []) l (refl, tt) in
    let (p, q) = before_append ((a ++ (c ∷ b)) ++ (13 ∷ [])) s l' in
    let same : (a ++ (c ∷ b)) ++ (13 ∷ 10 ∷ s) ≡ ((a ++ (c ∷ b)) ++ (13 ∷ [])) ++ (10 ∷ s) =
      simp append_assoc in
    let r : strip_final_cr ((a ++ (c ∷ b)) ++ (13 ∷ [])) ≡ (a ++ (c ∷ b)) =
      strip_final_cr_append (a ++ (c ∷ b)) 13 [] ∙ append-nil _ in
    rw same (rw q (rw p r))

-- What `line_of` returns stands at the start of the text and holds no line feed; what follows it is
-- the end of the text or of the line.
pub line_of_cut :
    (s : Str) → (eol : Str) × (s ≡ line_of s ++ eol) × Lacks 10 (line_of s) × AtLineEnd eol
line_of_cut s = elim (Bool-cases (any (λ d. d == 10) s)) [
  | inr f ↦
      (let (p, q) = before-Lacks s (any-Lacks s f) in
        rw f (rw p ([], sym (append-nil s), any-Lacks s f, at_end)))
  | inl t ↦
      (let (rest, e, l) = before_cut s t in
        rw t (elim (strip_final_cr_cases (before (λ d. d == 10) s)) [
          | inl same ↦ rw same (10 ∷ rest, e, l, at_lf)
          | inr cr ↦ (
            13 ∷ 10 ∷ rest,
            e
                ∙ ap (λ u. u ++ (10 ∷ rest)) cr
                ∙ append_assoc (strip_final_cr (before (λ d. d == 10) s)) (13 ∷ []) (10 ∷ rest),
            Lacks-front (strip_final_cr (before (λ d. d == 10) s)) (13 ∷ []) (rw cr at l),
            at_crlf,
          )
        ]))
]
