-- ===== src/Text/Search/Cut.antt =====
-- Where `split_once`, `first_line` and `ends_with` cut a text.
use development_kit.Prelude.{
  ℕ, ◌≡◌, refl, ap, arith, inl, inr, Str, Option, some, Option-cases, true, false, ◌==◌, Bool-cases,
  [], ◌∷◌, ◌++◌, All, str_eq, str_eq→eq, str_eq_refl,
}
use development_kit.Text.{split_once}
use development_kit.Text.Search.{ends_with}

-- The byte does not occur in the text.
abbrev pub Lacks : ℕ → Str → Type 0
Lacks sep = All (λ c. (c == sep) ≡ false)

pub split_once_append :
    (sep : ℕ) (a b : Str) → Lacks sep a → split_once sep (a ++ (sep ∷ b)) ≡ some (a, b)
unfolding split_once
split_once_append sep [] b h = ground arith
split_once_append sep (c ∷ a) b h = ground (arith, split_once_append sep a b)

pub split_once-eq-some :
    (sep : ℕ) (s a b : Str) → split_once sep s ≡ some (a, b) → (s ≡ a ++ (sep ∷ b)) × Lacks sep a
unfolding split_once
split_once-eq-some sep [] a b h = cc
split_once-eq-some sep (c ∷ s) a b h = elim (Bool-cases (c == sep)) [
  | inl t ↦
      (let e : ◌≡◌ {A = Option (Str × Str)} (some ([], s)) (some (a, b)) =
          rw (t, split_once) at h in
        let nil : [] ≡ a = cc in rw (← nil) (ground arith, tt))
  | inr f ↦ elim (Option-cases (split_once sep s)) [
    | inl e ↦ absurd (let h' = rw (e, split_once) at (rw (f, split_once) at h) in cc)
    | inr ((a', b'), e) ↦
        (let h' : ◌≡◌ {A = Option (Str × Str)} (some (c ∷ a', b')) (some (a, b)) =
            rw (e, split_once) at (rw (f, split_once) at h) in
          let (eq, l) = split_once-eq-some sep s a' b' e in
          let ha : c ∷ a' ≡ a = cc in
          let hb : b' ≡ b = cc in rw (← ha) (rw (← hb) (ap (λ t. c ∷ t) eq, (f, l))))
  ]
]

pub ends_with_append : (s suffix : Str) → ends_with (s ++ suffix) suffix ≡ true
unfolding ends_with str_eq
ends_with_append [] [] = refl
ends_with_append [] (c ∷ s) = rw (str_eq_refl (c ∷ s))
ends_with_append (c ∷ s) suffix = ground (arith, ends_with_append s suffix)

pub ends_with-eq-append :
    (s suffix : Str) → ends_with s suffix ≡ true → (front : Str) × (s ≡ front ++ suffix)
unfolding ends_with
ends_with-eq-append [] suffix h = ([], str_eq→eq [] suffix h)
ends_with-eq-append (c ∷ s) suffix h = elim (Bool-cases (str_eq (c ∷ s) suffix)) [
  | inl t ↦ ([], str_eq→eq (c ∷ s) suffix t)
  | inr f ↦
      (let (front, e) = ends_with-eq-append s suffix (rw f at h) in (c ∷ front, ap (λ t. c ∷ t) e))
]
