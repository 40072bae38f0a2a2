-- ===== src/Prelude/Order.antt =====
-- `Ord` as an interface: a three-way comparison with its laws. Instances: numbers, texts, and any
-- type with an injection into an ordered one (a derived `Ord` on an enum).
use development_kit.Prelude.Texts.{Str}
use Prim.Native.Nat.{ℕ, compare, Ordering}
use development_kit.Prelude.Tests.{Ordering-cases}
use mathlib.Core.Path.{◌≡◌, refl, ap}
use mathlib.Core.Logic.{◌≢◌, ◌⊎◌, inl, inr}
use mathlib.Core.List.{[], ◌∷◌}
use native.Mathlib.Omega.{arith}

pub record Ord {ℓ} (K : Type ℓ) : Type ℓ where
  pub cmp : K → K → Ordering
  pub cmp_refl : (a : K) → cmp a a ≡ Ordering.eq
  pub cmp_eq : (a b : K) → cmp a b ≡ Ordering.eq → a ≡ b
  pub cmp_gt : (a b : K) → cmp a b ≡ Ordering.gt → cmp b a ≡ Ordering.lt
  pub cmp_trans :
      (a b c : K) → cmp a b ≡ Ordering.lt → cmp b c ≡ Ordering.lt → cmp a c ≡ Ordering.lt

-- Keys that compare as equal are equal, and the others differ.
pub eq_or_ne {ℓ} : {K : Type ℓ} ⦃o : Ord K⦄ (a b : K) → (a ≡ b) ⊎ (a ≢ b)
eq_or_ne ⦃o⦄ a b = elim (Ordering-cases (o.cmp a b)) [
  | inl (inl e) ↦ inr (λ q. cc (ap (o.cmp a) q, o.cmp_refl a))
  | inl (inr e) ↦ inl (o.cmp_eq a b e)
  | inr e ↦ inr (λ q. cc (ap (o.cmp a) q, o.cmp_refl a))
]

pub compare_refl : (a : ℕ) → compare a a ≡ Ordering.eq
compare_refl a = ground arith

pub compare_eq : (a b : ℕ) → compare a b ≡ Ordering.eq → a ≡ b
compare_eq a b h = ground arith

pub compare_gt : (a b : ℕ) → compare a b ≡ Ordering.gt → compare b a ≡ Ordering.lt
compare_gt a b h = ground arith

pub compare_trans :
    (a b c : ℕ) → compare a b ≡ Ordering.lt → compare b c ≡ Ordering.lt → compare a c ≡ Ordering.lt
compare_trans a b c h k = ground arith

-- An enum is ordered by the position of its variants.
module _ {ℓ} {K : Type ℓ} (index : K → ℕ) (injective : (a b : K) → index a ≡ index b → a ≡ b) where
  pub by_index_eq : (a b : K) → compare (index a) (index b) ≡ Ordering.eq → a ≡ b
  by_index_eq a b h = injective a b (compare_eq (index a) (index b) h)

  abbrev pub by_index : Ord K
  by_index = record {
    cmp = λ a b. compare (index a) (index b);
    cmp_refl = λ a. compare_refl (index a);
    cmp_eq = by_index_eq;
    cmp_gt = λ a b. compare_gt (index a) (index b);
    cmp_trans = λ a b c. compare_trans (index a) (index b) (index c);
  }

unfoldable pub str_cmp : Str → Str → Ordering
str_cmp [] [] = Ordering.eq
str_cmp [] (d ∷ t) = Ordering.lt
str_cmp (c ∷ s) [] = Ordering.gt
str_cmp (c ∷ s) (d ∷ t) = elim (compare c d) [
  | Ordering.lt ↦ Ordering.lt
  | Ordering.eq ↦ str_cmp s t
  | Ordering.gt ↦ Ordering.gt
]

pub str_cmp_refl : (s : Str) → str_cmp s s ≡ Ordering.eq
unfolding str_cmp
str_cmp_refl [] = refl
str_cmp_refl (c ∷ s) = ground (arith, str_cmp_refl s)

pub str_cmp_eq : (s t : Str) → str_cmp s t ≡ Ordering.eq → s ≡ t
unfolding str_cmp
str_cmp_eq [] [] h = refl
str_cmp_eq [] (d ∷ t) h = cc
str_cmp_eq (c ∷ s) [] h = cc
str_cmp_eq (c ∷ s) (d ∷ t) h = ground (arith, str_cmp_eq s t)

pub str_cmp_gt : (s t : Str) → str_cmp s t ≡ Ordering.gt → str_cmp t s ≡ Ordering.lt
unfolding str_cmp
str_cmp_gt [] [] h = cc
str_cmp_gt [] (d ∷ t) h = cc
str_cmp_gt (c ∷ s) [] h = refl
str_cmp_gt (c ∷ s) (d ∷ t) h = ground (arith, str_cmp_gt s t)

pub str_cmp_trans :
    (s t u : Str)
    → str_cmp s t ≡ Ordering.lt
    → str_cmp t u ≡ Ordering.lt
    → str_cmp s u ≡ Ordering.lt
unfolding str_cmp
str_cmp_trans [] [] u h k = cc
str_cmp_trans [] (d ∷ t) [] h k = cc
str_cmp_trans [] (d ∷ t) (e ∷ u) h k = refl
str_cmp_trans (c ∷ s) [] u h k = cc
str_cmp_trans (c ∷ s) (d ∷ t) [] h k = cc
str_cmp_trans (c ∷ s) (d ∷ t) (e ∷ u) h k = ground (arith, str_cmp_trans s t u)

instance abbrev pub str_ord : Ord Str
str_ord = record {
  cmp = str_cmp;
  cmp_refl = str_cmp_refl;
  cmp_eq = str_cmp_eq;
  cmp_gt = str_cmp_gt;
  cmp_trans = str_cmp_trans;
}
