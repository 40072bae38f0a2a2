-- ===== src/Prelude/Lists.antt =====
-- Lists measured by native numbers, and predicates on their elements.
use Prim.Native.Nat.{ℕ, suc, ◌+◌}
use mathlib.Core.Path.{◌≡◌, refl, sym, ap, ◌∙◌}
use mathlib.Core.Logic.{◌⊎◌, inl, inr}
use mathlib.Core.Bool.{Bool, true, false, ◌&&◌, ◌||◌}
use mathlib.Core.List.{List, [], ◌∷◌, ◌++◌}
use native.Mathlib.Omega.{arith}
use development_kit.Prelude.Tests.{Bool-cases, if◌then◌else◌}

module _ {ℓ} {A : Type ℓ} where
  abbrev pub length : List A → ℕ
  length [] = 0
  length (x ∷ xs) = suc (length xs)

  pub length-append : (xs ys : List A) → length (xs ++ ys) ≡ length xs + length ys
  length-append [] ys = omega arith
  length-append (x ∷ xs) ys = omega (arith, length-append xs ys)

  -- `Iterator::filter`, `any` and `all` with a Boolean test.
  abbrev pub select : (A → Bool) → List A → List A
  select p [] = []
  select p (x ∷ xs) = if p x then x ∷ select p xs else select p xs

  abbrev pub any : (A → Bool) → List A → Bool
  any p [] = false
  any p (x ∷ xs) = p x || any p xs

  abbrev pub all : (A → Bool) → List A → Bool
  all p [] = true
  all p (x ∷ xs) = p x && all p xs

  abbrev pub is_empty : List A → Bool
  is_empty [] = true
  is_empty (x ∷ xs) = false

module _ {ℓ κ} {A : Type ℓ} (P : A → Type κ) where
  abbrev pub All : List A → Type κ
  All [] = Unit
  All (x ∷ xs) = P x × All xs

-- `a` stands in the list, with the place where it does.
pub data Among {ℓ} {A : Type ℓ} (a : A) : List A → Type ℓ where
  first : {x : A} {xs : List A} → a ≡ x → Among a (x ∷ xs)
  later : {x : A} {xs : List A} → Among a xs → Among a (x ∷ xs)

module _ {ℓ} {A : Type ℓ} where
  pub Among-append_left : {a : A} (xs ys : List A) → Among a xs → Among a (xs ++ ys)
  Among-append_left [] ys m = elim m [ ]
  Among-append_left (x ∷ xs) ys (first e) = first e
  Among-append_left (x ∷ xs) ys (later m) = later (Among-append_left xs ys m)

  pub Among-append_right : {a : A} (xs ys : List A) → Among a ys → Among a (xs ++ ys)
  Among-append_right [] ys m = m
  Among-append_right (x ∷ xs) ys m = later (Among-append_right xs ys m)

  pub append-Among : {a : A} (xs ys : List A) → Among a (xs ++ ys) → Among a xs ⊎ Among a ys
  append-Among [] ys m = inr m
  append-Among (x ∷ xs) ys (first e) = inl (first e)
  append-Among (x ∷ xs) ys (later m) = elim (append-Among xs ys m) [
    | inl l ↦ inl (later l)
    | inr r ↦ inr r
  ]

  pub cons-Among : {a x : A} {xs : List A} → Among a (x ∷ xs) → (a ≡ x) ⊎ Among a xs
  cons-Among (first e) = inl e
  cons-Among (later m) = inr m

  -- The elements that a test selects are those of the list that pass it.
  pub Among-select :
      {a : A} (p : A → Bool) (xs : List A) → Among a xs → p a ≡ true → Among a (select p xs)
  Among-select p [] m h = elim m [ ]
  Among-select p (x ∷ xs) (first e) h = let t : p x ≡ true = sym (ap p e) ∙ h in rw t (first e)
  Among-select p (x ∷ xs) (later m) h = elim (Bool-cases (p x)) [
    | inl t ↦ rw t (later (Among-select p xs m h))
    | inr f ↦ rw f (Among-select p xs m h)
  ]

  pub select-Among :
      {a : A} (p : A → Bool) (xs : List A) → Among a (select p xs) → Among a xs × (p a ≡ true)
  select-Among p [] m = elim m [ ]
  select-Among p (x ∷ xs) m = elim (Bool-cases (p x)) [
    | inl t ↦ elim (cons-Among (rw t at m)) [
      | inl e ↦ (first e, ap p e ∙ t)
      | inr later_m ↦ (let (n, h) = select-Among p xs later_m in (later n, h))
    ]
    | inr f ↦ (let (n, h) = select-Among p xs (rw f at m) in (later n, h))
  ]

module _ {ℓ} {A : Type ℓ} where
  -- Some element passes a test exactly when the test of all of them by `any` succeeds.
  pub any_of : (p : A → Bool) {a : A} (xs : List A) → Among a xs → p a ≡ true → any p xs ≡ true
  any_of p [] m h = elim m [ ]
  any_of p (x ∷ xs) (first e) h = let t : p x ≡ true = sym (ap p e) ∙ h in ground arith
  any_of p (x ∷ xs) (later m) h = ground (arith, any_of p xs m h)

  pub Among-any :
      (p : A → Bool) (xs : List A) → any p xs ≡ true → (a : A) × Among a xs × (p a ≡ true)
  Among-any p [] h = cc
  Among-any p (x ∷ xs) h = elim (Bool-cases (p x)) [
    | inl t ↦ (x, first refl, t)
    | inr f ↦ (let (a, m, t) = Among-any p xs (rw f at h) in (a, later m, t))
  ]

module _ {ℓ κ μ} {A : Type ℓ} {P : A → Type κ} {Q : A → Type μ} where
  pub All-map : (xs : List A) → ((x : A) → P x → Q x) → All P xs → All Q xs
  All-map [] f a = tt
  All-map (x ∷ xs) f a = (f x a.0, All-map xs f a.1)

-- A fact about every element of a list holds of each list of its elements.
pub All-Among {ℓ κ} :
    {A : Type ℓ} {P : A → Type κ} (xs : List A) → ((x : A) → Among x xs → P x) → All P xs
All-Among [] f = tt
All-Among (x ∷ xs) f = (f x (first refl), All-Among xs (λ y m. f y (later m)))

-- The other way round.
pub All-at {ℓ κ} : {A : Type ℓ} (P : A → Type κ) {a : A} (xs : List A) → All P xs → Among a xs → P a
All-at P [] h m = elim m [ ]
All-at P (x ∷ xs) (h, hs) (first e) = rw e h
All-at P (x ∷ xs) (h, hs) (later m) = All-at P xs hs m
