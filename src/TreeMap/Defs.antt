-- ===== src/TreeMap/Defs.antt =====
-- The map and its operations.
use development_kit.Prelude.{Ordering, List, [], ◌∷◌, Option, none, some, Bool, is_some, ◌≡◌}
use development_kit.Prelude.Order.{Ord}

abbrev pub TreeMap {ℓ κ} : Type ℓ → Type κ → Type (ℓ ⊔ κ)
TreeMap K V = List (K × V)

module _ {ℓ κ} {K : Type ℓ} {V : Type κ} where
  abbrev pub empty : TreeMap K V
  empty = []

  unfoldable pub values : TreeMap K V → List V
  values [] = []
  values ((k, v) ∷ m) = v ∷ values m

module _ {ℓ κ} {K : Type ℓ} {V : Type κ} ⦃o : Ord K⦄ where
  unfoldable pub insert : K → V → TreeMap K V → TreeMap K V
  insert k v [] = (k, v) ∷ []
  insert k v ((j, w) ∷ m) = elim (o.cmp k j) [
    | Ordering.lt ↦ (k, v) ∷ (j, w) ∷ m
    | Ordering.eq ↦ (j, v) ∷ m
    | Ordering.gt ↦ (j, w) ∷ insert k v m
  ]

  unfoldable pub get : K → TreeMap K V → Option V
  get k [] = none
  get k ((j, w) ∷ m) = elim (o.cmp k j) [
    | Ordering.lt ↦ none
    | Ordering.eq ↦ some w
    | Ordering.gt ↦ get k m
  ]

  unfoldable pub contains_key : K → TreeMap K V → Bool
  contains_key k m = is_some (get k m)

  -- `if let Some(v) = m.get_mut(k) { *v = f(v) }`.
  unfoldable pub modify : K → (V → V) → TreeMap K V → TreeMap K V
  modify k f [] = []
  modify k f ((j, w) ∷ m) = elim (o.cmp k j) [
    | Ordering.lt ↦ (j, w) ∷ m
    | Ordering.eq ↦ (j, f w) ∷ m
    | Ordering.gt ↦ (j, w) ∷ modify k f m
  ]

  -- A loop that inserts each value under its own key.
  unfoldable pub from_values : (V → K) → List V → TreeMap K V → TreeMap K V
  from_values key [] m = m
  from_values key (v ∷ vs) m = from_values key vs (insert (key v) v m)

  -- The keys ascend strictly: what every operation keeps.
  abbrev pub Above : K → TreeMap K V → Type 0
  Above k [] = Unit
  Above k ((j, w) ∷ m) = o.cmp k j ≡ Ordering.lt

  abbrev pub IsSorted : TreeMap K V → Type 0
  IsSorted [] = Unit
  IsSorted ((j, w) ∷ m) = Above j m × IsSorted m
