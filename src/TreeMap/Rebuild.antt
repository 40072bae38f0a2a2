-- ===== src/TreeMap/Rebuild.antt =====
-- Rebuilding a map from a list of its values, in any order and with repetitions.
use development_kit.Prelude.{
  [], ◌∷◌, List, some, ◌≡◌, sym, ◌∙◌, All, inl, inr, Option-cases, Among, first, later,
}
use development_kit.Prelude.Order.{Ord, eq_or_ne}
use development_kit.TreeMap.Defs.{TreeMap, empty, insert, get, from_values, IsSorted}
use development_kit.TreeMap.Lookup.{get-insert_self, get-insert_ne}
use development_kit.TreeMap.Sorted.{from_values-IsSorted, sorted_ext}

module _ {ℓ κ} {K : Type ℓ} {V : Type κ} ⦃o : Ord K⦄ (key : V → K) (m : TreeMap K V) where
  -- Each value stands in the map under its key.
  abbrev pub Stored : List V → Type κ
  Stored = All (λ v. get (key v) m ≡ some v)

  insert_stored :
      (k : K) (v : V) (acc : TreeMap K V)
      → get (key v) m ≡ some v
      → get k acc ≡ get k m
      → get k (insert (key v) v acc) ≡ get k m
  insert_stored k v acc p h = elim (eq_or_ne (key v) k) [
    | inl e ↦ rw (← e) (get-insert_self (key v) v acc ∙ sym p)
    | inr ne ↦ get-insert_ne (key v) k v acc ne ∙ h
  ]

  agrees :
      (k : K) (vs : List V) (acc : TreeMap K V)
      → Stored vs
      → get k acc ≡ get k m
      → get k (from_values key vs acc) ≡ get k m
  unfolding from_values
  agrees k [] acc s h = h
  agrees k (v ∷ vs) acc s h = agrees k vs (insert (key v) v acc) s.1 (insert_stored k v acc s.0 h)

  finds :
      (v : V) (vs : List V) (acc : TreeMap K V)
      → Stored vs
      → Among v vs
      → get (key v) (from_values key vs acc) ≡ get (key v) m
  unfolding from_values
  finds v [] acc s a = elim a [ ]
  finds v (w ∷ vs) acc s (first e) =
      agrees (key v) vs (insert (key w) w acc) s.1 (rw e (get-insert_self (key w) w acc ∙ sym s.0))
  finds v (w ∷ vs) acc s (later a) = finds v vs (insert (key w) w acc) s.1 a

  -- A list that holds exactly the values of an ordered map rebuilds that map.
  pub from_values-eq :
      (vs : List V)
      → IsSorted m
      → Stored vs
      → ((k : K) (v : V) → get k m ≡ some v → (key v ≡ k) × Among v vs)
      → from_values key vs empty ≡ m
  from_values-eq vs t s c = sorted_ext _ m (from_values-IsSorted key vs empty tt) t pointwise
    where
      pointwise : (k : K) → get k (from_values key vs empty) ≡ get k m
      pointwise k = elim (Option-cases (get k m)) [
        | inl e ↦ agrees k vs empty s (unfold get in sym e)
        | inr (v, e) ↦ rw (← (c k v e).0) (finds v vs empty s (c k v e).1)
      ]
