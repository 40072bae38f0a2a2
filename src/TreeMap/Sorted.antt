-- ===== src/TreeMap/Sorted.antt =====
-- Every operation keeps the keys in strict order, and an ordered map is determined by its lookups.
use development_kit.Prelude.{
  Ordering, [], ◌∷◌, List, ◌≡◌, refl, sym, ap, arith, Ordering-cases, inl, inr, ◌∙◌,
}
use development_kit.Prelude.Order.{Ord}
use development_kit.TreeMap.Defs.{TreeMap, insert, get, modify, from_values, Above, IsSorted}
use development_kit.TreeMap.Lookup.{Above-trans, get-Above}

module _ {ℓ κ} {K : Type ℓ} {V : Type κ} ⦃o : Ord K⦄ where
  insert-Above :
      (i k : K) (v : V) (m : TreeMap K V)
      → o.cmp i k ≡ Ordering.lt
      → Above i m
      → Above i (insert k v m)
  unfolding insert
  insert-Above i k v [] h a = h
  insert-Above i k v ((j, w) ∷ m) h a = ground (arith, a)

  pub insert-IsSorted : (k : K) (v : V) (m : TreeMap K V) → IsSorted m → IsSorted (insert k v m)
  unfolding insert
  insert-IsSorted k v [] s = (tt, tt)
  insert-IsSorted k v ((j, w) ∷ m) s = elim (Ordering-cases (o.cmp k j)) [
    | inl (inl e) ↦ rw (e, insert) (e, s)
    | inl (inr e) ↦ rw (e, insert) s
    | inr e ↦ rw (e, insert) (insert-Above j k v m (o.cmp_gt k j e) s.0, insert-IsSorted k v m s.1)
  ]

  modify-Above : (i k : K) (f : V → V) (m : TreeMap K V) → Above i m → Above i (modify k f m)
  unfolding modify
  modify-Above i k f [] a = tt
  modify-Above i k f ((j, w) ∷ m) a = ground (arith, a)

  pub modify-IsSorted : (k : K) (f : V → V) (m : TreeMap K V) → IsSorted m → IsSorted (modify k f m)
  unfolding modify
  modify-IsSorted k f [] s = tt
  modify-IsSorted k f ((j, w) ∷ m) s = elim (Ordering-cases (o.cmp k j)) [
    | inl (inl e) ↦ rw (e, modify) s
    | inl (inr e) ↦ rw (e, modify) s
    | inr e ↦ rw (e, modify) (modify-Above j k f m s.0, modify-IsSorted k f m s.1)
  ]

  pub from_values-IsSorted :
      (key : V → K) (vs : List V) (m : TreeMap K V) → IsSorted m → IsSorted (from_values key vs m)
  unfolding from_values
  from_values-IsSorted key [] m s = s
  from_values-IsSorted key (v ∷ vs) m s =
      from_values-IsSorted key vs (insert (key v) v m) (insert-IsSorted (key v) v m s)

  heads-eq :
      (i j : K) (v w : V) (m n : TreeMap K V)
      → get i ((i, v) ∷ m) ≡ get i ((j, w) ∷ n)
      → get j ((i, v) ∷ m) ≡ get j ((j, w) ∷ n)
      → (i ≡ j) × (v ≡ w)
  unfolding get
  heads-eq i j v w m n h k = ground (arith, o.cmp_refl i, o.cmp_refl j, o.cmp_eq i j, o.cmp_gt i j)

  tails-eq :
      (i j k : K) (v w : V) (m n : TreeMap K V)
      → i ≡ j
      → Above i m
      → Above j n
      → get k ((i, v) ∷ m) ≡ get k ((j, w) ∷ n)
      → get k m ≡ get k n
  unfolding get
  tails-eq i j k v w m n p a b h = elim (Ordering-cases (o.cmp k i)) [
    | inl (inl e) ↦
        get-Above k m (Above-trans k i m e a)
        ∙ sym (get-Above k n (Above-trans k j n (sym (ap (o.cmp k) p) ∙ e) b))
    | inl (inr e) ↦ rw (o.cmp_eq k i e) (get-Above i m a ∙ sym (rw p (get-Above j n b)))
    | inr e ↦ ground (arith, h, ap (o.cmp k) p)
  ]

  -- Two ordered maps with the same lookups are the same map.
  pub sorted_ext :
      (m n : TreeMap K V) → IsSorted m → IsSorted n → ((k : K) → get k m ≡ get k n) → m ≡ n
  sorted_ext [] [] s t h = refl
  sorted_ext [] ((j, w) ∷ n) s t h = unfold get in ground (arith, h j, o.cmp_refl j)
  sorted_ext ((i, v) ∷ m) [] s t h = unfold get in ground (arith, h i, o.cmp_refl i)
  sorted_ext ((i, v) ∷ m) ((j, w) ∷ n) s t h =
      let (e, f) = heads-eq i j v w m n (h i) (h j) in
      cc (e, f, sorted_ext m n s.1 t.1 (λ k. tails-eq i j k v w m n e s.0 t.0 (h k)))
