-- ===== src/TreeMap/Values.antt =====
-- `values` against `get`: the same values, in ascending key order.
use mathlib.Core.Path.{subst}
use development_kit.Prelude.{
  Ordering, [], ◌∷◌, List, some, ◌≡◌, sym, ◌∙◌, arith, Ordering-cases, inl, inr, ap, All, Among,
  first, later, cons-Among, select, Bool,
}
use development_kit.Prelude.Order.{Ord}
use development_kit.TreeMap.Defs.{TreeMap, get, values, Above, IsSorted}
use development_kit.TreeMap.Lookup.{Above-trans, get-Above, get_lt, get_self, get_gt}

module _ {ℓ κ} {K : Type ℓ} {V : Type κ} ⦃o : Ord K⦄ where
  -- What the tail of an ordered map holds, the whole map holds.
  get_tail :
      (j k : K) (w v : V) (m : TreeMap K V)
      → Above j m
      → get k m ≡ some v
      → get k ((j, w) ∷ m) ≡ some v
  get_tail j k w v m a h = elim (Ordering-cases (o.cmp k j)) [
    | inl (inl e) ↦ absurd (cc (get-Above k m (Above-trans k j m e a), h))
    | inl (inr e) ↦ absurd (cc (ap (λ i. get i m) (o.cmp_eq k j e), get-Above j m a, h))
    | inr e ↦ get_gt k j w m e ∙ h
  ]

  pub get-Among : (k : K) (v : V) (m : TreeMap K V) → get k m ≡ some v → Among v (values m)
  unfolding values
  get-Among k v [] h = absurd (unfold get in cc h)
  get-Among k v ((j, w) ∷ m) h = elim (Ordering-cases (o.cmp k j)) [
    | inl (inl e) ↦ absurd (cc (get_lt k j w m e, h))
    | inl (inr e) ↦ first (cc (get_self j w m, ap (λ i. get i ((j, w) ∷ m)) (o.cmp_eq k j e), h))
    | inr e ↦ later (get-Among k v m (sym (get_gt k j w m e) ∙ h))
  ]

  pub Among-get :
      (v : V) (m : TreeMap K V) → IsSorted m → Among v (values m) → (k : K) × (get k m ≡ some v)
  unfolding values
  Among-get v [] s a = elim a [ ]
  Among-get v ((j, w) ∷ m) s a = elim (cons-Among a) [
    | inl e ↦ (j, get_self j w m ∙ ap some (sym e))
    | inr b ↦ (let (k, h) = Among-get v m s.1 b in (k, get_tail j k w v m s.0 h))
  ]

module _ {ℓ κ} {K : Type ℓ} {V : Type κ} ⦃o : Ord K⦄ (key : V → K) where
  -- Each value stands under its own key.
  abbrev pub Keyed : TreeMap K V → Type (ℓ ⊔ κ)
  Keyed m = (k : K) (v : V) → get k m ≡ some v → key v ≡ k

  -- The keys of a list of values ascend strictly.
  abbrev pub Ascends : List V → Type 0
  Ascends [] = Unit
  Ascends (v ∷ vs) = All (λ w. o.cmp (key v) (key w) ≡ Ordering.lt) vs × Ascends vs

  Keyed-tail : (j : K) (w : V) (m : TreeMap K V) → Above j m → Keyed ((j, w) ∷ m) → Keyed m
  Keyed-tail j w m a h k v e = h k v (get_tail j k w v m a e)

  values-Above :
      (k : K) (m : TreeMap K V)
      → Above k m
      → IsSorted m
      → Keyed m
      → All (λ w. o.cmp k (key w) ≡ Ordering.lt) (values m)
  unfolding values
  values-Above k [] a s h = tt
  values-Above k ((j, w) ∷ m) a s h = (
    ap (o.cmp k) (h j w (get_self j w m)) ∙ a,
    values-Above k m (Above-trans k j m a s.0) s.1 (Keyed-tail j w m s.0 h),
  )

  pub values-Ascends : (m : TreeMap K V) → IsSorted m → Keyed m → Ascends (values m)
  unfolding values
  values-Ascends [] s h = tt
  values-Ascends ((j, w) ∷ m) s h = (
    values-Above (key w) m (subst (λ i. Above i m) (sym (h j w (get_self j w m))) s.0) s.1
        (Keyed-tail j w m s.0 h),
    values-Ascends m s.1 (Keyed-tail j w m s.0 h),
  )

  select-above :
      (k : K) (p : V → Bool) (vs : List V)
      → All (λ w. o.cmp k (key w) ≡ Ordering.lt) vs
      → All (λ w. o.cmp k (key w) ≡ Ordering.lt) (select p vs)
  select-above k p [] a = tt
  select-above k p (v ∷ vs) a = ground (arith, select-above k p vs a.1)

  pub select-Ascends : (p : V → Bool) (vs : List V) → Ascends vs → Ascends (select p vs)
  select-Ascends p [] a = tt
  select-Ascends p (v ∷ vs) a =
      ground (arith, select-above (key v) p vs a.0, select-Ascends p vs a.1)
