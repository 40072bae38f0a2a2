-- ===== src/TreeMap/Lookup.antt =====
-- What a lookup sees after a write. No lemma here needs the map to be in order, except that a
-- lookup stops at the first larger key.
use development_kit.Prelude.{Ordering, [], ◌∷◌, none, some, ◌≡◌, ◌≢◌, refl, arith}
use mathlib.Core.Option
use development_kit.Prelude.Order.{Ord}
use development_kit.TreeMap.Defs.{TreeMap, insert, get, modify, Above}

module _ {ℓ κ} {K : Type ℓ} {V : Type κ} ⦃o : Ord K⦄ where
  pub Above-trans : (k j : K) (m : TreeMap K V) → o.cmp k j ≡ Ordering.lt → Above j m → Above k m
  Above-trans k j [] h a = tt
  Above-trans k j ((i, w) ∷ m) h a = o.cmp_trans k j i h a

  -- One step of a lookup, by how the key compares with the first one.
  pub get_lt :
      (k j : K) (w : V) (m : TreeMap K V) → o.cmp k j ≡ Ordering.lt → get k ((j, w) ∷ m) ≡ none
  unfolding get
  get_lt k j w m h = ground (arith, h)

  pub get_self : (k : K) (w : V) (m : TreeMap K V) → get k ((k, w) ∷ m) ≡ some w
  unfolding get
  get_self k w m = ground (arith, o.cmp_refl k)

  pub get_gt :
      (k j : K) (w : V) (m : TreeMap K V) → o.cmp k j ≡ Ordering.gt → get k ((j, w) ∷ m) ≡ get k m
  unfolding get
  get_gt k j w m h = ground (arith, h)

  -- A lookup below every key finds nothing.
  pub get-Above : (k : K) (m : TreeMap K V) → Above k m → get k m ≡ none
  unfolding get
  get-Above k [] a = refl
  get-Above k ((j, w) ∷ m) a = ground (arith, a)

  pub get-insert_self : (k : K) (v : V) (m : TreeMap K V) → get k (insert k v m) ≡ some v
  unfolding get insert
  get-insert_self k v [] = ground (arith, o.cmp_refl k)
  get-insert_self k v ((j, w) ∷ m) = ground (arith, o.cmp_refl k, get-insert_self k v m)

  pub get-insert_ne : (k j : K) (v : V) (m : TreeMap K V) → k ≢ j → get j (insert k v m) ≡ get j m
  unfolding get insert
  get-insert_ne k j v [] h = ground (arith, o.cmp_eq j k)
  get-insert_ne k j v ((i, w) ∷ m) h =
      ground
        (arith, o.cmp_eq k i, o.cmp_eq j i, o.cmp_eq j k, o.cmp_trans j k i, get-insert_ne k j v m)

  pub get-modify_self :
      (k : K) (f : V → V) (m : TreeMap K V) → get k (modify k f m) ≡ Option.map f (get k m)
  unfolding get modify
  get-modify_self k f [] = refl
  get-modify_self k f ((j, w) ∷ m) = ground (arith, get-modify_self k f m)

  pub get-modify_ne :
      (k j : K) (f : V → V) (m : TreeMap K V) → k ≢ j → get j (modify k f m) ≡ get j m
  unfolding get modify
  get-modify_ne k j f [] h = refl
  get-modify_ne k j f ((i, w) ∷ m) h =
      ground (arith, o.cmp_eq k i, o.cmp_eq j i, get-modify_ne k j f m)
