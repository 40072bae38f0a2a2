-- ===== src/Xtask/SeamScan/Registered.antt =====
-- Which keys the derivation check reports.
use development_kit.Prelude.{
  ◌≡◌, refl, sym, ap, ◌↔◌, arith, inl, inr, Str, Option, true, false, not, ◌&&◌, Bool-cases, List,
  [], ◌∷◌, any, any_of, Among-any, All, All-at, All-Among, Among, first, later, cons-Among,
  is_empty, ok, str_eq→eq, str_eq_refl,
}
use development_kit.Shared.ProductFeatureKey.{ProductFeatureKey}
use development_kit.Xtask.Files.{Node}
use development_kit.Xtask.SeamScan.Source.{ScannedKey}
use development_kit.Xtask.SeamScan.{
  key_eq, report_unregistered, unregistered_gated_keys, scan_seam_dirs, evaluate_derivation,
}

pub key_eq→eq : (k l : ProductFeatureKey) → key_eq k l ≡ true → k ≡ l
unfolding key_eq
key_eq→eq k l h = ground (arith, str_eq→eq k.key l.key)

pub key_eq_refl : (k : ProductFeatureKey) → key_eq k k ≡ true
unfolding key_eq
key_eq_refl k = ground (arith, str_eq_refl k.key)

-- No key stands in the list twice.
abbrev pub Distinct : List ProductFeatureKey → Type 0
Distinct [] = Unit {0}
Distinct (k ∷ ks) = (¬ Among k ks) × Distinct ks

module _ (registry : List ProductFeatureKey) where
  -- A reported key was scanned, is not registered, and was not reported before.
  reported-Among :
      (k : ProductFeatureKey) (seen : List ProductFeatureKey) (scanned : List ScannedKey)
      → Among k (report_unregistered registry seen scanned)
      → ((hit : ScannedKey) × Among hit scanned × (hit.key ≡ k))
        × (any (key_eq k) registry ≡ false)
        × (any (key_eq k) seen ≡ false)
  unfolding report_unregistered
  reported-Among k seen [] m = elim m [ ]
  reported-Among k seen (hit ∷ scanned) m =
      elim (Bool-cases (not (any (key_eq hit.key) registry) && not (any (key_eq hit.key) seen))) [
        | inr f ↦
            (let ((h, a, e), r, s) = reported-Among k seen scanned (rw f at m) in
              ((h, later a, e), r, s))
        | inl t ↦ elim (cons-Among (rw t at m)) [
          | inl e ↦ ((hit, first refl, sym e), ground arith, ground arith)
          | inr m' ↦
              (let ((h, a, e), r, s) = reported-Among k (hit.key ∷ seen) scanned m' in
                ((h, later a, e), r, ground arith))
        ]
      ]

  -- A scanned key that is not registered is reported, unless it was before.
  Among-reported :
      (hit : ScannedKey) (seen : List ProductFeatureKey) (scanned : List ScannedKey)
      → Among hit scanned
      → any (key_eq hit.key) registry ≡ false
      → any (key_eq hit.key) seen ≡ false
      → Among hit.key (report_unregistered registry seen scanned)
  unfolding report_unregistered
  Among-reported hit seen [] m r s = elim m [ ]
  Among-reported hit seen (other ∷ scanned) (first e) r s =
      let t : (not (any (key_eq other.key) registry) && not (any (key_eq other.key) seen)) ≡ true =
        rw (← e) (ground arith) in
      rw t (first (ap (λ (h : ScannedKey). h.key) e))
  Among-reported hit seen (other ∷ scanned) (later m) r s =
      elim (Bool-cases
        (not (any (key_eq other.key) registry) && not (any (key_eq other.key) seen))) [
          | inr f ↦ rw f (Among-reported hit seen scanned m r s)
          | inl t ↦ rw t (elim (Bool-cases (key_eq hit.key other.key)) [
            | inl same ↦ first (key_eq→eq hit.key other.key same)
            | inr differ ↦ later (Among-reported hit (other.key ∷ seen) scanned m r (ground arith))
          ])
        ]

  reported-Distinct :
      (seen : List ProductFeatureKey) (scanned : List ScannedKey)
      → Distinct (report_unregistered registry seen scanned)
  unfolding report_unregistered
  reported-Distinct seen [] = tt
  reported-Distinct seen (hit ∷ scanned) =
      elim (Bool-cases (not (any (key_eq hit.key) registry) && not (any (key_eq hit.key) seen))) [
        | inr f ↦ rw f (reported-Distinct seen scanned)
        | inl t ↦ rw t (
          λ m. cc ((reported-Among hit.key (hit.key ∷ seen) scanned m).2, key_eq_refl hit.key),
          reported-Distinct (hit.key ∷ seen) scanned,
        )
      ]

any_key :
    (k : ProductFeatureKey) (ks : List ProductFeatureKey) → any (key_eq k) ks ≡ true → Among k ks
any_key k ks h = let (l, m, e) = Among-any (key_eq k) ks h in rw (key_eq→eq k l e) m

Among-any_key :
    (k : ProductFeatureKey) (ks : List ProductFeatureKey) → Among k ks → any (key_eq k) ks ≡ true
Among-any_key k ks m = any_of (key_eq k) ks m (key_eq_refl k)

absent :
    (k : ProductFeatureKey) (ks : List ProductFeatureKey) → ¬ Among k ks → any (key_eq k) ks ≡ false
absent k ks h = elim (Bool-cases (any (key_eq k) ks)) [
  | inl t ↦ absurd (h (any_key k ks t))
  | inr f ↦ f
]

-- A key is reported exactly when it was scanned somewhere and is not registered, and each reported
-- key is reported once.
pub unregistered_gated_keys_iff :
    (scanned : List ScannedKey) (registered : List ProductFeatureKey) (k : ProductFeatureKey)
    → (Among k (unregistered_gated_keys scanned registered)
        ↔ (((hit : ScannedKey) × Among hit scanned × (hit.key ≡ k)) × (¬ Among k registered)))
      × Distinct (unregistered_gated_keys scanned registered)
unfolding unregistered_gated_keys
unregistered_gated_keys_iff scanned registered k = (
  (
    λ m.
        let (found, r, _) = reported-Among registered k [] scanned m in
        (found, λ n. cc (r, Among-any_key k registered n)),
    λ ((hit, m, e), n). rw (← e) (
        Among-reported registered hit [] scanned m (absent hit.key registered (rw (sym e) at n))
          refl),
  ),
  reported-Distinct registered [] scanned,
)

nothing_missing :
    (scanned : List ScannedKey) (registered : List ProductFeatureKey)
    → is_empty (unregistered_gated_keys scanned registered) ≡ true
    → (hit : ScannedKey) → Among hit scanned
    → Among hit.key registered
nothing_missing scanned registered h hit m = elim (Bool-cases (any (key_eq hit.key) registered)) [
  | inl t ↦ any_key hit.key registered t
  | inr f ↦ absurd (
      not_empty (unregistered_gated_keys scanned registered) h (
        (unregistered_gated_keys_iff scanned registered hit.key).0.1
          ((hit, m, refl), λ n. cc (f, Among-any_key hit.key registered n))))
]
  where
    not_empty : (ks : List ProductFeatureKey) → is_empty ks ≡ true → ¬ Among hit.key ks
    not_empty [] e m = elim m [ ]
    not_empty (k ∷ ks) e m = cc

all_registered :
    (scanned : List ScannedKey) (registered : List ProductFeatureKey)
    → ((hit : ScannedKey) → Among hit scanned → Among hit.key registered)
    → is_empty (unregistered_gated_keys scanned registered) ≡ true
all_registered scanned registered h = empty_of (unregistered_gated_keys scanned registered) λ k m.
    let ((hit, a, e), n) = (unregistered_gated_keys_iff scanned registered k).0.0 m in
    n (rw e at (h hit a))
  where
    empty_of :
        (ks : List ProductFeatureKey)
        → ((k : ProductFeatureKey) → ¬ Among k ks)
        → is_empty ks ≡ true
    empty_of [] f = refl
    empty_of (k ∷ ks) f = absurd (f k (first refl))

-- The derivation check passes exactly when every key that the product sources build is registered.
pub evaluate_derivation_iff :
    (at : Str → Option Node) (root : Str) (registered : List ProductFeatureKey)
    → (evaluate_derivation at root registered ≡ ok tt)
      ↔ All (λ (hit : ScannedKey). Among hit.key registered) (scan_seam_dirs at root)
unfolding evaluate_derivation
evaluate_derivation_iff at root registered =
    elim (Bool-cases (is_empty (unregistered_gated_keys (scan_seam_dirs at root) registered))) [
      | inl t ↦ rw t (
        λ _.
            All-Among (scan_seam_dirs at root)
              (nothing_missing (scan_seam_dirs at root) registered t),
        λ _. refl,
      )
      | inr f ↦ rw f (
        λ h. cc,
        λ a. cc (
          all_registered (scan_seam_dirs at root) registered (λ hit m.
              All-at (λ (h : ScannedKey). Among h.key registered) (scan_seam_dirs at root) a m),
          f,
        ),
      )
    ]
