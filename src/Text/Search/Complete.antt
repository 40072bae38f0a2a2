-- ===== src/Text/Search/Complete.antt =====
-- `match_indices` finds every occurrence of a pattern that does not overlap itself, and no other.
use development_kit.Prelude.{
  ℕ, zero, suc, ◌-◌, ◌≤◌, ◌≡◌, refl, sym, ap, ◌∙◌, arith, inl, inr, Str, some, Option-cases, Bool,
  true, false, not, ◌&&◌, length, [], ◌∷◌, ◌++◌, is_some, Among, first, later, cons-Among, any_of,
  Among-any,
}
use development_kit.Text.Search.{strip_prefix, matches_after, any_match}

pub strip_prefix_append : (p s : Str) → strip_prefix p (p ++ s) ≡ some s
unfolding strip_prefix
strip_prefix_append [] s = refl
strip_prefix_append (c ∷ p) s = ground (arith, strip_prefix_append p s)

pub strip_prefix-eq-append : (p s rest : Str) → strip_prefix p s ≡ some rest → s ≡ p ++ rest
unfolding strip_prefix
strip_prefix-eq-append [] s rest h = cc
strip_prefix-eq-append (c ∷ p) [] rest h = cc
strip_prefix-eq-append (c ∷ p) (d ∷ s) rest h = ground (arith, strip_prefix-eq-append p s rest)

-- No proper suffix of the pattern, from `q` on, is one of its prefixes.
unfoldable pub is_free : Str → Str → Bool
unfolding strip_prefix
is_free p [] = true
is_free p (c ∷ q) = not (is_some (strip_prefix (c ∷ q) p)) && is_free p q

-- A pattern that no two occurrences of it overlap.
unfoldable pub is_border_free : Str → Bool
unfolding is_free
is_border_free [] = false
is_border_free (c ∷ p) = is_free (c ∷ p) p

-- A text that is at most as long as another and begins the same text begins the other.
strip_prefix-prefix :
    (q p rest post : Str)
    → length q ≤ length p
    → q ++ rest ≡ p ++ post
    → is_some (strip_prefix q p) ≡ true
unfolding strip_prefix
strip_prefix-prefix [] p rest post h e = refl
strip_prefix-prefix (c ∷ q) [] rest post h e = absurd (omega arith)
strip_prefix-prefix (c ∷ q) (d ∷ p) rest post h e =
    ground (arith, strip_prefix-prefix q p rest post)

no_overlap :
    (p q pre post rest : Str)
    → is_free p q ≡ true
    → length q ≤ length p
    → q ++ rest ≡ pre ++ (p ++ post)
    → length q ≤ length pre
unfolding is_free
no_overlap p [] pre post rest f h e = omega arith
no_overlap p (c ∷ q) [] post rest f h e =
    ground (arith, strip_prefix-prefix (c ∷ q) p rest post h e)
no_overlap p (c ∷ q) (d ∷ pre) post rest f h e = ground (arith, no_overlap p q pre post rest)

matches_after-Among :
    (c : ℕ) (p : Str) (skip : ℕ) (pre post : Str)
    → is_free (c ∷ p) p ≡ true
    → skip ≤ length pre
    → Among post (matches_after (c ∷ p) skip (pre ++ ((c ∷ p) ++ post)))
unfolding matches_after
matches_after-Among c p zero [] post f h =
    rw (strip_prefix_append (c ∷ p) post, matches_after) (first refl)
matches_after-Among c p (suc skip) [] post f h = absurd (omega arith)
matches_after-Among c p (suc skip) (d ∷ pre) post f h =
    matches_after-Among c p skip pre post f (omega arith)
matches_after-Among c p zero (d ∷ pre) post f h =
    elim (Option-cases (strip_prefix (c ∷ p) (d ∷ (pre ++ ((c ∷ p) ++ post))))) [
      | inl e ↦ rw (e, matches_after) (matches_after-Among c p zero pre post f (omega arith))
      | inr (rest, e) ↦
          (let tail : (pre ++ ((c ∷ p) ++ post)) ≡ p ++ rest =
              cc (strip_prefix-eq-append (c ∷ p) (d ∷ (pre ++ ((c ∷ p) ++ post))) rest e) in
            let skips : length (c ∷ p) - 1 ≤ length pre =
              omega (arith, no_overlap (c ∷ p) p pre post rest f (omega arith) (sym tail)) in
            rw (e, matches_after)
              (later (matches_after-Among c p (length (c ∷ p) - 1) pre post f skips)))
    ]

-- Every occurrence of a pattern that does not overlap itself is among the matches.
pub Among-matches_after :
    (p pre post : Str)
    → is_border_free p ≡ true
    → Among post (matches_after p zero (pre ++ (p ++ post)))
unfolding is_border_free
Among-matches_after [] pre post f = cc
Among-matches_after (c ∷ p) pre post f = matches_after-Among c p zero pre post f (omega arith)

-- Every match is an occurrence.
pub matches_after-occurs :
    (p : Str) (skip : ℕ) (s post : Str)
    → Among post (matches_after p skip s)
    → (pre : Str) × (s ≡ pre ++ (p ++ post))
unfolding matches_after
matches_after-occurs p skip [] post m = elim m [ ]
matches_after-occurs p (suc skip) (c ∷ s) post m =
    let (pre, e) = matches_after-occurs p skip s post m in (c ∷ pre, cc)
matches_after-occurs p zero (c ∷ s) post m = elim (Option-cases (strip_prefix p (c ∷ s))) [
  | inl e ↦
      (let (pre, e') = matches_after-occurs p zero s post (rw (e, matches_after) at m) in
        (c ∷ pre, cc))
  | inr (rest, e) ↦ elim (cons-Among (rw (e, matches_after) at m)) [
    | inl same ↦ ([], strip_prefix-eq-append p (c ∷ s) post (e ∙ ap some (sym same)))
    | inr m' ↦ (let (pre, e') = matches_after-occurs p (length p - 1) s post m' in (c ∷ pre, cc))
  ]
]

-- For a pattern that does not overlap itself, the test of a match succeeds exactly when some
-- occurrence passes it.
pub any_match_of :
    (p : Str) (test : Str → Bool) (pre post : Str)
    → is_border_free p ≡ true
    → test post ≡ true
    → any_match p test (pre ++ (p ++ post)) ≡ true
unfolding any_match
any_match_of p test pre post f t =
    any_of test (matches_after p zero (pre ++ (p ++ post))) (Among-matches_after p pre post f) t

pub any_match-occurs :
    (p : Str) (test : Str → Bool) (s : Str)
    → any_match p test s ≡ true
    → (pre post : Str) × (s ≡ pre ++ (p ++ post)) × (test post ≡ true)
unfolding any_match
any_match-occurs p test s h =
    let (post, m, t) = Among-any test (matches_after p zero s) h in
    let (pre, e) = matches_after-occurs p zero s post m in (pre, post, e, t)
