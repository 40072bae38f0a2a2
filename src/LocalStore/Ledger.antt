-- ===== src/LocalStore/Ledger.antt =====
-- A list of migrations between two states of the connection: what the ledger gains, and the count.
use development_kit.Prelude.{
  ℕ, ◌+◌, ◌≤◌, Str, ◌≡◌, refl, ◌∙◌, ap, arith, List, [], ◌∷◌, ◌++◌, Bool, true, false, ◌||◌, any,
  length, length-append, All, str_eq, str_eq→eq,
}
use development_kit.LocalStore.{Migration, Connection, has_quote}

-- A migration of the list has this version.
abbrev pub has : Str → List Migration → Bool
has w ms = any (λ (m : Migration). str_eq m.version w) ms

has-append : (w : Str) (xs ys : List Migration) → has w (xs ++ ys) ≡ has w xs || has w ys
has-append w [] ys = refl
has-append w (x ∷ xs) ys = ground (arith, has-append w xs ys)

module _ (db : Connection) where
  open db use {Conn, execute_batch, exists, recorded, spares_ledger}

  -- Every statement spares the ledger, and no version has a quote.
  abbrev pub AllSafe : List Migration → Type 0
  AllSafe ms =
      All (λ (m : Migration). (spares_ledger m.sql ≡ true) × (has_quote m.version ≡ false)) ms

  abbrev pub AllRecorded : Conn → List Migration → Type 0
  AllRecorded conn ms = All (λ (m : Migration). recorded conn m.version ≡ true) ms

  -- From `e` with the count `a` to `f` with the count `n`: the ledger gains exactly the versions of
  -- the list, at most one is counted for each migration, and none when all were there.
  pub record IsMigrated (ms : List Migration) (e : Conn) (a : ℕ) (f : Conn) (n : ℕ) : Type 0 where
    pub ledger : (w : Str) → recorded f w ≡ recorded e w || has w ms
    pub bounded : n ≤ a + length ms
    pub settled : AllRecorded e ms → n ≡ a

  pub IsMigrated-nil : (e : Conn) (a : ℕ) → IsMigrated [] e a e a
  IsMigrated-nil e a = record {
    ledger = λ w. ground arith;
    bounded = omega arith;
    settled = λ h. refl;
  }

  same_version :
      (e : Conn) (v w : Str) → recorded e v ≡ true → str_eq v w ≡ true → recorded e w ≡ true
  same_version e v w h k = rw (← str_eq→eq v w k) h

  pub IsMigrated-skip :
      (m : Migration) (ms : List Migration) (e f : Conn) (a n : ℕ)
      → recorded e m.version ≡ true
      → IsMigrated ms e a f n
      → IsMigrated (m ∷ ms) e a f n
  IsMigrated-skip m ms e f a n h r = record {
    ledger = λ w. ground (arith, r.ledger w, same_version e m.version w h);
    bounded = omega (arith, r.bounded);
    settled = λ all. r.settled all.1;
  }

  pub IsMigrated-apply :
      (m : Migration) (ms : List Migration) (e e' f : Conn) (a n : ℕ)
      → recorded e m.version ≡ false
      → ((w : Str) → recorded e' w ≡ (str_eq m.version w || recorded e w))
      → IsMigrated ms e' (a + 1) f n
      → IsMigrated (m ∷ ms) e a f n
  IsMigrated-apply m ms e e' f a n h wrote r = record {
    ledger = λ w. ground (arith, r.ledger w, wrote w);
    bounded = omega (arith, r.bounded);
    settled = λ all. absurd (ground (arith, h, all.0));
  }

  carry :
      (e e' : Conn) (xs : List Migration)
      → ((w : Str) → recorded e' w ≡ recorded e w)
      → AllRecorded e xs
      → AllRecorded e' xs
  carry e e' [] same h = tt
  carry e e' (x ∷ xs) same h = (same x.version ∙ h.0, carry e e' xs same h.1)

  pub IsMigrated-ledger :
      (ms : List Migration) (e e' f : Conn) (a n : ℕ)
      → ((w : Str) → recorded e' w ≡ recorded e w)
      → IsMigrated ms e' a f n
      → IsMigrated ms e a f n
  IsMigrated-ledger ms e e' f a n same r = record {
    ledger = λ w. r.ledger w ∙ ap (λ b. b || has w ms) (same w);
    bounded = r.bounded;
    settled = λ all. r.settled (carry e e' ms same all);
  }

  All-append :
      (P : Migration → Type 0) (xs ys : List Migration) → All P (xs ++ ys) → All P xs × All P ys
  All-append P [] ys h = (tt, h)
  All-append P (x ∷ xs) ys h = let rest = All-append P xs ys h.1 in ((h.0, rest.0), rest.1)

  still_recorded :
      (ms xs : List Migration) (e f : Conn) (a n : ℕ)
      → IsMigrated ms e a f n
      → AllRecorded e xs
      → AllRecorded f xs
  still_recorded ms [] e f a n r h = tt
  still_recorded ms (x ∷ xs) e f a n r h =
      (r.ledger x.version ∙ rw h.0 refl, still_recorded ms xs e f a n r h.1)

  pub IsMigrated-append :
      (xs ys : List Migration) (e e' f : Conn) (n k : ℕ)
      → IsMigrated xs e 0 e' n
      → IsMigrated ys e' 0 f k
      → IsMigrated (xs ++ ys) e 0 f (n + k)
  IsMigrated-append xs ys e e' f n k r s = record {
    ledger = λ w. ground (arith, s.ledger w, r.ledger w, has-append w xs ys);
    bounded = omega (arith, r.bounded, s.bounded, length-append xs ys);
    settled = λ all.
        let both = All-append (λ m. recorded e m.version ≡ true) xs ys all in
        omega (arith, r.settled both.0, s.settled (still_recorded xs ys e e' 0 n r both.1));
  }
