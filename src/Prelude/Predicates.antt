-- ===== src/Prelude/Predicates.antt =====
-- Tests and predicates on whole lists, and tables with number keys.
use Prim.Native.Nat.{ℕ}
use mathlib.Core.Path.{◌≡◌, refl}
use mathlib.Core.Bool.{Bool, true, false, ◌&&◌, ◌||◌, not}
use mathlib.Core.Option.{none, some}
use mathlib.Core.List.{List, [], ◌∷◌, ◌++◌, map}
use native.Mathlib.Omega.{arith}
use rumble.Prelude.Tests.{◌==◌, if◌then◌else◌}
use rumble.Prelude.Lists.{retain, any, find}

module _ {ℓ κ} {A : Type ℓ} where
  abbrev pub All : (A → Type κ) → List A → Type κ
  All P [] = Unit
  All P (x ∷ xs) = P x × All P xs

module _ {ℓ} {A : Type ℓ} where
  abbrev pub every : (A → Bool) → List A → Bool
  every p [] = true
  every p (x ∷ xs) = p x && every p xs

  pub every-append :
      (p : A → Bool) (xs ys : List A) → every p (xs ++ ys) ≡ (every p xs && every p ys)
  every-append p [] ys = refl
  every-append p (x ∷ xs) ys = ground (arith, every-append p xs ys)

  pub every-retain :
      (p q : A → Bool) (xs : List A) → every p xs ≡ true → every p (retain q xs) ≡ true
  every-retain p q [] h = refl
  every-retain p q (x ∷ xs) h = ground (arith, every-retain p q xs)

  pub any-append : (p : A → Bool) (xs ys : List A) → any p (xs ++ ys) ≡ (any p xs || any p ys)
  any-append p [] ys = refl
  any-append p (x ∷ xs) ys = ground (arith, any-append p xs ys)

-- Whether a number is listed, and whether no number is listed twice.
abbrev pub mentions : ℕ → List ℕ → Bool
mentions a = any (λ x. x == a)

abbrev pub distinct : List ℕ → Bool
distinct [] = true
distinct (x ∷ xs) = not (mentions x xs) && distinct xs

pub distinct-snoc :
    (a : ℕ) (xs : List ℕ)
    → mentions a xs ≡ false
    → distinct xs ≡ true
    → distinct (xs ++ a ∷ []) ≡ true
distinct-snoc a [] m d = refl
distinct-snoc a (x ∷ xs) m d =
    ground (arith, distinct-snoc a xs, any-append (λ y. y == x) xs (a ∷ []))

module _ {ℓ} {V : Type ℓ} where
  abbrev pub keys : List (ℕ × V) → List ℕ
  keys = map (λ (m : ℕ × V). m.0)

  -- The table without the entries of a key.
  abbrev pub without : ℕ → List (ℕ × V) → List (ℕ × V)
  without k = retain (λ m. not (m.0 == k))

  pub keys-append : (xs ys : List (ℕ × V)) → keys (xs ++ ys) ≡ keys xs ++ keys ys
  keys-append [] ys = refl
  keys-append (x ∷ xs) ys = ground (arith, keys-append xs ys)

  pub mentions-without : (k : ℕ) (ms : List (ℕ × V)) → mentions k (keys (without k ms)) ≡ false
  mentions-without k [] = refl
  mentions-without k (m ∷ ms) = ground (arith, mentions-without k ms)

  mentions-without_other :
      (k j : ℕ) (ms : List (ℕ × V))
      → mentions j (keys ms) ≡ false
      → mentions j (keys (without k ms)) ≡ false
  mentions-without_other k j [] h = refl
  mentions-without_other k j (m ∷ ms) h = ground (arith, mentions-without_other k j ms)

  pub distinct-without :
      (k : ℕ) (ms : List (ℕ × V))
      → distinct (keys ms) ≡ true
      → distinct (keys (without k ms)) ≡ true
  distinct-without k [] h = refl
  distinct-without k (m ∷ ms) h =
      ground (arith, distinct-without k ms, mentions-without_other k m.0 ms)

  -- Replacing a key's entry keeps the keys distinct.
  pub distinct-replace :
      (k : ℕ) (v : V) (ms : List (ℕ × V))
      → distinct (keys ms) ≡ true
      → distinct (keys (without k ms ++ (k, v) ∷ [])) ≡ true
  distinct-replace k v ms h =
      rw (keys-append (without k ms) ((k, v) ∷ []))
        (distinct-snoc k (keys (without k ms)) (mentions-without k ms) (distinct-without k ms h))

  -- The entry found after a replacement.
  pub find-replace :
      (k j : ℕ) (v : V) (ms : List (ℕ × V))
      → find (λ m. m.0 == j) (without k ms ++ (k, v) ∷ [])
        ≡ (if k == j then some (k, v) else find (λ m. m.0 == j) ms)
  find-replace k j v [] = ground arith
  find-replace k j v (m ∷ ms) = ground (arith, find-replace k j v ms)

  pub find-without :
      (k j : ℕ) (ms : List (ℕ × V))
      → find (λ m. m.0 == j) (without k ms) ≡ (if k == j then none else find (λ m. m.0 == j) ms)
  find-without k j [] = ground arith
  find-without k j (m ∷ ms) = ground (arith, find-without k j ms)

module _ {ℓ} {A : Type ℓ} where
  pub every_mono :
      (p q : A → Bool) (xs : List A)
      → ((x : A) → p x ≡ true → q x ≡ true)
      → every p xs ≡ true
      → every q xs ≡ true
  every_mono p q [] f h = refl
  every_mono p q (x ∷ xs) f h = ground (arith, f x, every_mono p q xs f)
