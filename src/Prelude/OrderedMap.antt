-- ===== src/Prelude/OrderedMap.antt =====
-- A `BTreeMap` with number keys: an association list with its keys in ascending order.
use Prim.Native.Nat.{ℕ, suc, ◌≤◌, ◌<◌}
use mathlib.Core.Path.{◌≡◌, refl, ap}
use mathlib.Core.Bool.{Bool, true, false, ◌&&◌, not}
use mathlib.Core.Option.{Option, none, some}
use mathlib.Core.List.{List, [], ◌∷◌}
use native.Mathlib.Omega.{arith}
use rumble.Prelude.Tests.{ltb, leb, ◌==◌, if◌then◌else◌}
use rumble.Prelude.Lists.{length, retain, find}

module _ {ℓ} {V : Type ℓ} where
  abbrev pub insert : ℕ → V → List (ℕ × V) → List (ℕ × V)
  insert k v [] = (k, v) ∷ []
  insert k v (e ∷ m) =
      if ltb k e.0 then (k, v) ∷ e ∷ m else if e.0 == k then (k, v) ∷ m else e ∷ insert k v m

  abbrev pub remove : ℕ → List (ℕ × V) → List (ℕ × V)
  remove k = retain (λ e. not (e.0 == k))

  abbrev pub get : ℕ → List (ℕ × V) → Option (ℕ × V)
  get k = find (λ e. e.0 == k)

  -- `iter().next()`.
  abbrev pub first : List (ℕ × V) → Option (ℕ × V)
  first [] = none
  first (e ∷ m) = some e

  -- `range(k..)`.
  abbrev pub range_from : ℕ → List (ℕ × V) → List (ℕ × V)
  range_from k = retain (λ e. leb k e.0)

  -- The keys ascend, and none is below the bound.
  abbrev pub ascending : ℕ → List (ℕ × V) → Bool
  ascending k [] = true
  ascending k (e ∷ m) = leb k e.0 && ascending (suc e.0) m

module _ {ℓ} {V : Type ℓ} where
  pub ascending_mono :
      (j k : ℕ) (m : List (ℕ × V)) → j ≤ k → ascending k m ≡ true → ascending j m ≡ true
  ascending_mono j k [] h a = refl
  ascending_mono j k (e ∷ m) h a = ground arith

  pub ascending-insert :
      (k j : ℕ) (v : V) (m : List (ℕ × V))
      → k ≤ j
      → ascending k m ≡ true
      → ascending k (insert j v m) ≡ true
  ascending-insert k j v [] h a = ground arith
  ascending-insert k j v (e ∷ m) h a =
      ground (arith, ascending-insert (suc e.0) j v m, ascending_mono (suc j) (suc e.0) m)

  pub length-insert-le : (j : ℕ) (v : V) (m : List (ℕ × V)) → length (insert j v m) ≤ suc (length m)
  length-insert-le j v [] = omega arith
  length-insert-le j v (e ∷ m) = ground (arith, length-insert-le j v m)

  pub length-insert-pos : (j : ℕ) (v : V) (m : List (ℕ × V)) → 0 < length (insert j v m)
  length-insert-pos j v [] = omega arith
  length-insert-pos j v (e ∷ m) = ground arith

  pub range_from_all : (k : ℕ) (m : List (ℕ × V)) → ascending k m ≡ true → range_from k m ≡ m
  range_from_all k [] a = refl
  range_from_all k (e ∷ m) a =
      let here : leb k e.0 ≡ true = ground arith in
      let above : ascending k m ≡ true = ground (arith, ascending_mono k (suc e.0) m) in
      rw here (ap (λ t. e ∷ t) (range_from_all k m above))

  pub remove_absent : (k : ℕ) (m : List (ℕ × V)) → ascending (suc k) m ≡ true → remove k m ≡ m
  remove_absent k [] a = refl
  remove_absent k (e ∷ m) a =
      let other : (e.0 == k) ≡ false = ground arith in
      let above : ascending (suc k) m ≡ true = ground (arith, ascending_mono (suc k) (suc e.0) m) in
      rw other (ap (λ t. e ∷ t) (remove_absent k m above))

  pub get_absent : (k : ℕ) (m : List (ℕ × V)) → ascending (suc k) m ≡ true → get k m ≡ none
  get_absent k [] a = refl
  get_absent k (e ∷ m) a = ground (arith, get_absent k m, ascending_mono (suc k) (suc e.0) m)

  pub get-insert :
      (k j : ℕ) (v : V) (m : List (ℕ × V))
      → get j (insert k v m) ≡ (if k == j then some (k, v) else get j m)
  get-insert k j v [] = refl
  get-insert k j v (e ∷ m) = ground (arith, get-insert k j v m)

  -- What is below the first key is not there; the first is.
  pub get_ascending :
      (k : ℕ) (e : ℕ × V) (m : List (ℕ × V))
      → ascending k (e ∷ m) ≡ true
      → get k (e ∷ m) ≡ (if e.0 == k then some e else none)
  get_ascending k e m a = ground (arith, get_absent k m, ascending_mono (suc k) (suc e.0) m)
