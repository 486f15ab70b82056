-- ===== src/Prelude/Equality.antt =====
-- Keys with a Boolean equality (`PartialEq`), and a hash map of the standard library as an
-- association list: `insert` replaces, `remove` drops, and the order of entries is not relied on.
use Prim.Native.Nat.{ℕ}
use Prim.Native.String.{String}
use mathlib.Core.Path.{◌≡◌, refl}
use mathlib.Core.Logic.{◌≢◌, ◌↔◌}
use mathlib.Core.Bool.{Bool, true, false, ◌||◌, ◌&&◌}
use mathlib.Core.List.{List, [], ◌∷◌}
use mathlib.Core.Option.{Option, none, some}
use native.Mathlib.Omega.{arith}
use text.Mathlib.Text.{◌==◌ as str_eq}
use text.Mathlib.TextEquality.{eq_iff as str_eq_iff}
use rumble.Prelude.Tests.{◌==◌ as nat_eq, ==_iff, if◌then◌else◌}

pub record Eq {ℓ} (A : Type ℓ) : Type ℓ where
  pub same : A → A → Bool
  pub same_iff : (a b : A) → (same a b ≡ true) ↔ (a ≡ b)

infix 50 ◌=?◌
abbrev pub ◌=?◌ {ℓ} : {A : Type ℓ} ⦃e : Eq A⦄ → A → A → Bool
◌=?◌ ⦃e⦄ = e.same

instance abbrev pub nat_keys : Eq ℕ
nat_keys = record { same = nat_eq; same_iff = ==_iff }

instance abbrev pub text_keys : Eq String
text_keys = record { same = str_eq; same_iff = str_eq_iff }

module _ {ℓ} {A : Type ℓ} ⦃e : Eq A⦄ where
  pub =?_refl : (a : A) → (a =? a) ≡ true
  =?_refl a = (e.same_iff a a).1 refl

  pub =?_false : {a b : A} → a ≢ b → (a =? b) ≡ false
  =?_false {a} {b} n = ground (arith, e.same_iff a b)

  -- `slice::contains`.
  abbrev pub elem : A → List A → Bool
  elem a [] = false
  elem a (x ∷ xs) = x =? a || elem a xs

module _ {ℓ κ} {K : Type ℓ} {V : Type κ} ⦃e : Eq K⦄ where
  abbrev pub get? : K → List (K × V) → Option V
  get? k [] = none
  get? k ((j, v) ∷ m) = if j =? k then some v else get? k m

  abbrev pub remove : K → List (K × V) → List (K × V)
  remove k [] = []
  remove k ((j, v) ∷ m) = if j =? k then remove k m else (j, v) ∷ remove k m

  abbrev pub insert : K → V → List (K × V) → List (K × V)
  insert k v m = (k, v) ∷ remove k m

module _ {ℓ κ} {K : Type ℓ} {V : Type κ} ⦃e : Eq K⦄ where
  pub get?-remove :
      (k j : K) (m : List (K × V)) → get? j (remove k m) ≡ (if k =? j then none else get? j m)
  get?-remove k j [] = ground arith
  get?-remove k j ((i, v) ∷ m) =
      ground (arith, e.same_iff i k, e.same_iff i j, e.same_iff k j, get?-remove k j m)

  pub get?-insert :
      (k j : K) (v : V) (m : List (K × V))
      → get? j (insert k v m) ≡ (if k =? j then some v else get? j m)
  get?-insert k j v m = ground (arith, get?-remove k j m)

module _ {ℓ κ} {A : Type ℓ} {B : Type κ} ⦃a : Eq A⦄ ⦃b : Eq B⦄ where
  abbrev pub same_pair : A × B → A × B → Bool
  same_pair x y = a.same x.0 y.0 && b.same x.1 y.1

  pub same_pair_iff : (x y : A × B) → (same_pair x y ≡ true) ↔ (x ≡ y)
  same_pair_iff x y = ground (arith, a.same_iff x.0 y.0, b.same_iff x.1 y.1)

  instance abbrev pub pair_keys : Eq (A × B)
  pair_keys = record { same = same_pair; same_iff = same_pair_iff }
