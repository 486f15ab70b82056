-- ===== src/Sled.antt =====
-- The embedded database that crates/server/src/persistence.rs stores its records in. `sled` and
-- the `bincode` coding of its values are not code of this repository: they are a parameter, a
-- tree from keys to decoded values, with the documented behaviour of its calls. A read answers; a
-- write returns the new tree, or `none` for an I/O error, which leaves the tree as it was.
pub mod Memory
use rumble.Prelude.{
  ◌≡◌, Option, none, some, List, [], ◌∷◌, Bool, true, not, ◌&&◌, Eq, ◌=?◌, map, elem, if◌then◌else◌,
}
use rumble.Prelude.Equality.{get?}

-- No key stands in two entries.
abbrev pub once {ℓ κ} : {K : Type ℓ} {V : Type κ} ⦃e : Eq K⦄ → List (K × V) → Bool
once [] = true
once {K} {V} (x ∷ m) = not (elem x.0 (map (λ (y : K × V). y.0) m)) && once m

pub record Sled : Type 1 where
  pub Tree : Type 0 → Type 0 → Type 0
  pub get : {K V : Type 0} ⦃e : Eq K⦄ → Tree K V → K → Option V
  pub insert : {K V : Type 0} ⦃e : Eq K⦄ → Tree K V → K → V → Option (Tree K V)
  pub remove : {K V : Type 0} ⦃e : Eq K⦄ → Tree K V → K → Option (Tree K V)
  pub update_and_fetch :
      {K V : Type 0} ⦃e : Eq K⦄
      → Tree K V
      → K
      → (Option V → Option V)
      → Option (Tree K V × Option V)
  pub iter : {K V : Type 0} ⦃e : Eq K⦄ → Tree K V → List (K × V)
  pub get-insert :
      {K V : Type 0} ⦃e : Eq K⦄ (t : Tree K V) (k : K) (v : V) (j : K) {t' : Tree K V}
      → insert t k v ≡ some t'
      → get t' j ≡ (if k =? j then some v else get t j)
  pub get-remove :
      {K V : Type 0} ⦃e : Eq K⦄ (t : Tree K V) (k j : K) {t' : Tree K V}
      → remove t k ≡ some t'
      → get t' j ≡ (if k =? j then none else get t j)
  pub get-update_and_fetch :
      {K V : Type 0} ⦃e : Eq K⦄ (t : Tree K V) (k : K) (f : Option V → Option V) (j : K)
      {t' : Tree K V} {r : Option V}
      → update_and_fetch t k f ≡ some (t', r)
      → (r ≡ f (get t k)) × (get t' j ≡ (if k =? j then r else get t j))
  pub get?-iter : {K V : Type 0} ⦃e : Eq K⦄ (t : Tree K V) (k : K) → get? k (iter t) ≡ get t k
  pub iter_once : {K V : Type 0} ⦃e : Eq K⦄ (t : Tree K V) → once (iter t) ≡ true
