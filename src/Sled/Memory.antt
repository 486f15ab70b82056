-- ===== src/Sled/Memory.antt =====
-- A database of crates/server/src/persistence.rs that is kept in memory and whose writes always
-- succeed: it shows that what `Sled` asks can be met, and runs the examples.
use rumble.Prelude.{
  ◌≡◌, refl, true, not, ◌&&◌, Option, none, some, List, [], ◌∷◌, map, Eq, ◌=?◌, elem, if◌then◌else◌,
  arith,
}
use rumble.Prelude.Equality
use rumble.Prelude.Equality.{get?, get?-insert, get?-remove}
use rumble.Sled.{Sled, once}

module _ {K V : Type 0} ⦃e : Eq K⦄ where
  -- Each key with its newest value.
  abbrev pub newest : List (K × V) → List (K × V)
  newest [] = []
  newest ((k, v) ∷ m) = (k, v) ∷ Equality.remove k (newest m)

  abbrev pub store : List (K × V) → K → Option V → List (K × V)
  store t k none = Equality.remove k t
  store t k (some v) = Equality.insert k v t

  pub get?-newest : (t : List (K × V)) (k : K) → get? k (newest t) ≡ get? k t
  get?-newest [] k = refl
  get?-newest ((j, v) ∷ m) k = ground (arith, get?-remove j k (newest m), get?-newest m k)

  keys : List (K × V) → List K
  keys = map (λ (y : K × V). y.0)

  elem-remove :
      (k j : K) (m : List (K × V))
      → elem j (map (λ (y : K × V). y.0) (Equality.remove k m))
        ≡ (elem j (map (λ (y : K × V). y.0) m) && not (k =? j))
  elem-remove k j [] = refl
  elem-remove k j ((i, v) ∷ m) =
      ground (arith, e.same_iff i k, e.same_iff i j, e.same_iff k j, elem-remove k j m)

  once-remove : (k : K) (m : List (K × V)) → once m ≡ true → once (Equality.remove k m) ≡ true
  once-remove k [] h = refl
  once-remove k ((i, v) ∷ m) h = ground (arith, elem-remove k i m, once-remove k m)

  pub newest-once : (t : List (K × V)) → once (newest t) ≡ true
  newest-once [] = refl
  newest-once ((k, v) ∷ m) =
      ground (
        arith,
        elem-remove k k (newest m),
        e.same_iff k k,
        once-remove k (newest m) (newest-once m),
      )

  pub get?-store :
      (t : List (K × V)) (k : K) (r : Option V) (j : K)
      → get? j (store t k r) ≡ (if k =? j then r else get? j t)
  get?-store t k none j = get?-remove k j t
  get?-store t k (some v) j = get?-insert k j v t

  pub insert_law :
      (t : List (K × V)) (k : K) (v : V) (j : K) {t' : List (K × V)}
      → some (Equality.insert k v t) ≡ some t'
      → get? j t' ≡ (if k =? j then some v else get? j t)
  insert_law t k v j h = ground (arith, get?-insert k j v t)

  pub remove_law :
      (t : List (K × V)) (k j : K) {t' : List (K × V)}
      → some (Equality.remove k t) ≡ some t'
      → get? j t' ≡ (if k =? j then none else get? j t)
  remove_law t k j h = ground (arith, get?-remove k j t)

  pub update_law :
      (t : List (K × V)) (k : K) (f : Option V → Option V) (j : K) {t' : List (K × V)}
      {r : Option V}
      → ◌≡◌ {A = Option (List (K × V) × Option V)}
          (some (store t k (f (get? k t)), f (get? k t)))
          (some (t', r))
      → (r ≡ f (get? k t)) × (get? j t' ≡ (if k =? j then r else get? j t))
  update_law t k f j h = (ground arith, ground (arith, get?-store t k (f (get? k t)) j))

instance unfoldable pub memory : Sled
memory = record {
  Tree = λ K V. List (K × V);
  get = λ t k. get? k t;
  insert = λ t k v. some (Equality.insert k v t);
  remove = λ t k. some (Equality.remove k t);
  update_and_fetch = λ t k f. some (store t k (f (get? k t)), f (get? k t));
  iter = λ t. newest t;
  get-insert = λ t k v j h. insert_law t k v j h;
  get-remove = λ t k j h. remove_law t k j h;
  get-update_and_fetch = λ t k f j h. update_law t k f j h;
  get?-iter = λ t k. get?-newest t k;
  iter_once = λ t. newest-once t;
}
