-- ===== src/Ops/Tree.antt =====
-- The room tree of crates/server/src/state.rs as a tree: every room climbs to Root by its parents.
-- What a change of one room's parent, the removal of a room and a new room do to a climb.
use rumble.Prelude.{
  ℕ, ◌≤◌, ◌<◌, ◌≡◌, refl, ap, subst, Bool, true, false, not, ◌&&◌, none, some, List, [], ◌∷◌, ◌==◌,
  find, length, retain, arith, ==_iff, Bool-cases, inl, inr,
}
use rumble.Prelude.Predicates.{mentions, distinct, every}
use rumble.Rooms.{Room, root_room_uuid}
use rumble.Rooms.Invariant.{ids}

-- The rooms from `x` up to Root, Root left out.
pub data Climb (rooms : List Room) : ℕ → List ℕ → Type 0 where
  at_root : {x : ℕ} → (x == root_room_uuid) ≡ true → Climb rooms x []
  below :
      {x : ℕ} {r : Room} {xs : List ℕ}
      → (x == root_room_uuid) ≡ false
      → find (λ y. y.id == x) rooms ≡ some r
      → Climb rooms r.parent xs
      → Climb rooms x (x ∷ xs)

-- Root parents itself.
abbrev pub root_self_parents : List Room → Bool
root_self_parents rooms = elim (find (λ r. r.id == root_room_uuid) rooms) [
  | none ↦ true
  | some r ↦ r.parent == root_room_uuid
]

-- Every room that is listed climbs to Root, where every climb ends: no parent is missing and no
-- parents form a cycle.
pub record IsTree (rooms : List Room) : Type 0 where
  pub top : root_self_parents rooms ≡ true
  pub climbs : (x : ℕ) → mentions x (ids rooms) ≡ true → (xs : List ℕ) × Climb rooms x xs

pub mentions-find :
    (x : ℕ) (rooms : List Room) {r : Room}
    → find (λ y. y.id == x) rooms ≡ some r
    → mentions x (ids rooms) ≡ true
mentions-find x [] h = absurd (ground arith)
mentions-find x (y ∷ rooms) {r = r} h = ground (arith, mentions-find x rooms {r = r})

pub find_listed :
    (x : ℕ) (rooms : List Room)
    → mentions x (ids rooms) ≡ true
    → (r : Room) × (find (λ y. y.id == x) rooms ≡ some r)
find_listed x [] h = absurd (ground arith)
find_listed x (y ∷ rooms) h = elim (Bool-cases (y.id == x)) [
  | inl here ↦ (y, ground arith)
  | inr later ↦ let (r, e) = find_listed x rooms (ground arith) in (r, ground arith)
]

module _ (rooms : List Room) where
  pub Climb-unique : {x : ℕ} {xs ys : List ℕ} → Climb rooms x xs → Climb rooms x ys → xs ≡ ys
  Climb-unique (at_root e) (at_root e') = refl
  Climb-unique (at_root e) (below n f c) = absurd (ground arith)
  Climb-unique (below n f c) (at_root e) = absurd (ground arith)
  Climb-unique {x = x} (below {r = r} n f c) (below {r = s} {xs = ys} n' f' c') =
      let same : s ≡ r = ground arith in
      ap (λ t. x ∷ t) (Climb-unique c (subst (λ (t : Room). Climb rooms t.parent ys) same c'))

  -- The climb from a room on the way is no longer than the whole.
  Climb-suffix :
      {x : ℕ} {xs : List ℕ} (y : ℕ)
      → Climb rooms x xs
      → mentions y xs ≡ true
      → (ys : List ℕ) × (zs : Climb rooms y ys) × (length ys ≤ length xs)
  Climb-suffix y (at_root e) h = absurd (ground arith)
  Climb-suffix y (below {x = x} {r = r} {xs = xs} n f c) h = elim (Bool-cases (x == y)) [
    | inl here ↦
        let e = (==_iff x y).0 here in
        (x ∷ xs, subst (λ t. Climb rooms t (x ∷ xs)) e (below n f c), omega arith)
    | inr above ↦ let (ys, d, short) = Climb-suffix y c (ground arith) in (ys, d, ground arith)
  ]

  -- No room is met twice.
  pub Climb-distinct : {x : ℕ} {xs : List ℕ} → Climb rooms x xs → distinct xs ≡ true
  Climb-distinct (at_root e) = refl
  Climb-distinct (below {x = x} {xs = xs} n f c) = elim (Bool-cases (mentions x xs)) [
    | inl again ↦
        let (ys, d, short) = Climb-suffix x c again in
        let e = Climb-unique d (below n f c) in absurd (ground arith)
    | inr once ↦ ground (arith, Climb-distinct c)
  ]

  Climb-every :
      {x : ℕ} {xs : List ℕ} → Climb rooms x xs → every (λ y. mentions y (ids rooms)) xs ≡ true
  Climb-every (at_root e) = refl
  Climb-every (below {x = x} n f c) = ground (arith, mentions-find x rooms f, Climb-every c)

length-drop_id : (x : ℕ) (ys : List ℕ) → length (retain (λ y. not (y == x)) ys) ≤ length ys
length-drop_id x [] = omega arith
length-drop_id x (y ∷ ys) = ground (arith, length-drop_id x ys)

length-drop_listed :
    (x : ℕ) (ys : List ℕ)
    → mentions x ys ≡ true
    → length (retain (λ y. not (y == x)) ys) < length ys
length-drop_listed x [] h = absurd (ground arith)
length-drop_listed x (y ∷ ys) h = ground (arith, length-drop_id x ys, length-drop_listed x ys)

mentions-drop_id :
    (x z : ℕ) (ys : List ℕ)
    → mentions z (retain (λ y. not (y == x)) ys) ≡ (mentions z ys && not (z == x))
mentions-drop_id x z [] = refl
mentions-drop_id x z (y ∷ ys) = ground (arith, mentions-drop_id x z ys)

every-drop_id :
    (x : ℕ) (xs ys : List ℕ)
    → mentions x xs ≡ false
    → every (λ y. mentions y ys) xs ≡ true
    → every (λ y. mentions y (retain (λ z. not (z == x)) ys)) xs ≡ true
every-drop_id x [] ys n h = refl
every-drop_id x (z ∷ xs) ys n h = ground (arith, mentions-drop_id x z ys, every-drop_id x xs ys)

-- Distinct members of a list are no more than its length.
pub distinct-length :
    (xs ys : List ℕ)
    → distinct xs ≡ true
    → every (λ y. mentions y ys) xs ≡ true
    → length xs ≤ length ys
distinct-length [] ys d h = omega arith
distinct-length (x ∷ xs) ys d h =
    let rest =
      distinct-length xs (retain (λ y. not (y == x)) ys) (ground arith)
        (every-drop_id x xs ys (ground arith) (ground arith)) in
    ground (arith, rest, length-drop_listed x ys)

length-ids : (rooms : List Room) → length (ids rooms) ≡ length rooms
length-ids [] = refl
length-ids (r ∷ rooms) = ground (arith, length-ids rooms)

-- A climb has no more steps than there are rooms.
pub length-Climb :
    (rooms : List Room) {x : ℕ} {xs : List ℕ} → Climb rooms x xs → length xs ≤ length rooms
length-Climb rooms {xs = xs} c = ground (
  arith,
  distinct-length xs (ids rooms) (Climb-distinct rooms c) (Climb-every rooms c),
  length-ids rooms,
)
