-- ===== src/Rooms/Lookup.antt =====
-- What a lookup in the list of rooms finds after an operation of crates/server/src/state.rs.
use rumble.Prelude.{
  ℕ, ◌≡◌, refl, true, false, ◌||◌, Option, none, some, String, List, [], ◌∷◌, ◌++◌, ◌==◌,
  if◌then◌else◌, str_eq, find, length, ltb, retain, arith, Bool-cases, inl, inr, ◌≤◌,
}
use rumble.Prelude.Predicates.{mentions, distinct}
use rumble.Rooms.{
  Room, StateData, root_room_uuid, fresh_room, update_room, move_room, rename_room,
  set_room_description, delete_room, room_exists, create_room_with_parent_desc,
  room_parent_and_children,
}
use rumble.Rooms.Invariant.{ids, others, any-ids}

abbrev pub with_parent : ℕ → Room → Room
with_parent p r = record r { parent = p }

abbrev pub changed : (Room → Room) → Option Room → Option Room
changed f none = none
changed f (some r) = some (f r)

pub find-update_room :
    (u x p : ℕ) (rooms : List Room)
    → find (λ y. y.id == x) (update_room u (with_parent p) rooms).0 ≡ (
        if u == x
        then changed (with_parent p) (find (λ y. y.id == x) rooms)
        else find (λ y. y.id == x) rooms)
unfolding update_room
find-update_room u x p [] = ground arith
find-update_room u x p (r ∷ rooms) = ground (arith, find-update_room u x p rooms)

pub found-update_room :
    (u : ℕ) (change : Room → Room) (rooms : List Room)
    → (update_room u change rooms).1 ≡ mentions u (ids rooms)
unfolding update_room
found-update_room u change [] = refl
found-update_room u change (r ∷ rooms) = ground (arith, found-update_room u change rooms)

pub find-append :
    (x : ℕ) (rooms : List Room) (r : Room)
    → find (λ y. y.id == x) (rooms ++ r ∷ []) ≡ (elim (find (λ y. y.id == x) rooms) [
      | none ↦ if r.id == x then some r else none
      | some s ↦ some s
    ])
find-append x [] r = ground arith
find-append x (s ∷ rooms) r = ground (arith, find-append x rooms r)

pub find-others :
    (u x : ℕ) (rooms : List Room)
    → find (λ y. y.id == x) (others u rooms)
      ≡ (if u == x then none else find (λ y. y.id == x) rooms)
find-others u x [] = ground arith
find-others u x (r ∷ rooms) = ground (arith, find-others u x rooms)

pub rooms-move_room :
    (u p : ℕ) (d : StateData)
    → ((move_room u p d).0.rooms ≡ (update_room u (with_parent p) d.rooms).0)
      × ((move_room u p d).1 ≡ mentions u (ids d.rooms))
unfolding move_room
rooms-move_room u p d = (refl, found-update_room u (with_parent p) d.rooms)

abbrev pub with_name : String → Room → Room
with_name name r = record r { name = name }

-- An empty description is none.
abbrev pub with_description : String → Room → Room
with_description text r = record r { description = if str_eq text "" then none else some text }

pub rooms-rename_room :
    (u : ℕ) (name : String) (d : StateData)
    → ((rename_room u name d).0.rooms ≡ (update_room u (with_name name) d.rooms).0)
      × ((rename_room u name d).1 ≡ mentions u (ids d.rooms))
unfolding rename_room
rooms-rename_room u name d = (refl, found-update_room u (with_name name) d.rooms)

pub rooms-set_room_description :
    (u : ℕ) (text : String) (d : StateData)
    → ((set_room_description u text d).0.rooms ≡ (update_room u (with_description text) d.rooms).0)
      × ((set_room_description u text d).1 ≡ mentions u (ids d.rooms))
unfolding set_room_description
rooms-set_room_description u text d = (refl, found-update_room u (with_description text) d.rooms)

pub rooms-create_room :
    (u : ℕ) (name : String) (p : ℕ) (desc : Option String) (d : StateData)
    → ((create_room_with_parent_desc u name p desc d).0.rooms
        ≡ d.rooms ++ fresh_room u name p desc ∷ [])
      × ((create_room_with_parent_desc u name p desc d).1 ≡ u)
unfolding create_room_with_parent_desc
rooms-create_room u name p desc d = (refl, refl)

pub room_exists-mentions :
    (u : ℕ) (d : StateData) → room_exists u d ≡ (u == root_room_uuid || mentions u (ids d.rooms))
unfolding room_exists
room_exists-mentions u d = ground (arith, any-ids u d.rooms)

length-others : (u : ℕ) (rooms : List Room) → length (others u rooms) ≤ length rooms
length-others u [] = omega arith
length-others u (r ∷ rooms) = ground (arith, length-others u rooms)

shorter-others :
    (u : ℕ) (rooms : List Room)
    → ltb (length (others u rooms)) (length rooms) ≡ mentions u (ids rooms)
shorter-others u [] = refl
shorter-others u (r ∷ rooms) = ground (arith, length-others u rooms, shorter-others u rooms)

-- Root is not deleted; of another room it is told whether it was there, and it is gone.
pub rooms-delete_room :
    (u : ℕ) (d : StateData)
    → (u == root_room_uuid) ≡ false
    → ((delete_room u d).0.rooms ≡ others u d.rooms)
      × ((delete_room u d).1 ≡ mentions u (ids d.rooms))
unfolding delete_room
rooms-delete_room u d n = (ground (arith, n), ground (arith, n, shorter-others u d.rooms))

pub room_parent_and_children_lem :
    (u : ℕ) (d : StateData)
    → room_parent_and_children u d ≡ (elim (find (λ r. r.id == u) d.rooms) [
      | none ↦ none
      | some r ↦ some (r.parent, ids (retain (λ c. c.parent == u) d.rooms))
    ])
unfolding room_parent_and_children
room_parent_and_children_lem u d = refl

-- With one room for each id, whether a room is among the children of another is told by its parent.
pub mentions-children :
    (u x : ℕ) (rooms : List Room) {r : Room}
    → distinct (ids rooms) ≡ true
    → find (λ y. y.id == x) rooms ≡ some r
    → mentions x (ids (retain (λ c. c.parent == u) rooms)) ≡ (r.parent == u)
mentions-children u x [] d f = absurd (ground arith)
mentions-children u x (s ∷ rooms) {r = r} d f = elim (Bool-cases (s.id == x)) [
  | inl here ↦ ground (arith, no_child x rooms)
  | inr later ↦ ground (arith, mentions-children u x rooms {r = r})
]
  where
    no_child :
        (y : ℕ) (rs : List Room)
        → mentions y (ids rs) ≡ false
        → mentions y (ids (retain (λ c. c.parent == u) rs)) ≡ false
    no_child y [] h = refl
    no_child y (t ∷ rs) h = ground (arith, no_child y rs)
