-- ===== src/Rooms/Invariant.antt =====
-- What every operation on `StateData` (crates/server/src/state.rs) keeps: a user is in one room at
-- most and has one status at most, no two rooms share a UUID, Root is there, and whoever is in a
-- room is in a room that exists.
use rumble.Prelude.{
  ℕ, ◌≡◌, refl, ap, ◌∙◌, sym, Bool, true, false, not, ◌&&◌, Option, String, List, [], ◌∷◌, ◌++◌,
  map, ◌==◌, retain, any, length, ltb, ◌≢◌, arith, retain_all, Bool-cases, inl, inr,
}
use rumble.Prelude.Predicates.{
  every, every_mono, every-append, every-retain, any-append, mentions, distinct, distinct-snoc,
  keys, distinct-without, distinct-replace,
}
use rumble.Rooms.{
  Room, RoomAclEntry, UserStatus, StateData, root_room_uuid, fresh_room, new, set_user_room,
  remove_user_membership, set_user_status, add_room_with_uuid_and_parent_desc,
  create_room_with_parent_desc, evacuate, delete_room, update_room, rename_room, move_room,
  set_room_acl, set_room_description, room_exists,
}

abbrev pub ids : List Room → List ℕ
ids = map (λ (r : Room). r.id)

pub record IsValid (d : StateData) : Type 0 where
  pub one_room : distinct (keys d.memberships) ≡ true
  pub one_status : distinct (keys d.user_statuses) ≡ true
  pub one_id : distinct (ids d.rooms) ≡ true
  pub rooted : mentions root_room_uuid (ids d.rooms) ≡ true
  pub placed : every (λ m. mentions m.1 (ids d.rooms)) d.memberships ≡ true

pub data Op : Type 0 where
  enters : ℕ → ℕ → Op
  leaves : ℕ → Op
  sets_status : ℕ → UserStatus → Op
  loads_room : ℕ → String → ℕ → Option String → Op
  creates_room : ℕ → String → ℕ → Option String → Op
  deletes_room : ℕ → Op
  renames_room : ℕ → String → Op
  moves_room : ℕ → ℕ → Op
  sets_acl : ℕ → Bool → List RoomAclEntry → Op
  describes_room : ℕ → String → Op

unfoldable pub step : Op → StateData → StateData
step (enters u r) d = set_user_room u r d
step (leaves u) d = remove_user_membership u d
step (sets_status u s) d = set_user_status u s d
step (loads_room uuid name parent desc) d =
    (add_room_with_uuid_and_parent_desc uuid name parent desc d).0
step (creates_room uuid name parent desc) d =
    (create_room_with_parent_desc uuid name parent desc d).0
step (deletes_room r) d = (delete_room r d).0
step (renames_room r name) d = (rename_room r name d).0
step (moves_room r parent) d = (move_room r parent d).0
step (sets_acl r inherit acls) d = (set_room_acl r inherit acls d).0
step (describes_room r desc) d = (set_room_description r desc d).0

-- What the callers see to: a user enters a room that exists, and a drawn UUID is new.
abbrev pub Allowed : Op → StateData → Type 0
Allowed (enters u r) d = room_exists r d ≡ true
Allowed (creates_room uuid name parent desc) d = mentions uuid (ids d.rooms) ≡ false
Allowed _ d = Unit

pub any-ids : (u : ℕ) (rooms : List Room) → any (λ r. r.id == u) rooms ≡ mentions u (ids rooms)
any-ids u [] = refl
any-ids u (r ∷ rs) = ground (arith, any-ids u rs)

ids-append : (xs ys : List Room) → ids (xs ++ ys) ≡ ids xs ++ ids ys
ids-append [] ys = refl
ids-append (x ∷ xs) ys = ap (λ t. x.id ∷ t) (ids-append xs ys)

abbrev pub others : ℕ → List Room → List Room
others u = retain (λ r. not (r.id == u))

pub mentions-others :
    (u j : ℕ) (rooms : List Room)
    → mentions j (ids (others u rooms)) ≡ (mentions j (ids rooms) && not (j == u))
mentions-others u j [] = refl
mentions-others u j (r ∷ rs) = ground (arith, mentions-others u j rs)

distinct-others :
    (u : ℕ) (rooms : List Room)
    → distinct (ids rooms) ≡ true
    → distinct (ids (others u rooms)) ≡ true
distinct-others u [] h = refl
distinct-others u (r ∷ rs) h = ground (arith, distinct-others u rs, mentions-others u r.id rs)

keys-evacuate : (u : ℕ) (ms : List (ℕ × ℕ)) → keys (map (evacuate u) ms) ≡ keys ms
keys-evacuate u [] = refl
keys-evacuate u (m ∷ ms) = ap (λ t. m.0 ∷ t) (keys-evacuate u ms)

-- A change that keeps the id of the room keeps the list of ids.
pub ids-update_room :
    (u : ℕ) (change : Room → Room) (rooms : List Room)
    → ((r : Room) → (change r).id ≡ r.id)
    → ids (update_room u change rooms).0 ≡ ids rooms
unfolding update_room
ids-update_room u change [] same = refl
ids-update_room u change (r ∷ rs) same = ground (arith, same r, ids-update_room u change rs same)

placed-evacuate :
    (u : ℕ) (rooms : List Room) (ms : List (ℕ × ℕ))
    → u ≢ root_room_uuid
    → mentions root_room_uuid (ids rooms) ≡ true
    → every (λ m. mentions m.1 (ids rooms)) ms ≡ true
    → every (λ m. mentions m.1 (ids (others u rooms))) (map (evacuate u) ms) ≡ true
placed-evacuate u rooms [] n r h = refl
placed-evacuate u rooms (m ∷ ms) n r h = ground (
  arith,
  mentions-others u m.1 rooms,
  mentions-others u root_room_uuid rooms,
  placed-evacuate u rooms ms n r,
)

-- Rooms that are appended to the list take nothing from it.
module _ (d : StateData) (v : IsValid d) (r : Room)
    (unused : mentions r.id (ids d.rooms) ≡ false) where
  still_there :
      (j : ℕ) → mentions j (ids d.rooms) ≡ true → mentions j (ids (d.rooms ++ r ∷ [])) ≡ true
  still_there j h =
      rw (ids-append d.rooms (r ∷ []))
        (ground (arith, any-append (λ x. x == j) (ids d.rooms) (r.id ∷ [])))

  append-IsValid : IsValid (record d { rooms = d.rooms ++ r ∷ [] })
  append-IsValid = record {
    one_room = v.one_room;
    one_status = v.one_status;
    one_id = rw (ids-append d.rooms (r ∷ [])) (distinct-snoc r.id (ids d.rooms) unused v.one_id);
    rooted = still_there root_room_uuid v.rooted;
    placed = every_mono _ _ d.memberships (λ m. still_there m.1) v.placed;
  }

update-IsValid :
    (d : StateData) (u : ℕ) (change : Room → Room)
    → ((r : Room) → (change r).id ≡ r.id)
    → IsValid d
    → IsValid (record d { rooms = (update_room u change d.rooms).0 })
update-IsValid d u change same v =
    let e = ids-update_room u change d.rooms same in
    record {
      one_room = v.one_room;
      one_status = v.one_status;
      one_id = rw e v.one_id;
      rooted = rw e v.rooted;
      placed = rw e v.placed;
    }

set_user_room-IsValid :
    (u r : ℕ) (d : StateData) → room_exists r d ≡ true → IsValid d → IsValid (set_user_room u r d)
unfolding set_user_room room_exists
set_user_room-IsValid u r d h v = record {
  one_room = distinct-replace u r d.memberships v.one_room;
  one_status = v.one_status;
  one_id = v.one_id;
  rooted = v.rooted;
  placed =
      rw
        (every-append (λ m. mentions m.1 (ids d.rooms)) (retain (λ m. not (m.0 == u)) d.memberships)
          ((u, r) ∷ []))
        (ground (
          arith,
          any-ids r d.rooms,
          v.rooted,
          every-retain (λ m. mentions m.1 (ids d.rooms)) (λ m. not (m.0 == u)) d.memberships
              v.placed,
        ));
}

delete_room-IsValid : (u : ℕ) (d : StateData) → IsValid d → IsValid (delete_room u d).0
unfolding delete_room
delete_room-IsValid u d v = elim (Bool-cases (u == root_room_uuid)) [
  | inl root ↦ rw root v
  | inr below ↦ rw below (elim (Bool-cases (ltb (length (others u d.rooms)) (length d.rooms))) [
    | inl found ↦ rw found (record {
      one_room = rw (keys-evacuate u d.memberships) v.one_room;
      one_status = v.one_status;
      one_id = distinct-others u d.rooms v.one_id;
      rooted = ground (arith, mentions-others u root_room_uuid d.rooms, v.rooted);
      placed = placed-evacuate u d.rooms d.memberships (ground arith) v.rooted v.placed;
    })
    | inr missing ↦
        rw (missing, retain_all (λ (r : Room). not (r.id == u)) d.rooms (ground arith)) v
  ])
]

load_room-IsValid :
    (uuid : ℕ) (name : String) (parent : ℕ) (desc : Option String) (d : StateData)
    → IsValid d
    → IsValid (add_room_with_uuid_and_parent_desc uuid name parent desc d).0
unfolding add_room_with_uuid_and_parent_desc
load_room-IsValid uuid name parent desc d v =
    elim (Bool-cases (any (λ (r : Room). r.id == uuid) d.rooms)) [
      | inl used ↦ rw used v
      | inr unused ↦ rw unused (
          append-IsValid d v (fresh_room uuid name parent desc)
            (sym (any-ids uuid d.rooms) ∙ unused))
    ]

-- Every operation, where it is allowed, keeps a valid state valid.
pub step-IsValid : (op : Op) (d : StateData) → Allowed op d → IsValid d → IsValid (step op d)
unfolding step remove_user_membership set_user_status add_room_with_uuid_and_parent_desc
    create_room_with_parent_desc rename_room move_room set_room_acl set_room_description
step-IsValid (enters u r) d a v = set_user_room-IsValid u r d a v
step-IsValid (leaves u) d a v = record {
  one_room = distinct-without u d.memberships v.one_room;
  one_status = distinct-without u d.user_statuses v.one_status;
  one_id = v.one_id;
  rooted = v.rooted;
  placed = every-retain _ _ d.memberships v.placed;
}
step-IsValid (sets_status u s) d a v = record {
  one_room = v.one_room;
  one_status = distinct-replace u s d.user_statuses v.one_status;
  one_id = v.one_id;
  rooted = v.rooted;
  placed = v.placed;
}
step-IsValid (loads_room uuid name parent desc) d a v = load_room-IsValid uuid name parent desc d v
step-IsValid (creates_room uuid name parent desc) d a v =
    append-IsValid d v (fresh_room uuid name parent desc) a
step-IsValid (deletes_room r) d a v = delete_room-IsValid r d v
step-IsValid (renames_room r name) d a v = update-IsValid d r _ (λ x. refl) v
step-IsValid (moves_room r parent) d a v = update-IsValid d r _ (λ x. refl) v
step-IsValid (sets_acl r inherit acls) d a v = update-IsValid d r _ (λ x. refl) v
step-IsValid (describes_room r desc) d a v = update-IsValid d r _ (λ x. refl) v

new-IsValid : IsValid new
unfolding new
new-IsValid = record {
  one_room = refl;
  one_status = refl;
  one_id = refl;
  rooted = refl;
  placed = refl;
}

-- A history of operations, each allowed where it happens.
pub data Reachable : StateData → Type 0 where
  start : Reachable new
  next : {d : StateData} → Reachable d → (op : Op) → Allowed op d → Reachable (step op d)

-- From the state of a fresh server, no history of allowed operations leaves the valid states.
pub Reachable-IsValid : {d : StateData} → Reachable d → IsValid d
Reachable-IsValid start = new-IsValid
Reachable-IsValid (next {d = d} r op a) = step-IsValid op d a (Reachable-IsValid r)
