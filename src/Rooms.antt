-- ===== src/Rooms.antt =====
-- The room tree and the roster of the server: `StateData` of crates/server/src/state.rs and the
-- operations on it, with `Room` and `RoomAclEntry` of crates/rumble-protocol/src/types.rs. Each
-- operation holds the lock of the state for all of its work, so it is a function on `StateData`.
-- A UUID is its number and the Root room is 0; the UUID that `Uuid::new_v4` draws is an argument.
pub mod Invariant
pub mod Roster
pub mod Lookup
pub mod Routing
pub mod Example
mod Tests
use rumble.Prelude.{
  ℕ, ◌+◌, Bool, true, false, not, Option, none, some, String, List, [], ◌∷◌, ◌++◌, map, ◌==◌,
  if◌then◌else◌, retain, find, any, length, ltb, str_eq,
}
use rumble.Prelude.Equality.{get?, insert, nat_keys}

abbrev pub root_room_uuid : ℕ
root_room_uuid = 0

pub record RoomAclEntry : Type 0 where
  pub group : String
  pub grant : ℕ
  pub deny : ℕ
  pub apply_here : Bool
  pub apply_subs : Bool

pub record Room : Type 0 where
  pub id : ℕ
  pub name : String
  pub parent : ℕ
  pub description : Option String
  pub inherit_acl : Bool
  pub acls : List RoomAclEntry
  pub effective_permissions : ℕ

pub record UserStatus : Type 0 where
  pub is_muted : Bool
  pub is_deafened : Bool
  pub server_muted : Bool
  pub is_elevated : Bool

-- `UserStatus::default()`.
abbrev pub default_status : UserStatus
default_status = record {
  is_muted = false;
  is_deafened = false;
  server_muted = false;
  is_elevated = false;
}

pub record StateData : Type 0 where
  pub rooms : List Room
  pub memberships : List (ℕ × ℕ)
  pub user_statuses : List (ℕ × UserStatus)

-- A room as the server makes it: inheriting, with an empty access control list.
abbrev pub fresh_room : ℕ → String → ℕ → Option String → Room
fresh_room uuid name parent description = record {
  id = uuid;
  name = name;
  parent = parent;
  description = description;
  inherit_acl = true;
  acls = [];
  effective_permissions = 0;
}

-- `StateData::new`: Root parents itself.
pub new : StateData
new = record {
  rooms = fresh_room root_room_uuid "Root" root_room_uuid none ∷ [];
  memberships = [];
  user_statuses = [];
}

-- Membership and status of a user.

pub set_user_room : ℕ → ℕ → StateData → StateData
set_user_room user_id room_uuid data' = record data' {
  memberships = retain (λ m. not (m.0 == user_id)) data'.memberships ++ (user_id, room_uuid) ∷ [];
}

pub remove_user_membership : ℕ → StateData → StateData
remove_user_membership user_id data' = record data' {
  memberships = retain (λ m. not (m.0 == user_id)) data'.memberships;
  user_statuses = retain (λ s. not (s.0 == user_id)) data'.user_statuses;
}

pub set_user_status : ℕ → UserStatus → StateData → StateData
set_user_status user_id status data' = record data' {
  user_statuses = retain (λ s. not (s.0 == user_id)) data'.user_statuses ++ (user_id, status) ∷ [];
}

pub get_user_status : ℕ → StateData → UserStatus
get_user_status user_id data' = elim (find (λ s. s.0 == user_id) data'.user_statuses) [
  | none ↦ default_status
  | some s ↦ s.1
]

pub get_user_room : ℕ → StateData → Option ℕ
get_user_room user_id data' = elim (find (λ m. m.0 == user_id) data'.memberships) [
  | none ↦ none
  | some m ↦ some m.1
]

pub get_room_members : ℕ → StateData → List ℕ
get_room_members room_uuid data' =
    map (λ (m : ℕ × ℕ). m.0) (retain (λ m. m.1 == room_uuid) data'.memberships)

-- The room tree.

pub add_room_with_uuid_and_parent_desc :
    ℕ → String → ℕ → Option String → StateData → StateData × Bool
add_room_with_uuid_and_parent_desc uuid name parent description data' =
    if any (λ r. r.id == uuid) data'.rooms then (data', false) else (
      record data' { rooms = data'.rooms ++ fresh_room uuid name parent description ∷ [] },
      true,
    )

unfoldable pub create_room_with_parent_desc :
    ℕ → String → ℕ → Option String → StateData → StateData × ℕ
create_room_with_parent_desc new_uuid name parent description data' = (
  record data' { rooms = data'.rooms ++ fresh_room new_uuid name parent description ∷ [] },
  new_uuid,
)

-- Members of the deleted room move to Root.
abbrev pub evacuate : ℕ → ℕ × ℕ → ℕ × ℕ
evacuate room_uuid m = (m.0, if m.1 == room_uuid then root_room_uuid else m.1)

pub delete_room : ℕ → StateData → StateData × Bool
delete_room room_uuid data' =
    if room_uuid == root_room_uuid
    then (data', false)
    else let rooms = retain (λ r. not (r.id == room_uuid)) data'.rooms in
      if ltb (length rooms) (length data'.rooms)
      then (
        record data' { rooms = rooms; memberships = map (evacuate room_uuid) data'.memberships },
        true,
      )
      else (record data' { rooms = rooms }, false)

-- The loop `for r in rooms.iter_mut()` that changes the first room with the id and returns.
unfoldable pub update_room : ℕ → (Room → Room) → List Room → List Room × Bool
update_room room_uuid change [] = ([], false)
update_room room_uuid change (r ∷ rs) =
    let (rest, found) = update_room room_uuid change rs in
    if r.id == room_uuid then (change r ∷ rs, true) else (r ∷ rest, found)

abbrev pub with_rooms : StateData → List Room × Bool → StateData × Bool
with_rooms data' (rooms, found) = (record data' { rooms = rooms }, found)

pub rename_room : ℕ → String → StateData → StateData × Bool
rename_room room_uuid new_name data' =
    with_rooms data' (update_room room_uuid (λ r. record r { name = new_name }) data'.rooms)

pub move_room : ℕ → ℕ → StateData → StateData × Bool
move_room room_uuid new_parent_uuid data' =
    with_rooms data'
      (update_room room_uuid (λ r. record r { parent = new_parent_uuid }) data'.rooms)

unfoldable pub set_room_acl : ℕ → Bool → List RoomAclEntry → StateData → StateData × Bool
set_room_acl room_uuid inherit_acl acls data' =
    with_rooms data'
      (update_room room_uuid (λ r. record r { inherit_acl = inherit_acl; acls = acls }) data'.rooms)

pub set_room_description : ℕ → String → StateData → StateData × Bool
set_room_description room_uuid description data' = with_rooms data' (
    update_room room_uuid
      (λ r. record r { description = if str_eq description "" then none else some description })
      data'.rooms)

pub room_exists : ℕ → StateData → Bool
room_exists room_uuid data' =
    if room_uuid == root_room_uuid then true else any (λ r. r.id == room_uuid) data'.rooms

pub room_parent_and_children : ℕ → StateData → Option (ℕ × List ℕ)
room_parent_and_children room_uuid data' = elim (find (λ r. r.id == room_uuid) data'.rooms) [
  | none ↦ none
  | some r ↦
      some (r.parent, map (λ (c : Room). c.id) (retain (λ c. c.parent == room_uuid) data'.rooms))
]

-- Snapshots for the voice relay.

-- `map.entry(rid).or_insert_with(Vec::new).push(uid)`.
abbrev pub push_entry : ℕ → ℕ → List (ℕ × List ℕ) → List (ℕ × List ℕ)
push_entry rid uid table = elim (get? rid table) [
  | none ↦ insert rid (uid ∷ []) table
  | some users ↦ insert rid (users ++ uid ∷ []) table
]

pub group_by_room : List (ℕ × ℕ) → List (ℕ × List ℕ) → List (ℕ × List ℕ)
group_by_room [] table = table
group_by_room ((uid, rid) ∷ ms) table = group_by_room ms (push_entry rid uid table)

pub snapshot_room_memberships : StateData → List (ℕ × List ℕ)
snapshot_room_memberships data' = group_by_room data'.memberships []

-- The room map and the users who deafened themselves.
pub snapshot_voice_routing : StateData → List (ℕ × List ℕ) × List ℕ
snapshot_voice_routing data' = (
  group_by_room data'.memberships [],
  map (λ (s : ℕ × UserStatus). s.0) (retain (λ s. s.1.is_deafened) data'.user_statuses),
)
