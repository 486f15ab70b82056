-- ===== src/Client/Permissions.antt =====
-- The client's own computation of its permissions: `build_room_chain` and the pure part of
-- `recompute_effective_permissions` of crates/rumble-client/src/projection.rs.
pub mod Agreement
pub mod Equivalence
pub mod Unseen
mod Tests
use rumble.Prelude.{
  ℕ, zero, suc, ◌+◌, Bool, true, false, not, ◌&&◌, Option, none, some, String, List, [], ◌∷◌, map,
  ◌==◌, find, length, elem, nat_keys, text_keys, if◌then◌else◌,
}
use rumble.Prelude.Equality.{insert}
use rumble.Permission.{BitFlags, AclEntry, RoomAclData}
use rumble.Permission.Effective.{effective_permissions}
use rumble.Rooms.{Room, RoomAclEntry, root_room_uuid}
use rumble.Wire.{User, Group}
use rumble.Acl.{headed_by_root, dedup, push_group, push_groups}

-- The loop of `build_room_chain`, with fuel. The rooms visited are those on the path, whose head is
-- the end of the vector.
pub climb : ℕ → List Room → ℕ → List ℕ → Option (List ℕ)
climb zero rooms current path = none
climb (suc fuel) rooms current path =
    if elem current path
    then some path
    else if current == root_room_uuid
    then some (current ∷ path)
    else elim (find (λ r. r.id == current) rooms) [
      | none ↦ some (current ∷ path)
      | some r ↦ climb fuel rooms r.parent (current ∷ path)
    ]

-- A walk meets each room at most once, and at most one place that is no room.
pub chain_path : List Room → ℕ → Option (List ℕ)
unfolding climb
chain_path rooms target = elim (climb (length rooms + 2) rooms target []) [
  | none ↦ none
  | some path ↦ some (dedup (headed_by_root path))
]

abbrev pub is_empty {ℓ} : {A : Type ℓ} → List A → Bool
is_empty [] = true
is_empty (x ∷ xs) = false

module _ ⦃F : BitFlags⦄ where
  abbrev pub entry_of : RoomAclEntry → AclEntry
  entry_of e = record {
    group = e.group;
    grant = F.from_bits_truncate e.grant;
    deny = F.from_bits_truncate e.deny;
    apply_here = e.apply_here;
    apply_subs = e.apply_subs;
  }

  -- `find_map` over the rooms: a list with no entries counts as absent.
  pub acl_of : List Room → ℕ → Option RoomAclData
  acl_of rooms room_uuid = elim (find (λ r. r.id == room_uuid && not (is_empty r.acls)) rooms) [
    | none ↦ none
    | some r ↦ some (record { inherit_acl = r.inherit_acl; entries = map entry_of r.acls })
  ]

  pub build_room_chain : List Room → ℕ → List (ℕ × Option RoomAclData)
  unfolding chain_path acl_of
  build_room_chain rooms target = elim (chain_path rooms target) [
    | none ↦ []
    | some path ↦ map (λ room. (room, acl_of rooms room)) path
  ]

  -- "default", our groups and our name.
  unfoldable pub groups_of : Option User → List String
  groups_of none = "default" ∷ []
  groups_of (some me) = push_group (push_groups ("default" ∷ []) me.groups) me.username

  pub group_table : List Group → List (String × ℕ) → List (String × ℕ)
  group_table [] table = table
  group_table (g ∷ groups) table =
      group_table groups (insert g.name (F.from_bits_truncate g.permissions) table)

  abbrev pub elevated : Option User → Bool
  elevated none = false
  elevated (some me) = me.is_elevated

  pub effective_in : Option User → List Group → List Room → ℕ → ℕ
  unfolding build_room_chain groups_of group_table
  effective_in me groups rooms room_uuid =
      effective_permissions (groups_of me) (group_table groups [])
        (build_room_chain rooms room_uuid) (elevated me)

  -- The table of the permissions in some of the rooms.
  pub fill : Option User → List Group → List Room → List Room → List (ℕ × ℕ) → List (ℕ × ℕ)
  unfolding effective_in
  fill me groups rooms [] table = table
  fill me groups rooms (r ∷ rest) table =
      fill me groups rooms rest (insert r.id (effective_in me groups rooms r.id) table)

  pub effective_in_rooms : Option User → List Group → List Room → List (ℕ × ℕ)
  unfolding fill
  effective_in_rooms me groups rooms = fill me groups rooms rooms []
