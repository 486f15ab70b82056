-- ===== src/Client/Permissions/Tests.antt =====
-- The permissions that the client shows (crates/rumble-client/src/projection.rs) at concrete input.
use rumble.Prelude.{
  ℕ, List, ◌≡◌, refl, true, false, none, some, [], ◌∷◌, ◌==◌, Bool-cases, inl, inr, arith,
}
use rumble.Permission.{AclEntry}
use rumble.Permission.Flags.{native_flags}
use rumble.Sled.Memory.{memory}
use rumble.Persistence.{list_groups}
use rumble.Persistence.Memberships.{get_room_acl}
use rumble.Persistence.Example.{two_groups}
use rumble.Rooms.{Room, StateData, fresh_room}
use rumble.Permission.Effective.{effective_permissions}
use rumble.Acl.{Identity, evaluate_identity_permissions}
use rumble.Ops.Tree.{Climb, at_root, below}
use rumble.Wire.{User, Group}
use rumble.Client.{State, room_moved, group_removed, mutate, apply_room}
use rumble.Client.Tree.{rebuild}
use rumble.Client.Permissions.{effective_in, effective_in_rooms}
use rumble.Client.Permissions.Equivalence.{listed_acl, effective_in-evaluate_identity_permissions}
use rumble.Client.Freshness.{IsFresh, apply_room-IsFresh}

-- Staff may do 0x40 and not 0x100 in the hall and below; the booth is in the hall.
abbrev hall : Room
hall = record (fresh_room 5 "hall" 0 none) {
  acls =
      record { group = "staff"; grant = 0x40; deny = 0x100; apply_here = true; apply_subs = true }
      ∷ [];
}

abbrev guarded : StateData
guarded = record {
  rooms = fresh_room 0 "Root" 0 none ∷ hall ∷ fresh_room 6 "booth" 5 none ∷ [];
  memberships = [];
  user_statuses = [];
}

abbrev groups : List Group
groups =
    record { name = "default"; permissions = 0x8019f; is_builtin = true }
    ∷ record { name = "staff"; permissions = 0x20; is_builtin = false }
    ∷ []

abbrev ann : User
ann = record {
  user_id = 1;
  username = "ann";
  current_room = 6;
  is_muted = false;
  is_deafened = false;
  server_muted = false;
  is_elevated = false;
  groups = "staff" ∷ [];
  label = none;
}

abbrev of_staff : Identity
of_staff = record {
  display_name = "ann";
  verified_username = some "ann";
  label = none;
  groups = "staff" ∷ [];
}

-- What the database stores is what the rooms list.
guarded_stored : (y : ℕ) → get_room_acl y two_groups ≡ listed_acl guarded.rooms y
unfolding get_room_acl memory
guarded_stored y = elim (Bool-cases (5 == y)) [
  | inl hall' ↦ ground arith
  | inr other ↦ ground arith
]

booth-Climb : Climb guarded.rooms 6 (6 ∷ 5 ∷ [])
booth-Climb = below refl refl (below refl refl (at_root refl))

-- Ann in the booth.
effective_in-evaluate_identity_permissions_example :
    effective_in (some ann) groups guarded.rooms 6
    ≡ evaluate_identity_permissions guarded false of_staff 6 two_groups
unfolding list_groups memory
effective_in-evaluate_identity_permissions_example =
    effective_in-evaluate_identity_permissions guarded.rooms guarded of_staff ann groups two_groups
      booth-Climb refl guarded_stored refl refl refl

booth_permissions : effective_in (some ann) groups guarded.rooms 6 ≡ 0xff
unfolding effective_in effective_permissions native_flags rumble.Permission.Effective.walk_chain
    rumble.Permission.Effective.apply_room rumble.Permission.Effective.base_permissions
    rumble.Permission.Effective.apply_entries
booth_permissions = refl

abbrev copy : State
copy = record {
  rooms = guarded.rooms;
  users = ann ∷ [];
  my_user_id = some 1;
  my_room_id = some 6;
  room_tree = rebuild guarded.rooms;
  effective_permissions = 0;
  per_room_permissions = effective_in_rooms (some ann) groups guarded.rooms;
  group_definitions = groups;
  slash_commands = [];
  registered_users = [];
}

apply_room-IsFresh_example : IsFresh 1 (apply_room (group_removed "staff") copy)
apply_room-IsFresh_example = apply_room-IsFresh 1 (group_removed "staff") copy refl refl refl

-- The booth leaves the hall: the table keeps what the access control list of the hall granted there.
stale_after_move :
    ((apply_room (room_moved 6 none) copy).per_room_permissions
      ≡ (6, 0xff) ∷ (5, 0xff) ∷ (0, 0x801bf) ∷ [])
    × (effective_in (some ann) groups (apply_room (room_moved 6 none) copy).rooms 6 ≡ 0x1bf)
unfolding apply_room mutate effective_in effective_in_rooms effective_permissions native_flags
    rumble.Permission.Effective.walk_chain rumble.Permission.Effective.apply_room
    rumble.Permission.Effective.base_permissions rumble.Permission.Effective.apply_entries
stale_after_move = (refl, refl)
