-- ===== src/Wire.antt =====
-- crates/rumble-protocol/src/types.rs: the records that go over the wire and the domain types that
-- server and client hold. The generated message types are records of their fields; an id of a
-- message is what `uuid_from_room_id` reads of it, `none` if it is absent or not 16 bytes, and a
-- message that holds one numeric field is that field.
pub mod RoundTrip
mod Tests
use rumble.Prelude.{
  ℕ, Bool, true, false, not, Option, none, some, String, List, [], ◌∷◌, map, ◌==◌, length,
  if◌then◌else◌,
}
use rumble.Prelude.Fallible.{unwrap_or}
use rumble.Rooms.{Room, RoomAclEntry, UserStatus, root_room_uuid}

pub record RoomAclInfo : Type 0 where
  pub group : String
  pub grant : ℕ
  pub deny : ℕ
  pub apply_here : Bool
  pub apply_subs : Bool

pub record RoomInfo : Type 0 where
  pub id : Option ℕ
  pub name : String
  pub parent_id : Option ℕ
  pub description : Option String
  pub inherit_acl : Bool
  pub acls : List RoomAclInfo
  pub effective_permissions : ℕ

abbrev pub is_root : Room → Bool
is_root r = r.id == root_room_uuid

abbrev pub acl_from_proto : RoomAclInfo → RoomAclEntry
acl_from_proto p = record {
  group = p.group;
  grant = p.grant;
  deny = p.deny;
  apply_here = p.apply_here;
  apply_subs = p.apply_subs;
}

abbrev pub acl_to_proto : RoomAclEntry → RoomAclInfo
acl_to_proto e = record {
  group = e.group;
  grant = e.grant;
  deny = e.deny;
  apply_here = e.apply_here;
  apply_subs = e.apply_subs;
}

-- A room without an id is dropped, one without a parent is put under Root.
abbrev pub room_from_proto : RoomInfo → Option Room
room_from_proto p = elim p.id [
  | none ↦ none
  | some id ↦ some (record {
    id = id;
    name = p.name;
    parent = unwrap_or root_room_uuid p.parent_id;
    description = p.description;
    inherit_acl = p.inherit_acl;
    acls = map acl_from_proto p.acls;
    effective_permissions = p.effective_permissions;
  })
]

abbrev pub room_to_proto : Room → RoomInfo
room_to_proto r = record {
  id = some r.id;
  name = r.name;
  parent_id = if r.parent == root_room_uuid then none else some r.parent;
  description = r.description;
  inherit_acl = r.inherit_acl;
  acls = map acl_to_proto r.acls;
  effective_permissions = r.effective_permissions;
}

-- What the hash of a state reads of a room: everything but the receiver's own permissions.
abbrev pub to_hash_input : Room → RoomInfo
to_hash_input r = record (room_to_proto r) { effective_permissions = 0 }

pub record UserInfo : Type 0 where
  pub user_id : Option ℕ
  pub username : String
  pub current_room : Option ℕ
  pub is_muted : Bool
  pub is_deafened : Bool
  pub server_muted : Bool
  pub is_elevated : Bool
  pub groups : List String
  pub label : Option String

pub record User : Type 0 where
  pub user_id : ℕ
  pub username : String
  pub current_room : ℕ
  pub is_muted : Bool
  pub is_deafened : Bool
  pub server_muted : Bool
  pub is_elevated : Bool
  pub groups : List String
  pub label : Option String

abbrev pub user_from_proto : UserInfo → Option User
user_from_proto p = elim p.user_id [
  | none ↦ none
  | some user_id ↦ some (record {
    user_id = user_id;
    username = p.username;
    current_room = unwrap_or root_room_uuid p.current_room;
    is_muted = p.is_muted;
    is_deafened = p.is_deafened;
    server_muted = p.server_muted;
    is_elevated = p.is_elevated;
    groups = p.groups;
    label = p.label;
  })
]

abbrev pub user_to_proto : User → UserInfo
user_to_proto u = record {
  user_id = some u.user_id;
  username = u.username;
  current_room = some u.current_room;
  is_muted = u.is_muted;
  is_deafened = u.is_deafened;
  server_muted = u.server_muted;
  is_elevated = u.is_elevated;
  groups = u.groups;
  label = u.label;
}

pub record Group : Type 0 where
  pub name : String
  pub permissions : ℕ
  pub is_builtin : Bool

pub record SlashCommand : Type 0 where
  pub name : String
  pub description : String

-- On the wire a permanent membership ends at 0.
pub record GroupMembershipInfo : Type 0 where
  pub group : String
  pub expires_at : ℕ

pub record GroupMembership : Type 0 where
  pub group : String
  pub expires_at : Option ℕ

abbrev pub membership_from_proto : GroupMembershipInfo → GroupMembership
membership_from_proto p = record {
  group = p.group;
  expires_at = if p.expires_at == 0 then none else some p.expires_at;
}

abbrev pub membership_to_proto : GroupMembership → GroupMembershipInfo
membership_to_proto g = record { group = g.group; expires_at = unwrap_or 0 g.expires_at }

pub record RegisteredUserInfo : Type 0 where
  pub public_key : List ℕ
  pub username : String
  pub groups : List GroupMembershipInfo
  pub online : Bool

pub record RegisteredUser : Type 0 where
  pub public_key : List ℕ
  pub username : String
  pub groups : List GroupMembership
  pub online : Bool

-- A key that has not 32 bytes drops the record.
abbrev pub registered_from_proto : RegisteredUserInfo → Option RegisteredUser
registered_from_proto p =
    if length p.public_key == 32
    then some (record {
      public_key = p.public_key;
      username = p.username;
      groups = map membership_from_proto p.groups;
      online = p.online;
    })
    else none

abbrev pub registered_to_proto : RegisteredUser → RegisteredUserInfo
registered_to_proto u = record {
  public_key = u.public_key;
  username = u.username;
  groups = map membership_to_proto u.groups;
  online = u.online;
}
