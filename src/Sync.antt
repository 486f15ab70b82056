-- ===== src/Sync.antt =====
-- A client of crates/rumble-client that receives what crates/server/src/ops.rs broadcasts: its rooms
-- as the hash of a state reads them.
pub mod Effect
mod Tests
use rumble.Prelude.{
  ℕ, Bool, true, false, Option, none, some, List, [], ◌∷◌, map, foldl, ◌==◌, ◌++◌, if◌then◌else◌,
}
use rumble.Permission.{BitFlags}
use rumble.Rooms.{Room, StateData, root_room_uuid}
use rumble.Ops
use rumble.Ops.{Update}
use rumble.Wire.{RoomInfo, room_to_proto, to_hash_input, acl_to_proto}
use rumble.Client.{State, RoomEvent, apply_room}
use rumble.Client.Updates.{
  StateUpdate, events_of, room_created, room_deleted, room_moved, room_renamed,
  room_description_changed, user_status_changed, group_changed, user_group_changed,
  room_acl_changed,
}

-- The message that the server sends for an update.
abbrev pub message : Update → StateUpdate
message (Ops.room_created room) = room_created (some (room_to_proto room))
message (Ops.room_moved room_id parent) = room_moved room_id parent
message (Ops.room_deleted room_id fallback) = room_deleted (some room_id)
message (Ops.room_renamed room_id name) = room_renamed (some room_id) name
message (Ops.room_description_changed room_id text) = room_description_changed (some room_id) text
message (Ops.group_changed name permissions is_builtin deleted) =
    group_changed
      (some (record { name = name; permissions = permissions; is_builtin = is_builtin })) deleted
message (Ops.user_group_changed user_id group added expires_at) =
    user_group_changed user_id group added
message (Ops.room_acl_changed room_id inherit_acl acls) =
    room_acl_changed (some room_id) inherit_acl (map acl_to_proto acls)
message (Ops.user_status_changed user_id status) =
    user_status_changed (some user_id) status.is_muted status.is_deafened status.server_muted
      status.is_elevated

module _ ⦃F : BitFlags⦄ where
  pub apply_all : List RoomEvent → State → State
  apply_all [] c = c
  apply_all (ev ∷ evs) c = apply_all evs (apply_room ev c)

  -- The client after the messages for some updates.
  pub receive_all : List (Update × StateData) → State → State
  receive_all [] c = c
  receive_all (u ∷ us) c = receive_all us (apply_all (events_of (message u.0)) c)

-- The rooms as the hash reads them.
abbrev pub hash_rooms : List Room → List RoomInfo
hash_rooms = map to_hash_input
