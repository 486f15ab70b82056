-- ===== src/Client/Updates.antt =====
-- The translation of a state update of the server into room events: `apply_state_update` of
-- crates/rumble-client/src/handle.rs. An id in a message is `none` if it is absent or not 16 bytes.
use rumble.Prelude.{
  ℕ, Bool, true, false, Option, none, some, String, List, [], ◌∷◌, ◌++◌, map, str_eq, if◌then◌else◌,
}
use rumble.Wire.{
  RoomAclInfo, RoomInfo, UserInfo, Group, acl_from_proto, room_from_proto, user_from_proto,
}
use rumble.Client
use rumble.Client.{
  RoomEvent, room_added, room_removed, group_modified, group_removed, state_hash_checkpoint,
}

-- `proto::state_update::Update`. The fallback room of a deletion and the room that a user left are
-- not read, nor is the end of a membership. A group comes with whether it was deleted.
pub data StateUpdate : Type 0 where
  room_created : Option RoomInfo → StateUpdate
  room_deleted : Option ℕ → StateUpdate
  room_renamed : Option ℕ → String → StateUpdate
  room_moved : Option ℕ → Option ℕ → StateUpdate
  room_description_changed : Option ℕ → String → StateUpdate
  user_joined : Option UserInfo → StateUpdate
  user_left : Option ℕ → StateUpdate
  -- The outer `none` is an absent destination, the inner one a malformed one.
  user_moved : Option ℕ → Option (Option ℕ) → StateUpdate
  user_status_changed : Option ℕ → Bool → Bool → Bool → Bool → StateUpdate
  group_changed : Option Group → Bool → StateUpdate
  user_group_changed : ℕ → String → Bool → StateUpdate
  room_acl_changed : Option ℕ → Bool → List RoomAclInfo → StateUpdate

-- `if let Some(x) = o { send(event(x)) }`.
abbrev pub send_if {ℓ} : {A : Type ℓ} → Option A → (A → RoomEvent) → List RoomEvent
send_if none event = []
send_if (some x) event = event x ∷ []

abbrev pub and_then {ℓ κ} : {A : Type ℓ} {B : Type κ} → Option A → (A → Option B) → Option B
and_then none f = none
and_then (some x) f = f x

unfoldable pub events_of : StateUpdate → List RoomEvent
events_of (room_created info) = send_if (and_then info room_from_proto) room_added
events_of (room_deleted room_id) = send_if room_id room_removed
events_of (room_renamed room_id name) = send_if room_id (λ id. Client.room_renamed id name)
events_of (room_moved room_id parent) = send_if room_id (λ id. Client.room_moved id parent)
events_of (room_description_changed room_id text) =
    send_if room_id
      (λ id. Client.room_description_set id (if str_eq text "" then none else some text))
events_of (user_joined info) = send_if (and_then info user_from_proto) Client.user_joined
events_of (user_left user_id) = send_if user_id Client.user_left
events_of (user_moved none to_room) = []
events_of (user_moved (some id) to_room) = send_if to_room (λ room. Client.user_moved id room)
events_of (user_status_changed user_id muted deafened server_muted elevated) =
    send_if user_id (λ id. Client.user_status_changed id muted deafened server_muted elevated)
events_of (group_changed group true) = send_if group (λ g. group_removed g.name)
events_of (group_changed group false) = send_if group group_modified
events_of (user_group_changed user_id group added) =
    Client.user_group_changed user_id group added ∷ []
events_of (room_acl_changed room_id inherit_acl entries) =
    send_if room_id (λ id. Client.room_acl_changed id inherit_acl (map acl_from_proto entries))

abbrev pub checkpoint : List ℕ → List RoomEvent
checkpoint [] = []
checkpoint (b ∷ hash) = state_hash_checkpoint (b ∷ hash) ∷ []

-- A message without an update sends nothing; an empty hash asks for no check.
pub apply_state_update : Option StateUpdate → List ℕ → List RoomEvent
unfolding events_of
apply_state_update none expected_hash = []
apply_state_update (some u) expected_hash = events_of u ++ checkpoint expected_hash
