-- ===== src/Client/Events.antt =====
-- The state of the client and the room events: `State` of crates/rumble-client/src/events.rs and
-- `RoomEvent` of crates/rumble-client/src/domain_events.rs, with what an event makes the projection
-- task do.
use rumble.Prelude.{
  ℕ, Bool, false, Option, none, some, String, List, [], ◌∷◌, ◌==◌, if◌then◌else◌, find, nat_keys,
  text_keys,
}
use rumble.Rooms.{Room, RoomAclEntry}
use rumble.Wire.{User, Group, SlashCommand, RegisteredUser}
use rumble.Client.Tree.{RoomTree, rebuild}

pub record State : Type 0 where
  pub rooms : List Room
  pub users : List User
  pub my_user_id : Option ℕ
  pub my_room_id : Option ℕ
  pub room_tree : RoomTree
  pub effective_permissions : ℕ
  pub per_room_permissions : List (ℕ × ℕ)
  pub group_definitions : List Group
  pub slash_commands : List SlashCommand
  pub registered_users : List RegisteredUser

-- A map that comes with `room_acl_changed` is not read.
pub data RoomEvent : Type 0 where
  full_state_replaced :
      List Room → List User → List Group → List SlashCommand → List (ℕ × ℕ) → RoomEvent
  room_added : Room → RoomEvent
  room_removed : ℕ → RoomEvent
  room_renamed : ℕ → String → RoomEvent
  room_moved : ℕ → Option ℕ → RoomEvent
  room_description_set : ℕ → Option String → RoomEvent
  room_acl_changed : ℕ → Bool → List RoomAclEntry → RoomEvent
  user_joined : User → RoomEvent
  user_left : ℕ → RoomEvent
  user_moved : ℕ → Option ℕ → RoomEvent
  user_status_changed : ℕ → Bool → Bool → Bool → Bool → RoomEvent
  user_group_changed : ℕ → String → Bool → RoomEvent
  group_added : Group → RoomEvent
  group_modified : Group → RoomEvent
  group_removed : String → RoomEvent
  registered_users_replaced : List RegisteredUser → RoomEvent
  self_moved_to_room : ℕ → RoomEvent
  state_hash_checkpoint : List ℕ → RoomEvent

-- The commands that say who is in our room or that the server mutes us. The projection sends the
-- first four.
pub data AudioCommand : Type 0 where
  user_joined_room : ℕ → AudioCommand
  user_left_room : ℕ → AudioCommand
  room_changed : List ℕ → AudioCommand
  set_server_muted : Bool → AudioCommand
  peer_left : ℕ → AudioCommand
  connection_closed : AudioCommand

-- What an event makes the task do: the new state, the commands to the audio task in order, the room
-- that the file transfer is told, and whether the permissions are computed again.
pub record Applied : Type 0 where
  pub state : State
  pub audio : List AudioCommand
  pub file_transfer : Option ℕ
  pub recompute : Bool

abbrev pub quiet : State → Applied
quiet s = record { state = s; audio = []; file_transfer = none; recompute = false }

-- `iter_mut().find(…)` and the change of what is found.
abbrev pub change_first {ℓ} : {A : Type ℓ} → (A → Bool) → (A → A) → List A → List A
change_first p f [] = []
change_first p f (x ∷ xs) = if p x then f x ∷ xs else x ∷ change_first p f xs

abbrev pub user_of : ℕ → List User → Option User
user_of user_id = find (λ u. u.user_id == user_id)

abbrev pub change_user : ℕ → (User → User) → State → State
change_user user_id f s = record s { users = change_first (λ u. u.user_id == user_id) f s.users }

abbrev pub change_room : ℕ → (Room → Room) → State → State
change_room room_id f s = record s { rooms = change_first (λ r. r.id == room_id) f s.rooms }

abbrev pub same_id : Option ℕ → ℕ → Bool
same_id none b = false
same_id (some a) b = a == b

abbrev pub rebuild_room_tree : State → State
rebuild_room_tree s = record s { room_tree = rebuild s.rooms }
