-- ===== src/Ops/State.antt =====
-- What the operations of crates/server/src/ops.rs read and write: the state behind its lock, the
-- connected clients, the database, the sessions, and the updates broadcast so far.
use rumble.Prelude.{ℕ, Bool, Option, String, List}
use rumble.Sled.{Sled}
use rumble.Persistence.{Persistence}
use rumble.Rooms.{Room, RoomAclEntry, UserStatus, StateData}
use rumble.Acl.{Identity}

-- A connected client, as far as these operations read or write it.
pub record ClientHandle : Type 0 where
  pub identity : Identity
  pub is_superuser : Bool
  pub server_muted : Bool
  pub manually_server_muted : Bool

pub data Update : Type 0 where
  room_created : Room → Update
  room_moved : Option ℕ → Option ℕ → Update
  room_deleted : ℕ → ℕ → Update
  room_renamed : ℕ → String → Update
  room_description_changed : ℕ → String → Update
  user_status_changed : ℕ → UserStatus → Update
  -- The group, its permissions, whether it is built in and whether it was deleted.
  group_changed : String → ℕ → Bool → Bool → Update
  -- The user, the group, whether it was added, and when the membership ends.
  user_group_changed : ℕ → String → Bool → ℕ → Update
  room_acl_changed : ℕ → Bool → List RoomAclEntry → Update

pub record Server ⦃S : Sled⦄ : Type 1 where
  pub state : StateData
  pub clients : List (ℕ × ClientHandle)
  pub persistence : Persistence
  -- The long-term key of each user's session.
  pub sessions : List (ℕ × ℕ)
  pub sent : List (Update × StateData)

-- `Result<Uuid, String>` and the like, without the text of the error.
pub data OpError : Type 0 where
  parent_room_does_not_exist : OpError
  cannot_delete_the_root_room : OpError
  room_not_found : OpError
  group_name_cannot_be_empty : OpError
  group_name_has_colon : OpError
  builtin_group : OpError
  group_already_exists : OpError
  group_is_a_username : OpError
  group_not_found : OpError
  no_permission_bits : OpError
  unknown_permission_bits : OpError
  user_is_not_connected : OpError
  acl_conflict : OpError
  user_not_found : OpError
  already_registered : OpError
  username_is_a_group : OpError
  not_persisted : OpError

pub data Result {ℓ} (A : Type ℓ) : Type ℓ where
  ok : A → Result A
  err : OpError → Result A
