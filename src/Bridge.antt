-- ===== src/Bridge.antt =====
-- crates/mumble-bridge/src/state.rs: the maps of the bridge between the rooms and users of the
-- server and the channels and sessions of Mumble. A `u32` counter that is at its end wraps. The
-- cached copies of the server's rooms and users and the connection flags are left out.
pub mod Channels
pub mod Users
mod Tests
use rumble.Prelude.{
  ℕ, ◌+◌, ◌%◌, ◌^◌, Option, none, some, List, [], ◌∷◌, map, ◌==◌, if◌then◌else◌, nat_keys,
}
use rumble.Prelude.Equality.{get?, insert, remove}
use rumble.Rooms.{root_room_uuid}

pub record ChannelMap : Type 0 where
  pub rumble_to_mumble : List (ℕ × ℕ)
  pub mumble_to_rumble : List (ℕ × ℕ)
  pub next_id : ℕ

-- Channel 0 is the root channel.
pub new_channels : ChannelMap
new_channels = record { rumble_to_mumble = []; mumble_to_rumble = []; next_id = 1 }

-- A UUID and an id point at each other.
abbrev pub link : ℕ → ℕ → ChannelMap → ChannelMap
link uuid id m = record m {
  rumble_to_mumble = insert uuid id m.rumble_to_mumble;
  mumble_to_rumble = insert id uuid m.mumble_to_rumble;
}

pub get_or_insert : ℕ → ChannelMap → ℕ × ChannelMap
get_or_insert uuid m =
    if uuid == root_room_uuid then (0, link uuid 0 m) else elim (get? uuid m.rumble_to_mumble) [
      | some id ↦ (id, m)
      | none ↦ (m.next_id, link uuid m.next_id (record m { next_id = (m.next_id + 1) % 2 ^ 32 }))
    ]

pub get_mumble_id : ℕ → ChannelMap → Option ℕ
get_mumble_id uuid m = get? uuid m.rumble_to_mumble

pub get_rumble_uuid : ℕ → ChannelMap → Option ℕ
get_rumble_uuid mumble_id m = get? mumble_id m.mumble_to_rumble

pub remove_by_uuid : ℕ → ChannelMap → ChannelMap
remove_by_uuid uuid m = elim (get? uuid m.rumble_to_mumble) [
  | none ↦ m
  | some id ↦ record m {
    rumble_to_mumble = remove uuid m.rumble_to_mumble;
    mumble_to_rumble = remove id m.mumble_to_rumble;
  }
]

pub record UserMap : Type 0 where
  pub rumble_to_mumble : List (ℕ × ℕ)
  pub mumble_to_rumble : List (ℕ × ℕ)
  pub next_session : ℕ

-- The sessions of users of the server start above those of Mumble clients.
pub new_users : UserMap
new_users = record { rumble_to_mumble = []; mumble_to_rumble = []; next_session = 100000 }

pub get_or_insert_user : ℕ → UserMap → ℕ × UserMap
get_or_insert_user rumble_id m = elim (get? rumble_id m.rumble_to_mumble) [
  | some session ↦ (session, m)
  | none ↦ (
    m.next_session,
    record {
      rumble_to_mumble = insert rumble_id m.next_session m.rumble_to_mumble;
      mumble_to_rumble = insert m.next_session rumble_id m.mumble_to_rumble;
      next_session = (m.next_session + 1) % 2 ^ 32;
    },
  )
]

pub get_mumble_session : ℕ → UserMap → Option ℕ
get_mumble_session rumble_id m = get? rumble_id m.rumble_to_mumble

pub get_rumble_id : ℕ → UserMap → Option ℕ
get_rumble_id session m = get? session m.mumble_to_rumble

pub remove_by_rumble_id : ℕ → UserMap → UserMap
remove_by_rumble_id rumble_id m = elim (get? rumble_id m.rumble_to_mumble) [
  | none ↦ m
  | some session ↦ record m {
    rumble_to_mumble = remove rumble_id m.rumble_to_mumble;
    mumble_to_rumble = remove session m.mumble_to_rumble;
  }
]
