-- ===== src/Bridge/Tests.antt =====
-- The theorems about the maps of crates/mumble-bridge/src/state.rs at concrete input.
use rumble.Prelude.{◌≡◌, refl, ◌<◌, ◌+◌, ◌^◌, arith}
use rumble.Bridge.{new_channels, get_or_insert, remove_by_uuid, new_users, get_or_insert_user}
use rumble.Bridge.Channels.{AreInverse, fresh_map, asked, dropped, ChannelHistory-AreInverse}
use rumble.Bridge.Users.{
  ArePaired, asks, forgets, user_step, begins, then_calls, UserHistory-ArePaired,
}

one_room : (get_or_insert 7 new_channels).0 ≡ 1
unfolding get_or_insert new_channels
one_room = refl

room_left : new_channels.next_id + 1 < 2 ^ 32
unfolding new_channels
room_left = omega arith

sessions_left : new_users.next_session + 1 < 2 ^ 32
unfolding new_users
sessions_left = omega arith

more_left : (user_step (asks 4) new_users).next_session + 1 < 2 ^ 32
unfolding user_step new_users get_or_insert_user
more_left = omega arith

UserHistory-ArePaired_example : ArePaired (user_step (forgets 4) (user_step (asks 4) new_users))
UserHistory-ArePaired_example =
    UserHistory-ArePaired
      (then_calls (then_calls begins (asks 4) sessions_left) (forgets 4) more_left)

ChannelHistory-AreInverse_example : AreInverse (remove_by_uuid 7 (get_or_insert 7 new_channels).1)
ChannelHistory-AreInverse_example =
    ChannelHistory-AreInverse (dropped 7 (asked 7 room_left fresh_map))
