-- ===== src/Rooms/Tests.antt =====
-- The theorems about `StateData` (crates/server/src/state.rs) at concrete input.
use rumble.Prelude.{◌≡◌, refl, true, false, none}
use rumble.Prelude.Predicates.{mentions}
use rumble.Rooms.{StateData, new, room_exists, create_room_with_parent_desc, set_user_room}
use rumble.Rooms.Invariant.{
  IsValid, ids, enters, creates_room, step, start, next, Reachable-IsValid,
}

-- A user enters Root, a room is made, and a second user enters it.
abbrev busy : StateData
busy = step (enters 2 5) (step (creates_room 5 "hall" 0 none) (step (enters 1 0) new))

root_exists : room_exists 0 new ≡ true
unfolding room_exists
root_exists = refl

hall_is_new : mentions 5 (ids (step (enters 1 0) new).rooms) ≡ false
unfolding step set_user_room new
hall_is_new = refl

hall_exists : room_exists 5 (step (creates_room 5 "hall" 0 none) (step (enters 1 0) new)) ≡ true
unfolding step create_room_with_parent_desc set_user_room new room_exists
hall_exists = refl

Reachable-IsValid_example : IsValid busy
Reachable-IsValid_example = Reachable-IsValid (
    next (next (next start (enters 1 0) root_exists) (creates_room 5 "hall" 0 none) hall_is_new)
      (enters 2 5) hall_exists)
