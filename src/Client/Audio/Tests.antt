-- ===== src/Client/Audio/Tests.antt =====
-- The audio task of crates/rumble-client at concrete input.
use rumble.Prelude.{◌*◌, ◌^◌, ◌≡◌, ℕ, refl, false, none, some, [], ◌∷◌, arith}
use rumble.Wire.{User}
use rumble.Client.{State, user_moved, mutate}
use rumble.Client.Tree.{rebuild}
use rumble.Client.Audio.{hear_all, gc_orphaned_users}
use rumble.Client.Audio.Tracking.{Tracks, mutate_tracked}

abbrev visitor : ℕ → ℕ → User
visitor id room = record {
  user_id = id;
  username = "visitor";
  current_room = room;
  is_muted = false;
  is_deafened = false;
  server_muted = false;
  is_elevated = false;
  groups = [];
  label = none;
}

-- We are user 1; user 2 is with us in room 5, user 3 elsewhere.
abbrev here : State
here = record {
  rooms = [];
  users = visitor 1 5 ∷ visitor 2 5 ∷ visitor 3 0 ∷ [];
  my_user_id = some 1;
  my_room_id = some 5;
  room_tree = rebuild [];
  effective_permissions = 0;
  per_room_permissions = [];
  group_definitions = [];
  slash_commands = [];
  registered_users = [];
}

orphan_goes :
    gc_orphaned_users (2 ∷ []) (400 * 10 ^ 9) ((2, 0) ∷ (9, 0) ∷ (8, 200 * 10 ^ 9) ∷ [])
    ≡ (2, 0) ∷ (8, 200 * 10 ^ 9) ∷ []
unfolding gc_orphaned_users
orphan_goes = refl

here-Tracks : Tracks 1 (2 ∷ []) (some 5) here.users
here-Tracks id = ground arith

mutate_tracked_example :
    Tracks 1
      (hear_all 1 (mutate (user_moved 3 (some 5)) here).audio (2 ∷ []))
      (mutate (user_moved 3 (some 5)) here).state.my_room_id
      (mutate (user_moved 3 (some 5)) here).state.users
mutate_tracked_example =
    mutate_tracked 1 (user_moved 3 (some 5)) here (2 ∷ []) refl refl refl here-Tracks
