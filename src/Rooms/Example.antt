-- ===== src/Rooms/Example.antt =====
-- A small room tree of crates/server/src/state.rs, for the examples: Root, the hall 5 below it, and
-- the room 6 in the hall.
use rumble.Prelude.{◌≡◌, refl, true, false, none, some, [], ◌∷◌}
use rumble.Rooms.{
  StateData, fresh_room, get_user_room, get_user_status, default_status, group_by_room,
  snapshot_voice_routing,
}
use rumble.Rooms.Invariant.{IsValid}

abbrev pub small_house : StateData
small_house = record {
  rooms =
      fresh_room 0 "Root" 0 none ∷ fresh_room 5 "hall" 0 none ∷ fresh_room 6 "booth" 5 none ∷ [];
  memberships = (1, 5) ∷ (2, 6) ∷ (3, 5) ∷ [];
  user_statuses =
      (2, record { is_muted = true; is_deafened = true; server_muted = false; is_elevated = false })
      ∷ [];
}

pub small_house-IsValid : IsValid small_house
small_house-IsValid = record {
  one_room = refl;
  one_status = refl;
  one_id = refl;
  rooted = refl;
  placed = refl;
}

pub small_house_one :
    (get_user_room 1 small_house ≡ some 5) × (get_user_status 1 small_house ≡ default_status)
unfolding get_user_room get_user_status
small_house_one = (refl, refl)

pub small_house_routing :
    snapshot_voice_routing small_house ≡ ((5, 1 ∷ 3 ∷ []) ∷ (6, 2 ∷ []) ∷ [], 2 ∷ [])
unfolding snapshot_voice_routing group_by_room
small_house_routing = refl
