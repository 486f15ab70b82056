-- ===== src/Wire/Tests.antt =====
-- The wire records of crates/rumble-protocol/src/types.rs at concrete input.
use rumble.Prelude.{ℕ, List, ◌≡◌, refl, false, none, some, [], ◌∷◌}
use rumble.Rooms.{fresh_room}
use rumble.Wire.{
  RegisteredUser, registered_from_proto, registered_to_proto, to_hash_input, room_from_proto,
  room_to_proto,
}

abbrev key : List ℕ
key =
    1 ∷ 2 ∷ 3 ∷ 4 ∷ 5 ∷ 6 ∷ 7 ∷ 8 ∷ 1 ∷ 2 ∷ 3 ∷ 4 ∷ 5 ∷ 6 ∷ 7 ∷ 8 ∷ 1 ∷ 2 ∷ 3 ∷ 4 ∷ 5 ∷ 6 ∷ 7 ∷ 8
    ∷ 1 ∷ 2 ∷ 3 ∷ 4 ∷ 5 ∷ 6 ∷ 7 ∷ 8 ∷ []

abbrev entry : RegisteredUser
entry = record {
  public_key = key;
  username = "ann";
  groups =
      record { group = "staff"; expires_at = none }
      ∷ record { group = "guest"; expires_at = some 90 }
      ∷ [];
  online = false;
}

room_without_id :
    room_from_proto (record (room_to_proto (fresh_room 5 "hall" 0 none)) { id = none }) ≡ none
room_without_id = refl

registered_back : registered_from_proto (registered_to_proto entry) ≡ some entry
registered_back = refl

permissions_unseen :
    to_hash_input (fresh_room 5 "hall" 0 none)
    ≡ to_hash_input (record (fresh_room 5 "hall" 0 none) { effective_permissions = 7 })
permissions_unseen = refl
