-- ===== src/Ops/Tests.antt =====
-- The theorems about the room operations of crates/server/src/ops.rs and about `handle_move_room`
-- of crates/server/src/handlers.rs at concrete input, and two requests that the handler grants.
use rumble.Prelude.{
  ◌≡◌, ◌↔◌, refl, true, false, not, ◌&&◌, none, some, [], ◌∷◌, ◌==◌, ==_iff, subst, sym, arith,
  Bool-cases, inl, inr,
}
use rumble.Prelude.Predicates.{mentions}
use rumble.Prelude.Fallible.{is_some}
use rumble.Permission.{modify_room, make_room}
use rumble.Permission.Flags.{native_flags}
use rumble.Sled.Memory.{memory}
use rumble.Persistence.Example.{two_groups}
use rumble.Rooms.{fresh_room, room_exists}
use rumble.Rooms.Invariant.{ids}
use rumble.Rooms.Lookup.{room_exists-mentions}
use rumble.Rooms.Example.{small_house}
use rumble.Ops.{
  ClientHandle, Server, moved, apply_delete_room, closes_cycle, handle_move_room, refusal,
}
use rumble.Ops.Tree.{Climb, at_root, below, IsTree}
use rumble.Ops.Guard.{closes_cycle-Climb}
use rumble.Ops.Moves.{handle_move_room-IsTree, handle_move_room_lem}
use rumble.Ops.Deletion.{apply_delete_room-IsTree}

abbrev house : Server
house = record {
  state = small_house;
  clients = [];
  persistence = two_groups;
  sessions = [];
  sent = [];
}

abbrev guest : ClientHandle
guest = record {
  identity = record { display_name = "guest"; verified_username = none; label = none; groups = [] };
  is_superuser = false;
  server_muted = false;
  manually_server_muted = false;
}

hall-Climb : Climb small_house.rooms 5 (5 ∷ [])
hall-Climb = below {r = fresh_room 5 "hall" 0 none} refl refl (at_root refl)

booth-Climb : Climb small_house.rooms 6 (6 ∷ 5 ∷ [])
booth-Climb = below {r = fresh_room 6 "booth" 5 none} refl refl hall-Climb

small_house-IsTree : IsTree small_house.rooms
small_house-IsTree = record {
  top = refl;
  climbs = λ x listed. elim (Bool-cases (x == 0)) [
    | inl root ↦ ([], at_root root)
    | inr low ↦ elim (Bool-cases (x == 5)) [
      | inl hall ↦ (
        5 ∷ [],
        subst (λ t. Climb small_house.rooms t (5 ∷ [])) (sym ((==_iff x 5).0 hall)) hall-Climb,
      )
      | inr other ↦
          let booth : x ≡ 6 = ground arith in
          (6 ∷ 5 ∷ [], subst (λ t. Climb small_house.rooms t (6 ∷ 5 ∷ [])) (sym booth) booth-Climb)
    ]
  ];
}

closes_cycle-Climb_example : closes_cycle 3 small_house.rooms 5 (some 6) ≡ true
closes_cycle-Climb_example = closes_cycle-Climb small_house.rooms 5 refl refl booth-Climb

apply_delete_room-IsTree_example : IsTree (apply_delete_room 5 house).1.state.rooms
apply_delete_room-IsTree_example = apply_delete_room-IsTree 5 house refl refl small_house-IsTree

root_exists : room_exists 0 small_house ≡ true
root_exists = ground (arith, room_exists-mentions 0 small_house)

handle_move_room-IsTree_example :
    IsTree
      (handle_move_room
        (record { room_id = some 6; new_parent_id = none })
        guest
        house).1.state.rooms
handle_move_room-IsTree_example =
    handle_move_room-IsTree (record { room_id = some 6; new_parent_id = none }) guest house refl
      root_exists small_house-IsTree

handle_move_room_lem_example :
    ((handle_move_room (record { room_id = some 5; new_parent_id = some 6 }) guest house).0 ≡ moved)
    ↔ ((not (is_some (refusal guest house 5 modify_room))
          && not (is_some (refusal guest house 6 make_room))
          && mentions 5 (ids small_house.rooms)
          && not (mentions 5 (6 ∷ 5 ∷ [])))
        ≡ true)
handle_move_room_lem_example =
    handle_move_room_lem (record { room_id = some 5; new_parent_id = some 6 }) guest house
      (6 ∷ 5 ∷ []) refl small_house-IsTree booth-Climb
