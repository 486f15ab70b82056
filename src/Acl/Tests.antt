-- ===== src/Acl/Tests.antt =====
-- The theorems about crates/server/src/acl.rs at concrete input.
use rumble.Prelude.{
  ℕ, zero, suc, ◌≡◌, refl, true, false, ◌&&◌, none, some, [], ◌∷◌, text_keys, arith,
}
use rumble.Prelude.Bits.{has, has-zero}
use rumble.Permission.{declared, enter, all}
use rumble.Permission.Flags.{native_flags}
use rumble.Sled.Memory.{memory}
use rumble.Persistence.{list_groups}
use rumble.Persistence.Memberships.{get_room_acl}
use rumble.Persistence.Example.{two_groups}
use rumble.Rooms.{fresh_room}
use rumble.Rooms.Example.{small_house}
use rumble.Acl.{
  Identity, walk_up, room_path, build_room_chain_owned, user_groups_of, group_permissions,
  check_permission,
}
use rumble.Acl.Chain.{starts_at_root, is_route, room_path-is_route}
use rumble.Acl.Check.{permits, check_permission_sound, check_permission_complete}

abbrev ann : Identity
ann = record {
  display_name = "Ann";
  verified_username = some "ann";
  label = none;
  groups = "staff" ∷ [];
}

path_of_booth : room_path small_house.rooms 6 ≡ some (0 ∷ 5 ∷ 6 ∷ [])
unfolding room_path walk_up
path_of_booth = refl

-- Two rooms that parent each other.
room_path-is_route_example :
    (starts_at_root (room_path (fresh_room 8 "a" 9 none ∷ fresh_room 9 "b" 8 none ∷ []) 8)
      && is_route
          (fresh_room 8 "a" 9 none ∷ fresh_room 9 "b" 8 none ∷ [])
          8
          (room_path (fresh_room 8 "a" 9 none ∷ fresh_room 9 "b" 8 none ∷ []) 8))
    ≡ true
room_path-is_route_example =
    room_path-is_route (fresh_room 8 "a" 9 none ∷ fresh_room 9 "b" 8 none ∷ []) 8

flag-declared : (k : ℕ) → has enter k ≡ true → has declared k ≡ true
flag-declared zero h = absurd (ground (arith, h))
flag-declared (suc zero) h = refl
flag-declared (suc (suc k)) h = absurd (ground (arith, h, has-zero k))

enter_permitted : (k : ℕ) → has enter k ≡ true → permits small_house ann 6 two_groups k ≡ true
unfolding memory native_flags build_room_chain_owned room_path walk_up user_groups_of
    group_permissions list_groups get_room_acl
enter_permitted zero h = absurd (ground (arith, h))
enter_permitted (suc zero) h = refl
enter_permitted (suc (suc k)) h = absurd (ground (arith, h, has-zero k))

check_permission_complete_example : check_permission small_house false ann 6 enter two_groups ≡ none
check_permission_complete_example =
    check_permission_complete small_house ann 6 enter two_groups flag-declared enter_permitted

check_permission_sound_example : permits small_house ann 6 two_groups 1 ≡ true
check_permission_sound_example =
    check_permission_sound small_house ann 6 enter two_groups 1
      (check_permission_complete small_house ann 6 enter two_groups flag-declared enter_permitted)
      refl refl

enter_in_all : (k : ℕ) → has enter k ≡ true → has all k ≡ true
unfolding native_flags
enter_in_all zero h = absurd (ground (arith, h))
enter_in_all (suc zero) h = refl
enter_in_all (suc (suc k)) h = absurd (ground (arith, h, has-zero k))
