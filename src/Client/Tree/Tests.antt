-- ===== src/Client/Tree/Tests.antt =====
-- The room tree of crates/rumble-client/src/events.rs at concrete input.
use rumble.Prelude.{◌≡◌, refl, ◌==◌, ◌||◌, length, true, some, [], ◌∷◌}
use rumble.Rooms.Example.{small_house}
use rumble.Ops.{closes_cycle}
use rumble.Ops.Tree.{Climb, at_root, below}
use rumble.Client.Tree.{rebuild, is_ancestor, children, depth, ancestors}
use rumble.Client.Tree.Ancestors.{closes_cycle-is_ancestor}

booth_climbs : Climb small_house.rooms 6 (6 ∷ 5 ∷ [])
booth_climbs = below refl refl (below refl refl (at_root refl))

-- The hall under the booth in it.
closes_cycle-is_ancestor_example :
    closes_cycle (length small_house.rooms) small_house.rooms 5 (some 6)
    ≡ (6 == 5 || is_ancestor 5 6 (rebuild small_house.rooms))
closes_cycle-is_ancestor_example =
    closes_cycle-is_ancestor small_house.rooms 5 refl refl refl booth_climbs

hall_above_booth :
    (is_ancestor 5 6 (rebuild small_house.rooms) ≡ true)
    × (depth 6 (rebuild small_house.rooms) ≡ 2)
    × (children 5 (rebuild small_house.rooms) ≡ 6 ∷ [])
unfolding is_ancestor depth children ancestors rebuild
hall_above_booth = (refl, refl, refl)
