-- ===== src/Persistence/Memberships/Tests.antt =====
-- The theorems about the group memberships of crates/server/src/persistence.rs at concrete input,
-- over the database in memory.
use rumble.Prelude.{◌≡◌, refl, true, not, some, [], ◌∷◌, retain}
use rumble.Sled.Memory.{memory}
use rumble.Persistence.{Persistence}
use rumble.Persistence.Example.{two_groups}
use rumble.Persistence.Memberships.{
  get_user_groups, get_group_expiry, has_expired, update_user_groups, set_group_expiry,
  add_user_to_group_with_expiry, active_user_groups,
}
use rumble.Persistence.Memberships.Active.{names_once, active_user_groups-retain}

abbrev enlarged : Persistence
unfolding memory
enlarged = record two_groups {
  user_groups = (7, "staff" ∷ "guest" ∷ "crew" ∷ []) ∷ [];
  group_expiries = ((7, "crew"), 500) ∷ ((7, "guest"), 100) ∷ [];
}

add_runs : add_user_to_group_with_expiry 7 "crew" 500 two_groups ≡ some enlarged
unfolding memory add_user_to_group_with_expiry update_user_groups set_group_expiry
add_runs = refl

listed_once : names_once (get_user_groups 7 two_groups) ≡ true
unfolding memory get_user_groups
listed_once = refl

active_user_groups-retain_example :
    (active_user_groups 7 200 two_groups).0
    ≡ retain
        (λ g. not (has_expired 200 (get_group_expiry 7 g two_groups)))
        (get_user_groups 7 two_groups)
active_user_groups-retain_example = active_user_groups-retain 7 200 two_groups listed_once
