-- ===== src/Persistence/Tests.antt =====
-- The theorems about crates/server/src/persistence.rs at concrete input, over the database in
-- memory.
use rumble.Prelude.{◌≡◌, refl, true, false, none, some, [], ◌∷◌}
use rumble.Sled.Memory.{memory}
use rumble.Persistence.{Persistence, get_group, toggle_group_permission}
use rumble.Persistence.Example.{two_groups}

-- The staff loses one flag and gains none.
abbrev toggled_store : Persistence
unfolding memory
toggled_store = record two_groups {
  groups =
      ("staff", record { permissions = 0 }) ∷ ("default", record { permissions = 0x8019f }) ∷ [];
}

toggle_runs : toggle_group_permission "staff" 0x20 false two_groups ≡ some (toggled_store, some 0)
unfolding memory toggle_group_permission
toggle_runs = refl

staff_there : get_group "staff" two_groups ≡ some (record { permissions = 0x20 })
unfolding memory get_group
staff_there = refl

ghost_missing : get_group "ghost" two_groups ≡ none
unfolding memory get_group
ghost_missing = refl

ghost_toggle : toggle_group_permission "ghost" 0x20 true two_groups ≡ some (two_groups, none)
unfolding memory toggle_group_permission
ghost_toggle = refl
