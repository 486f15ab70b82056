-- ===== src/Persistence/Example.antt =====
-- A small database of crates/server/src/persistence.rs in memory, for the examples.
use rumble.Prelude.{true, none, [], ◌∷◌}
use rumble.Sled.Memory.{memory}
use rumble.Persistence.{Persistence}

abbrev pub two_groups : Persistence
unfolding memory
two_groups = record {
  registered_users = (7, record { username = "ann"; last_room = none }) ∷ [];
  known_keys = [];
  rooms = (5, record { name = "hall"; parent = none; description = ""; permanent = true }) ∷ [];
  groups =
      ("default", record { permissions = 0x8019f }) ∷ ("staff", record { permissions = 0x20 }) ∷ [];
  user_groups = (7, "staff" ∷ "guest" ∷ []) ∷ [];
  group_expiries = ((7, "guest"), 100) ∷ [];
  room_acls =
      (
        5,
        record {
          inherit_acl = true;
          entries =
              record {
                group = "staff";
                grant = 0x40;
                deny = 0x100;
                apply_here = true;
                apply_subs = true;
              }
              ∷ [];
        },
      )
      ∷ [];
  sudo_password = [];
  participant_defaults = [];
  bans = [];
}
