-- ===== src/Ops/Groups/Tests.antt =====
-- The group operations of crates/server/src/ops.rs at concrete input.
use rumble.Prelude.{◌≡◌, refl, ap, true, false, not, none, [], ◌∷◌, map, elem, text_keys}
use rumble.Prelude.Predicates.{every}
use rumble.Sled.Memory.{memory}
use rumble.Persistence.Example.{two_groups}
use rumble.Persistence.{is_username_registered}
use rumble.Persistence.Memberships.{
  add_user_to_group_with_expiry, update_user_groups, set_group_expiry, add_name, get_user_groups,
}
use rumble.Rooms.Example.{small_house}
use rumble.Ops.{ClientHandle, Server, ok}
use rumble.Ops.Groups.{Done, has_session_key, apply_set_user_group_by_key, apply_delete_group}
use rumble.Ops.Groups.Mirror.{
  regrouped, apply_set_user_group_by_key_adds, apply_delete_group-clients,
}

abbrev ann : ClientHandle
ann = record {
  identity = record {
    display_name = "ann";
    verified_username = none;
    label = none;
    groups = "staff" ∷ [];
  };
  is_superuser = false;
  server_muted = false;
  manually_server_muted = false;
}

-- Two users, of whom the second's session has the key 7.
abbrev house : Server
house = record {
  state = small_house;
  clients = (1, ann) ∷ (2, ann) ∷ [];
  persistence = two_groups;
  sessions = (1, 3) ∷ (2, 7) ∷ [];
  sent = [];
}

abbrev added : Done × Server
added = apply_set_user_group_by_key 7 "default" true 50 house

added_ok : added.0 ≡ ok tt
unfolding apply_set_user_group_by_key is_username_registered add_user_to_group_with_expiry
    update_user_groups set_group_expiry memory
added_ok = refl

apply_set_user_group_by_key_adds_example :
    (added.1.clients ≡ map (regrouped (has_session_key 7 house) (add_name "default")) house.clients)
    × (get_user_groups 7 added.1.persistence ≡ add_name "default" (get_user_groups 7 two_groups))
    × (added.1.state ≡ small_house)
apply_set_user_group_by_key_adds_example =
    apply_set_user_group_by_key_adds 7 "default" 50 house added.1 refl
      (ap (λ (e : Done). (e, added.1)) added_ok)

apply_delete_group-clients_example :
    every (λ c. not (elem "staff" c.1.identity.groups)) (apply_delete_group "staff" house).1.clients
    ≡ true
apply_delete_group-clients_example = apply_delete_group-clients "staff" house refl refl
