-- ===== src/Ops/Registration.antt =====
-- The registration of a connected user: `apply_register_user` and `apply_unregister_user` of
-- crates/server/src/ops.rs. The success texts are left out.
pub mod Names
pub mod Change
mod Tests
use rumble.Prelude.{
  ℕ, Bool, true, false, ◌||◌, Option, none, some, String, if◌then◌else◌, elem, text_keys, nat_keys,
}
use rumble.Prelude.Equality.{get?}
use rumble.Prelude.Fallible.{is_some}
use rumble.Sled.{Sled}
use rumble.Persistence.{Persistence, get_registered_user, get_group, register_user, unregister_user}
use rumble.Ops.{
  Server, Result, ok, err, not_persisted, user_not_found, already_registered, username_is_a_group,
}
use rumble.Ops.Groups.{Done, builtin_groups, persisted}

module _ ⦃S : Sled⦄ where
  -- Whether a username is the name of a group.
  abbrev pub names_group : String → Persistence → Bool
  names_group username p = elem username builtin_groups || is_some (get_group username p)

  pub apply_register_user : ℕ → Server → Done × Server
  apply_register_user target_user_id s = elim (get? target_user_id s.sessions) [
    | none ↦ (err user_not_found, s)
    | some target_key ↦ elim (get? target_user_id s.clients) [
      | none ↦ (err user_not_found, s)
      | some target_client ↦
          let username = target_client.identity.display_name in
          if is_some (get_registered_user target_key s.persistence)
          then (err already_registered, s)
          else if names_group username s.persistence
          then (err username_is_a_group, s)
          else persisted
              (register_user target_key (record { username = username; last_room = none })
                s.persistence)
              s (λ t. (ok tt, t))
    ]
  ]

  pub apply_unregister_user : ℕ → Server → Done × Server
  apply_unregister_user target_user_id s = elim (get? target_user_id s.sessions) [
    | none ↦ (err user_not_found, s)
    | some target_key ↦ persisted (unregister_user target_key s.persistence) s (λ t. (ok tt, t))
  ]
