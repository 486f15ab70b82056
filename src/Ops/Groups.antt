-- ===== src/Ops/Groups.antt =====
-- The group operations of crates/server/src/ops.rs: groups and memberships in the database, their
-- mirror on the connected clients, and the updates that go out. The success texts are left out. The
-- `Arc` of a client is the entry of its id, which no two clients share.
pub mod Mirror
mod Tests
use rumble.Prelude.{
  ℕ, Bool, true, false, not, ◌&&◌, ◌||◌, Option, none, some, String, List, [], ◌∷◌, ◌==◌, any,
  if◌then◌else◌, length, elem, text_keys, nat_keys,
}
use rumble.Prelude.Equality.{get?}
use rumble.Prelude.Fallible.{is_some}
use rumble.Permission.{BitFlags, declared, manage_participants}
use rumble.Sled.{Sled}
use rumble.Persistence
use rumble.Persistence.{Persistence, codes, get_group, is_username_registered}
use rumble.Persistence.Memberships
use rumble.Persistence.Memberships.{add_name, drop_name}
use rumble.Ops.{
  ClientHandle, Server, Update, Result, ok, err, broadcast_state_update, set_client, group_changed,
  user_group_changed, not_persisted, group_name_cannot_be_empty, group_name_has_colon,
  builtin_group, group_already_exists, group_is_a_username, group_not_found, no_permission_bits,
  unknown_permission_bits, user_is_not_connected,
}

abbrev pub builtin_groups : List String
builtin_groups = "default" ∷ "admin" ∷ []

abbrev pub Done : Type 0
Done = Result (Unit {0})

-- `identity.set_groups`.
abbrev pub set_groups : (List String → List String) → ClientHandle → ClientHandle
set_groups change c = record c {
  identity = record c.identity { groups = change c.identity.groups };
}

module _ ⦃S : Sled⦄ where
  -- `?` on a write to the database, and what follows it.
  abbrev pub persisted : Option Persistence → Server → (Server → Done × Server) → Done × Server
  persisted none s next = (err not_persisted, s)
  persisted (some p) s next = next (record s { persistence = p })

  -- A loop over a snapshot of the clients: where the test holds, the groups of the client are
  -- changed and an update goes out.
  pub visit_clients :
      (ℕ × ClientHandle → Bool)
      → (List String → List String)
      → (ℕ → Update)
      → List (ℕ × ClientHandle)
      → Server
      → Server
  visit_clients test change update [] s = s
  visit_clients test change update (c ∷ cs) s = visit_clients test change update cs (
      if test c
      then broadcast_state_update (update c.0)
          (record s { clients = set_client c.0 (set_groups change c.1) s.clients })
      else s)

  -- Whether the session of a client was authenticated with a key.
  abbrev pub has_session_key : ℕ → Server → ℕ × ClientHandle → Bool
  has_session_key public_key s c = elim (get? c.0 s.sessions) [
    | none ↦ false
    | some key ↦ key == public_key
  ]

  unfoldable pub apply_create_group : String → ℕ → Server → Done × Server
  apply_create_group name permissions s =
      if length (codes name) == 0
      then (err group_name_cannot_be_empty, s)
      else if any (λ c. c == b':') (codes name)
      then (err group_name_has_colon, s)
      else if elem name builtin_groups
      then (err builtin_group, s)
      else if is_some (get_group name s.persistence)
      then (err group_already_exists, s)
      else if is_username_registered name s.persistence
      then (err group_is_a_username, s)
      else persisted (Persistence.create_group name permissions s.persistence) s
          (λ t. (ok tt, broadcast_state_update (group_changed name permissions false false) t))

  unfoldable pub apply_delete_group : String → Server → Done × Server
  unfolding visit_clients
  apply_delete_group name s =
      if elem name builtin_groups
      then (err builtin_group, s)
      else let scrubbed =
          visit_clients (λ c. elem name c.1.identity.groups) (drop_name name)
            (λ id. user_group_changed id name false 0) s.clients s in
        let cleared = record scrubbed {
          persistence = Memberships.remove_group_from_all_users name scrubbed.persistence;
        } in
        persisted (Persistence.delete_group name cleared.persistence) cleared
          (λ t. (ok tt, broadcast_state_update (group_changed name 0 false true) t))

  pub apply_modify_group : String → ℕ → Server → Done × Server
  apply_modify_group name permissions s =
      elim (Persistence.modify_group name permissions s.persistence) [
        | none ↦ (err not_persisted, s)
        | some (p, found) ↦
            if not found then (err group_not_found, record s { persistence = p }) else (
              ok tt,
              broadcast_state_update
                  (group_changed name permissions (elem name builtin_groups) false)
                  (record s { persistence = p }),
            )
      ]

  -- Adding checks that there is such a group; removing does not.
  abbrev pub refuses_group : Bool → String → Server → Option (Done)
  refuses_group add group s =
      if not add
      then none
      else if is_username_registered group s.persistence
      then some (err group_is_a_username)
      else if not (elem group builtin_groups) && not (is_some (get_group group s.persistence))
      then some (err group_not_found)
      else none

  abbrev pub regroup : Bool → String → List String → List String
  regroup add group = if add then add_name group else drop_name group

  pub apply_set_user_group_by_key : ℕ → String → Bool → ℕ → Server → Done × Server
  unfolding visit_clients
  apply_set_user_group_by_key public_key group add expires_at s = elim (refuses_group add group s) [
    | some refused ↦ (refused, s)
    | none ↦
        persisted
          (if add
            then Memberships.add_user_to_group_with_expiry public_key group expires_at s.persistence
            else Memberships.remove_user_from_group public_key group s.persistence)
          s
          (λ t. (
            ok tt,
            visit_clients (has_session_key public_key s) (regroup add group)
                (λ id. user_group_changed id group add expires_at) t.clients t,
          ))
  ]

  pub apply_set_user_group : ℕ → String → Bool → ℕ → Server → Done × Server
  unfolding apply_set_user_group_by_key
  apply_set_user_group target_user_id group add expires_at s =
      elim (get? target_user_id s.sessions) [
        | none ↦ (err user_is_not_connected, s)
        | some key ↦ apply_set_user_group_by_key key group add expires_at s
      ]

  pub mirror_expired : List (ℕ × String) → Server → Server
  unfolding visit_clients
  mirror_expired [] s = s
  mirror_expired ((key, group) ∷ rest) s = mirror_expired rest (
      visit_clients (has_session_key key s) (drop_name group)
        (λ id. user_group_changed id group false 0) s.clients s)

  -- Returns the number of memberships swept.
  pub sweep_expired_memberships : ℕ → Server → ℕ × Server
  unfolding mirror_expired
  sweep_expired_memberships now_secs s =
      let (expired, p) = Memberships.sweep_expired_memberships now_secs s.persistence in
      (length expired, mirror_expired expired (record s { persistence = p }))

  pub apply_add_controller : ℕ → Server → Done × Server
  unfolding apply_create_group apply_set_user_group_by_key
  apply_add_controller public_key s =
      let (created, t) =
        if is_some (get_group "controllers" s.persistence)
        then (ok tt, s)
        else apply_create_group "controllers" manage_participants s in
      elim created [
        | err e ↦ (err e, t)
        | ok u ↦ apply_set_user_group_by_key public_key "controllers" true 0 t
      ]

module _ ⦃S : Sled⦄ ⦃F : BitFlags⦄ where
  pub apply_toggle_group_permission : String → ℕ → Bool → Server → Done × Server
  apply_toggle_group_permission name bits enable s =
      if bits == 0
      then (err no_permission_bits, s)
      else if not (F.contains declared bits)
      then (err unknown_permission_bits, s)
      else elim (Persistence.toggle_group_permission name bits enable s.persistence) [
        | none ↦ (err not_persisted, s)
        | some (p, none) ↦ (err group_not_found, record s { persistence = p })
        | some (p, some new_permissions) ↦ (
          ok tt,
          broadcast_state_update
              (group_changed name new_permissions (elem name builtin_groups) false)
              (record s { persistence = p }),
        )
      ]
