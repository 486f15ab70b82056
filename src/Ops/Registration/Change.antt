-- ===== src/Ops/Registration/Change.antt =====
-- The operations of crates/server/src/ops.rs on which usernames and groups meet keep them apart.
use rumble.Prelude.{
  ℕ, ◌≡◌, refl, sym, subst, Bool, true, false, Option, none, some, String, ◌==◌, any, elem,
  text_keys, nat_keys, Bool-cases, Option-cases, inl, inr, length,
}
use rumble.Prelude.Equality.{get?}
use rumble.Prelude.Fallible.{is_some}
use rumble.Sled.{Sled}
use rumble.Persistence.{
  Persistence, RegisteredUser, codes, get_registered_user, get_group, register_user,
  unregister_user, create_group, delete_group, is_username_registered,
}
use rumble.Ops.{Server, ok, broadcast_state_update, group_changed}
use rumble.Ops.Groups.{Done, builtin_groups, persisted, apply_create_group}
use rumble.Ops.Registration.{names_group, apply_register_user, apply_unregister_user}
use rumble.Persistence.Memberships.{remove_group_from_all_users}
use rumble.Persistence.Memberships.Laws.{remove_group_from_all_users-SameUsersAndGroups}
use rumble.Ops.Groups.{apply_delete_group, visit_clients}
use rumble.Ops.Groups.Mirror.{visit_clients_keeps}
use rumble.Ops.{user_group_changed, ClientHandle}
use rumble.Persistence.{delete_group}
use rumble.Persistence.Memberships.{drop_name}
use rumble.Ops.Registration.Names.{
  IsSeparate, register_user-IsSeparate, unregister_user-IsSeparate, create_group-IsSeparate,
  delete_group-IsSeparate, same-IsSeparate,
}

module _ ⦃S : Sled⦄ where
  -- The operations on which usernames and groups meet.
  pub data Change : Type 0 where
    registers : ℕ → Change
    unregisters : ℕ → Change
    creates_group : String → ℕ → Change
    deletes_group : String → Change

  pub change : Change → Server → Server
  change (registers id) s = (apply_register_user id s).1
  change (unregisters id) s = (apply_unregister_user id s).1
  change (creates_group name permissions) s = (apply_create_group name permissions s).1
  change (deletes_group name) s = (apply_delete_group name s).1

  persisted-IsSeparate :
      (stored : Option Persistence) (s : Server) (next : Server → Done × Server)
      → ((t : Server) → (next t).1.persistence ≡ t.persistence)
      → IsSeparate s.persistence
      → ((p : Persistence) → stored ≡ some p → IsSeparate p)
      → IsSeparate (persisted stored s next).1.persistence
  persisted-IsSeparate none s next keeps sep then' = sep
  persisted-IsSeparate (some p) s next keeps sep then' =
      subst IsSeparate (sym (keeps (record s { persistence = p }))) (then' p refl)

  apply_register_user-IsSeparate :
      (id : ℕ) (s : Server)
      → IsSeparate s.persistence
      → IsSeparate (apply_register_user id s).1.persistence
  unfolding apply_register_user
  apply_register_user-IsSeparate id s sep = elim (Option-cases (get? id s.sessions)) [
    | inl absent ↦ rw (apply_register_user, absent) sep
    | inr (key, session) ↦ elim (Option-cases (get? id s.clients)) [
      | inl absent ↦ rw (apply_register_user, session, absent) sep
      | inr (c, connected) ↦ elim (Bool-cases (is_some (get_registered_user key s.persistence))) [
        | inl already ↦ rw (apply_register_user, session, connected, already) sep
        | inr new ↦ elim (Bool-cases (names_group c.identity.display_name s.persistence)) [
          | inl clash ↦ rw (apply_register_user, session, connected, new, clash) sep
          | inr apart ↦
              rw (apply_register_user, session, connected, new, apart)
                (let user : RegisteredUser = record {
                  username = c.identity.display_name;
                  last_room = none;
                } in
                  persisted-IsSeparate (register_user key user s.persistence) s (λ t. (ok tt, t))
                    (λ t. refl) sep
                    (λ p e. register_user-IsSeparate key user s.persistence p e apart sep))
        ]
      ]
    ]
  ]

  apply_unregister_user-IsSeparate :
      (id : ℕ) (s : Server)
      → IsSeparate s.persistence
      → IsSeparate (apply_unregister_user id s).1.persistence
  unfolding apply_unregister_user
  apply_unregister_user-IsSeparate id s sep = elim (Option-cases (get? id s.sessions)) [
    | inl absent ↦ rw (apply_unregister_user, absent) sep
    | inr (key, session) ↦
        rw (apply_unregister_user, session)
          (persisted-IsSeparate (unregister_user key s.persistence) s (λ t. (ok tt, t)) (λ t. refl)
            sep (λ p e. unregister_user-IsSeparate key s.persistence p e sep))
  ]

  apply_create_group-IsSeparate :
      (name : String) (permissions : ℕ) (s : Server)
      → IsSeparate s.persistence
      → IsSeparate (apply_create_group name permissions s).1.persistence
  unfolding apply_create_group
  apply_create_group-IsSeparate name permissions s sep =
      elim (Bool-cases (length (codes name) == 0)) [
        | inl empty ↦ rw (apply_create_group, empty) sep
        | inr named ↦ elim (Bool-cases (any (λ c. c == b':') (codes name))) [
          | inl colon ↦ rw (apply_create_group, named, colon) sep
          | inr plain ↦ elim (Bool-cases (elem name builtin_groups)) [
            | inl builtin ↦ rw (apply_create_group, named, plain, builtin) sep
            | inr custom ↦ elim (Bool-cases (is_some (get_group name s.persistence))) [
              | inl there ↦ rw (apply_create_group, named, plain, custom, there) sep
              | inr missing ↦ elim (Bool-cases (is_username_registered name s.persistence)) [
                | inl user ↦ rw (apply_create_group, named, plain, custom, missing, user) sep
                | inr free ↦
                    rw (apply_create_group, named, plain, custom, missing, free)
                      (persisted-IsSeparate (create_group name permissions s.persistence) s
                        (λ t. (
                          ok tt,
                          broadcast_state_update (group_changed name permissions false false) t,
                        ))
                        (λ t. refl) sep
                        (λ p e.
                          create_group-IsSeparate name permissions s.persistence p e free sep))
              ]
            ]
          ]
        ]
      ]

  apply_delete_group-IsSeparate :
      (name : String) (s : Server)
      → IsSeparate s.persistence
      → IsSeparate (apply_delete_group name s).1.persistence
  unfolding apply_delete_group
  apply_delete_group-IsSeparate name s sep = elim (Bool-cases (elem name builtin_groups)) [
    | inl builtin ↦ rw (apply_delete_group, builtin) sep
    | inr custom ↦
        let test : ℕ × ClientHandle → Bool = λ c. elem name c.1.identity.groups in
        let scrubbed =
          visit_clients test (drop_name name) (λ id. user_group_changed id name false 0) s.clients
            s in
        let (state, kept) =
          visit_clients_keeps test (drop_name name) (λ id. user_group_changed id name false 0)
            s.clients s in
        let before : IsSeparate scrubbed.persistence = subst IsSeparate (sym kept) sep in
        let p = remove_group_from_all_users name scrubbed.persistence in
        let cleared = record scrubbed { persistence = p } in
        let clear : IsSeparate p =
          same-IsSeparate scrubbed.persistence p
            (remove_group_from_all_users-SameUsersAndGroups name scrubbed.persistence) before in
        rw (apply_delete_group, custom)
          (persisted-IsSeparate (delete_group name p) cleared
            (λ t. (ok tt, broadcast_state_update (group_changed name 0 false true) t)) (λ t. refl)
            clear (λ q e. delete_group-IsSeparate name p q e clear))
  ]

  -- When no registered username is the name of a built-in or a stored group, that is so after the
  -- registration or the end of the registration of a user, and after the creation or the deletion
  -- of a group, whatever the outcome of the operation.
  pub change-IsSeparate :
      (c : Change) (s : Server) → IsSeparate s.persistence → IsSeparate (change c s).persistence
  unfolding change
  change-IsSeparate (registers id) s sep = apply_register_user-IsSeparate id s sep
  change-IsSeparate (unregisters id) s sep = apply_unregister_user-IsSeparate id s sep
  change-IsSeparate (creates_group name permissions) s sep =
      apply_create_group-IsSeparate name permissions s sep
  change-IsSeparate (deletes_group name) s sep = apply_delete_group-IsSeparate name s sep
