-- ===== src/Client/Permissions/Equivalence.antt =====
-- The permissions that the client shows (crates/rumble-client/src/projection.rs) are those that the
-- server checks (crates/server/src/acl.rs).
use rumble.Prelude.{
  ℕ, ◌≡◌, refl, sym, ap, ◌∙◌, not, ◌&&◌, Option, none, some, String, List, [], ◌∷◌, map, ◌==◌, find,
  nat_keys, text_keys, Option-cases, inl, inr,
}
use rumble.Prelude.Equality.{insert}
use rumble.Permission.{BitFlags}
use rumble.Permission.Effective.{effective_permissions}
use rumble.Sled.{Sled}
use rumble.Persistence.{Persistence, PersistedGroup, PersistedRoomAcl, list_groups}
use rumble.Persistence.Memberships.{get_room_acl}
use rumble.Rooms.{Room, RoomAclEntry, StateData}
use rumble.Acl.{
  Identity, room_path, load_acl, load_entry, build_room_chain_owned, group_permissions,
  user_groups_of, evaluate_identity_permissions,
}
use rumble.Ops.Tree.{Climb}
use rumble.Ops.AclSave.{stored, stored_acl}
use rumble.Wire.{User, Group}
use rumble.Sync.{hash_rooms}
use rumble.Client.Permissions.{
  is_empty, entry_of, acl_of, build_room_chain, groups_of, group_table, effective_in,
}
use rumble.Client.Permissions.Agreement.{chain_path-room_path}
use rumble.Client.Permissions.Unseen.{effective_in_same, map-same}

-- The list that a room of the live state has, as it is stored: none if it has no entries.
abbrev pub listed_acl : List Room → ℕ → Option PersistedRoomAcl
listed_acl rooms x = elim (find (λ r. r.id == x && not (is_empty r.acls)) rooms) [
  | none ↦ none
  | some r ↦ some (stored_acl r.inherit_acl r.acls)
]

abbrev pub as_stored : Group → String × PersistedGroup
as_stored g = (g.name, record { permissions = g.permissions })

module _ ⦃F : BitFlags⦄ ⦃S : Sled⦄ where
  group_table-group_permissions :
      (groups : List Group) (table : List (String × ℕ))
      → group_table groups table ≡ group_permissions (map as_stored groups) table
  unfolding group_table group_permissions
  group_table-group_permissions [] table = refl
  group_table-group_permissions (g ∷ groups) table =
      group_table-group_permissions groups
        (insert g.name (F.from_bits_truncate g.permissions) table)

  entries_same : (es : List RoomAclEntry) → map entry_of es ≡ map load_entry (map stored es)
  entries_same [] = refl
  entries_same (e ∷ es) = ap (λ rest. entry_of e ∷ rest) (entries_same es)

  acl_of-listed_acl : (rooms : List Room) (x : ℕ) → acl_of rooms x ≡ load_acl (listed_acl rooms x)
  unfolding acl_of
  acl_of-listed_acl rooms x =
      elim (Option-cases (find (λ (r : Room). r.id == x && not (is_empty r.acls)) rooms)) [
        | inl e ↦ rw (acl_of, load_acl, listed_acl, e) refl
        | inr (r, e) ↦
            rw (acl_of, load_acl, listed_acl, e)
              (ap (λ es. some (record { inherit_acl = r.inherit_acl; entries = es }))
                (entries_same r.acls))
      ]

  chain_same :
      (rooms : List Room) (p : Persistence) {x : ℕ} {xs : List ℕ}
      → Climb rooms x xs
      → ((y : ℕ) → get_room_acl y p ≡ listed_acl rooms y)
      → build_room_chain rooms x ≡ build_room_chain_owned rooms x p
  unfolding build_room_chain build_room_chain_owned
  chain_same rooms p {x} c stored' = elim (Option-cases (room_path rooms x)) [
    | inl stuck ↦
        rw (build_room_chain, build_room_chain_owned, chain_path-room_path rooms c, stuck) refl
    | inr (path, e) ↦
        rw (build_room_chain, build_room_chain_owned, chain_path-room_path rooms c, e)
          (map-same (λ room. (room, acl_of rooms room))
            (λ room. (room, load_acl (get_room_acl room p)))
            (λ room.
              ap (λ o. (room, o)) (acl_of-listed_acl rooms room ∙ ap load_acl (sym (stored' room))))
            path)
  ]

  groups_same :
      (identity : Identity) (me : User)
      → identity.verified_username ≡ some me.username
      → identity.groups ≡ me.groups
      → user_groups_of identity ≡ groups_of (some me)
  unfolding user_groups_of groups_of
  groups_same identity me verified assigned = rw (user_groups_of, verified, assigned) refl

  -- Let the client hold the rooms of the server, which form a tree, as the hash of a state reads
  -- them, and the groups of the database; let the database hold the access control list of every
  -- room that has entries and no other list, and let the user be verified under the name and with
  -- the groups that the client shows. Then the permissions that the client computes for a room are
  -- those that the server evaluates for the user.
  pub effective_in-evaluate_identity_permissions :
      (rooms : List Room) (state : StateData) (identity : Identity) (me : User)
      (groups : List Group) (p : Persistence) {x : ℕ} {xs : List ℕ}
      → Climb state.rooms x xs
      → hash_rooms rooms ≡ hash_rooms state.rooms
      → ((y : ℕ) → get_room_acl y p ≡ listed_acl state.rooms y)
      → list_groups p ≡ map as_stored groups
      → identity.verified_username ≡ some me.username
      → identity.groups ≡ me.groups
      → effective_in (some me) groups rooms x
        ≡ evaluate_identity_permissions state me.is_elevated identity x p
  unfolding effective_in evaluate_identity_permissions groups_of user_groups_of
  effective_in-evaluate_identity_permissions rooms state identity me groups p {x} c same stored'
        listed verified assigned =
      effective_in_same (some me) groups rooms state.rooms x same
      ∙ ap
          (λ gs.
            effective_permissions gs (group_table groups []) (build_room_chain state.rooms x)
              me.is_elevated)
          (sym (groups_same identity me verified assigned))
      ∙ ap
          (λ table.
            effective_permissions (user_groups_of identity) table (build_room_chain state.rooms x)
              me.is_elevated)
          (group_table-group_permissions groups []
            ∙ ap (λ gs. group_permissions gs []) (sym listed))
      ∙ ap
          (λ ch.
            effective_permissions (user_groups_of identity) (group_permissions (list_groups p) [])
              ch me.is_elevated)
          (chain_same state.rooms p c stored')
