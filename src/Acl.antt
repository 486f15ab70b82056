-- ===== src/Acl.antt =====
-- crates/server/src/acl.rs: the chain of rooms from Root to a target, the groups that a member acts
-- with, and the permission check of the handlers. `Identity` is of crates/server/src/state.rs.
pub mod Chain
pub mod Check
mod Tests
use rumble.Prelude.{
  ℕ, zero, suc, ◌+◌, Bool, true, false, not, ◌&&◌, Option, none, some, String, List, [], ◌∷◌, ◌++◌,
  map, ◌==◌, ltb, if◌then◌else◌, find, length, elem, nat_keys, text_keys,
}
use rumble.Prelude.Equality.{insert}
use rumble.Permission.{BitFlags, AclEntry, RoomAclData}
use rumble.Permission.Effective.{effective_permissions}
use rumble.Sled.{Sled}
use rumble.Persistence.{
  Persistence, PersistedAclEntry, PersistedRoomAcl, PersistedGroup, list_groups,
}
use rumble.Persistence.Memberships.{get_room_acl}
use rumble.Rooms.{Room, StateData, root_room_uuid}

pub record Identity : Type 0 where
  pub display_name : String
  pub verified_username : Option String
  pub label : Option String
  pub groups : List String

-- The loop of `build_room_chain_owned`, with fuel. The head of the list is the end of the vector,
-- so the vector reversed, from Root to the target, is this list.
unfoldable pub walk_up : ℕ → List Room → ℕ → List ℕ → Option (List ℕ)
walk_up zero rooms current path = none
walk_up (suc fuel) rooms current path =
    if current == root_room_uuid
    then some (current ∷ path)
    else elim (find (λ r. r.id == current) rooms) [
      | none ↦ some (current ∷ path)
      | some r ↦
          let rest = walk_up fuel rooms r.parent (current ∷ path) in
          if ltb (length rooms + 1) (length (current ∷ path)) then some (current ∷ path) else rest
    ]

-- `if path.first() != Some(&Uuid::nil()) { path.insert(0, Uuid::nil()) }`.
abbrev pub headed_by_root : List ℕ → List ℕ
headed_by_root [] = root_room_uuid ∷ []
headed_by_root (r ∷ path) = if r == root_room_uuid then r ∷ path else root_room_uuid ∷ r ∷ path

-- `Vec::dedup`: of equal neighbours only the first stays.
abbrev pub dedup_after : ℕ → List ℕ → List ℕ
dedup_after last [] = []
dedup_after last (x ∷ xs) = if x == last then dedup_after last xs else x ∷ dedup_after x xs

abbrev pub dedup : List ℕ → List ℕ
dedup [] = []
dedup (x ∷ xs) = x ∷ dedup_after x xs

-- The walk takes at most one step for each room and two more.
unfoldable pub room_path : List Room → ℕ → Option (List ℕ)
room_path rooms target = elim (walk_up (length rooms + 2) rooms target []) [
  | none ↦ none
  | some path ↦ some (dedup (headed_by_root path))
]

-- `if !user_groups.contains(&g) { user_groups.push(g) }`.
abbrev pub push_group : List String → String → List String
push_group user_groups g = if elem g user_groups then user_groups else user_groups ++ g ∷ []

abbrev pub push_groups : List String → List String → List String
push_groups user_groups [] = user_groups
push_groups user_groups (g ∷ gs) = push_groups (push_group user_groups g) gs

-- "default", the assigned groups, and the verified username as an implicit group.
unfoldable pub user_groups_of : Identity → List String
user_groups_of identity =
    let assigned = push_groups ("default" ∷ []) identity.groups in
    elim identity.verified_username [
      | none ↦ assigned
      | some username ↦ push_group assigned username
    ]

pub record PermissionDenied : Type 0 where
  pub required_permission : ℕ
  pub room_id : ℕ

module _ ⦃F : BitFlags⦄ ⦃S : Sled⦄ where
  abbrev pub load_entry : PersistedAclEntry → AclEntry
  load_entry e = record {
    group = e.group;
    grant = F.from_bits_truncate e.grant;
    deny = F.from_bits_truncate e.deny;
    apply_here = e.apply_here;
    apply_subs = e.apply_subs;
  }

  abbrev pub load_acl : Option PersistedRoomAcl → Option RoomAclData
  load_acl none = none
  load_acl (some acl) =
      some (record { inherit_acl = acl.inherit_acl; entries = map load_entry acl.entries })

  unfoldable pub build_room_chain_owned :
      List Room → ℕ → Persistence → List (ℕ × Option RoomAclData)
  build_room_chain_owned rooms target p = elim (room_path rooms target) [
    | none ↦ []
    | some path ↦ map (λ room. (room, load_acl (get_room_acl room p))) path
  ]

  -- Bits that are no flag are dropped, not the whole group.
  unfoldable pub group_permissions :
      List (String × PersistedGroup) → List (String × ℕ) → List (String × ℕ)
  group_permissions [] table = table
  group_permissions ((name, pg) ∷ rest) table =
      group_permissions rest (insert name (F.from_bits_truncate pg.permissions) table)

  unfoldable pub evaluate_identity_permissions : StateData → Bool → Identity → ℕ → Persistence → ℕ
  evaluate_identity_permissions state is_superuser identity room_uuid p =
      effective_permissions (user_groups_of identity) (group_permissions (list_groups p) [])
        (build_room_chain_owned state.rooms room_uuid p) is_superuser

  -- `none` is `Ok(())`. The text of the refusal is left out.
  pub require : ℕ → ℕ → ℕ → Option PermissionDenied
  require effective required room_uuid =
      if F.contains effective required
      then none
      else some (record { required_permission = required; room_id = room_uuid })

  pub check_permission : StateData → Bool → Identity → ℕ → ℕ → Persistence → Option PermissionDenied
  check_permission state is_superuser identity room_uuid required p =
      require (evaluate_identity_permissions state is_superuser identity room_uuid p) required
        room_uuid
