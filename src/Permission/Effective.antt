-- ===== src/Permission/Effective.antt =====
-- `effective_permissions` and `has_permission` of crates/rumble-protocol/src/permissions.rs.
-- The loops over groups, rooms and entries are recursions on the lists; the early `return` of the
-- room loop is `none`.
pub mod Verdict
mod Tests
pub mod Scope
use rumble.Prelude.{
  ℕ, ◌+◌, ◌-◌, Bool, true, false, ◌&&◌, not, Option, none, some, String, List, [], ◌∷◌, length, ltb,
  ◌==◌, elem, text_keys, if◌then◌else◌,
}
use rumble.Prelude.Equality.{get?}
use rumble.Permission.{BitFlags, AclEntry, RoomAclData, empty, traverse, all, all_server_scoped}

module _ ⦃F : BitFlags⦄ where
  open F use {union, intersection, complement, contains}

  -- Step 2: the union of the permissions of the user's groups that the table knows.
  unfoldable pub base_permissions : List String → List (String × ℕ) → ℕ → ℕ
  base_permissions [] table base = base
  base_permissions (g ∷ gs) table base =
      base_permissions gs table
        (elim (get? g table) [ none ↦ base | some perms ↦ union base perms ])

  -- Whether an entry is not skipped, in the target room (`true`) or in an ancestor of it.
  abbrev pub applies : List String → Bool → AclEntry → Bool
  applies user_groups is_target e =
      if not (elem e.group user_groups)
      then false
      else if is_target && not e.apply_here
      then false
      else if not is_target && not e.apply_subs
      then false
      else true

  unfoldable pub apply_entries : List String → Bool → List AclEntry → ℕ → ℕ
  apply_entries user_groups is_target [] granted = granted
  apply_entries user_groups is_target (e ∷ es) granted = apply_entries user_groups is_target es (
      if applies user_groups is_target e
      then intersection (union granted e.grant) (complement e.deny)
      else granted)

  -- One room of the chain, its access control list present or not.
  unfoldable pub apply_room : List String → ℕ → Bool → Option RoomAclData → ℕ → ℕ
  apply_room user_groups base is_target none granted = granted
  apply_room user_groups base is_target (some acl) granted =
      apply_entries user_groups is_target acl.entries (if acl.inherit_acl then granted else base)

  -- Step 3: the walk from the root to the target, from the room of index `idx` on.
  unfoldable pub walk_chain : List String → ℕ → ℕ → ℕ → List (ℕ × Option RoomAclData) → ℕ → Option ℕ
  walk_chain user_groups base last_idx idx [] granted = some granted
  walk_chain user_groups base last_idx idx ((room, acl) ∷ rooms) granted =
      let is_target = idx == last_idx in
      let granted' = apply_room user_groups base is_target acl granted in
      let rest = walk_chain user_groups base last_idx (idx + 1) rooms granted' in
      if not is_target && not (contains granted' traverse) then none else rest

  unfoldable pub effective_permissions :
      List String → List (String × ℕ) → List (ℕ × Option RoomAclData) → Bool → ℕ
  effective_permissions user_groups group_permissions room_chain is_superuser =
      if is_superuser
      then all
      else let base = base_permissions user_groups group_permissions empty in
        elim (walk_chain user_groups base (length room_chain - 1) 0 room_chain base) [
          | none ↦ empty
          | some granted ↦
              if ltb 1 (length room_chain)
              then intersection granted (complement all_server_scoped)
              else granted
        ]

  pub has_permission : ℕ → ℕ → Bool
  has_permission effective required = contains effective required
