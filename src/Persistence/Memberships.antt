-- ===== src/Persistence/Memberships.antt =====
-- crates/server/src/persistence.rs: group memberships with their expiries, room access control
-- lists, bans and the sudo password.
pub mod Laws
pub mod Active
mod Tests
use rumble.Prelude.{
  ℕ, Bool, true, false, not, ◌&&◌, ◌||◌, Option, none, some, String, List, [], ◌∷◌, ◌++◌, map, ◌==◌,
  leb, ltb, if◌then◌else◌, str_eq, retain, nat_keys, text_keys, pair_keys, elem, length,
}
use rumble.Prelude.Fallible.{◌>>=◌, or_keep, is_some}
use rumble.Permission.{BitFlags, default_permissions, admin_permissions, banned, difference}
use rumble.Sled.{Sled}
use rumble.Persistence.{
  Persistence, PersistedBan, PersistedGroup, PersistedRoomAcl, create_group, get_group,
  modify_group, is_expired, or_empty,
}

-- `g != group` over a list of names.
abbrev pub drop_name : String → List String → List String
drop_name group = retain (λ g. not (str_eq g group))

abbrev pub add_name : String → List String → List String
add_name group groups = if elem group groups then groups else groups ++ group ∷ []

module _ ⦃S : Sled⦄ ⦃F : BitFlags⦄ where
  -- The two built-in groups, made if there is no group.
  seed_groups : Persistence → Option Persistence
  seed_groups p = elim (S.iter p.groups) [
    | [] ↦ (do
      p' ← create_group "default" default_permissions p
      create_group "admin" admin_permissions p')
    | _ ∷ _ ↦ some p
  ]

  -- The admin group loses the BANNED marker.
  heal_admin : Persistence → Option Persistence
  heal_admin p = elim (get_group "admin" p) [
    | none ↦ some p
    | some g ↦
        let perms = F.from_bits_truncate g.permissions in
        if F.contains perms banned
        then (do (p', found) ← modify_group "admin" (difference perms banned) p; some p')
        else some p
  ]

  pub ensure_default_groups : Persistence → Option Persistence
  ensure_default_groups p = do p' ← seed_groups p; heal_admin p'

module _ ⦃S : Sled⦄ where
  pub set_user_groups : ℕ → List String → Persistence → Option Persistence
  set_user_groups public_key groups p = do
    t ← S.insert p.user_groups public_key groups
    some (record p { user_groups = t })

  pub get_user_groups : ℕ → Persistence → List String
  get_user_groups public_key p = or_empty (S.get p.user_groups public_key)

  pub set_participant_default_group : ℕ → Option String → Persistence → Option Persistence
  set_participant_default_group public_key none p = do
    t ← S.remove p.participant_defaults public_key
    some (record p { participant_defaults = t })
  set_participant_default_group public_key (some group) p = do
    t ← S.insert p.participant_defaults public_key group
    some (record p { participant_defaults = t })

  pub get_participant_default_group : ℕ → Persistence → Option String
  get_participant_default_group public_key p = S.get p.participant_defaults public_key

  -- A missing record changes from the empty list.
  unfoldable pub update_user_groups :
      ℕ → (List String → List String) → Persistence → Option Persistence
  update_user_groups public_key mutate p = do
    (t, _) ← S.update_and_fetch p.user_groups public_key (λ old. some (mutate (or_empty old)))
    some (record p { user_groups = t })

  -- An expiry of 0 makes the membership permanent.
  unfoldable pub set_group_expiry : ℕ → String → ℕ → Persistence → Option Persistence
  set_group_expiry public_key group expires_at p =
      if expires_at == 0
      then (do
        t ← S.remove p.group_expiries (public_key, group)
        some (record p { group_expiries = t }))
      else (do
        t ← S.insert p.group_expiries (public_key, group) expires_at
        some (record p { group_expiries = t }))

  pub get_group_expiry : ℕ → String → Persistence → ℕ
  get_group_expiry public_key group p = elim (S.get p.group_expiries (public_key, group)) [
    | none ↦ 0
    | some expires_at ↦ expires_at
  ]

  unfoldable pub add_user_to_group_with_expiry : ℕ → String → ℕ → Persistence → Option Persistence
  add_user_to_group_with_expiry public_key group expires_at p = do
    p' ← update_user_groups public_key (add_name group) p
    set_group_expiry public_key group expires_at p'

  unfoldable pub add_user_to_group : ℕ → String → Persistence → Option Persistence
  add_user_to_group public_key group p = add_user_to_group_with_expiry public_key group 0 p

  -- The removal of the expiry may fail unnoticed.
  drop_expiry : ℕ → String → Persistence → Persistence
  drop_expiry public_key group p = elim (S.remove p.group_expiries (public_key, group)) [
    | none ↦ p
    | some t ↦ record p { group_expiries = t }
  ]

  pub remove_user_from_group : ℕ → String → Persistence → Option Persistence
  remove_user_from_group public_key group p = do
    p' ← update_user_groups public_key (drop_name group) p
    some (drop_expiry public_key group p')

  scrub_keys : String → List (ℕ × List String) → Persistence → Persistence
  scrub_keys group [] p = p
  scrub_keys group ((key, _) ∷ rest) p =
      scrub_keys group rest
        (drop_expiry key group (or_keep (update_user_groups key (drop_name group) p) p))

  pub remove_group_from_all_users : String → Persistence → Persistence
  remove_group_from_all_users group p = scrub_keys group (S.iter p.user_groups) p

  abbrev pub has_expired : ℕ → ℕ → Bool
  has_expired now_secs expires_at = not (expires_at == 0) && leb expires_at now_secs

  -- The loop over the user's groups: an expired one is dropped from the store, best effort.
  keep_active : ℕ → ℕ → List String → Persistence → List String × Persistence
  keep_active public_key now_secs [] p = ([], p)
  keep_active public_key now_secs (g ∷ gs) p =
      let expired = has_expired now_secs (get_group_expiry public_key g p) in
      let (active, p') =
        keep_active public_key now_secs gs
          (if expired then or_keep (remove_user_from_group public_key g p) p else p) in
      (if expired then active else g ∷ active, p')

  pub active_user_groups : ℕ → ℕ → Persistence → List String × Persistence
  active_user_groups public_key now_secs p =
      keep_active public_key now_secs (get_user_groups public_key p) p

  remove_memberships : List (ℕ × String) → Persistence → Persistence
  remove_memberships [] p = p
  remove_memberships ((key, group) ∷ rest) p =
      remove_memberships rest (or_keep (remove_user_from_group key group p) p)

  -- Returns the memberships that it removed.
  pub sweep_expired_memberships : ℕ → Persistence → List (ℕ × String) × Persistence
  sweep_expired_memberships now_secs p =
      let expired =
        map (λ (x : (ℕ × String) × ℕ). x.0)
          (retain (λ x. has_expired now_secs x.1) (S.iter p.group_expiries)) in
      (expired, remove_memberships expired p)

  -- Room access control lists.

  unfoldable pub set_room_acl : ℕ → PersistedRoomAcl → Persistence → Option Persistence
  set_room_acl room_uuid acl p = do
    t ← S.insert p.room_acls room_uuid acl
    some (record p { room_acls = t })

  unfoldable pub get_room_acl : ℕ → Persistence → Option PersistedRoomAcl
  get_room_acl room_uuid p = S.get p.room_acls room_uuid

  pub delete_room_acl : ℕ → Persistence → Option Persistence
  delete_room_acl room_uuid p = do
    t ← S.remove p.room_acls room_uuid
    some (record p { room_acls = t })

  -- Bans.

  pub set_ban : ℕ → PersistedBan → Persistence → Option Persistence
  set_ban public_key ban p = do t ← S.insert p.bans public_key ban; some (record p { bans = t })

  pub get_ban : ℕ → Persistence → Option PersistedBan
  get_ban public_key p = S.get p.bans public_key

  pub remove_ban : ℕ → Persistence → Option Persistence
  remove_ban public_key p = do t ← S.remove p.bans public_key; some (record p { bans = t })

  lift_bans : List (ℕ × PersistedBan) → Persistence → Persistence
  lift_bans [] p = p
  lift_bans ((key, _) ∷ rest) p =
      let p' = or_keep (remove_ban key p) p in
      lift_bans rest (or_keep (remove_user_from_group key "banned" p') p')

  -- Returns how many bans it lifted.
  pub sweep_expired_bans : ℕ → Persistence → ℕ × Persistence
  sweep_expired_bans now_secs p =
      let expired = retain (λ x. is_expired now_secs x.1) (S.iter p.bans) in
      (length expired, lift_bans expired p)

  -- The sudo password.

  pub set_sudo_password : String → Persistence → Option Persistence
  set_sudo_password hash p = do
    t ← S.insert p.sudo_password "sudo" hash
    some (record p { sudo_password = t })

  pub get_sudo_password : Persistence → Option String
  get_sudo_password p = S.get p.sudo_password "sudo"
