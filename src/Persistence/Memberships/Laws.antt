-- ===== src/Persistence/Memberships/Laws.antt =====
-- What the writes of crates/server/src/persistence.rs on group memberships leave to be read.
use rumble.Prelude.{
  true, ℕ, ◌≡◌, ◌∙◌, refl, [], ◌∷◌, false, ◌&&◌, some, String, List, ◌==◌, if◌then◌else◌, str_eq,
  nat_keys, text_keys, pair_keys, arith, Option-cases, Bool-cases, inl, inr,
}
use rumble.Sled.{Sled}
use rumble.Persistence.{Persistence, create_group, PersistedBan, PersistedRoomAcl, or_empty}
use rumble.Persistence.Memberships.{
  add_user_to_group, set_ban, drop_name, add_name, get_user_groups, update_user_groups,
  set_group_expiry, get_group_expiry, add_user_to_group_with_expiry, drop_expiry,
  remove_user_from_group, get_room_acl, set_room_acl, or_keep, scrub_keys,
  remove_group_from_all_users,
}

module _ ⦃S : Sled⦄ where
  -- What a read of a user's groups sees of an update, and that it leaves the expiries alone.
  update_user_groups_lem :
      (k j : ℕ) (f : List String → List String) (p p' : Persistence)
      → update_user_groups k f p ≡ some p'
      → (get_user_groups j p' ≡ (if k == j then f (get_user_groups k p) else get_user_groups j p))
        × (p'.group_expiries ≡ p.group_expiries)
  unfolding update_user_groups get_user_groups
  update_user_groups_lem k j f p p' h =
      elim (Option-cases (S.update_and_fetch p.user_groups k (λ old. some (f (or_empty old))))) [
        | inl failed ↦ ground (arith, failed)
        | inr ((t, r), stored) ↦ ground (
          arith,
          stored,
          S.get-update_and_fetch p.user_groups k (λ old. some (f (or_empty old))) j stored,
        )
      ]

  set_group_expiry_lem :
      (k j : ℕ) (g i : String) (expires_at : ℕ) (p p' : Persistence)
      → set_group_expiry k g expires_at p ≡ some p'
      → (get_group_expiry j i p'
          ≡ (if k == j && str_eq g i then expires_at else get_group_expiry j i p))
        × (get_user_groups j p' ≡ get_user_groups j p)
  unfolding set_group_expiry get_group_expiry get_user_groups
  set_group_expiry_lem k j g i expires_at p p' h = elim (Bool-cases (expires_at == 0)) [
    | inl permanent ↦ elim (Option-cases (S.remove p.group_expiries (k, g))) [
      | inl failed ↦ ground (arith, failed)
      | inr (t, stored) ↦ ground (arith, stored, S.get-remove p.group_expiries (k, g) (j, i) stored)
    ]
    | inr timed ↦ elim (Option-cases (S.insert p.group_expiries (k, g) expires_at)) [
      | inl failed ↦ ground (arith, failed)
      | inr (t, stored) ↦
          ground (arith, stored, S.get-insert p.group_expiries (k, g) expires_at (j, i) stored)
    ]
  ]

  expiry-same :
      (j : ℕ) (i : String) (p q : Persistence)
      → q.group_expiries ≡ p.group_expiries
      → get_group_expiry j i q ≡ get_group_expiry j i p
  unfolding get_group_expiry
  expiry-same j i p q e = rw e

  -- When the addition of a user to a group is stored, the user has the group (once more only if it
  -- was missing) with exactly the given expiry; the groups of every other user and every other
  -- expiry are as before.
  pub add_user_to_group_with_expiry_lem :
      (k j : ℕ) (g i : String) (expires_at : ℕ) (p p' : Persistence)
      → add_user_to_group_with_expiry k g expires_at p ≡ some p'
      → (get_user_groups j p'
          ≡ (if k == j then add_name g (get_user_groups k p) else get_user_groups j p))
        × (get_group_expiry j i p'
            ≡ (if k == j && str_eq g i then expires_at else get_group_expiry j i p))
  unfolding add_user_to_group_with_expiry
  add_user_to_group_with_expiry_lem k j g i expires_at p p' h =
      elim (Option-cases (update_user_groups k (add_name g) p)) [
        | inl failed ↦ ground (arith, failed)
        | inr (q, stored) ↦
            let updated = update_user_groups_lem k j (add_name g) p q stored in
            let set' = set_group_expiry_lem k j g i expires_at q p' (ground (arith, stored)) in
            ground (arith, updated, set', expiry-same j i p q updated.1)
      ]

  drop_expiry_lem :
      (k j : ℕ) (g i : String) (p : Persistence)
      → (get_user_groups j (drop_expiry k g p) ≡ get_user_groups j p)
        × ((k == j && str_eq g i) ≡ false
            → get_group_expiry j i (drop_expiry k g p) ≡ get_group_expiry j i p)
  unfolding drop_expiry get_group_expiry get_user_groups
  drop_expiry_lem k j g i p = elim (Option-cases (S.remove p.group_expiries (k, g))) [
    | inl failed ↦ (ground (arith, failed), λ h. ground (arith, failed))
    | inr (t, stored) ↦ (
      ground (arith, stored),
      λ h. ground (arith, stored, S.get-remove p.group_expiries (k, g) (j, i) stored),
    )
  ]

  -- After a user is removed from a group, the user's list is the old one without the group, and
  -- every other user's list and every other expiry is as before.
  pub remove_user_from_group_lem :
      (k j : ℕ) (g i : String) (p p' : Persistence)
      → remove_user_from_group k g p ≡ some p'
      → (get_user_groups j p'
          ≡ (if k == j then drop_name g (get_user_groups k p) else get_user_groups j p))
        × ((k == j && str_eq g i) ≡ false → get_group_expiry j i p' ≡ get_group_expiry j i p)
  unfolding remove_user_from_group
  remove_user_from_group_lem k j g i p p' h =
      elim (Option-cases (update_user_groups k (drop_name g) p)) [
        | inl failed ↦ absurd (ground (arith, failed))
        | inr (q, stored) ↦
            let updated = update_user_groups_lem k j (drop_name g) p q stored in
            let dropped = drop_expiry_lem k j g i q in
            let e : p' ≡ drop_expiry k g q = ground (arith, stored) in
            (
              ground (arith, updated.0, dropped.0, e),
              λ o. ground (arith, dropped.1 o, e, expiry-same j i p q updated.1),
            )
      ]

  -- When a room's access control list is stored it is what is read, and every other room's list is
  -- as before.
  pub get_room_acl-set_room_acl :
      (u j : ℕ) (acl : PersistedRoomAcl) (p p' : Persistence)
      → set_room_acl u acl p ≡ some p'
      → get_room_acl j p' ≡ (if u == j then some acl else get_room_acl j p)
  unfolding set_room_acl get_room_acl
  get_room_acl-set_room_acl u j acl p p' h = elim (Option-cases (S.insert p.room_acls u acl)) [
    | inl failed ↦ ground (arith, failed)
    | inr (t, stored) ↦ ground (arith, stored, S.get-insert p.room_acls u acl j stored)
  ]

  -- Users and groups are not touched by an update of memberships.
  abbrev pub SameUsersAndGroups : Persistence → Persistence → Type 0
  SameUsersAndGroups p q = (q.registered_users ≡ p.registered_users) × (q.groups ≡ p.groups)

  drop_expiry-SameUsersAndGroups :
      (k : ℕ) (g : String) (p : Persistence) → SameUsersAndGroups p (drop_expiry k g p)
  unfolding drop_expiry
  drop_expiry-SameUsersAndGroups k g p = elim (Option-cases (S.remove p.group_expiries (k, g))) [
    | inl failed ↦ (ground (arith, failed), ground (arith, failed))
    | inr (t, stored) ↦ (ground (arith, stored), ground (arith, stored))
  ]

  update_user_groups-SameUsersAndGroups :
      (k : ℕ) (f : List String → List String) (p : Persistence)
      → SameUsersAndGroups p (or_keep (update_user_groups k f p) p)
  unfolding update_user_groups
  update_user_groups-SameUsersAndGroups k f p =
      elim (Option-cases (S.update_and_fetch p.user_groups k (λ old. some (f (or_empty old))))) [
        | inl failed ↦ (ground (arith, failed), ground (arith, failed))
        | inr ((t, r), stored) ↦ (ground (arith, stored), ground (arith, stored))
      ]

  scrub_keys-SameUsersAndGroups :
      (g : String) (m : List (ℕ × List String)) (p : Persistence)
      → SameUsersAndGroups p (scrub_keys g m p)
  unfolding scrub_keys
  scrub_keys-SameUsersAndGroups g [] p = (refl, refl)
  scrub_keys-SameUsersAndGroups g ((k, names) ∷ m) p =
      let q = or_keep (update_user_groups k (drop_name g) p) p in
      let (u1, g1) = update_user_groups-SameUsersAndGroups k (drop_name g) p in
      let (u2, g2) = drop_expiry-SameUsersAndGroups k g q in
      let (u3, g3) = scrub_keys-SameUsersAndGroups g m (drop_expiry k g q) in
      (u3 ∙ u2 ∙ u1, g3 ∙ g2 ∙ g1)

  pub remove_group_from_all_users-SameUsersAndGroups :
      (g : String) (p : Persistence) → SameUsersAndGroups p (remove_group_from_all_users g p)
  unfolding remove_group_from_all_users
  remove_group_from_all_users-SameUsersAndGroups g p =
      scrub_keys-SameUsersAndGroups g (S.iter p.user_groups) p

  pub get_user_groups-add_user_to_group :
      (k : ℕ) (g : String) (p p' : Persistence)
      → add_user_to_group k g p ≡ some p'
      → get_user_groups k p' ≡ add_name g (get_user_groups k p)
  unfolding add_user_to_group
  get_user_groups-add_user_to_group k g p p' h =
      let self : (k == k) ≡ true = ground arith in
      rw self at (add_user_to_group_with_expiry_lem k k g g 0 p p' h).0

  pub get_user_groups-create_group :
      (k : ℕ) (g : String) (permissions : ℕ) (p : Persistence)
      → get_user_groups k (or_keep (create_group g permissions p) p) ≡ get_user_groups k p
  unfolding create_group get_user_groups
  get_user_groups-create_group k g permissions p =
      elim (Option-cases (S.insert p.groups g (record { permissions = permissions }))) [
        | inl failed ↦ ground (arith, failed)
        | inr (t, stored) ↦ ground (arith, stored)
      ]

  pub get_user_groups-set_ban :
      (k j : ℕ) (b : PersistedBan) (p : Persistence)
      → get_user_groups j (or_keep (set_ban k b p) p) ≡ get_user_groups j p
  unfolding set_ban get_user_groups
  get_user_groups-set_ban k j b p = elim (Option-cases (S.insert p.bans k b)) [
    | inl failed ↦ ground (arith, failed)
    | inr (t, stored) ↦ ground (arith, stored)
  ]
