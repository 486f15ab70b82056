-- ===== src/Ops/AclSave/Conflict.antt =====
-- No save of an access control list overwrites another unseen (crates/server/src/ops.rs).
use rumble.Prelude.{
  ℕ, ◌≡◌, ◌≢◌, ◌↔◌, ◌⊎◌, refl, sym, ap, ◌∙◌, Bool, true, false, some, List, [], ◌∷◌, map, ◌==◌,
  arith, Bool-cases, Option-cases, inl, inr, nat_keys,
}
use rumble.Prelude.Equality.{get?}
use rumble.Permission.{BitFlags}
use rumble.Sled.{Sled}
use rumble.Persistence.{Persistence}
use rumble.Persistence.Memberships
use rumble.Persistence.Memberships.{get_room_acl}
use rumble.Persistence.Memberships.Laws.{get_room_acl-set_room_acl}
use rumble.Rooms.{RoomAclEntry, set_room_acl}
use rumble.Ops.{
  Server, ok, err, acl_conflict, room_not_found, not_persisted, reevaluate_member_mute,
  reevaluate_members,
}
use rumble.Ops.AclSave.{
  Digest, Saved, room_acl_version, loaded, stored, stored_acl, current_room_acl_version, stale_base,
  apply_set_room_acl,
}

loaded-stored : (entries : List RoomAclEntry) → map loaded (map stored entries) ≡ entries
loaded-stored [] = refl
loaded-stored (e ∷ entries) = ap (λ t. e ∷ t) (loaded-stored entries)

module _ ⦃S : Sled⦄ (H : Digest) where
  -- The version of what was just stored is the version of the saved configuration.
  current_room_acl_version-set_room_acl :
      (room_uuid : ℕ) (inherit_acl : Bool) (entries : List RoomAclEntry) (p p' : Persistence)
      → Memberships.set_room_acl room_uuid (stored_acl inherit_acl entries) p ≡ some p'
      → current_room_acl_version H p' room_uuid ≡ room_acl_version H inherit_acl entries
  unfolding current_room_acl_version
  current_room_acl_version-set_room_acl room_uuid inherit_acl entries p p' h =
      let self : (room_uuid == room_uuid) ≡ true = ground arith in
      let law : get_room_acl room_uuid p' ≡ some (stored_acl inherit_acl entries) =
        rw self at
          (get_room_acl-set_room_acl room_uuid room_uuid (stored_acl inherit_acl entries) p p' h) in
      rw (current_room_acl_version, law)
        (ap (room_acl_version H inherit_acl) (loaded-stored entries))

module _ ⦃S : Sled⦄ ⦃F : BitFlags⦄ where
  persistence-reevaluate_member_mute :
      (m room : ℕ) (s : Server) → (reevaluate_member_mute m room s).persistence ≡ s.persistence
  unfolding reevaluate_member_mute
  persistence-reevaluate_member_mute m room s = elim (Option-cases (get? m s.clients)) [
    | inl gone ↦ ground (arith, gone)
    | inr (client, there) ↦ ground (arith, there)
  ]

  persistence-reevaluate_members :
      (ms : List ℕ) (room : ℕ) (s : Server)
      → (reevaluate_members ms room s).persistence ≡ s.persistence
  unfolding reevaluate_members
  persistence-reevaluate_members [] room s = refl
  persistence-reevaluate_members (m ∷ ms) room s =
      persistence-reevaluate_members ms room (reevaluate_member_mute m room s)
      ∙ persistence-reevaluate_member_mute m room s

module _ ⦃S : Sled⦄ ⦃F : BitFlags⦄ (H : Digest) where
  stale_refused :
      (u : ℕ) (i : Bool) (es : List RoomAclEntry) (base : ℕ) (s : Server)
      → stale_base H base u s ≡ true
      → apply_set_room_acl H u i es base s ≡ (err acl_conflict, s)
  unfolding apply_set_room_acl
  stale_refused u i es base s h = rw (apply_set_room_acl, h) refl

  -- A save that is not stale does one of three things.
  fresh_saved :
      (u : ℕ) (i : Bool) (es : List RoomAclEntry) (base : ℕ) (s : Server)
      → stale_base H base u s ≡ false
      → ((apply_set_room_acl H u i es base s).0 ≡ err room_not_found)
        ⊎ ((apply_set_room_acl H u i es base s).0 ≡ err not_persisted)
        ⊎ ((apply_set_room_acl H u i es base s).0 ≡ ok tt)
          × (Memberships.set_room_acl u (stored_acl i es) s.persistence
              ≡ some (apply_set_room_acl H u i es base s).1.persistence)
  unfolding apply_set_room_acl
  fresh_saved u i es base s h = elim (Bool-cases (set_room_acl u i es s.state).1) [
    | inr absent ↦ inl (rw (apply_set_room_acl, h, absent) refl)
    | inl found ↦ elim (Option-cases (Memberships.set_room_acl u (stored_acl i es) s.persistence)) [
      | inl failed ↦ inr (inl (rw (apply_set_room_acl, h, found, failed) refl))
      | inr (p, done) ↦ inr (
          inr (
            rw (apply_set_room_acl, h, found, done) refl,
            rw (apply_set_room_acl, h, found, done)
                (ap some (sym (persistence-reevaluate_members _ _ _))),
          ))
    ]
  ]

  -- A save of a room's access control list is answered with a conflict exactly when it names a
  -- version (a number other than zero) that is not the version of the configuration in the
  -- database, and after that answer the server is as it was before.
  pub apply_set_room_acl-acl_conflict :
      (u : ℕ) (i : Bool) (es : List RoomAclEntry) (base : ℕ) (s : Server)
      → (((apply_set_room_acl H u i es base s).0 ≡ err acl_conflict)
          ↔ (base ≢ 0) × (base ≢ current_room_acl_version H s.persistence u))
        × ((apply_set_room_acl H u i es base s).0 ≡ err acl_conflict
            → (apply_set_room_acl H u i es base s).1 ≡ s)
  unfolding stale_base
  apply_set_room_acl-acl_conflict u i es base s = elim (Bool-cases (stale_base H base u s)) [
    | inl stale ↦
        let refused = stale_refused u i es base s stale in
        let apart : (base ≢ 0) × (base ≢ current_room_acl_version H s.persistence u) =
          ground arith in
        (
          (λ e. apart, λ e. ap (λ (x : Saved × Server). x.0) refused),
          λ e. ap (λ (x : Saved × Server). x.1) refused,
        )
    | inr fresh ↦
        let other : (apply_set_room_acl H u i es base s).0 ≢ err acl_conflict = λ e.
          elim (fresh_saved u i es base s fresh) [
            | inl absent ↦ cc
            | inr (inl failed) ↦ cc
            | inr (inr (done, p)) ↦ cc
          ] in
        ((λ e. absurd (other e), λ apart. ground arith), λ e. absurd (other e))
  ]

  -- Two saves of one room's access control list from the same version, the first of which is
  -- granted: unless the version is zero or is the version of what the first one saved, the second
  -- is answered with a conflict and changes nothing.
  pub apply_set_room_acl-twice :
      (u : ℕ) (i j : Bool) (es fs : List RoomAclEntry) (base : ℕ) (s : Server)
      → base ≢ 0
      → base ≢ room_acl_version H i es
      → (apply_set_room_acl H u i es base s).0 ≡ ok tt
      → apply_set_room_acl H u j fs base (apply_set_room_acl H u i es base s).1
        ≡ (err acl_conflict, (apply_set_room_acl H u i es base s).1)
  unfolding stale_base
  apply_set_room_acl-twice u i j es fs base s low other done =
      let t = (apply_set_room_acl H u i es base s).1 in
      let saved : Memberships.set_room_acl u (stored_acl i es) s.persistence ≡ some t.persistence =
        elim (Bool-cases (stale_base H base u s)) [
          | inl stale ↦ absurd (cc (rw (stale_refused u i es base s stale) at done))
          | inr fresh ↦ elim (fresh_saved u i es base s fresh) [
            | inl absent ↦ absurd cc
            | inr (inl failed) ↦ absurd cc
            | inr (inr (e, p)) ↦ p
          ]
        ] in
      let version =
        current_room_acl_version-set_room_acl H u i es s.persistence t.persistence saved in
      stale_refused u j fs base t (ground (arith, version))
