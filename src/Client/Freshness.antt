-- ===== src/Client/Freshness.antt =====
-- The table of permissions that the client keeps (crates/rumble-client/src/projection.rs) is that of
-- its rooms, groups and own entry.
mod Entry
use rumble.Prelude.{
  ℕ, ◌≡◌, refl, sym, ap, ◌∙◌, Bool, true, false, not, ◌&&◌, Option, none, some, String, List, [],
  ◌∷◌, ◌++◌, map, ◌==◌, ==_iff, if◌then◌else◌, retain, retain_all, length, elem, text_keys, str_eq,
  arith, Bool-cases, Option-cases, inl, inr,
}
use rumble.Prelude.Fallible.{is_some}
use rumble.Permission.{BitFlags}
use rumble.Rooms.{Room, root_room_uuid}
use rumble.Wire.{User}
use rumble.Client.{
  State, RoomEvent, full_state_replaced, room_added, room_removed, room_renamed, room_moved,
  room_description_set, room_acl_changed, user_joined, user_left, user_moved, user_status_changed,
  user_group_changed, group_added, group_modified, group_removed, registered_users_replaced,
  self_moved_to_room, state_hash_checkpoint, change_first, user_of, same_id, differ, regroup,
  mutate, join, leave, move_user, change_status, change_group, replace_all,
  recompute_effective_permissions, apply_room,
}
use rumble.Acl.{push_group, push_groups}
use rumble.Client.Permissions.{groups_of, effective_in_rooms}
use rumble.Client.Permissions.Unseen.{bare, effective_in_rooms_same, effective_in_rooms-groups_of}
use Entry.{
  user_of-change_first, user_of-retain, user_of-snoc, bare-change_first, same_elevation,
  same_groups, my_user_id-mutate,
}

module _ ⦃F : BitFlags⦄ where
  -- The table is the one that would be computed.
  abbrev pub IsFresh : ℕ → State → Type 0
  IsFresh me c =
      c.per_room_permissions ≡ effective_in_rooms (user_of me c.users) c.group_definitions c.rooms

  recompute-IsFresh :
      (me : ℕ) (c : State) → c.my_user_id ≡ some me → IsFresh me (recompute_effective_permissions c)
  unfolding recompute_effective_permissions
  recompute-IsFresh me c own = rw (recompute_effective_permissions, own) refl

  -- The table after an update of one entry in the list of users that is not ours, or of ours that
  -- no permission depends on.
  IsFresh-change_first :
      (me x : ℕ) (f : User → User) (c : State)
      → ((v : User) → (f v).user_id ≡ v.user_id)
      → ((u : User)
          → user_of x c.users ≡ some u
          → (x == me) ≡ true
          → (groups_of (some (f u)) ≡ groups_of (some u)) × ((f u).is_elevated ≡ u.is_elevated))
      → IsFresh me c
      → c.per_room_permissions
        ≡ effective_in_rooms
            (user_of me (change_first (λ v. v.user_id == x) f c.users))
            c.group_definitions
            c.rooms
  IsFresh-change_first me x f c h ours fresh =
      let table : Option User → List (ℕ × ℕ) =
        λ o. effective_in_rooms o c.group_definitions c.rooms in
      let law = user_of-change_first me x f c.users h in
      elim (Bool-cases (x == me)) [
        | inr other ↦ fresh ∙ ap table (sym (rw other at law))
        | inl same ↦ elim (Option-cases (user_of me c.users)) [
          | inl unknown ↦ fresh ∙ ap table (unknown ∙ sym (rw (same, unknown) at law))
          | inr (u, known) ↦
              let kept = ours u (ap (λ k. user_of k c.users) ((==_iff x me).0 same) ∙ known) same in
              fresh
              ∙ ap table known
              ∙ effective_in_rooms-groups_of (some u) (some (f u)) c.group_definitions c.rooms
                  (sym kept.0) (sym kept.1)
              ∙ ap table (sym (rw (same, known) at law))
        ]
      ]

  -- All events but the move of a room and a join or departure of ours.
  abbrev pub is_noticed : RoomEvent → State → Bool
  is_noticed (room_moved room_id parent) c = false
  is_noticed (user_joined user) c = not (same_id c.my_user_id user.user_id)
  is_noticed (user_left x) c = not (same_id c.my_user_id x)
  is_noticed _ c = true

  -- What is not computed again was right already.
  unchanged-IsFresh :
      (me : ℕ) (ev : RoomEvent) (c : State)
      → c.my_user_id ≡ some me
      → is_noticed ev c ≡ true
      → (mutate ev c).recompute ≡ false
      → IsFresh me c
      → IsFresh me (mutate ev c).state
  unfolding mutate join leave move_user change_status change_group replace_all groups_of
  unchanged-IsFresh me (user_joined u) c own n quiet fresh =
      elim (Bool-cases (is_some (user_of u.user_id c.users))) [
        | inl there ↦ rw (mutate, join, there) fresh
        | inr new ↦
            rw (mutate, join, new)
              (fresh
                ∙ ap (λ o. effective_in_rooms o c.group_definitions c.rooms)
                    (sym (
                      user_of-snoc me u c.users
                        (ground (arith, own, ==_iff me u.user_id, ==_iff u.user_id me)))))
      ]
  unchanged-IsFresh me (user_left x) c own n quiet fresh =
      fresh
      ∙ ap (λ o. effective_in_rooms o c.group_definitions c.rooms)
          (sym (user_of-retain me x c.users (ground (arith, own, ==_iff me x, ==_iff x me))))
  unchanged-IsFresh me (room_renamed x name) c own n quiet fresh =
      fresh
      ∙ effective_in_rooms_same (user_of me c.users) c.group_definitions c.rooms
          (change_first (λ r. r.id == x) (λ r. record r { name = name }) c.rooms)
          (sym (bare-change_first x (λ r. record r { name = name }) c.rooms (λ r. refl)))
  unchanged-IsFresh me (room_description_set x description) c own n quiet fresh =
      fresh
      ∙ effective_in_rooms_same (user_of me c.users) c.group_definitions c.rooms
          (change_first (λ r. r.id == x) (λ r. record r { description = description }) c.rooms)
          (sym
            (bare-change_first x (λ r. record r { description = description }) c.rooms (λ r. refl)))
  unchanged-IsFresh me (user_moved x none) c own n quiet fresh =
      let w =
        IsFresh-change_first me x (λ v. record v { current_room = root_room_uuid }) c (λ v. refl)
          (λ u known same. (refl, refl)) fresh in
      elim (Bool-cases (same_id c.my_user_id x)) [
        | inl us ↦ rw (mutate, move_user, us) w
        | inr other ↦ rw (mutate, move_user, other) w
      ]
  unchanged-IsFresh me (user_moved x (some q)) c own n quiet fresh =
      elim (Bool-cases (same_id c.my_user_id x)) [
        | inl us ↦ absurd (cc (rw (mutate, move_user, us) at quiet))
        | inr other ↦
            rw (mutate, move_user, other)
              (IsFresh-change_first me x (λ v. record v { current_room = q }) c (λ v. refl)
                (λ u known same. (refl, refl)) fresh)
      ]
  unchanged-IsFresh me (user_status_changed x muted deafened server_muted elevated') c own n quiet
        fresh =
      elim (Option-cases (user_of x c.users)) [
        | inl unknown ↦ rw (mutate, change_status, unknown) fresh
        | inr (u, known) ↦
            rw (mutate, change_status, known)
              (IsFresh-change_first me x
                (λ v. record v {
                  is_muted = muted;
                  is_deafened = deafened;
                  server_muted = server_muted;
                  is_elevated = elevated';
                })
                c (λ v. refl)
                (λ v found same. (
                  refl,
                  same_elevation c.my_user_id me x u v elevated' c.users own known found same
                      (rw (mutate, change_status, known) at quiet),
                ))
                fresh)
      ]
  unchanged-IsFresh me (user_group_changed x group added) c own n quiet fresh =
      elim (Option-cases (user_of x c.users)) [
        | inl unknown ↦ rw (mutate, change_group, unknown) fresh
        | inr (u, known) ↦
            rw (mutate, change_group, known)
              (IsFresh-change_first me x (λ v. record v { groups = regroup group added v.groups }) c
                (λ v. refl)
                (λ v found same. (
                  ap (λ gs. push_group (push_groups ("default" ∷ []) gs) v.username)
                      (same_groups c.my_user_id me x group added u v c.users own known found same
                        (rw (mutate, change_group, known) at quiet)),
                  refl,
                ))
                fresh)
      ]
  unchanged-IsFresh me (registered_users_replaced users) c own n quiet fresh = fresh
  unchanged-IsFresh me (state_hash_checkpoint hash) c own n quiet fresh = fresh
  unchanged-IsFresh me (room_moved x parent) c own n quiet fresh = absurd cc
  unchanged-IsFresh me (full_state_replaced rooms users groups commands per_room) c own n quiet
        fresh =
      absurd cc
  unchanged-IsFresh me (room_added room) c own n quiet fresh = absurd cc
  unchanged-IsFresh me (room_removed x) c own n quiet fresh = absurd cc
  unchanged-IsFresh me (room_acl_changed x inherit_acl acls) c own n quiet fresh = absurd cc
  unchanged-IsFresh me (group_added group) c own n quiet fresh = absurd cc
  unchanged-IsFresh me (group_modified group) c own n quiet fresh = absurd cc
  unchanged-IsFresh me (group_removed name) c own n quiet fresh = absurd cc
  unchanged-IsFresh me (self_moved_to_room room) c own n quiet fresh = absurd cc

  -- After an event that is no move of a room and no join or departure of our own, the table of the
  -- permissions is the one computed from the rooms, the groups and our entry of the new state, if it
  -- was so before the event and we know our id.
  pub apply_room-IsFresh :
      (me : ℕ) (ev : RoomEvent) (c : State)
      → c.my_user_id ≡ some me
      → is_noticed ev c ≡ true
      → IsFresh me c
      → IsFresh me (apply_room ev c)
  unfolding apply_room
  apply_room-IsFresh me ev c own n fresh = elim (Bool-cases (mutate ev c).recompute) [
    | inl again ↦
        rw (apply_room, again)
          (recompute-IsFresh me (mutate ev c).state (my_user_id-mutate ev c ∙ own))
    | inr quiet ↦ rw (apply_room, quiet) (unchanged-IsFresh me ev c own n quiet fresh)
  ]
