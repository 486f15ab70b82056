-- ===== src/Client/Audio/Tracking.antt =====
-- After each event of crates/rumble-client/src/projection.rs the audio task, which gets the
-- commands of the event, knows exactly who is with us.
mod Steps
pub use Steps.{Tracks}
use rumble.Prelude.{
  ℕ, ◌≡◌, refl, ap, ◌∙◌, Bool, true, false, not, ◌&&◌, ◌||◌, Option, none, some, List, [], ◌∷◌,
  ◌++◌, ◌==◌, ==_iff, if◌then◌else◌, retain, arith, Bool-cases, Option-cases, inl, inr,
}
use rumble.Prelude.Fallible.{is_some}
use rumble.Prelude.Predicates.{mentions, distinct, any-append}
use rumble.Rooms.{root_room_uuid}
use rumble.Wire.{User}
use rumble.Client.{
  State, RoomEvent, full_state_replaced, room_added, room_removed, room_renamed, room_moved,
  room_description_set, room_acl_changed, user_joined, user_left, user_moved, user_status_changed,
  user_group_changed, group_added, group_modified, group_removed, registered_users_replaced,
  self_moved_to_room, state_hash_checkpoint, AudioCommand, user_joined_room, user_left_room,
  room_changed, set_server_muted, change_first, user_of, same_id, both, room_user_ids, mutate, join,
  leave, move_user, change_status, change_group, replace_all,
}
use rumble.Client.Audio.{hear, hear_all}
use rumble.Client.Audio.Members.{
  is_with_us, user_ids, mentions-insert_id, mentions-remove_id, mentions-extend,
  mentions-room_user_ids, in_room-retain, in_room-change_first, in_room_moved, in_room_found,
  in_room_unknown, in_room_other,
}
use Steps.{
  Tracks-entered, Tracks-joined, Tracks-left, Tracks-moved, Tracks-changed, hear_mute, Tracks-own,
  Tracks-replaced,
}

module _ (me : ℕ) where
  -- The events that the audio task can follow: the mover is listed and goes to a room with an id.
  abbrev pub is_sound : RoomEvent → State → Bool
  is_sound (user_moved x room_id) c =
      same_id c.my_user_id x || is_some room_id && is_some (user_of x c.users)
  is_sound _ c = true

  -- Let us know our id, no user be listed twice and the audio task know exactly the other users in
  -- our room. After any event the audio task, having got the commands of the event, again knows
  -- exactly the other users in our room, which may be another room then. A move of another user
  -- must name a listed user and a well-formed room.
  pub mutate_tracked :
      (ev : RoomEvent) (c : State) (members : List ℕ)
      → c.my_user_id ≡ some me
      → distinct (user_ids c.users) ≡ true
      → is_sound ev c ≡ true
      → Tracks me members c.my_room_id c.users
      → Tracks me
          (hear_all me (mutate ev c).audio members)
          (mutate ev c).state.my_room_id
          (mutate ev c).state.users
  unfolding mutate join leave move_user change_status change_group replace_all hear_all
  mutate_tracked (user_joined u) c members own d s t =
      elim (Bool-cases (is_some (user_of u.user_id c.users))) [
        | inl there ↦ rw (mutate, join, there) t
        | inr new ↦ rw (mutate, join, new) (Tracks-joined me c.my_room_id u c.users members t)
      ]
  mutate_tracked (user_left x) c members own d s t =
      Tracks-left me c.my_room_id x c.users members d t
  mutate_tracked (self_moved_to_room r) c members own d s t =
      rw own (Tracks-entered me r c.users members)
  mutate_tracked (user_status_changed x muted deafened server_muted elevated) c members own d s t =
      elim (Option-cases (user_of x c.users)) [
        | inl unknown ↦ rw (mutate, change_status, unknown) t
        | inr (u, known) ↦
            let w =
              Tracks-changed me c.my_room_id x
                (λ u. record u {
                  is_muted = muted;
                  is_deafened = deafened;
                  server_muted = server_muted;
                  is_elevated = elevated;
                })
                c.users members (λ u. (refl, refl)) t in
            rw (mutate, change_status, known)
              (λ id. ap (mentions id) (hear_mute me _ server_muted members) ∙ w id)
      ]
  mutate_tracked (user_group_changed x group added) c members own d s t =
      elim (Option-cases (user_of x c.users)) [
        | inl unknown ↦ rw (mutate, change_group, unknown) t
        | inr (u, known) ↦
            rw (mutate, change_group, known)
              (Tracks-changed me c.my_room_id x _ c.users members (λ u. (refl, refl)) t)
      ]
  mutate_tracked (user_moved x none) c members own d s t =
      elim (Bool-cases (same_id c.my_user_id x)) [
        | inl us ↦
            rw (mutate, move_user, us)
              (Tracks-own me c.my_room_id x root_room_uuid c.users members (rw own at us) t)
        | inr other ↦ absurd (ground (arith, other))
      ]
  mutate_tracked (user_moved x (some q)) c members own d s t =
      elim (Bool-cases (same_id c.my_user_id x)) [
        | inl us ↦
            rw (mutate, move_user, us, own)
              (Tracks-entered me q
                (change_first (λ u. u.user_id == x) (λ u. record u { current_room = q }) c.users)
                members)
        | inr other ↦ elim (Option-cases (user_of x c.users)) [
          | inl unknown ↦ absurd (ground (arith, other, unknown))
          | inr (u, known) ↦
              rw (mutate, move_user, other, known)
                (Tracks-moved me c.my_room_id x q u c.users members d known
                  (ground (arith, own, other, ==_iff me x, ==_iff x me)) t)
        ]
      ]
  mutate_tracked (full_state_replaced rooms users groups commands per_room) c members own d s t =
      Tracks-replaced me c.my_room_id c.my_user_id users c.users members own t
  mutate_tracked (room_added room) c members own d s t = t
  mutate_tracked (room_removed u) c members own d s t = t
  mutate_tracked (room_renamed u name) c members own d s t = t
  mutate_tracked (room_moved u parent) c members own d s t = t
  mutate_tracked (room_description_set u description) c members own d s t = t
  mutate_tracked (room_acl_changed u inherit_acl acls) c members own d s t = t
  mutate_tracked (group_added group) c members own d s t = t
  mutate_tracked (group_modified group) c members own d s t = t
  mutate_tracked (group_removed name) c members own d s t = t
  mutate_tracked (registered_users_replaced users) c members own d s t = t
  mutate_tracked (state_hash_checkpoint hash) c members own d s t = t
