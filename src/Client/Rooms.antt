-- ===== src/Client/Rooms.antt =====
-- What each event of crates/rumble-client/src/projection.rs does to the rooms of the client.
use rumble.Prelude.{
  ◌≡◌, refl, ◌∙◌, not, List, [], ◌∷◌, ◌++◌, ◌==◌, retain, Bool-cases, Option-cases, inl, inr,
}
use rumble.Prelude.Fallible.{unwrap_or, is_some}
use rumble.Permission.{BitFlags}
use rumble.Rooms.{Room, root_room_uuid}
use rumble.Client.{
  State, RoomEvent, full_state_replaced, room_added, room_removed, room_renamed, room_moved,
  room_description_set, room_acl_changed, user_joined, user_left, user_moved, user_status_changed,
  user_group_changed, group_added, group_modified, group_removed, registered_users_replaced,
  self_moved_to_room, state_hash_checkpoint, change_first, user_of, join, leave, move_user,
  change_status, change_group, replace_all, same_id, mutate, recompute_effective_permissions,
  apply_room,
}

abbrev pub rooms_after : RoomEvent → List Room → List Room
rooms_after (full_state_replaced rooms users groups commands per_room) old = rooms
rooms_after (room_added room) old = old ++ room ∷ []
rooms_after (room_removed u) old = retain (λ r. not (r.id == u)) old
rooms_after (room_renamed u name) old =
    change_first (λ r. r.id == u) (λ r. record r { name = name }) old
rooms_after (room_moved u parent) old =
    change_first (λ r. r.id == u) (λ r. record r { parent = unwrap_or root_room_uuid parent }) old
rooms_after (room_description_set u description) old =
    change_first (λ r. r.id == u) (λ r. record r { description = description }) old
rooms_after (room_acl_changed u inherit_acl acls) old =
    change_first (λ r. r.id == u) (λ r. record r { inherit_acl = inherit_acl; acls = acls }) old
rooms_after _ old = old

rooms-mutate : (ev : RoomEvent) (c : State) → (mutate ev c).state.rooms ≡ rooms_after ev c.rooms
unfolding mutate join leave move_user change_status change_group replace_all
rooms-mutate (user_joined user) c = elim (Bool-cases (is_some (user_of user.user_id c.users))) [
  | inl there ↦ rw there refl
  | inr new ↦ rw new refl
]
rooms-mutate (user_moved user_id room_id) c = elim (Bool-cases (same_id c.my_user_id user_id)) [
  | inl me ↦ elim (Option-cases room_id) [
    | inl nowhere ↦ rw (me, nowhere) refl
    | inr (room, there) ↦ rw (me, there) refl
  ]
  | inr other ↦ rw other refl
]
rooms-mutate (user_status_changed user_id muted deafened server_muted elevated) c =
    elim (Option-cases (user_of user_id c.users)) [
      | inl unknown ↦ rw (mutate, change_status, unknown) refl
      | inr (u, known) ↦ rw (mutate, change_status, known) refl
    ]
rooms-mutate (user_group_changed user_id group added) c =
    elim (Option-cases (user_of user_id c.users)) [
      | inl unknown ↦ rw (mutate, change_group, unknown) refl
      | inr (u, known) ↦ rw (mutate, change_group, known) refl
    ]
rooms-mutate (full_state_replaced rooms users groups commands per_room) c = refl
rooms-mutate (room_added room) c = refl
rooms-mutate (room_removed u) c = refl
rooms-mutate (room_renamed u name) c = refl
rooms-mutate (room_moved u parent) c = refl
rooms-mutate (room_description_set u description) c = refl
rooms-mutate (room_acl_changed u inherit_acl acls) c = refl
rooms-mutate (user_left u) c = refl
rooms-mutate (group_added group) c = refl
rooms-mutate (group_modified group) c = refl
rooms-mutate (group_removed name) c = refl
rooms-mutate (registered_users_replaced users) c = refl
rooms-mutate (self_moved_to_room room) c = refl
rooms-mutate (state_hash_checkpoint hash) c = refl

module _ ⦃F : BitFlags⦄ where
  rooms-recompute_effective_permissions :
      (c : State) → (recompute_effective_permissions c).rooms ≡ c.rooms
  unfolding recompute_effective_permissions
  rooms-recompute_effective_permissions c = elim (Option-cases c.my_user_id) [
    | inl nobody ↦ rw nobody refl
    | inr (me, known) ↦ rw known refl
  ]

  pub rooms-apply_room :
      (ev : RoomEvent) (c : State) → (apply_room ev c).rooms ≡ rooms_after ev c.rooms
  unfolding apply_room
  rooms-apply_room ev c = elim (Bool-cases (mutate ev c).recompute) [
    | inl again ↦
        rw (apply_room, again)
          (rooms-recompute_effective_permissions (mutate ev c).state ∙ rooms-mutate ev c)
    | inr kept ↦ rw (apply_room, kept) (rooms-mutate ev c)
  ]
