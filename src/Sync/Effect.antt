-- ===== src/Sync/Effect.antt =====
-- What an update of crates/server/src/ops.rs says of the rooms, and that a client does as it says.
use rumble.Prelude.Fallible.{unwrap_or}
use rumble.Prelude.{
  ℕ, ◌≡◌, refl, ap, ◌∙◌, Bool, true, false, not, none, some, String, str_eq, List, [], ◌∷◌, ◌++◌,
  map, ◌==◌, if◌then◌else◌, retain, Bool-cases, inl, inr,
}
use rumble.Permission.{BitFlags}
use rumble.Rooms.{Room, StateData, root_room_uuid, update_room}
use rumble.Ops
use rumble.Ops.{Update}
use rumble.Wire.{RoomAclInfo, RoomInfo, to_hash_input, acl_from_proto, acl_to_proto}
use rumble.Wire.RoundTrip.{room_from_proto-room_to_proto, acls_kept, some_inj}
use rumble.Client
use rumble.Client.{
  State, RoomEvent, change_first, same_id, apply_room, mutate, recompute_effective_permissions,
}
use rumble.Client.Rooms.{rooms-apply_room}
use rumble.Client.Updates.{events_of}
use rumble.Sync.{message, apply_all, receive_all, hash_rooms}

abbrev pub change_info : ℕ → (RoomInfo → RoomInfo) → List RoomInfo → List RoomInfo
change_info room_id = change_first (λ p. same_id p.id room_id)

abbrev pub under : ℕ → RoomInfo → RoomInfo
under parent p = record p { parent_id = if parent == root_room_uuid then none else some parent }

abbrev pub with_acl : Bool → List RoomAclInfo → RoomInfo → RoomInfo
with_acl inherit_acl acls p = record p { inherit_acl = inherit_acl; acls = acls }

abbrev pub named : String → RoomInfo → RoomInfo
named name p = record p { name = name }

abbrev pub described : String → RoomInfo → RoomInfo
described text p = record p { description = if str_eq text "" then none else some text }

-- What an update says of the rooms.
abbrev pub effect : Update → List RoomInfo → List RoomInfo
effect (Ops.room_created room) infos = infos ++ to_hash_input room ∷ []
effect (Ops.room_moved none parent) infos = infos
effect (Ops.room_moved (some room_id) parent) infos =
    change_info room_id (under (unwrap_or root_room_uuid parent)) infos
effect (Ops.room_deleted room_id fallback) infos = retain (λ p. not (same_id p.id room_id)) infos
effect (Ops.room_acl_changed room_id inherit_acl acls) infos =
    change_info room_id (with_acl inherit_acl (map acl_to_proto acls)) infos
effect (Ops.room_renamed room_id name) infos = change_info room_id (named name) infos
effect (Ops.room_description_changed room_id text) infos =
    change_info room_id (described text) infos
effect _ infos = infos

abbrev pub effects : List (Update × StateData) → List RoomInfo → List RoomInfo
effects [] infos = infos
effects (u ∷ us) infos = effects us (effect u.0 infos)

pub hash_rooms-change_first :
    (u : ℕ) (f : Room → Room) (g : RoomInfo → RoomInfo) (rooms : List Room)
    → ((r : Room) → to_hash_input (f r) ≡ g (to_hash_input r))
    → hash_rooms (change_first (λ r. r.id == u) f rooms) ≡ change_info u g (hash_rooms rooms)
hash_rooms-change_first u f g [] h = refl
hash_rooms-change_first u f g (r ∷ rooms) h = elim (Bool-cases (r.id == u)) [
  | inl here ↦ rw here (ap (λ p. p ∷ hash_rooms rooms) (h r))
  | inr later ↦ rw later (ap (λ ps. to_hash_input r ∷ ps) (hash_rooms-change_first u f g rooms h))
]

pub hash_rooms-update_room :
    (u : ℕ) (f : Room → Room) (g : RoomInfo → RoomInfo) (rooms : List Room)
    → ((r : Room) → to_hash_input (f r) ≡ g (to_hash_input r))
    → hash_rooms (update_room u f rooms).0 ≡ change_info u g (hash_rooms rooms)
unfolding update_room
hash_rooms-update_room u f g [] h = refl
hash_rooms-update_room u f g (r ∷ rooms) h = elim (Bool-cases (r.id == u)) [
  | inl here ↦ rw (update_room, here) (ap (λ p. p ∷ hash_rooms rooms) (h r))
  | inr later ↦
      rw (update_room, later)
        (ap (λ ps. to_hash_input r ∷ ps) (hash_rooms-update_room u f g rooms h))
]

pub hash_rooms-retain :
    (u : ℕ) (rooms : List Room)
    → hash_rooms (retain (λ r. not (r.id == u)) rooms)
      ≡ retain (λ p. not (same_id p.id u)) (hash_rooms rooms)
hash_rooms-retain u [] = refl
hash_rooms-retain u (r ∷ rooms) = elim (Bool-cases (r.id == u)) [
  | inl here ↦ rw here (hash_rooms-retain u rooms)
  | inr other ↦ rw other (ap (λ ps. to_hash_input r ∷ ps) (hash_rooms-retain u rooms))
]

pub hash_rooms-snoc :
    (r : Room) (rooms : List Room)
    → hash_rooms (rooms ++ r ∷ []) ≡ hash_rooms rooms ++ to_hash_input r ∷ []
hash_rooms-snoc r [] = refl
hash_rooms-snoc r (q ∷ rooms) = ap (λ ps. to_hash_input q ∷ ps) (hash_rooms-snoc r rooms)

module _ ⦃F : BitFlags⦄ where
  -- A client does to its rooms what the update says.
  pub rooms-receive :
      (u : Update) (c : State)
      → hash_rooms (apply_all (events_of (message u)) c).rooms ≡ effect u (hash_rooms c.rooms)
  unfolding apply_all events_of
  rooms-receive (Ops.room_created room) c =
      let sent : Room = record room {
        parent =
            unwrap_or root_room_uuid
              (if room.parent == root_room_uuid then none else some room.parent);
        acls = map acl_from_proto (map acl_to_proto room.acls);
      } in
      let kept : sent ≡ room = some_inj (room_from_proto-room_to_proto room) in
      ap hash_rooms (rooms-apply_room (Client.room_added sent) c)
      ∙ hash_rooms-snoc sent c.rooms
      ∙ ap (λ (r : Room). hash_rooms c.rooms ++ to_hash_input r ∷ []) kept
  rooms-receive (Ops.room_moved none parent) c = refl
  rooms-receive (Ops.room_moved (some u) parent) c =
      ap hash_rooms (rooms-apply_room (Client.room_moved u parent) c)
      ∙ hash_rooms-change_first u (λ r. record r { parent = unwrap_or root_room_uuid parent })
          (under (unwrap_or root_room_uuid parent)) c.rooms (λ r. refl)
  rooms-receive (Ops.room_deleted u fallback) c =
      ap hash_rooms (rooms-apply_room (Client.room_removed u) c) ∙ hash_rooms-retain u c.rooms
  rooms-receive (Ops.room_acl_changed u inherit_acl acls) c =
      ap hash_rooms (
        rooms-apply_room
          (Client.room_acl_changed u inherit_acl (map acl_from_proto (map acl_to_proto acls))) c)
      ∙ hash_rooms-change_first u
          (λ r. record r {
            inherit_acl = inherit_acl;
            acls = map acl_from_proto (map acl_to_proto acls);
          })
          (with_acl inherit_acl (map acl_to_proto acls)) c.rooms
          (λ r.
            ap
              (λ es. record (to_hash_input r) {
                inherit_acl = inherit_acl;
                acls = map acl_to_proto es;
              })
              (acls_kept acls))
  rooms-receive (Ops.room_renamed u name) c =
      ap hash_rooms (rooms-apply_room (Client.room_renamed u name) c)
      ∙ hash_rooms-change_first u (λ r. record r { name = name }) (named name) c.rooms (λ r. refl)
  rooms-receive (Ops.room_description_changed u text) c =
      ap hash_rooms (
        rooms-apply_room
          (Client.room_description_set u (if str_eq text "" then none else some text)) c)
      ∙ hash_rooms-change_first u
          (λ r. record r { description = if str_eq text "" then none else some text })
          (described text) c.rooms (λ r. refl)
  rooms-receive (Ops.user_status_changed user_id status) c = ap hash_rooms (rooms-apply_room _ c)
  rooms-receive (Ops.group_changed name permissions is_builtin true) c =
      ap hash_rooms (rooms-apply_room _ c)
  rooms-receive (Ops.group_changed name permissions is_builtin false) c =
      ap hash_rooms (rooms-apply_room _ c)
  rooms-receive (Ops.user_group_changed user_id group added expires_at) c =
      ap hash_rooms (rooms-apply_room _ c)

  pub rooms-receive_all :
      (us : List (Update × StateData)) (c : State)
      → hash_rooms (receive_all us c).rooms ≡ effects us (hash_rooms c.rooms)
  unfolding receive_all
  rooms-receive_all [] c = refl
  rooms-receive_all (u ∷ us) c =
      rooms-receive_all us (apply_all (events_of (message u.0)) c)
      ∙ ap (effects us) (rooms-receive u.0 c)
