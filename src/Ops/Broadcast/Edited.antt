-- ===== src/Ops/Broadcast/Edited.antt =====
-- What a new name and a new description of a room broadcast (crates/server/src/handlers.rs).
use rumble.Prelude.Fallible.{unwrap_or}
use rumble.Prelude.{
  ℕ, ◌≡◌, refl, sym, ap, ◌∙◌, false, Option, String, List, Bool-cases, Option-cases, inl, inr,
}
use rumble.Permission.{BitFlags, modify_room}
use rumble.Sled.{Sled}
use rumble.Rooms.{Room, StateData, root_room_uuid, rename_room, set_room_description, update_room}
use rumble.Rooms.Lookup.{with_name, with_description, rooms-rename_room, rooms-set_room_description}
use rumble.Wire.{RoomInfo, to_hash_input}
use rumble.Sync.{hash_rooms}
use rumble.Sync.Effect.{effect, effects, change_info, named, described, hash_rooms-update_room}
use rumble.Ops.{
  Server, ClientHandle, Update, room_renamed, room_description_changed, broadcast_state_update,
  refusal,
}
use rumble.Ops.Edits.{persist_room, handle_rename_room, handle_set_room_description}
use rumble.Persistence.{PersistedRoom, get_room}
use rumble.Prelude.Predicates.{mentions}
use rumble.Rooms.Invariant.{ids}
use rumble.Ops.Broadcast.{IsTold, Told-then, absent-update_room}

module _ ⦃S : Sled⦄ (start : List RoomInfo) where
  untouched-persist_room :
      (u : ℕ) (change : PersistedRoom → PersistedRoom) (s : Server)
      → ((persist_room u change s).state ≡ s.state) × ((persist_room u change s).sent ≡ s.sent)
  untouched-persist_room u change s = elim (Option-cases (get_room u s.persistence)) [
    | inl missing ↦ rw (persist_room, missing) (refl, refl)
    | inr (room, stored) ↦ rw (persist_room, stored) (refl, refl)
  ]

  -- A room is changed in the state and in the database, and everybody is told.
  IsTold-edited :
      (u : ℕ) (f : Room → Room) (g : RoomInfo → RoomInfo) (up : Update)
      (change : PersistedRoom → PersistedRoom) (s : Server) (d : StateData)
      → ((r : Room) → to_hash_input (f r) ≡ g (to_hash_input r))
      → ((infos : List RoomInfo) → effect up infos ≡ change_info u g infos)
      → d.rooms ≡ (update_room u f s.state.rooms).0
      → IsTold start s
      → IsTold start (broadcast_state_update up (persist_room u change (record s { state = d })))
  IsTold-edited u f g up change s d law told_so rooms told =
      let t = persist_room u change (record s { state = d }) in
      let same = untouched-persist_room u change (record s { state = d }) in
      Told-then start up t.state t.sent s.state.rooms t.state.rooms
        (ap (λ (e : StateData). hash_rooms e.rooms) same.0
          ∙ ap hash_rooms rooms
          ∙ hash_rooms-update_room u f g s.state.rooms law
          ∙ sym (told_so (hash_rooms s.state.rooms)))
        (ap (λ us. effects us start) same.1 ∙ told)

  IsTold-missed :
      (u : ℕ) (f : Room → Room) (s : Server) (d : StateData)
      → d.rooms ≡ (update_room u f s.state.rooms).0
      → mentions u (ids s.state.rooms) ≡ false
      → IsTold start s
      → IsTold start (record s { state = d })
  IsTold-missed u f s d rooms missing told =
      told ∙ sym (ap hash_rooms (rooms ∙ absent-update_room u f s.state.rooms missing))

module _ ⦃S : Sled⦄ ⦃F : BitFlags⦄ (start : List RoomInfo) where
  pub IsTold-handle_rename_room :
      (room_id : Option ℕ) (name : String) (sender : ClientHandle) (s : Server)
      → IsTold start s
      → IsTold start (handle_rename_room room_id name sender s).1
  unfolding handle_rename_room
  IsTold-handle_rename_room room_id name sender s told =
      let u = unwrap_or root_room_uuid room_id in
      let law = rooms-rename_room u name s.state in
      elim (Option-cases (refusal sender s u modify_room)) [
        | inr (denied, e) ↦ rw (handle_rename_room, e) told
        | inl may ↦ elim (Bool-cases (rename_room u name s.state).1) [
          | inl found ↦
              rw (handle_rename_room, may, found)
                (IsTold-edited start u (with_name name) (named name) (room_renamed u name)
                  (λ room. record room { name = name }) s (rename_room u name s.state).0 (λ r. refl)
                  (λ infos. refl) law.0 told)
          | inr missing ↦
              rw (handle_rename_room, may, missing)
                (IsTold-missed start u (with_name name) s (rename_room u name s.state).0 law.0
                  (sym law.1 ∙ missing) told)
        ]
      ]

  pub IsTold-handle_set_room_description :
      (room_id : Option ℕ) (text : String) (sender : ClientHandle) (s : Server)
      → IsTold start s
      → IsTold start (handle_set_room_description room_id text sender s).1
  unfolding handle_set_room_description
  IsTold-handle_set_room_description room_id text sender s told =
      let u = unwrap_or root_room_uuid room_id in
      let law = rooms-set_room_description u text s.state in
      elim (Option-cases (refusal sender s u modify_room)) [
        | inr (denied, e) ↦ rw (handle_set_room_description, e) told
        | inl may ↦ elim (Bool-cases (set_room_description u text s.state).1) [
          | inl found ↦
              rw (handle_set_room_description, may, found)
                (IsTold-edited start u (with_description text) (described text)
                  (room_description_changed u text) (λ room. record room { description = text }) s
                  (set_room_description u text s.state).0 (λ r. refl) (λ infos. refl) law.0 told)
          | inr missing ↦
              rw (handle_set_room_description, may, missing)
                (IsTold-missed start u (with_description text) s
                  (set_room_description u text s.state).0 law.0 (sym law.1 ∙ missing) told)
        ]
      ]
