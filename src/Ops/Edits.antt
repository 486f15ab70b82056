-- ===== src/Ops/Edits.antt =====
-- `handle_rename_room` and `handle_set_room_description` of crates/server/src/handlers.rs. The texts of
-- replies are left out.
use rumble.Prelude.{ℕ, Option, none, some, String, not, if◌then◌else◌}
use rumble.Prelude.Fallible.{unwrap_or}
use rumble.Permission.{BitFlags, modify_room}
use rumble.Sled.{Sled}
use rumble.Persistence.{PersistedRoom, get_room, save_room}
use rumble.Rooms.{root_room_uuid, rename_room, set_room_description}
use rumble.Acl.{PermissionDenied}
use rumble.Ops.{
  Server, ClientHandle, room_renamed, room_description_changed, broadcast_state_update,
  in_persistence, refusal,
}

pub data EditReply : Type 0 where
  edit_denied : PermissionDenied → EditReply
  unknown_room : EditReply
  edited : EditReply

module _ ⦃S : Sled⦄ where
  -- The stored copy of a room is changed, if there is one; a write that fails is skipped.
  abbrev pub persist_room : ℕ → (PersistedRoom → PersistedRoom) → Server → Server
  persist_room room_uuid change s = elim (get_room room_uuid s.persistence) [
    | none ↦ s
    | some room ↦ in_persistence (save_room room_uuid (change room)) s
  ]

module _ ⦃S : Sled⦄ ⦃F : BitFlags⦄ where
  -- An id that is absent or not 16 bytes means Root.
  unfoldable pub handle_rename_room : Option ℕ → String → ClientHandle → Server → EditReply × Server
  handle_rename_room room_id new_name sender s =
      let room_uuid = unwrap_or root_room_uuid room_id in
      elim (refusal sender s room_uuid modify_room) [
        | some denied ↦ (edit_denied denied, s)
        | none ↦
            let (state, renamed) = rename_room room_uuid new_name s.state in
            let t = record s { state = state } in
            if not renamed then (unknown_room, t) else (
              edited,
              broadcast_state_update (room_renamed room_uuid new_name)
                  (persist_room room_uuid (λ room. record room { name = new_name }) t),
            )
      ]

  unfoldable pub handle_set_room_description :
      Option ℕ → String → ClientHandle → Server → EditReply × Server
  handle_set_room_description room_id description sender s =
      let room_uuid = unwrap_or root_room_uuid room_id in
      elim (refusal sender s room_uuid modify_room) [
        | some denied ↦ (edit_denied denied, s)
        | none ↦
            let (state, updated) = set_room_description room_uuid description s.state in
            let t = record s { state = state } in
            if not updated then (unknown_room, t) else (
              edited,
              broadcast_state_update (room_description_changed room_uuid description)
                  (persist_room room_uuid (λ room. record room { description = description }) t),
            )
      ]
