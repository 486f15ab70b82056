-- ===== src/Ops/Broadcast/History.antt =====
-- A history of operations of crates/server/src/ops.rs and requests to move a room
-- (crates/server/src/handlers.rs), and a client that receives what they broadcast.
use rumble.Prelude.Fallible.{unwrap_or}
use rumble.Prelude.{
  ℕ, ◌≡◌, refl, sym, ap, ◌∙◌, Bool, true, false, Option, some, String, List, [], map, ◌==◌, length,
  Bool-cases, Option-cases, inl, inr,
}
use rumble.Permission.{BitFlags, modify_room, make_room}
use rumble.Sled.{Sled}
use rumble.Persistence.Memberships
use rumble.Rooms.{
  Room, RoomAclEntry, root_room_uuid, update_room, move_room, set_room_acl, get_room_members,
}
use rumble.Rooms.Lookup.{with_parent, found-update_room, rooms-move_room}
use rumble.Wire.{RoomInfo, acl_to_proto}
use rumble.Client.{State}
use rumble.Sync.{hash_rooms, receive_all}
use rumble.Sync.Effect.{effect, effects, with_acl, hash_rooms-update_room, rooms-receive_all}
use rumble.Ops.{
  Server, ClientHandle, err, not_persisted, room_acl_changed, broadcast_state_update,
  apply_create_room, apply_delete_room, handle_move_room, refusal, closes_cycle,
}
use rumble.Ops.Edits.{handle_rename_room, handle_set_room_description}
use rumble.Ops.AclSave.{Digest, Saved, stored_acl, stale_base, apply_set_room_acl}
use rumble.Ops.Broadcast.{
  IsTold, Told-then, IsTold-moved, IsTold-apply_create_room, IsTold-apply_delete_room,
  IsTold-reevaluate_members, absent-update_room,
}
use rumble.Ops.Broadcast.Edited.{IsTold-handle_rename_room, IsTold-handle_set_room_description}

module _ ⦃S : Sled⦄ ⦃F : BitFlags⦄ (start : List RoomInfo) where
  IsTold-handle_move_room :
      (u : ℕ) (parent : Option ℕ) (sender : ClientHandle) (s : Server)
      → IsTold start s
      → IsTold start
          (handle_move_room (record { room_id = some u; new_parent_id = parent }) sender s).1
  unfolding handle_move_room
  IsTold-handle_move_room u parent sender s told =
      let p = unwrap_or root_room_uuid parent in
      elim (Option-cases (refusal sender s u modify_room)) [
        | inr (denied, e) ↦ rw (handle_move_room, e) told
        | inl may_modify ↦ elim (Option-cases (refusal sender s p make_room)) [
          | inr (denied, e) ↦ rw (handle_move_room, may_modify, e) told
          | inl may_make ↦ elim (Bool-cases (p == u)) [
            | inl itself ↦ rw (handle_move_room, may_modify, may_make, itself) told
            | inr other ↦
                elim (Bool-cases (closes_cycle (length s.state.rooms) s.state.rooms u (some p))) [
                  | inl cycle ↦ rw (handle_move_room, may_modify, may_make, other, cycle) told
                  | inr open' ↦ elim (Bool-cases (move_room u p s.state).1) [
                    | inl found ↦
                        rw (handle_move_room, may_modify, may_make, other, open', found)
                          (IsTold-moved start u p parent s refl told)
                    | inr missing ↦
                        let law = rooms-move_room u p s.state in
                        rw (handle_move_room, may_modify, may_make, other, open', missing)
                          (told
                            ∙ sym (
                                ap hash_rooms (
                                  law.0
                                  ∙ absent-update_room u (with_parent p) s.state.rooms
                                      (sym law.1 ∙ missing))))
                  ]
                ]
          ]
        ]
      ]

  saved_room :
      (u : ℕ) (inherit_acl : Bool) (acls : List RoomAclEntry) (rooms : List Room)
      → hash_rooms
          (update_room u (λ r. record r { inherit_acl = inherit_acl; acls = acls }) rooms).0
        ≡ effect (room_acl_changed u inherit_acl acls) (hash_rooms rooms)
  saved_room u inherit_acl acls rooms =
      hash_rooms-update_room u (λ r. record r { inherit_acl = inherit_acl; acls = acls })
        (with_acl inherit_acl (map acl_to_proto acls)) rooms (λ r. refl)

  -- Whether a save did not fail in the database.
  abbrev pub is_stored : Saved → Bool
  is_stored (err not_persisted) = false
  is_stored _ = true

  IsTold-apply_set_room_acl :
      (H : Digest) (u : ℕ) (inherit_acl : Bool) (acls : List RoomAclEntry) (base : ℕ) (s : Server)
      → is_stored (apply_set_room_acl H u inherit_acl acls base s).0 ≡ true
      → IsTold start s
      → IsTold start (apply_set_room_acl H u inherit_acl acls base s).1
  unfolding apply_set_room_acl set_room_acl
  IsTold-apply_set_room_acl H u inherit_acl acls base s stored told =
      elim (Bool-cases (stale_base H base u s)) [
        | inl stale ↦ rw (apply_set_room_acl, stale) told
        | inr fresh ↦ elim (Bool-cases (set_room_acl u inherit_acl acls s.state).1) [
          | inr missing ↦
              let f : Room → Room = λ r. record r { inherit_acl = inherit_acl; acls = acls } in
              rw (apply_set_room_acl, fresh, missing)
                (told
                  ∙ sym (
                      ap hash_rooms (
                        absent-update_room u f s.state.rooms
                          (sym (found-update_room u f s.state.rooms) ∙ missing))))
          | inl found ↦
              elim (Option-cases
                (Memberships.set_room_acl u (stored_acl inherit_acl acls) s.persistence)) [
                  | inl failed ↦
                      absurd (cc (rw (apply_set_room_acl, fresh, found, failed) at stored))
                  | inr (p, written) ↦
                      let d = (set_room_acl u inherit_acl acls s.state).0 in
                      let saved : Server = record s { state = d; persistence = p } in
                      rw (apply_set_room_acl, fresh, found, written)
                        (IsTold-reevaluate_members start (get_room_members u d) u
                          (broadcast_state_update (room_acl_changed u inherit_acl acls) saved)
                          (Told-then start (room_acl_changed u inherit_acl acls) d s.sent
                            s.state.rooms d.rooms (saved_room u inherit_acl acls s.state.rooms)
                            told))
                ]
        ]
      ]

module _ ⦃S : Sled⦄ ⦃F : BitFlags⦄ (H : Digest) where
  pub data Operation : Type 0 where
    creates : ℕ → String → Option ℕ → Option String → Operation
    deletes : ℕ → Operation
    moves : ℕ → Option ℕ → ClientHandle → Operation
    renames : Option ℕ → String → ClientHandle → Operation
    describes : Option ℕ → String → ClientHandle → Operation
    saves_acl : ℕ → Bool → List RoomAclEntry → ℕ → Operation

  pub run : Operation → Server → Server
  run (creates new_uuid name parent description) s =
      (apply_create_room new_uuid name parent description s).1
  run (deletes room_uuid) s = (apply_delete_room room_uuid s).1
  run (moves room_uuid parent sender) s =
      (handle_move_room (record { room_id = some room_uuid; new_parent_id = parent }) sender s).1
  run (renames room_id name sender) s = (handle_rename_room room_id name sender s).1
  run (describes room_id text sender) s = (handle_set_room_description room_id text sender s).1
  run (saves_acl room_uuid inherit_acl entries base_version) s =
      (apply_set_room_acl H room_uuid inherit_acl entries base_version s).1

  -- Whether an operation does not fail half-way: a save that the database refuses has changed the
  -- live room and is not broadcast.
  abbrev pub completes : Operation → Server → Bool
  completes (saves_acl room_uuid inherit_acl entries base_version) s =
      is_stored [] (apply_set_room_acl H room_uuid inherit_acl entries base_version s).0
  completes _ s = true

  pub data History (s : Server) : Server → Type 1 where
    begun : History s s
    next :
        {t : Server} → History s t → (op : Operation) → completes op t ≡ true → History s (run op t)

  IsTold-run :
      (begin : List RoomInfo) (op : Operation) (s : Server)
      → completes op s ≡ true
      → IsTold begin s
      → IsTold begin (run op s)
  unfolding run
  IsTold-run begin (creates u name parent desc) s c told =
      IsTold-apply_create_room begin u name parent desc s told
  IsTold-run begin (deletes u) s c told = IsTold-apply_delete_room begin u s told
  IsTold-run begin (moves u parent sender) s c told =
      IsTold-handle_move_room begin u parent sender s told
  IsTold-run begin (renames room_id name sender) s c told =
      IsTold-handle_rename_room begin room_id name sender s told
  IsTold-run begin (describes room_id text sender) s c told =
      IsTold-handle_set_room_description begin room_id text sender s told
  IsTold-run begin (saves_acl u inherit_acl acls base) s c told =
      IsTold-apply_set_room_acl begin H u inherit_acl acls base s c told

  History-IsTold :
      (begin : List RoomInfo) (s t : Server) → IsTold begin s → History s t → IsTold begin t
  History-IsTold begin s t told begun = told
  History-IsTold begin s t told (next {t = u} h op c) =
      IsTold-run begin op u c (History-IsTold begin s u told h)

  -- Let a client have the rooms of a server that has broadcast nothing yet, as the hash of a state
  -- reads them. After any history of rooms made, deleted, moved, renamed and described and of lists
  -- saved, whatever each of them answers, the client that has applied every update in order has the
  -- rooms of the server again. A save that fails in the database is left out, and so is a request
  -- to move a room without naming it.
  pub client_keeps_up :
      (c : State) (s t : Server)
      → s.sent ≡ []
      → hash_rooms c.rooms ≡ hash_rooms s.state.rooms
      → History s t
      → hash_rooms (receive_all t.sent c).rooms ≡ hash_rooms t.state.rooms
  client_keeps_up c s t silent same h =
      rooms-receive_all t.sent c
      ∙ History-IsTold (hash_rooms c.rooms) s t
          (ap (λ us. effects us (hash_rooms c.rooms)) silent ∙ same) h
