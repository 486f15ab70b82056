-- ===== src/Ops/Broadcast.antt =====
-- What crates/server/src/ops.rs broadcasts says what it did to the rooms: a reader of the updates
-- alone has the rooms that the server has.
pub mod Edited
pub mod History
use rumble.Prelude.Fallible.{unwrap_or}
use rumble.Prelude.{
  ℕ, ◌≡◌, ◌≢◌, refl, sym, ap, ◌∙◌, Bool, true, false, not, Option, none, some, String, List, [],
  ◌∷◌, ◌++◌, map, ◌==◌, ==_iff, if◌then◌else◌, retain, find, length, arith, Bool-cases,
  Option-cases, inl, inr, nat_keys,
}
use rumble.Prelude.Equality.{get?}
use rumble.Prelude.Predicates.{mentions}
use rumble.Permission.{BitFlags, modify_room, make_room}
use rumble.Sled.{Sled}
use rumble.Persistence
use rumble.Persistence.{get_room}
use rumble.Persistence.Memberships.{delete_room_acl}
use rumble.Rooms.{
  Room, RoomAclEntry, StateData, root_room_uuid, room_parent_and_children, get_user_status,
  get_room_members, create_room_with_parent_desc, fresh_room, update_room, move_room, delete_room,
  room_exists,
}
use rumble.Rooms.Invariant.{ids, others}
use rumble.Rooms.Lookup.{with_parent, rooms-move_room, rooms-create_room, rooms-delete_room}
use rumble.Wire.{RoomInfo, to_hash_input}
use rumble.Sync.{hash_rooms}
use rumble.Sync.Effect.{
  effect, effects, under, change_info, hash_rooms-update_room, hash_rooms-retain, hash_rooms-snoc,
}
use rumble.Ops.{
  Server, ClientHandle, Update, Result, room_created, room_moved, room_deleted, user_status_changed,
  broadcast_state_update, persist_parent, reparent_child, reparent_children, heal, heal_tree,
  set_client, in_persistence, apply_create_room, apply_delete_room, reevaluate_member_mute,
  reevaluate_members, should_mute, MoveRoom, handle_move_room, refusal, closes_cycle,
}
use rumble.Ops.Moves.{state-persist_parent}

effects-snoc :
    (us : List (Update × StateData)) (u : Update × StateData) (infos : List RoomInfo)
    → effects (us ++ u ∷ []) infos ≡ effect u.0 (effects us infos)
effects-snoc [] u infos = refl
effects-snoc (v ∷ us) u infos = effects-snoc us u (effect v.0 infos)

pub absent-update_room :
    (u : ℕ) (f : Room → Room) (rooms : List Room)
    → mentions u (ids rooms) ≡ false
    → (update_room u f rooms).0 ≡ rooms
unfolding update_room
absent-update_room u f [] h = refl
absent-update_room u f (r ∷ rooms) h = ground (arith, absent-update_room u f rooms)

absent-others :
    (u : ℕ) (rooms : List Room) → mentions u (ids rooms) ≡ false → others u rooms ≡ rooms
absent-others u [] h = refl
absent-others u (r ∷ rooms) h = ground (arith, absent-others u rooms)

module _ ⦃S : Sled⦄ (start : List RoomInfo) where
  abbrev pub Told : List (Update × StateData) → List Room → Type 0
  Told sent rooms = effects sent start ≡ hash_rooms rooms

  -- The updates sent so far lead from the rooms at the start to the rooms of the server.
  abbrev pub IsTold : Server → Type 0
  IsTold s = Told s.sent s.state.rooms

  pub Told-then :
      (u : Update) (d : StateData) (sent : List (Update × StateData)) (rooms rooms' : List Room)
      → hash_rooms rooms' ≡ effect u (hash_rooms rooms)
      → Told sent rooms
      → Told (sent ++ (u, d) ∷ []) rooms'
  Told-then u d sent rooms rooms' done told =
      effects-snoc sent (u, d) start ∙ ap (effect u) told ∙ sym done

  sent-persist_parent : (u p : ℕ) (s : Server) → (persist_parent u p s).sent ≡ s.sent
  sent-persist_parent u p s = elim (Option-cases (get_room u s.persistence)) [
    | inl missing ↦ rw (persist_parent, missing) refl
    | inr (room, stored) ↦ rw (persist_parent, stored) refl
  ]

  -- One room gets another parent, in the state and in the database, and everybody is told.
  pub IsTold-moved :
      (u p : ℕ) (parent : Option ℕ) (s : Server)
      → unwrap_or root_room_uuid parent ≡ p
      → IsTold s
      → IsTold (
          broadcast_state_update
            (room_moved (some u) parent)
            (persist_parent u p (record s { state = (move_room u p s.state).0 })))
  IsTold-moved u p parent s same told =
      let moved = record s { state = (move_room u p s.state).0 } in
      let t = persist_parent u p moved in
      Told-then (room_moved (some u) parent) t.state t.sent s.state.rooms t.state.rooms
        (ap (λ (d : StateData). hash_rooms d.rooms) (state-persist_parent u p moved)
          ∙ ap hash_rooms (rooms-move_room u p s.state).0
          ∙ hash_rooms-update_room u (with_parent p) (under p) s.state.rooms (λ r. refl)
          ∙ ap (λ q. change_info u (under q) (hash_rooms s.state.rooms)) (sym same))
        (ap (λ us. effects us start) (sent-persist_parent u p moved) ∙ told)

  IsTold-reparent_children :
      (p : ℕ) (children : List ℕ) (s : Server) → IsTold s → IsTold (reparent_children p children s)
  unfolding reparent_children reparent_child
  IsTold-reparent_children p [] s told = told
  IsTold-reparent_children p (child ∷ children) s told =
      IsTold-reparent_children p children (reparent_child p child s)
        (IsTold-moved child p (some p) s refl told)

  IsTold-heal : (o : Option (ℕ × List ℕ)) (s : Server) → IsTold s → IsTold (heal o s)
  IsTold-heal none s told = told
  IsTold-heal (some (p, children)) s told = IsTold-reparent_children p children s told

  -- A room that is made is the last of the rooms.
  Told-created :
      (u : ℕ) (name : String) (p : ℕ) (desc : Option String) (d : StateData) (s : Server)
      → IsTold s
      → Told
          (s.sent ++ (room_created (fresh_room u name p desc), d) ∷ [])
          (create_room_with_parent_desc u name p desc s.state).0.rooms
  Told-created u name p desc d s told =
      Told-then (room_created (fresh_room u name p desc)) d s.sent s.state.rooms
        (create_room_with_parent_desc u name p desc s.state).0.rooms
        (ap hash_rooms (rooms-create_room u name p desc s.state).0
          ∙ hash_rooms-snoc (fresh_room u name p desc) s.state.rooms)
        told

  pub IsTold-apply_create_room :
      (u : ℕ) (name : String) (parent : Option ℕ) (desc : Option String) (s : Server)
      → IsTold s
      → IsTold (apply_create_room u name parent desc s).1
  unfolding apply_create_room create_room_with_parent_desc
  IsTold-apply_create_room u name none desc s told =
      Told-created u name root_room_uuid desc
        (create_room_with_parent_desc u name root_room_uuid desc s.state).0 s told
  IsTold-apply_create_room u name (some p) desc s told = elim (Bool-cases (room_exists p s.state)) [
    | inr unknown ↦ rw (apply_create_room, unknown) told
    | inl there ↦
        rw (apply_create_room, there)
          (Told-created u name p desc (create_room_with_parent_desc u name p desc s.state).0 s told)
  ]

  module _ ⦃F : BitFlags⦄ where
    Told-muted :
        (quiet : Bool) (u : Update) (s t : Server)
        → ((infos : List RoomInfo) → effect u infos ≡ infos)
        → t.sent ≡ s.sent
        → t.state ≡ s.state
        → IsTold s
        → IsTold (if quiet then s else broadcast_state_update u t)
    Told-muted true u s t same sent state told = told
    Told-muted false u s t same sent state told =
        Told-then u t.state t.sent s.state.rooms t.state.rooms
          (ap (λ (d : StateData). hash_rooms d.rooms) state ∙ sym (same (hash_rooms s.state.rooms)))
          (ap (λ us. effects us start) sent ∙ told)

    IsTold-reevaluate_member_mute :
        (m room : ℕ) (s : Server) → IsTold s → IsTold (reevaluate_member_mute m room s)
    unfolding reevaluate_member_mute
    IsTold-reevaluate_member_mute m room s told = elim (Option-cases (get? m s.clients)) [
      | inl gone ↦ rw (reevaluate_member_mute, gone) told
      | inr (client, there) ↦
          let mute = should_mute room client s in
          rw (reevaluate_member_mute, there)
            (Told-muted (if mute then client.server_muted else not client.server_muted)
              (user_status_changed m (record (get_user_status m s.state) {
                server_muted = mute;
                is_elevated = client.is_superuser;
              }))
              s
              (record s {
                clients = set_client m (record client { server_muted = mute }) s.clients;
              })
              (λ infos. refl) refl refl told)
    ]

    pub IsTold-reevaluate_members :
        (ms : List ℕ) (room : ℕ) (s : Server) → IsTold s → IsTold (reevaluate_members ms room s)
    unfolding reevaluate_members
    IsTold-reevaluate_members [] room s told = told
    IsTold-reevaluate_members (m ∷ ms) room s told =
        IsTold-reevaluate_members ms room (reevaluate_member_mute m room s)
          (IsTold-reevaluate_member_mute m room s told)

    pub IsTold-apply_delete_room :
        (u : ℕ) (s : Server) → IsTold s → IsTold (apply_delete_room u s).1
    unfolding apply_delete_room heal_tree
    IsTold-apply_delete_room u s told = elim (Bool-cases (u == root_room_uuid)) [
      | inl root ↦ rw (apply_delete_room, root) told
      | inr low ↦
          let h = heal_tree u s in
          let healed = IsTold-heal (room_parent_and_children u s.state) s told in
          let gone = rooms-delete_room u h.state low in
          let t = (delete_room u h.state).0 in
          elim (Bool-cases (delete_room u h.state).1) [
            | inl deleted ↦
                let removed : Server =
                  in_persistence (delete_room_acl u)
                    (in_persistence (Persistence.delete_room u) (record h { state = t })) in
                rw (apply_delete_room, low, deleted)
                  (IsTold-reevaluate_members (get_room_members u h.state) root_room_uuid
                    (broadcast_state_update (room_deleted u root_room_uuid) removed)
                    (Told-then (room_deleted u root_room_uuid) t h.sent h.state.rooms t.rooms
                      (ap hash_rooms gone.0 ∙ hash_rooms-retain u h.state.rooms) healed))
            | inr missing ↦
                rw (apply_delete_room, low, missing)
                  (healed
                    ∙ sym (
                        ap hash_rooms
                          (gone.0 ∙ absent-others u h.state.rooms (sym gone.1 ∙ missing))))
          ]
    ]
