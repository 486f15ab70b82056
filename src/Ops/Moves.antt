-- ===== src/Ops/Moves.antt =====
-- Creating and moving rooms (`apply_create_room` of crates/server/src/ops.rs, `handle_move_room` of
-- crates/server/src/handlers.rs): the room tree stays a tree.
use rumble.Prelude.{
  ℕ, ◌≡◌, refl, ◌↔◌, subst, Bool, true, false, not, ◌&&◌, ◌||◌, Option, none, some, String, List,
  [], ◌∷◌, ◌++◌, ◌==◌, if◌then◌else◌, find, length, arith, Bool-cases, Option-cases, inl, inr,
}
use rumble.Prelude.Predicates.{mentions}
use rumble.Permission.{BitFlags, modify_room, make_room}
use rumble.Prelude.Fallible.{unwrap_or, is_some}
use rumble.Sled.{Sled}
use rumble.Persistence.{get_room}
use rumble.Rooms.{Room, StateData, root_room_uuid, fresh_room, update_room, move_room, room_exists}
use rumble.Rooms.Invariant.{ids, ids-update_room}
use rumble.Rooms.Lookup.{
  with_parent, find-update_room, find-append, rooms-move_room, rooms-create_room,
  room_exists-mentions,
}
use rumble.Ops.{
  ClientHandle, Server, MoveRoom, moved, apply_create_room, closes_cycle, handle_move_room, refusal,
  persist_parent,
}
use rumble.Ops.Tree.{Climb, at_root, below, IsTree, find_listed, mentions-find}
use rumble.Ops.Guard.{closes_cycle-Climb}

-- The room `u` gets the parent `p`.
module _ (rooms : List Room) (u p : ℕ) (below_root : (u == root_room_uuid) ≡ false) where
  abbrev relinked : List Room
  relinked = (update_room u (with_parent p) rooms).0

  -- A climb that does not meet the room stays.
  Climb-aside :
      {x : ℕ} {xs : List ℕ} → Climb rooms x xs → mentions u xs ≡ false → Climb relinked x xs
  Climb-aside (at_root e) h = at_root e
  Climb-aside (below {x = x} {r = r} n f c) h =
      below {r = r} n (ground (arith, find-update_room u x p rooms)) (Climb-aside c (ground arith))

  -- Any other climb goes on by the new parent where it meets the room.
  Climb-redirected :
      {xs ps : List ℕ} (x : ℕ)
      → Climb relinked p ps
      → Climb rooms x xs
      → (ys : List ℕ) × Climb relinked x ys
  Climb-redirected x up (at_root e) = ([], at_root e)
  Climb-redirected {ps = ps} x up (below {r = r} {xs = xs} n f c) = elim (Bool-cases (u == x)) [
    | inl here ↦
        (x ∷ ps, below {r = with_parent p r} n (ground (arith, find-update_room u x p rooms)) up)
    | inr other ↦
        let (ys, d) = Climb-redirected r.parent up c in
        (x ∷ ys, below {r = r} n (ground (arith, find-update_room u x p rooms)) d)
  ]

  pub relinked-IsTree :
      {ps : List ℕ} → IsTree rooms → Climb rooms p ps → mentions u ps ≡ false → IsTree relinked
  relinked-IsTree t c aside = record {
    top = ground (arith, t.top, find-update_room u root_room_uuid p rooms);
    climbs = λ x listed.
        let (xs, d) = t.climbs x (
          subst (λ (t : List ℕ). mentions x t ≡ true)
            (ids-update_room u (with_parent p) rooms (λ r. refl)) listed) in
        Climb-redirected x (Climb-aside c aside) d;
  }

-- A room with a new UUID under a room that is there.
module _ (rooms : List Room) (r : Room) (unused : mentions r.id (ids rooms) ≡ false) where
  Climb-append : {x : ℕ} {xs : List ℕ} → Climb rooms x xs → Climb (rooms ++ r ∷ []) x xs
  Climb-append (at_root e) = at_root e
  Climb-append (below {x = x} {r = s} n f c) =
      below {r = s} n (ground (arith, find-append x rooms r)) (Climb-append c)

  mentions-ids-append :
      (x : ℕ) (rs : List Room)
      → mentions x (ids (rs ++ r ∷ [])) ≡ (mentions x (ids rs) || r.id == x)
  mentions-ids-append x [] = ground arith
  mentions-ids-append x (s ∷ rs) = ground (arith, mentions-ids-append x rs)

  absent : find (λ y. y.id == r.id) rooms ≡ none
  absent = elim (Option-cases (find (λ (y : Room). y.id == r.id) rooms)) [
    | inl e ↦ e
    | inr (s, e) ↦ absurd (ground (arith, mentions-find r.id rooms e))
  ]

  pub append-IsTree :
      {ps : List ℕ}
      → IsTree rooms
      → Climb rooms r.parent ps
      → mentions root_room_uuid (ids rooms) ≡ true
      → IsTree (rooms ++ r ∷ [])
  append-IsTree {ps = ps} t up rooted =
      let (top, e) = find_listed root_room_uuid rooms rooted in
      record {
        top = ground (arith, t.top, find-append root_room_uuid rooms r);
        climbs = λ x listed. elim (Bool-cases (mentions x (ids rooms))) [
          | inl old ↦ let (xs, d) = t.climbs x old in (xs, Climb-append d)
          | inr fresh ↦
              let same : r.id ≡ x = ground (arith, mentions-ids-append x rooms) in
              (
                x ∷ ps,
                below {r = r} (ground arith) (ground (arith, absent, find-append x rooms r))
                    (Climb-append up),
              )
        ];
      }

Climb-exists :
    (p : ℕ) (d : StateData)
    → IsTree d.rooms
    → room_exists p d ≡ true
    → (ps : List ℕ) × Climb d.rooms p ps
Climb-exists p d t h = elim (Bool-cases (p == root_room_uuid)) [
  | inl top ↦ ([], at_root top)
  | inr low ↦ t.climbs p (ground (arith, room_exists-mentions p d))
]

-- A room below Root is on its own climb.
mentions-Climb :
    {rooms : List Room} {p : ℕ} {ps : List ℕ} (u : ℕ)
    → Climb rooms p ps
    → (u == root_room_uuid) ≡ false
    → (p == u) ≡ true
    → mentions u ps ≡ true
mentions-Climb u (at_root e) low same = absurd (ground arith)
mentions-Climb u (below n f c) low same = ground arith

module _ ⦃S : Sled⦄ where
  -- A room tree with its Root stays a tree when a room with a new UUID is asked for, whether or not
  -- the parent that is asked for exists.
  pub apply_create_room-IsTree :
      (u : ℕ) (name : String) (parent : Option ℕ) (desc : Option String) (s : Server)
      → mentions u (ids s.state.rooms) ≡ false
      → mentions root_room_uuid (ids s.state.rooms) ≡ true
      → IsTree s.state.rooms
      → IsTree (apply_create_room u name parent desc s).1.state.rooms
  unfolding apply_create_room
  apply_create_room-IsTree u name none desc s unused rooted t =
      rw (rooms-create_room u name root_room_uuid desc s.state).0 (
        append-IsTree s.state.rooms (fresh_room u name root_room_uuid desc) unused t (at_root refl)
          rooted)
  apply_create_room-IsTree u name (some p) desc s unused rooted t =
      elim (Bool-cases (room_exists p s.state)) [
        | inl there ↦
            let (ps, up) = Climb-exists p s.state t there in
            rw (there, (rooms-create_room u name p desc s.state).0)
              (append-IsTree s.state.rooms (fresh_room u name p desc) unused t up rooted)
        | inr unknown ↦ rw unknown t
      ]

  pub state-persist_parent : (u p : ℕ) (s : Server) → (persist_parent u p s).state ≡ s.state
  state-persist_parent u p s = elim (Option-cases (get_room u s.persistence)) [
    | inl missing ↦ rw (persist_parent, missing) refl
    | inr (room, stored) ↦ rw (persist_parent, stored) refl
  ]

  module _ ⦃F : BitFlags⦄ where
    -- The request passes both permission checks and the cycle guard.
    abbrev pub accepts : ℕ → ℕ → ClientHandle → Server → Bool
    accepts u p sender s =
        not (is_some (refusal sender s u modify_room))
        && not (is_some (refusal sender s p make_room))
        && not (p == u)
        && not (closes_cycle (length s.state.rooms) s.state.rooms u (some p))

    state-handle_move_room :
        (mr : MoveRoom) (sender : ClientHandle) (s : Server)
        → (handle_move_room mr sender s).1.state ≡ (
            if accepts
              (unwrap_or root_room_uuid mr.room_id)
              (unwrap_or root_room_uuid mr.new_parent_id)
              sender
              s
            then (move_room
                (unwrap_or root_room_uuid mr.room_id)
                (unwrap_or root_room_uuid mr.new_parent_id)
                s.state).0
            else s.state)
    unfolding handle_move_room
    state-handle_move_room mr sender s =
        let u = unwrap_or root_room_uuid mr.room_id in
        let p = unwrap_or root_room_uuid mr.new_parent_id in
        ground (arith, state-persist_parent u p (record s { state = (move_room u p s.state).0 }))

    reply-handle_move_room :
        (mr : MoveRoom) (sender : ClientHandle) (s : Server)
        → ((handle_move_room mr sender s).0 ≡ moved) ↔ (
            (accepts
                (unwrap_or root_room_uuid mr.room_id)
                (unwrap_or root_room_uuid mr.new_parent_id)
                sender
                s
              && mentions (unwrap_or root_room_uuid mr.room_id) (ids s.state.rooms))
            ≡ true)
    unfolding handle_move_room
    reply-handle_move_room mr sender s =
        let u = unwrap_or root_room_uuid mr.room_id in
        let p = unwrap_or root_room_uuid mr.new_parent_id in
        ground (arith, rooms-move_room u p s.state)

    -- A room tree stays a tree after a request to move a room, whatever the reply, if the room is
    -- not Root and the new parent exists.
    pub handle_move_room-IsTree :
        (mr : MoveRoom) (sender : ClientHandle) (s : Server)
        → (unwrap_or root_room_uuid mr.room_id == root_room_uuid) ≡ false
        → room_exists (unwrap_or root_room_uuid mr.new_parent_id) s.state ≡ true
        → IsTree s.state.rooms
        → IsTree (handle_move_room mr sender s).1.state.rooms
    handle_move_room-IsTree mr sender s low there t =
        let u = unwrap_or root_room_uuid mr.room_id in
        let p = unwrap_or root_room_uuid mr.new_parent_id in
        let (ps, up) = Climb-exists p s.state t there in
        elim (Bool-cases (accepts u p sender s)) [
          | inl accepted ↦
              rw (state-handle_move_room mr sender s, accepted, (rooms-move_room u p s.state).0)
                (relinked-IsTree s.state.rooms u p low t up
                  (ground (arith, closes_cycle-Climb s.state.rooms u low t.top up)))
          | inr refused ↦ rw (state-handle_move_room mr sender s, refused) t
        ]

    -- In a tree, a request to move a room other than Root under a parent that exists is carried
    -- out exactly if the sender may modify the room and make rooms in the new parent, the room
    -- exists, and it is not the new parent nor above it.
    pub handle_move_room_lem :
        (mr : MoveRoom) (sender : ClientHandle) (s : Server) (ps : List ℕ)
        → (unwrap_or root_room_uuid mr.room_id == root_room_uuid) ≡ false
        → IsTree s.state.rooms
        → Climb s.state.rooms (unwrap_or root_room_uuid mr.new_parent_id) ps
        → ((handle_move_room mr sender s).0 ≡ moved) ↔ (
            (not (is_some (refusal sender s (unwrap_or root_room_uuid mr.room_id) modify_room))
              && not
                  (is_some (refusal sender s (unwrap_or root_room_uuid mr.new_parent_id) make_room))
              && mentions (unwrap_or root_room_uuid mr.room_id) (ids s.state.rooms)
              && not (mentions (unwrap_or root_room_uuid mr.room_id) ps))
            ≡ true)
    handle_move_room_lem mr sender s ps low t up =
        let u = unwrap_or root_room_uuid mr.room_id in
        ground (
          arith,
          reply-handle_move_room mr sender s,
          closes_cycle-Climb s.state.rooms u low t.top up,
          mentions-Climb u up low,
        )
