-- ===== src/Ops/Deletion.antt =====
-- `apply_delete_room` (crates/server/src/ops.rs): the tree is healed before the room goes.
use rumble.Prelude.{
  nat_keys, ℕ, ◌≡◌, refl, ap, sym, ◌∙◌, subst, true, false, not, ◌&&◌, Option, none, some, List, [],
  ◌∷◌, ◌==◌, if◌then◌else◌, find, retain, arith, Bool-cases, Option-cases, inl, inr,
}
use rumble.Prelude.Predicates.{mentions, distinct}
use rumble.Prelude.Equality.{get?}
use rumble.Permission.{BitFlags}
use rumble.Sled.{Sled}
use rumble.Rooms.{Room, StateData, root_room_uuid, update_room, move_room, delete_room}
use rumble.Rooms.Invariant.{ids, ids-update_room, others, mentions-others}
use rumble.Rooms.Lookup.{
  with_parent, changed, find-update_room, find-others, rooms-move_room, rooms-delete_room,
  room_parent_and_children_lem, mentions-children,
}
use rumble.Ops.{
  Server, reparent_child, reparent_children, heal_tree, apply_delete_room, reevaluate_member_mute,
  reevaluate_members,
}
use rumble.Ops.Tree.{Climb, at_root, below, IsTree, root_self_parents, find_listed}
use rumble.Ops.Moves.{state-persist_parent}

others_absent :
    (u : ℕ) (rooms : List Room) → mentions u (ids rooms) ≡ false → others u rooms ≡ rooms
others_absent u [] h = refl
others_absent u (r ∷ rooms) h = ground (arith, others_absent u rooms)

find-none :
    (u : ℕ) (rooms : List Room)
    → find (λ y. y.id == u) rooms ≡ none
    → mentions u (ids rooms) ≡ false
find-none u [] h = refl
find-none u (r ∷ rooms) h = ground (arith, find-none u rooms)

-- The climbs of a tree in which the room `u` is gone and its children are `q`'s.
module _ (rooms rooms' : List Room) (u q : ℕ) (u_low : (u == root_room_uuid) ≡ false)
    (u_parent : (r : Room) → find (λ y. y.id == u) rooms ≡ some r → r.parent ≡ q)
    (kept : (x : ℕ) (r : Room)
      → (u == x) ≡ false
      → find (λ y. y.id == x) rooms ≡ some r
      → find (λ y. y.id == x) rooms' ≡ some (if r.parent == u then with_parent q r else r)) where
  Climb-skipped :
      (x : ℕ) {xs : List ℕ}
      → Climb rooms x xs
      → (ys : List ℕ) × Climb rooms' (if x == u then q else x) ys
  Climb-skipped x (at_root e) = ([], at_root (ground arith))
  Climb-skipped x (below {r = r} n f c) =
      let (ys, d) = Climb-skipped r.parent c in
      elim (Bool-cases (x == u)) [
        | inl here ↦
            let e : (if x == u then q else x) ≡ (if r.parent == u then q else r.parent) =
              ground (arith, u_parent r) in
            (ys, subst (λ t. Climb rooms' t ys) (sym e) d)
        | inr other ↦
            let e : x ≡ (if x == u then q else x) = ground arith in
            let linked : (if r.parent == u then q else r.parent)
                ≡ (if r.parent == u then with_parent q r else r).parent =
              ground arith in
            (
              x ∷ ys,
              subst (λ t. Climb rooms' t (x ∷ ys)) e
                  (below {r = if r.parent == u then with_parent q r else r} n
                    (kept x r (ground arith) f) (subst (λ t. Climb rooms' t ys) linked d)),
            )
      ]

  -- The room itself is no longer listed, and Root was its own parent.
  pub skipped-IsTree :
      IsTree rooms
      → ((x : ℕ) → mentions x (ids rooms') ≡ (mentions x (ids rooms) && not (x == u)))
      → root_self_parents rooms' ≡ true
      → IsTree rooms'
  skipped-IsTree t listed top = record {
    top = top;
    climbs = λ x h.
        let (xs, c) = t.climbs x (ground (arith, listed x)) in
        let (ys, d) = Climb-skipped x c in
        let e : (if x == u then q else x) ≡ x = ground (arith, listed x) in
        (ys, subst (λ t. Climb rooms' t ys) e d);
  }

changed_twice :
    (q : ℕ) (r : Option Room)
    → changed (with_parent q) (changed (with_parent q) r) ≡ changed (with_parent q) r
changed_twice q none = refl
changed_twice q (some r) = refl

module _ ⦃S : Sled⦄ where
  rooms-reparent_child :
      (q child : ℕ) (s : Server)
      → (reparent_child q child s).state.rooms ≡ (update_room child (with_parent q) s.state.rooms).0
  unfolding reparent_child
  rooms-reparent_child q child s =
      ap (λ (d : StateData). d.rooms)
        (state-persist_parent child q (record s { state = (move_room child q s.state).0 }))
      ∙ (rooms-move_room child q s.state).0

  find-reparent_children :
      (q x : ℕ) (children : List ℕ) (s : Server)
      → find (λ y. y.id == x) (reparent_children q children s).state.rooms ≡ (
          if mentions x children
          then changed (with_parent q) (find (λ y. y.id == x) s.state.rooms)
          else find (λ y. y.id == x) s.state.rooms)
  unfolding reparent_children
  find-reparent_children q x [] s = refl
  find-reparent_children q x (child ∷ children) s =
      let next = reparent_child q child s in
      ground (
        arith,
        find-reparent_children q x children next,
        rooms-reparent_child q child s,
        find-update_room child x q s.state.rooms,
        changed_twice q (find (λ y. y.id == x) s.state.rooms),
      )

  ids-reparent_children :
      (q : ℕ) (children : List ℕ) (s : Server)
      → ids (reparent_children q children s).state.rooms ≡ ids s.state.rooms
  unfolding reparent_children
  ids-reparent_children q [] s = refl
  ids-reparent_children q (child ∷ children) s =
      ids-reparent_children q children (reparent_child q child s)
      ∙ ap ids (rooms-reparent_child q child s)
      ∙ ids-update_room child (with_parent q) s.state.rooms (λ r. refl)

  heal_tree_found :
      (u : ℕ) (s : Server) (up : Room)
      → find (λ y. y.id == u) s.state.rooms ≡ some up
      → heal_tree u s
        ≡ reparent_children up.parent (ids (retain (λ c. c.parent == u) s.state.rooms)) s
  unfolding heal_tree
  heal_tree_found u s up f = rw (room_parent_and_children_lem u s.state, f) refl

  heal_tree_missing :
      (u : ℕ) (s : Server) → find (λ y. y.id == u) s.state.rooms ≡ none → heal_tree u s ≡ s
  unfolding heal_tree
  heal_tree_missing u s f = rw (room_parent_and_children_lem u s.state, f) refl

  -- What healing leaves: the same rooms, the children of `u` under its parent.
  find-heal_tree :
      (u x : ℕ) (s : Server) (up r : Room)
      → distinct (ids s.state.rooms) ≡ true
      → find (λ y. y.id == u) s.state.rooms ≡ some up
      → find (λ y. y.id == x) s.state.rooms ≡ some r
      → find (λ y. y.id == x) (heal_tree u s).state.rooms
        ≡ some (if r.parent == u then with_parent up.parent r else r)
  find-heal_tree u x s up r d fu fx =
      let children = ids (retain (λ c. c.parent == u) s.state.rooms) in
      rw
        (
          heal_tree_found u s up fu,
          find-reparent_children up.parent x children s,
          fx,
          mentions-children u x s.state.rooms {r = r} d fx,
        )
        (ground arith)

  module _ ⦃F : BitFlags⦄ where
    state-reevaluate_member_mute :
        (m room : ℕ) (s : Server) → (reevaluate_member_mute m room s).state ≡ s.state
    unfolding reevaluate_member_mute
    state-reevaluate_member_mute m room s = elim (Option-cases (get? m s.clients)) [
      | inl gone ↦ ground (arith, gone)
      | inr (client, there) ↦ ground (arith, there)
    ]

    state-reevaluate_members :
        (ms : List ℕ) (room : ℕ) (s : Server) → (reevaluate_members ms room s).state ≡ s.state
    unfolding reevaluate_members
    state-reevaluate_members [] room s = refl
    state-reevaluate_members (m ∷ ms) room s =
        state-reevaluate_members ms room (reevaluate_member_mute m room s)
        ∙ state-reevaluate_member_mute m room s

    rooms-apply_delete_room :
        (u : ℕ) (s : Server)
        → (u == root_room_uuid) ≡ false
        → (apply_delete_room u s).1.state.rooms ≡ others u (heal_tree u s).state.rooms
    unfolding apply_delete_room
    rooms-apply_delete_room u s low =
        let gone = rooms-delete_room u (heal_tree u s).state low in
        elim (Bool-cases (delete_room u (heal_tree u s).state).1) [
          | inl deleted ↦
              rw (low, deleted)
                (ap (λ (d : StateData). d.rooms) (state-reevaluate_members _ _ _) ∙ gone.0)
          | inr missing ↦ rw (low, missing) gone.0
        ]

    apply_delete_room-root :
        (u : ℕ) (s : Server) → (u == root_room_uuid) ≡ true → (apply_delete_room u s).1 ≡ s
    unfolding apply_delete_room
    apply_delete_room-root u s root = rw root refl

    -- A room tree with its Root and no UUID twice stays a tree when a room is deleted, whatever
    -- room is named.
    pub apply_delete_room-IsTree :
        (u : ℕ) (s : Server)
        → distinct (ids s.state.rooms) ≡ true
        → mentions root_room_uuid (ids s.state.rooms) ≡ true
        → IsTree s.state.rooms
        → IsTree (apply_delete_room u s).1.state.rooms
    apply_delete_room-IsTree u s d rooted t = elim (Bool-cases (u == root_room_uuid)) [
      | inl root ↦ rw (apply_delete_room-root u s root) t
      | inr low ↦ elim (Option-cases (find (λ (y : Room). y.id == u) s.state.rooms)) [
        | inl missing ↦
            rw
              (
                rooms-apply_delete_room u s low,
                heal_tree_missing u s missing,
                others_absent u s.state.rooms (find-none u s.state.rooms missing),
              )
              t
        | inr (up, f) ↦
            let healed = (heal_tree u s).state.rooms in
            let same : ids healed ≡ ids s.state.rooms =
              rw (heal_tree_found u s up f) (ids-reparent_children up.parent _ s) in
            let (top, e) = find_listed root_room_uuid s.state.rooms rooted in
            rw (rooms-apply_delete_room u s low) (
              skipped-IsTree s.state.rooms (others u healed) u up.parent low (λ r e. ground arith)
                (λ x r n e. ground (arith, find-others u x healed, find-heal_tree u x s up r d f e))
                t (λ x. mentions-others u x healed ∙ ap (λ l. mentions x l && not (x == u)) same)
                (ground (
                  arith,
                  t.top,
                  find-others u root_room_uuid healed,
                  find-heal_tree u root_room_uuid s up top d f e,
                )))
      ]
    ]
