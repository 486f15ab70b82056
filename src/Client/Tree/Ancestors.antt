-- ===== src/Client/Tree/Ancestors.antt =====
-- The ancestors in the room tree of crates/rumble-client/src/events.rs are the rooms above in the
-- list of rooms.
use rumble.Prelude.{
  ℕ, zero, suc, ◌+◌, ◌<◌, ◌≡◌, refl, sym, ap, ◌∙◌, true, false, ◌||◌, Option, none, some, List, [],
  ◌∷◌, map, ◌==◌, ==_iff, if◌then◌else◌, find, any, length, arith, Bool-cases, Option-cases, inl,
  inr, nat_keys,
}
use rumble.Prelude.Equality.{get?, insert, remove, get?-insert}
use rumble.Prelude.Predicates.{mentions, distinct}
use rumble.Rooms.{Room, root_room_uuid}
use rumble.Rooms.Invariant.{ids}
use rumble.Ops.{closes_cycle}
use rumble.Ops.Tree.{Climb, root_self_parents, at_root, below, length-Climb}
use rumble.Ops.Guard.{closes_cycle-Climb}
use rumble.Wire.{is_root}
use rumble.Client.Tree.{
  RoomTreeNode, RoomTree, Nodes, create_nodes, parent_in, add_child, attach, sort_children, rebuild,
  ancestors_from, ancestors, is_ancestor,
}

abbrev parent_of_room : ℕ → List Room → Option ℕ
parent_of_room x rooms = elim (find (λ (r : Room). r.id == x) rooms) [
  | none ↦ none
  | some r ↦ if is_root r then none else some r.parent
]

root_has_no_parent :
    (x : ℕ) (rooms : List Room) → (x == root_room_uuid) ≡ true → parent_of_room x rooms ≡ none
root_has_no_parent x [] e = refl
root_has_no_parent x (r ∷ rooms) e = ground (
  arith,
  root_has_no_parent x rooms,
  ==_iff r.id x,
  ==_iff x root_room_uuid,
  ==_iff r.id root_room_uuid,
)

parent_of_found :
    (x : ℕ) (rooms : List Room) {r : Room}
    → (x == root_room_uuid) ≡ false
    → find (λ y. y.id == x) rooms ≡ some r
    → parent_of_room x rooms ≡ some r.parent
parent_of_found x [] e f = absurd (cc f)
parent_of_found x (q ∷ rooms) {r = r} e f = elim (Bool-cases (q.id == x)) [
  | inl here ↦
      let same : q ≡ r = cc (rw here at f) in
      let low : (q.id == root_room_uuid) ≡ false =
        ground (arith, ==_iff q.id x, ==_iff x root_room_uuid, ==_iff q.id root_room_uuid) in
      rw (parent_of_room, here, is_root, low) (ap (λ (t : Room). some t.parent) same)
  | inr other ↦ rw (parent_of_room, other) (parent_of_found x rooms e (rw other at f))
]

parent_in-create_nodes :
    (y : ℕ) (rooms : List Room) (nodes : Nodes)
    → distinct (ids rooms) ≡ true
    → parent_in y (create_nodes rooms nodes)
      ≡ (if mentions y (ids rooms) then parent_of_room y rooms else parent_in y nodes)
unfolding create_nodes
parent_in-create_nodes y [] nodes d = refl
parent_in-create_nodes y (r ∷ rooms) nodes d =
    let n : RoomTreeNode = record {
      id = r.id;
      name = r.name;
      parent_id = if is_root r then none else some r.parent;
      children = [];
      description = r.description;
    } in
    parent_in-create_nodes y rooms (insert r.id n nodes) (ground arith)
    ∙ (elim (Bool-cases (r.id == y)) [
      | inl here ↦ ground (arith, get?-insert r.id y n nodes, ==_iff r.id y)
      | inr other ↦ ground (arith, get?-insert r.id y n nodes)
    ])

parent_in-add_child :
    (y p c : ℕ) (nodes : Nodes) → parent_in y (add_child p c nodes) ≡ parent_in y nodes
parent_in-add_child y p c [] = refl
parent_in-add_child y p c ((k, n) ∷ nodes) = elim (Bool-cases (k == p)) [
  | inl at_parent ↦ ground (arith, parent_in-add_child y p c nodes)
  | inr other ↦ ground (arith, parent_in-add_child y p c nodes)
]

parent_in-attach :
    (y : ℕ) (uuids : List ℕ) (nodes : Nodes) → parent_in y (attach uuids nodes) ≡ parent_in y nodes
unfolding attach
parent_in-attach y [] nodes = refl
parent_in-attach y (u ∷ uuids) nodes = elim (Option-cases (parent_in u nodes)) [
  | inl top ↦ rw (attach, top) (parent_in-attach y uuids nodes)
  | inr (p, e) ↦
      rw (attach, e)
        (parent_in-attach y uuids (add_child p u nodes) ∙ parent_in-add_child y p u nodes)
]

parent_in-sorted :
    (y : ℕ) (all_nodes nodes : Nodes)
    → parent_in y (
        map
          (λ (e : ℕ × RoomTreeNode).
            (e.0, record e.1 { children = sort_children all_nodes e.1.children }))
          nodes)
      ≡ parent_in y nodes
parent_in-sorted y all_nodes [] = refl
parent_in-sorted y all_nodes ((k, n) ∷ nodes) = ground (arith, parent_in-sorted y all_nodes nodes)

unlisted :
    (y : ℕ) (rooms : List Room) → mentions y (ids rooms) ≡ false → none ≡ parent_of_room y rooms
unlisted y [] h = refl
unlisted y (r ∷ rooms) h = ground (arith, unlisted y rooms)

parent_in-rebuild :
    (y : ℕ) (rooms : List Room)
    → distinct (ids rooms) ≡ true
    → parent_in y (rebuild rooms).nodes ≡ parent_of_room y rooms
unfolding rebuild
parent_in-rebuild y rooms d =
    let created = create_nodes rooms [] in
    let uuids = map (λ (e : ℕ × RoomTreeNode). e.0) created in
    parent_in-sorted y (attach uuids created) (attach uuids created)
    ∙ parent_in-attach y uuids created
    ∙ parent_in-create_nodes y rooms [] d
    ∙ (elim (Bool-cases (mentions y (ids rooms))) [
      | inl listed ↦ rw listed refl
      | inr absent ↦ rw absent (unlisted y rooms absent)
    ])

length-map :
    (f : ℕ × RoomTreeNode → ℕ × RoomTreeNode) (nodes : Nodes) → length (map f nodes) ≡ length nodes
length-map f [] = refl
length-map f (e ∷ nodes) = ap suc (length-map f nodes)

length-attach : (uuids : List ℕ) (nodes : Nodes) → length (attach uuids nodes) ≡ length nodes
unfolding attach
length-attach [] nodes = refl
length-attach (u ∷ uuids) nodes = elim (Option-cases (parent_in u nodes)) [
  | inl top ↦ rw (attach, top) (length-attach uuids nodes)
  | inr (p, e) ↦ rw (attach, e) (length-attach uuids (add_child p u nodes) ∙ length-map _ nodes)
]

length-remove_absent :
    (k : ℕ) (nodes : Nodes) → get? k nodes ≡ none → length (remove k nodes) ≡ length nodes
length-remove_absent k [] h = refl
length-remove_absent k ((j, n) ∷ nodes) h = ground (arith, length-remove_absent k nodes)

length-create_nodes :
    (rooms : List Room) (nodes : Nodes)
    → distinct (ids rooms) ≡ true
    → ((y : ℕ) → mentions y (ids rooms) ≡ true → get? y nodes ≡ none)
    → length (create_nodes rooms nodes) ≡ length rooms + length nodes
unfolding create_nodes
length-create_nodes [] nodes d new = omega arith
length-create_nodes (r ∷ rooms) nodes d new =
    let n : RoomTreeNode = record {
      id = r.id;
      name = r.name;
      parent_id = if is_root r then none else some r.parent;
      children = [];
      description = r.description;
    } in
    let further =
      length-create_nodes rooms (insert r.id n nodes) (ground arith)
        (λ y listed. get?-insert r.id y n nodes ∙ (ground (arith, new y))) in
    omega (
      arith,
      further,
      length-remove_absent r.id nodes (new r.id (ground (arith, ==_iff r.id r.id))),
    )

length-rebuild :
    (rooms : List Room) → distinct (ids rooms) ≡ true → length (rebuild rooms).nodes ≡ length rooms
unfolding rebuild
length-rebuild rooms d =
    let created = create_nodes rooms [] in
    let uuids = map (λ (e : ℕ × RoomTreeNode). e.0) created in
    omega (
      arith,
      length-map
          (λ (e : ℕ × RoomTreeNode).
            (e.0, record e.1 { children = sort_children (attach uuids created) e.1.children }))
          (attach uuids created),
      length-attach uuids created,
      length-create_nodes rooms [] d (λ y listed. refl),
    )

module _ (rooms : List Room) (u : ℕ) (d : distinct (ids rooms) ≡ true)
    (n : (u == root_room_uuid) ≡ false) where
  parent_of_root : (x : ℕ) → (x == root_room_uuid) ≡ true → parent_in x (rebuild rooms).nodes ≡ none
  parent_of_root x e = parent_in-rebuild x rooms d ∙ root_has_no_parent x rooms e

  ancestors_from-Climb :
      (k : ℕ) {x : ℕ} {xs : List ℕ}
      → Climb rooms x xs
      → length xs < k
      → any (λ id. id == u) (ancestors_from k (some x) (rebuild rooms)) ≡ mentions u xs
  unfolding ancestors_from
  ancestors_from-Climb zero c short = absurd (omega arith)
  ancestors_from-Climb (suc zero) {x = x} (at_root e) short =
      ground (arith, ==_iff x root_room_uuid, ==_iff u root_room_uuid, ==_iff x u)
  ancestors_from-Climb (suc (suc k)) {x = x} (at_root e) short =
      rw (parent_of_root x e)
        (ground (arith, ==_iff x root_room_uuid, ==_iff u root_room_uuid, ==_iff x u))
  ancestors_from-Climb (suc k) {x = x} (below {r = r} e f c) short =
      let up : parent_in x (rebuild rooms).nodes ≡ some r.parent =
        parent_in-rebuild x rooms d ∙ parent_of_found x rooms e f in
      rw up (ap (λ b. (x == u) || b) (ancestors_from-Climb k c (omega arith)))

  nothing_above : (k : ℕ) (tree : RoomTree) → ancestors_from k none tree ≡ []
  unfolding ancestors_from
  nothing_above zero tree = refl
  nothing_above (suc k) tree = refl

  -- In rooms of different ids, with Root its own parent and a new parent that climbs to Root, the
  -- guard of the server refuses to move a room other than Root under the new parent exactly if the
  -- client shows the room as the new parent itself or as an ancestor of it.
  pub closes_cycle-is_ancestor :
      {parent : ℕ} {xs : List ℕ}
      → root_self_parents rooms ≡ true
      → Climb rooms parent xs
      → closes_cycle (length rooms) rooms u (some parent)
        ≡ (parent == u || is_ancestor u parent (rebuild rooms))
  unfolding is_ancestor ancestors
  closes_cycle-is_ancestor {parent = parent} t (at_root e) =
      closes_cycle-Climb rooms u n t (at_root {x = parent} e)
      ∙ (let other : (parent == u) ≡ false =
            ground
              (arith, ==_iff parent root_room_uuid, ==_iff u root_room_uuid, ==_iff parent u) in
          rw
            (
              other,
              is_ancestor,
              ancestors,
              parent_of_root parent e,
              nothing_above (length (rebuild rooms).nodes) (rebuild rooms),
            )
            refl)
  closes_cycle-is_ancestor {parent = parent} {xs = x ∷ xs} t (below {r = r} e f c) =
      closes_cycle-Climb rooms u n t (below {r = r} e f c)
      ∙ (let up : parent_in parent (rebuild rooms).nodes ≡ some r.parent =
            parent_in-rebuild parent rooms d ∙ parent_of_found parent rooms e f in
          let short : length xs < length (rebuild rooms).nodes =
            omega (arith, length-rebuild rooms d, length-Climb rooms (below {r = r} e f c)) in
          rw (is_ancestor, ancestors, up)
            (ap (λ b. (parent == u) || b)
              (sym (ancestors_from-Climb (length (rebuild rooms).nodes) c short))))
