-- ===== src/Client/Tree.antt =====
-- `RoomTree` of crates/rumble-client/src/events.rs: the rooms with their children, and the walk up.
-- The map of nodes is an association list, and children of one name stand in its order.
pub mod Ancestors
mod Tests
use rumble.Prelude.{
  ℕ, zero, suc, Bool, true, false, Option, none, some, String, List, [], ◌∷◌, ◌++◌, map, ◌==◌,
  if◌then◌else◌, any, length, nat_keys,
}
use Prim.Native.String.{compare}
use Prim.Native.Nat.{Ordering}
use rumble.Prelude.Equality.{get?, insert}
use rumble.Rooms.{Room}
use rumble.Wire.{is_root}

pub record RoomTreeNode : Type 0 where
  pub id : ℕ
  pub name : String
  pub parent_id : Option ℕ
  pub children : List ℕ
  pub description : Option String

pub record RoomTree : Type 0 where
  pub nodes : List (ℕ × RoomTreeNode)

abbrev Nodes : Type 0
Nodes = List (ℕ × RoomTreeNode)

-- The first pass. Root's link to itself is left out.
pub create_nodes : List Room → Nodes → Nodes
create_nodes [] nodes = nodes
create_nodes (r ∷ rooms) nodes = create_nodes rooms (
    insert r.id
      (record {
        id = r.id;
        name = r.name;
        parent_id = if is_root r then none else some r.parent;
        children = [];
        description = r.description;
      })
      nodes)

abbrev parent_in : ℕ → Nodes → Option ℕ
parent_in uuid nodes = elim (get? uuid nodes) [ none ↦ none | some n ↦ n.parent_id ]

abbrev add_child : ℕ → ℕ → Nodes → Nodes
add_child parent child = map (λ (e : ℕ × RoomTreeNode).
    if e.0 == parent then (e.0, record e.1 { children = e.1.children ++ child ∷ [] }) else e)

-- The second pass. A parent that is no node gets no child.
pub attach : List ℕ → Nodes → Nodes
attach [] nodes = nodes
attach (uuid ∷ uuids) nodes =
    attach uuids
      (elim (parent_in uuid nodes) [ none ↦ nodes | some parent ↦ add_child parent uuid nodes ])

abbrev not_after : String → String → Bool
not_after a b = elim (compare a b) [ Ordering.gt ↦ false | _ ↦ true ]

abbrev name_in : Nodes → ℕ → String
name_in nodes uuid = elim (get? uuid nodes) [ none ↦ "" | some n ↦ n.name ]

-- `sort_by`, which is stable: a child goes before the first with a later name.
pub place_child : Nodes → ℕ → List ℕ → List ℕ
place_child nodes child [] = child ∷ []
place_child nodes child (c ∷ cs) =
    let rest = place_child nodes child cs in
    if not_after (name_in nodes child) (name_in nodes c) then child ∷ c ∷ cs else c ∷ rest

pub sort_children : Nodes → List ℕ → List ℕ
unfolding place_child
sort_children nodes [] = []
sort_children nodes (c ∷ cs) = place_child nodes c (sort_children nodes cs)

pub rebuild : List Room → RoomTree
unfolding create_nodes attach sort_children
rebuild rooms =
    let created = create_nodes rooms [] in
    let attached = attach (map (λ (e : ℕ × RoomTreeNode). e.0) created) created in
    record {
      nodes =
          map
            (λ (e : ℕ × RoomTreeNode).
              (e.0, record e.1 { children = sort_children attached e.1.children }))
            attached;
    }

pub children : ℕ → RoomTree → List ℕ
children uuid tree = elim (get? uuid tree.nodes) [ none ↦ [] | some n ↦ n.children ]

-- `AncestorIterator`: at most as many steps as there are nodes.
pub ancestors_from : ℕ → Option ℕ → RoomTree → List ℕ
ancestors_from zero current tree = []
ancestors_from (suc remaining) none tree = []
ancestors_from (suc remaining) (some current) tree =
    current ∷ ancestors_from remaining (parent_in current tree.nodes) tree

pub ancestors : ℕ → RoomTree → List ℕ
unfolding ancestors_from
ancestors uuid tree = ancestors_from (length tree.nodes) (parent_in uuid tree.nodes) tree

pub is_ancestor : ℕ → ℕ → RoomTree → Bool
unfolding ancestors
is_ancestor ancestor descendant tree = any (λ id. id == ancestor) (ancestors descendant tree)

pub depth : ℕ → RoomTree → ℕ
unfolding ancestors
depth uuid tree = length (ancestors uuid tree)
