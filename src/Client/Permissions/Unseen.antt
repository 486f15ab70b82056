-- ===== src/Client/Permissions/Unseen.antt =====
-- The permissions that the client (crates/rumble-client/src/projection.rs) computes depend on its
-- rooms only as the hash of a state reads them.
use rumble.Prelude.{
  ℕ, zero, suc, ◌+◌, ◌≡◌, refl, sym, ap, ◌∙◌, not, ◌&&◌, Option, none, some, List, [], ◌∷◌, map,
  ◌==◌, find, length, nat_keys, arith, Bool-cases, Option-cases, inl, inr,
}
use rumble.Prelude.Equality.{insert}
use rumble.Permission.{BitFlags}
use rumble.Permission.Effective.{effective_permissions}
use rumble.Rooms.{Room, fresh_room}
use rumble.Wire.{RoomInfo, User, Group, room_from_proto}
use rumble.Wire.RoundTrip.{unseen, room_from_proto-to_hash_input}
use rumble.Sync.{hash_rooms}
use rumble.Acl.{dedup, headed_by_root}
use rumble.Client.Permissions.{
  climb, chain_path, acl_of, is_empty, groups_of, group_table, elevated, build_room_chain,
  effective_in, fill, effective_in_rooms,
}

-- The room that a record of the hash says.
abbrev reread : RoomInfo → Room
reread p = elim (room_from_proto p) [ none ↦ fresh_room 0 "" 0 none | some r ↦ r ]

reread-hash_rooms : (rooms : List Room) → map reread (hash_rooms rooms) ≡ map unseen rooms
reread-hash_rooms [] = refl
reread-hash_rooms (r ∷ rooms) =
    ap
      (λ (o : Option Room).
        elim o as (λ x. Room) [ none ↦ fresh_room 0 "" 0 none | some q ↦ q ]
        ∷ map reread (hash_rooms rooms))
      (room_from_proto-to_hash_input r)
    ∙ ap (λ qs. unseen r ∷ qs) (reread-hash_rooms rooms)

-- A room without what no permission depends on.
abbrev pub bare : Room → Room
bare r = record r { name = ""; description = none; effective_permissions = 0 }

bare-unseen : (rooms : List Room) → map bare (map unseen rooms) ≡ map bare rooms
bare-unseen [] = refl
bare-unseen (r ∷ rooms) = ap (λ qs. bare r ∷ qs) (bare-unseen rooms)

bare_same : (xs ys : List Room) → hash_rooms xs ≡ hash_rooms ys → map bare xs ≡ map bare ys
bare_same xs ys e =
    sym (bare-unseen xs)
    ∙ ap (map bare) (sym (reread-hash_rooms xs) ∙ ap (map reread) e ∙ reread-hash_rooms ys)
    ∙ bare-unseen ys

abbrev parent_at : ℕ → List Room → Option ℕ
parent_at x rooms = elim (find (λ r. r.id == x) rooms) [ none ↦ none | some r ↦ some r.parent ]

parent_at-bare : (x : ℕ) (rooms : List Room) → parent_at x (map bare rooms) ≡ parent_at x rooms
parent_at-bare x [] = refl
parent_at-bare x (r ∷ rooms) = elim (Bool-cases (r.id == x)) [
  | inl here ↦ rw (parent_at, here) refl
  | inr later ↦ rw (parent_at, later) (parent_at-bare x rooms)
]

length-bare : (rooms : List Room) → length (map bare rooms) ≡ length rooms
length-bare [] = refl
length-bare (r ∷ rooms) = ap suc (length-bare rooms)

climb-parent_at :
    (fuel : ℕ) (rooms qs : List Room) (x : ℕ) (path : List ℕ)
    → ((y : ℕ) → parent_at y qs ≡ parent_at y rooms)
    → climb fuel qs x path ≡ climb fuel rooms x path
unfolding climb
climb-parent_at zero rooms qs x path h = refl
climb-parent_at (suc fuel) rooms qs x path h =
    elim (Option-cases (find (λ (r : Room). r.id == x) qs)) [
      | inl e ↦ elim (Option-cases (find (λ (r : Room). r.id == x) rooms)) [
        | inl f ↦ ground (arith, e, f)
        | inr (r, f) ↦ absurd (ground (arith, e, f, h x))
      ]
      | inr (q, e) ↦ elim (Option-cases (find (λ (r : Room). r.id == x) rooms)) [
        | inl f ↦ absurd (ground (arith, e, f, h x))
        | inr (r, f) ↦
            let same : q.parent ≡ r.parent = ground (arith, e, f, h x) in
            ground (
              arith,
              e,
              f,
              ap (λ y. climb fuel qs y (x ∷ path)) same,
              climb-parent_at fuel rooms qs r.parent (x ∷ path) h,
            )
      ]
    ]

chain_path-bare : (rooms : List Room) (x : ℕ) → chain_path (map bare rooms) x ≡ chain_path rooms x
unfolding chain_path
chain_path-bare rooms x =
    let same =
      ap (λ n. climb (n + 2) (map bare rooms) x []) (length-bare rooms)
      ∙ climb-parent_at (length rooms + 2) rooms (map bare rooms) x []
          (λ y. parent_at-bare y rooms) in
    ap
      (λ (o : Option (List ℕ)). elim o as (λ q. Option (List ℕ)) [
        | none ↦ none
        | some path ↦ some (dedup (headed_by_root path))
      ])
      same

pub map-same {ℓ κ} :
    {A : Type ℓ} {B : Type κ} (f g : A → B) (h : (a : A) → f a ≡ g a) (xs : List A)
    → map f xs ≡ map g xs
map-same f g h [] = refl
map-same f g h (x ∷ xs) = ap (λ y. y ∷ map f xs) (h x) ∙ ap (λ ys. g x ∷ ys) (map-same f g h xs)

module _ ⦃F : BitFlags⦄ where
  acl_of-bare : (rooms : List Room) (x : ℕ) → acl_of (map bare rooms) x ≡ acl_of rooms x
  unfolding acl_of
  acl_of-bare [] x = refl
  acl_of-bare (r ∷ rooms) x = elim (Bool-cases (r.id == x && not (is_empty r.acls))) [
    | inl here ↦ rw (acl_of, here) refl
    | inr later ↦ rw (acl_of, later) (acl_of-bare rooms x)
  ]

  build_room_chain-bare :
      (rooms : List Room) (x : ℕ) → build_room_chain (map bare rooms) x ≡ build_room_chain rooms x
  unfolding build_room_chain
  build_room_chain-bare rooms x = elim (Option-cases (chain_path rooms x)) [
    | inl stuck ↦ rw (build_room_chain, chain_path-bare rooms x, stuck) refl
    | inr (path, e) ↦
        rw (build_room_chain, chain_path-bare rooms x, e)
          (map-same (λ room. (room, acl_of (map bare rooms) room))
            (λ room. (room, acl_of rooms room))
            (λ room. ap (λ o. (room, o)) (acl_of-bare rooms room)) path)
  ]

  effective_in-bare :
      (me : Option User) (groups : List Group) (rooms : List Room) (x : ℕ)
      → effective_in me groups (map bare rooms) x ≡ effective_in me groups rooms x
  unfolding effective_in
  effective_in-bare me groups rooms x =
      ap (λ ch. effective_permissions (groups_of me) (group_table groups []) ch (elevated me))
        (build_room_chain-bare rooms x)

  -- The same rooms for the hash give the same permissions.
  pub effective_in_same :
      (me : Option User) (groups : List Group) (xs ys : List Room) (x : ℕ)
      → hash_rooms xs ≡ hash_rooms ys
      → effective_in me groups xs x ≡ effective_in me groups ys x
  effective_in_same me groups xs ys x e =
      sym (effective_in-bare me groups xs x)
      ∙ ap (λ qs. effective_in me groups qs x) (bare_same xs ys e)
      ∙ effective_in-bare me groups ys x

  fill-bare :
      (me : Option User) (groups : List Group) (rooms rest : List Room) (table : List (ℕ × ℕ))
      → fill me groups (map bare rooms) (map bare rest) table ≡ fill me groups rooms rest table
  unfolding fill
  fill-bare me groups rooms [] table = refl
  fill-bare me groups rooms (r ∷ rest) table =
      ap (λ n. fill me groups (map bare rooms) (map bare rest) (insert r.id n table))
        (effective_in-bare me groups rooms r.id)
      ∙ fill-bare me groups rooms rest (insert r.id (effective_in me groups rooms r.id) table)

  -- The table does not depend on names and descriptions.
  pub effective_in_rooms_same :
      (me : Option User) (groups : List Group) (xs ys : List Room)
      → map bare xs ≡ map bare ys
      → effective_in_rooms me groups xs ≡ effective_in_rooms me groups ys
  unfolding effective_in_rooms
  effective_in_rooms_same me groups xs ys e =
      sym (fill-bare me groups xs xs [])
      ∙ ap (λ qs. fill me groups qs qs []) e
      ∙ fill-bare me groups ys ys []

  fill_same :
      (m n : Option User) (groups : List Group) (rooms rest : List Room) (table : List (ℕ × ℕ))
      → groups_of m ≡ groups_of n
      → elevated m ≡ elevated n
      → fill m groups rooms rest table ≡ fill n groups rooms rest table
  unfolding fill effective_in
  fill_same m n groups rooms [] table g e = refl
  fill_same m n groups rooms (r ∷ rest) table g e =
      let same : effective_in m groups rooms r.id ≡ effective_in n groups rooms r.id =
        ap
          (λ gs.
            effective_permissions gs (group_table groups []) (build_room_chain rooms r.id)
              (elevated m))
          g
        ∙ ap
            (effective_permissions (groups_of n) (group_table groups [])
              (build_room_chain rooms r.id))
            e in
      ap (λ k. fill m groups rooms rest (insert r.id k table)) same
      ∙ fill_same m n groups rooms rest (insert r.id (effective_in n groups rooms r.id) table) g e

  -- Of us it depends only on our groups, our name and our elevation.
  pub effective_in_rooms-groups_of :
      (m n : Option User) (groups : List Group) (rooms : List Room)
      → groups_of m ≡ groups_of n
      → elevated m ≡ elevated n
      → effective_in_rooms m groups rooms ≡ effective_in_rooms n groups rooms
  unfolding effective_in_rooms
  effective_in_rooms-groups_of m n groups rooms g e = fill_same m n groups rooms rooms [] g e
