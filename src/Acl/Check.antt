-- ===== src/Acl/Check.antt =====
-- The permission check of the handlers (crates/server/src/acl.rs) against the rules of
-- `effective_permissions`, and the groups that an identity acts with.
use rumble.Prelude.{
  ℕ, ◌≡◌, refl, Bool, true, false, ◌||◌, Option, none, some, String, List, [], ◌∷◌, ◌++◌, map, elem,
  text_keys, arith, Bool-cases, Option-cases, inl, inr,
}
use rumble.Prelude.Bits.{has}
use rumble.Permission.{BitFlags, RoomAclData, declared, all}
use rumble.Permission.Effective.Verdict.{allowed, has-effective_permissions}
use rumble.Permission.Effective.Scope.{effective_permissions-superuser}
use rumble.Sled.{Sled}
use rumble.Persistence.{Persistence, list_groups}
use rumble.Persistence.Memberships.{get_room_acl}
use rumble.Rooms.{StateData}
use rumble.Acl.{
  Identity, room_path, load_acl, build_room_chain_owned, push_group, push_groups, user_groups_of,
  group_permissions, evaluate_identity_permissions, require, check_permission,
}
use rumble.Acl.Chain.{room_path-is_route}

elem-snoc :
    (g x : String) (gs : List String) → elem g (gs ++ x ∷ []) ≡ (elem g gs || text_keys.same x g)
elem-snoc g x [] = ground arith
elem-snoc g x (y ∷ ys) = ground (arith, elem-snoc g x ys)

elem-push_group :
    (g x : String) (gs : List String) → elem g (push_group gs x) ≡ (elem g gs || text_keys.same x g)
elem-push_group g x gs = elim (Bool-cases (elem x gs)) [
  | inl there ↦ ground (arith, text_keys.same_iff x g)
  | inr fresh ↦ ground (arith, elem-snoc g x gs)
]

elem-push_groups :
    (g : String) (gs xs : List String) → elem g (push_groups gs xs) ≡ (elem g gs || elem g xs)
elem-push_groups g gs [] = ground arith
elem-push_groups g gs (x ∷ xs) =
    ground (arith, elem-push_groups g (push_group gs x) xs, elem-push_group g x gs)

-- Whether the verified username is the name of the group.
abbrev pub is_own_name : String → Option String → Bool
is_own_name g none = false
is_own_name g (some username) = text_keys.same username g

elem-with_own_name :
    (g : String) (gs : List String) (verified : Option String)
    → elem g (elim verified [ none ↦ gs | some username ↦ push_group gs username ])
      ≡ (elem g gs || is_own_name g verified)
elem-with_own_name g gs none = ground arith
elem-with_own_name g gs (some username) = elem-push_group g username gs

-- A member acts with "default", with the groups assigned to it, with its verified username as a
-- group, and with no other group.
pub elem-user_groups_of :
    (g : String) (identity : Identity)
    → elem g (user_groups_of identity) ≡ (
        text_keys.same "default" g
        || elem g identity.groups
        || is_own_name g identity.verified_username)
unfolding user_groups_of
elem-user_groups_of g identity = ground (
  arith,
  elem-with_own_name g (push_groups ("default" ∷ []) identity.groups) identity.verified_username,
  elem-push_groups g ("default" ∷ []) identity.groups,
)

module _ ⦃F : BitFlags⦄ ⦃S : Sled⦄ where
  -- The check of one flag for an identity, by the rules alone.
  abbrev pub permits : StateData → Identity → ℕ → Persistence → ℕ → Bool
  permits state identity room p k =
      allowed (user_groups_of identity) (group_permissions (list_groups p) [])
        (build_room_chain_owned state.rooms room p) k

  -- The chain is never empty.
  chain_head :
      (state : StateData) (room : ℕ) (p : Persistence)
      → (a : ℕ) × (acl : Option RoomAclData) × (rest : List (ℕ × Option RoomAclData))
        × (build_room_chain_owned state.rooms room p ≡ (a, acl) ∷ rest)
  unfolding build_room_chain_owned
  chain_head state room p =
      let routed = room_path-is_route state.rooms room in
      elim (Option-cases (room_path state.rooms room)) [
        | inl stuck ↦ absurd (ground (arith, stuck))
        | inr ([], e) ↦ absurd (ground (arith, e))
        | inr (a ∷ path, e) ↦ (
          a,
          load_acl (get_room_acl a p),
          map (λ r. (r, load_acl (get_room_acl r p))) path,
          rw (build_room_chain_owned, e) refl,
        )
      ]

  evaluated :
      (state : StateData) (identity : Identity) (room : ℕ) (p : Persistence) (k : ℕ)
      → has declared k ≡ true
      → has (evaluate_identity_permissions state false identity room p) k
        ≡ permits state identity room p k
  unfolding evaluate_identity_permissions
  evaluated state identity room p k d =
      let (a, acl, rest, e) = chain_head state room p in
      rw e (
        has-effective_permissions (user_groups_of identity) (group_permissions (list_groups p) []) a
          acl rest k d)

  -- What a client that is not a superuser passes the check for, the rules permit in the room, each
  -- flag of the requirement.
  pub check_permission_sound :
      (state : StateData) (identity : Identity) (room required : ℕ) (p : Persistence) (k : ℕ)
      → check_permission state false identity room required p ≡ none
      → has required k ≡ true
      → has declared k ≡ true
      → permits state identity room p k ≡ true
  unfolding check_permission require
  check_permission_sound state identity room required p k passed h d = ground (
    arith,
    evaluated state identity room p k,
    F.contains_sound (evaluate_identity_permissions state false identity room p) required k,
  )

  -- Where the rules permit every flag of a requirement of declared flags, the client that
  -- is not a superuser passes the check.
  pub check_permission_complete :
      (state : StateData) (identity : Identity) (room required : ℕ) (p : Persistence)
      → ((k : ℕ) → has required k ≡ true → has declared k ≡ true)
      → ((k : ℕ) → has required k ≡ true → permits state identity room p k ≡ true)
      → check_permission state false identity room required p ≡ none
  unfolding check_permission require
  check_permission_complete state identity room required p d permitted =
      let contained =
        F.contains_complete (evaluate_identity_permissions state false identity room p) required
          (λ k h. ground (arith, evaluated state identity room p k, d k, permitted k)) in
      rw contained refl

  -- A superuser passes the check for every requirement within the flags of `all`, whatever the
  -- rooms and groups are.
  pub check_permission_superuser :
      (state : StateData) (identity : Identity) (room required : ℕ) (p : Persistence)
      → ((k : ℕ) → has required k ≡ true → has all k ≡ true)
      → check_permission state true identity room required p ≡ none
  unfolding check_permission require evaluate_identity_permissions
  check_permission_superuser state identity room required p within =
      rw
        (
          effective_permissions-superuser (user_groups_of identity)
              (group_permissions (list_groups p) []) (build_room_chain_owned state.rooms room p),
          F.contains_complete all required within,
        )
        refl
