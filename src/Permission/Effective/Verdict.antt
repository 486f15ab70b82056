-- ===== src/Permission/Effective/Verdict.antt =====
-- What `effective_permissions` (crates/rumble-protocol/src/permissions.rs) decides about one flag,
-- described without its loop state: the last entry that reaches the user and names the flag wins,
-- a room that names it nowhere passes on what it inherits, and every ancestor must be traversable.
use rumble.Prelude.{
  ℕ, zero, suc, ◌+◌, ◌-◌, ◌≡◌, refl, subst, Bool, true, false, ◌&&◌, ◌||◌, not, Option, none, some,
  String, List, [], ◌∷◌, length, any, ltb, leb, elem, text_keys, if◌then◌else◌, arith, Bool-cases,
  Option-cases, inl, inr,
}
use rumble.Prelude.Bits.{has, has-zero}
use rumble.Prelude.Equality.{get?}
use rumble.Permission.{
  BitFlags, AclEntry, RoomAclData, declared, empty, traverse, all_server_scoped,
}
use rumble.Permission.Effective.{
  base_permissions, applies, apply_entries, apply_room, walk_chain, effective_permissions,
}

-- The entry is for one of the user's groups, and for this room or for the rooms below it.
abbrev pub reaches : List String → Bool → AclEntry → Bool
reaches groups is_target e =
    elem e.group groups && (if is_target then e.apply_here else e.apply_subs)

-- What one entry says of flag `k`, if anything.
abbrev pub says : ℕ → AclEntry → Option Bool
says k e = if has e.deny k then some false else if has e.grant k then some true else none

-- The last entry that reaches the user and names the flag.
abbrev pub verdict : List String → Bool → ℕ → List AclEntry → Option Bool
verdict groups is_target k [] = none
verdict groups is_target k (e ∷ es) = elim (verdict groups is_target k es) [
  | some b ↦ some b
  | none ↦ if reaches groups is_target e then says k e else none
]

-- The flag after one room: its verdict, or else what it inherits from above or from the base.
abbrev pub settle : List String → Bool → Bool → ℕ → Option RoomAclData → Bool → Bool
settle groups base is_target k none before = before
settle groups base is_target k (some acl) before = elim (verdict groups is_target k acl.entries) [
  | some b ↦ b
  | none ↦ if acl.inherit_acl then before else base
]

abbrev pub decided : List String → Bool → ℕ → List (ℕ × Option RoomAclData) → Bool → Bool
decided groups base k [] before = before
decided groups base k ((room, acl) ∷ []) before = settle groups base true k acl before
decided groups base k ((room, acl) ∷ next ∷ rooms) before =
    decided groups base k (next ∷ rooms) (settle groups base false k acl before)

-- Every room above the target leaves TRAVERSE (flag 0) standing.
abbrev pub passable : List String → Bool → List (ℕ × Option RoomAclData) → Bool → Bool
passable groups base [] before = true
passable groups base ((room, acl) ∷ []) before = true
passable groups base ((room, acl) ∷ next ∷ rooms) before =
    settle groups base false 0 acl before
    && passable groups base (next ∷ rooms) (settle groups base false 0 acl before)

-- Some group of the user has the flag.
abbrev pub based : List String → List (String × ℕ) → ℕ → Bool
based groups table k =
    any (λ g. elim (get? g table) [ none ↦ false | some perms ↦ has perms k ]) groups

module _ ⦃F : BitFlags⦄ where
  open F use {
    union, intersection, complement, contains, has-union, has-intersection, has-complement,
  }

  abbrev pub allowed : List String → List (String × ℕ) → List (ℕ × Option RoomAclData) → ℕ → Bool
  allowed groups table chain k =
      passable groups (based groups table 0) chain (based groups table 0)
      && decided groups (based groups table k) k chain (based groups table k)
      && (leb (length chain) 1 || not (has all_server_scoped k))

  pub has-base_permissions :
      (groups : List String) (table : List (String × ℕ)) (p k : ℕ)
      → has (base_permissions groups table p) k ≡ (has p k || based groups table k)
  unfolding base_permissions
  has-base_permissions [] table p k = ground arith
  has-base_permissions (g ∷ gs) table p k = elim (Option-cases (get? g table)) [
    | inl unknown ↦ ground (arith, has-base_permissions gs table p k)
    | inr (perms, known) ↦
        ground (arith, has-base_permissions gs table (union p perms) k, has-union p perms k)
  ]

  applies-eq-reaches :
      (groups : List String) (is_target : Bool) (e : AclEntry)
      → applies groups is_target e ≡ reaches groups is_target e
  applies-eq-reaches groups is_target e = ground arith

  has-apply_entries :
      (groups : List String) (is_target : Bool) (es : List AclEntry) (p k : ℕ)
      → has declared k ≡ true
      → has (apply_entries groups is_target es p) k
        ≡ (elim (verdict groups is_target k es) [ some b ↦ b | none ↦ has p k ])
  unfolding apply_entries
  has-apply_entries groups is_target [] p k d = refl
  has-apply_entries groups is_target (e ∷ es) p k d = ground (
    arith,
    d,
    applies-eq-reaches groups is_target e,
    has-apply_entries groups is_target es p k d,
    has-apply_entries groups is_target es (intersection (union p e.grant) (complement e.deny)) k d,
    has-union p e.grant k,
    has-complement e.deny k,
    has-intersection (union p e.grant) (complement e.deny) k,
  )

  has-apply_room :
      (groups : List String) (is_target : Bool) (acl : Option RoomAclData) (base p k : ℕ)
      → has declared k ≡ true
      → has (apply_room groups base is_target acl p) k
        ≡ settle groups (has base k) is_target k acl (has p k)
  unfolding apply_room
  has-apply_room groups is_target none base p k d = refl
  has-apply_room groups is_target (some acl) base p k d = ground (
    arith,
    has-apply_entries groups is_target acl.entries p k d,
    has-apply_entries groups is_target acl.entries base k d,
  )

  traverse_only : (k : ℕ) → has traverse k ≡ true → k ≡ 0
  traverse_only zero h = refl
  traverse_only (suc k) h = ground (arith, has-zero k)

  contains-traverse : (p : ℕ) → contains p traverse ≡ has p 0
  contains-traverse p = elim (Bool-cases (has p 0)) [
    | inl standing ↦
        rw standing
          (F.contains_complete p traverse (λ k h. let e = traverse_only k h in rw e standing))
    | inr missing ↦ ground (arith, F.contains_sound p traverse 0)
  ]

  abbrev digit : Option ℕ → ℕ → Bool
  digit none k = false
  digit (some p) k = has p k

  digit-walk_chain :
      (groups : List String) (base last idx : ℕ) (room : ℕ) (acl : Option RoomAclData)
      (rooms : List (ℕ × Option RoomAclData)) (p k : ℕ)
      → has declared k ≡ true
      → idx + length rooms ≡ last
      → digit (walk_chain groups base last idx ((room, acl) ∷ rooms) p) k ≡ (
          passable groups (has base 0) ((room, acl) ∷ rooms) (has p 0)
          && decided groups (has base k) k ((room, acl) ∷ rooms) (has p k))
  unfolding walk_chain
  digit-walk_chain groups base last idx room acl [] p k d e =
      ground (arith, has-apply_room groups true acl base p k d)
  digit-walk_chain groups base last idx room acl ((next, acl') ∷ rooms) p k d e =
      let p' = apply_room groups base false acl p in
      ground (
        arith,
        has-apply_room groups false acl base p k d,
        has-apply_room groups false acl base p 0 refl,
        contains-traverse p',
        digit-walk_chain groups base last (idx + 1) next acl' rooms p' k d,
      )

  -- The last step: outside the root alone, server-scoped flags are dropped.
  has_scoped :
      (w : Option ℕ) (n k : ℕ)
      → has declared k ≡ true
      → has
          (elim w [
            | none ↦ empty
            | some granted ↦
                if ltb 1 n then intersection granted (complement all_server_scoped) else granted
          ])
          k
        ≡ (digit w k && (leb n 1 || not (has all_server_scoped k)))
  has_scoped none n k d = has-zero k
  has_scoped (some p) n k d = ground (
    arith,
    has-intersection p (complement all_server_scoped) k,
    has-complement all_server_scoped k,
  )

  -- For a user who is not a superuser, a declared flag is effective in the last room of a chain
  -- exactly if every room above the last leaves TRAVERSE standing, the flag is decided in the
  -- user's favour along the chain (the last entry that reaches the user and names the flag wins,
  -- else the room inherits, or restarts from the groups' base), and the flag is not server-scoped
  -- unless the chain is the root alone.
  pub has-effective_permissions :
      (groups : List String) (table : List (String × ℕ)) (room : ℕ) (acl : Option RoomAclData)
      (rooms : List (ℕ × Option RoomAclData)) (k : ℕ)
      → has declared k ≡ true
      → has (effective_permissions groups table ((room, acl) ∷ rooms) false) k
        ≡ allowed groups table ((room, acl) ∷ rooms) k
  unfolding effective_permissions
  has-effective_permissions groups table room acl rooms k d = ground (
    arith,
    walked k d,
    has_scoped (walk_chain groups base last 0 ((room, acl) ∷ rooms) base) (suc (length rooms)) k d,
  )
    where
      base : ℕ
      base = base_permissions groups table empty

      last : ℕ
      last = suc (length rooms) - 1

      based_at : (j : ℕ) → has base j ≡ based groups table j
      based_at j = ground (arith, has-base_permissions groups table 0 j, has-zero j)

      walked :
          (j : ℕ)
          → has declared j ≡ true
          → digit (walk_chain groups base (suc (length rooms) - 1) 0 ((room, acl) ∷ rooms) base) j
            ≡ (passable groups (based groups table 0) ((room, acl) ∷ rooms) (based groups table 0)
                && decided groups
                    (based groups table j)
                    j
                    ((room, acl) ∷ rooms)
                    (based groups table j))
      walked j h =
          subst
            (λ (x : Bool). digit (walk_chain groups base last 0 ((room, acl) ∷ rooms) base) j ≡ (
              passable groups x ((room, acl) ∷ rooms) x
              && decided groups (based groups table j) j ((room, acl) ∷ rooms)
                  (based groups table j)))
            (based_at 0)
            (subst
              (λ (x : Bool). digit (walk_chain groups base last 0 ((room, acl) ∷ rooms) base) j ≡ (
                passable groups (has base 0) ((room, acl) ∷ rooms) (has base 0)
                && decided groups x j ((room, acl) ∷ rooms) x))
              (based_at j)
              (digit-walk_chain groups base last 0 room acl rooms base j h (omega arith)))
