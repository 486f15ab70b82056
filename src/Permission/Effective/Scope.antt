-- ===== src/Permission/Effective/Scope.antt =====
-- What nobody gains by `effective_permissions` (crates/rumble-protocol/src/permissions.rs).
use rumble.Prelude.{
  ℕ, ◌≡◌, refl, Bool, true, false, ◌&&◌, ◌||◌, Option, none, some, String, List, [], ◌∷◌, any, ltb,
  length, ◌<◌, elem, text_keys, if◌then◌else◌, arith,
}
use rumble.Prelude.Bits.{has, has-zero}
use rumble.Permission.{BitFlags, AclEntry, RoomAclData, declared, empty, all, all_server_scoped}
use rumble.Permission.Effective.{effective_permissions}
use rumble.Permission.Effective.Verdict.{verdict, settle, decided, based, has-effective_permissions}

-- Some entry of the room, for one of the user's groups, grants the flag.
abbrev pub grants : List String → ℕ → Option RoomAclData → Bool
grants groups k none = false
grants groups k (some acl) = any (λ e. elem e.group groups && has e.grant k) acl.entries

abbrev pub granted_along : List String → ℕ → List (ℕ × Option RoomAclData) → Bool
granted_along groups k = any (λ r. grants groups k r.1)

verdict_source :
    (groups : List String) (is_target : Bool) (k : ℕ) (es : List AclEntry)
    → verdict groups is_target k es ≡ some true
    → any (λ e. elem e.group groups && has e.grant k) es ≡ true
verdict_source groups is_target k [] h = ground arith
verdict_source groups is_target k (e ∷ es) h = ground (arith, verdict_source groups is_target k es)

settle_source :
    (groups : List String) (base is_target : Bool) (k : ℕ) (acl : Option RoomAclData)
    (before : Bool)
    → settle groups base is_target k acl before ≡ true
    → (before || base || grants groups k acl) ≡ true
settle_source groups base is_target k none before h = ground arith
settle_source groups base is_target k (some acl) before h =
    ground (arith, verdict_source groups is_target k acl.entries)

decided_source :
    (groups : List String) (base : Bool) (k : ℕ) (chain : List (ℕ × Option RoomAclData))
    (before : Bool)
    → decided groups base k chain before ≡ true
    → (before || base || granted_along groups k chain) ≡ true
decided_source groups base k [] before h = ground arith
decided_source groups base k ((room, acl) ∷ []) before h =
    ground (arith, settle_source groups base true k acl before)
decided_source groups base k ((room, acl) ∷ next ∷ rooms) before h = ground (
  arith,
  settle_source groups base false k acl before,
  decided_source groups base k (next ∷ rooms) (settle groups base false k acl before),
)

module _ ⦃F : BitFlags⦄ where
  open F use {intersection, complement, has-intersection, has-complement}

  -- A user who is not a superuser has a declared flag in a room only if one of the user's groups
  -- carries it or an entry for one of those groups, in the room or above it, grants it.
  pub effective_permissions-source :
      (groups : List String) (table : List (String × ℕ)) (room : ℕ) (acl : Option RoomAclData)
      (rooms : List (ℕ × Option RoomAclData)) (k : ℕ)
      → has declared k ≡ true
      → has (effective_permissions groups table ((room, acl) ∷ rooms) false) k ≡ true
      → (based groups table k || granted_along groups k ((room, acl) ∷ rooms)) ≡ true
  effective_permissions-source groups table room acl rooms k d h = ground (
    arith,
    has-effective_permissions groups table room acl rooms k d,
    decided_source groups (based groups table k) k ((room, acl) ∷ rooms) (based groups table k),
  )

  stripped :
      (w : Option ℕ) (n k : ℕ)
      → 1 < n
      → has all_server_scoped k ≡ true
      → has
          (elim w [
            | none ↦ empty
            | some granted ↦
                if ltb 1 n then intersection granted (complement all_server_scoped) else granted
          ])
          k
        ≡ false
  stripped none n k h s = has-zero k
  stripped (some p) n k h s = ground (
    arith,
    has-intersection p (complement all_server_scoped) k,
    has-complement all_server_scoped k,
  )

  -- Below the root no server-scoped flag is effective, whatever the groups and entries grant,
  -- unless the user is a superuser.
  pub effective_permissions-server_scoped :
      (groups : List String) (table : List (String × ℕ)) (first next : ℕ × Option RoomAclData)
      (rooms : List (ℕ × Option RoomAclData)) (k : ℕ)
      → has all_server_scoped k ≡ true
      → has (effective_permissions groups table (first ∷ next ∷ rooms) false) k ≡ false
  unfolding effective_permissions
  effective_permissions-server_scoped groups table first next rooms k s =
      stripped _ (length (first ∷ next ∷ rooms)) k (omega arith) s

  pub effective_permissions-superuser :
      (groups : List String) (table : List (String × ℕ)) (chain : List (ℕ × Option RoomAclData))
      → effective_permissions groups table chain true ≡ all
  unfolding effective_permissions
  effective_permissions-superuser groups table chain = refl
