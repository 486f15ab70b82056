-- ===== src/Persistence.antt =====
-- crates/server/src/persistence.rs: what the server keeps across restarts, over the trees of
-- `Sled`. A 32-byte key and a 16-byte UUID are their numbers, and the key `public_key ++ group`
-- of an expiry is the pair (the first part has a fixed width). A write returns the new state, or
-- `none` for the error that it returns.
pub mod Memberships
pub mod Groups
pub mod Example
mod Tests
use Prim.Native.Nat.{bit_and, bit_or, bit_xor, min}
use Prim.Native.Char.{Char, code}
use rumble.Prelude.{
  ℕ, zero, suc, ◌+◌, ◌-◌, ◌^◌, Bool, true, false, not, ◌&&◌, ◌||◌, Option, none, some, String, List,
  [], ◌∷◌, ◌++◌, map, ◌==◌, leb, ltb, if◌then◌else◌, str_eq, retain, any, nat_keys, text_keys,
  pair_keys, elem,
}
use rumble.Prelude.Fallible.{◌>>=◌, or_keep, is_some}
use rumble.Permission.{BitFlags, default_permissions, admin_permissions, banned, difference}
use rumble.Sled.{Sled}

-- `str::eq_ignore_ascii_case`.
abbrev pub codes : String → List ℕ
codes String.[] = []
codes (String.◌∷◌ c s) = code c ∷ codes s

abbrev pub ascii_lower : ℕ → ℕ
ascii_lower c = if leb b'A' c && leb c b'Z' then c + 32 else c

abbrev pub same_codes : List ℕ → List ℕ → Bool
same_codes [] [] = true
same_codes (x ∷ xs) (y ∷ ys) = ascii_lower x == ascii_lower y && same_codes xs ys
same_codes _ _ = false

abbrev pub eq_ignore_ascii_case : String → String → Bool
eq_ignore_ascii_case s t = same_codes (codes s) (codes t)

pub record PersistedBan : Type 0 where
  pub banned_at_secs : Option ℕ
  pub duration_seconds : ℕ
  pub reason : String
  pub banned_by : String

-- The sum saturates at the largest `u64`.
pub is_expired : ℕ → PersistedBan → Bool
is_expired now_secs b = if b.duration_seconds == 0 then false else elim b.banned_at_secs [
  | some at ↦ leb (min (at + b.duration_seconds) (2 ^ 64 - 1)) now_secs
  | none ↦ false
]

pub record RegisteredUser : Type 0 where
  pub username : String
  pub last_room : Option ℕ

pub record PersistedRoom : Type 0 where
  pub name : String
  pub parent : Option ℕ
  pub description : String
  pub permanent : Bool

pub record PersistedGroup : Type 0 where
  pub permissions : ℕ

pub record PersistedAclEntry : Type 0 where
  pub group : String
  pub grant : ℕ
  pub deny : ℕ
  pub apply_here : Bool
  pub apply_subs : Bool

pub record PersistedRoomAcl : Type 0 where
  pub inherit_acl : Bool
  pub entries : List PersistedAclEntry

pub record Persistence ⦃S : Sled⦄ : Type 0 where
  pub registered_users : S.Tree ℕ RegisteredUser
  pub known_keys : S.Tree ℕ (Unit {0})
  pub rooms : S.Tree ℕ PersistedRoom
  pub groups : S.Tree String PersistedGroup
  pub user_groups : S.Tree ℕ (List String)
  pub group_expiries : S.Tree (ℕ × String) ℕ
  pub room_acls : S.Tree ℕ PersistedRoomAcl
  pub sudo_password : S.Tree String String
  pub participant_defaults : S.Tree ℕ String
  pub bans : S.Tree ℕ PersistedBan

-- The raw `!bits` of a `u32`.
abbrev pub flip32 : ℕ → ℕ
flip32 bits = bit_xor (2 ^ 32 - 1) bits

abbrev pub toggled : ℕ → Bool → PersistedGroup → PersistedGroup
toggled bits enable g = record {
  permissions = if enable then bit_or g.permissions bits else bit_and g.permissions (flip32 bits);
}

abbrev pub map_old {ℓ κ} : {A : Type ℓ} {B : Type κ} → (A → B) → Option A → Option B
map_old f none = none
map_old f (some a) = some (f a)

abbrev pub or_empty {ℓ} : {A : Type ℓ} → Option (List A) → List A
or_empty none = []
or_empty (some xs) = xs

module _ ⦃S : Sled⦄ where
  -- Registered users and known keys.

  unfoldable pub get_registered_user : ℕ → Persistence → Option RegisteredUser
  get_registered_user public_key p = S.get p.registered_users public_key

  pub list_registered_users : Persistence → List (ℕ × RegisteredUser)
  list_registered_users p = S.iter p.registered_users

  unfoldable pub register_user : ℕ → RegisteredUser → Persistence → Option Persistence
  register_user public_key user p = do
    t ← S.insert p.registered_users public_key user
    some (record p { registered_users = t })

  unfoldable pub unregister_user : ℕ → Persistence → Option Persistence
  unregister_user public_key p = do
    t ← S.remove p.registered_users public_key
    some (record p { registered_users = t })

  taken_by_other : String → ℕ → List (ℕ × RegisteredUser) → Bool
  taken_by_other username public_key [] = false
  taken_by_other username public_key ((key, user) ∷ rest) =
      if eq_ignore_ascii_case user.username username
      then not (key == public_key)
      else taken_by_other username public_key rest

  pub is_username_taken : String → ℕ → Persistence → Bool
  is_username_taken username public_key p =
      taken_by_other username public_key (S.iter p.registered_users)

  pub is_registered : ℕ → Persistence → Bool
  is_registered public_key p = is_some (S.get p.registered_users public_key)

  pub is_known_key : ℕ → Persistence → Bool
  is_known_key public_key p = is_some (S.get p.known_keys public_key)

  pub add_known_key : ℕ → Persistence → Option Persistence
  add_known_key public_key p = do
    t ← S.insert p.known_keys public_key tt
    some (record p { known_keys = t })

  pub remove_known_key : ℕ → Persistence → Option Persistence
  remove_known_key public_key p = do
    t ← S.remove p.known_keys public_key
    some (record p { known_keys = t })

  unfoldable pub is_username_registered : String → Persistence → Bool
  is_username_registered username p =
      any (λ r. eq_ignore_ascii_case r.1.username username) (S.iter p.registered_users)

  -- Rooms.

  pub get_room : ℕ → Persistence → Option PersistedRoom
  get_room uuid p = S.get p.rooms uuid

  pub save_room : ℕ → PersistedRoom → Persistence → Option Persistence
  save_room uuid room p = do t ← S.insert p.rooms uuid room; some (record p { rooms = t })

  pub delete_room : ℕ → Persistence → Option Persistence
  delete_room uuid p = do t ← S.remove p.rooms uuid; some (record p { rooms = t })

  pub get_all_rooms : Persistence → List (ℕ × PersistedRoom)
  get_all_rooms p = S.iter p.rooms

  pub update_user_last_room : ℕ → Option ℕ → Persistence → Option Persistence
  update_user_last_room public_key room_uuid p = elim (get_registered_user public_key p) [
    | none ↦ some p
    | some user ↦ register_user public_key (record user { last_room = room_uuid }) p
  ]

  -- Permission groups.

  unfoldable pub create_group : String → ℕ → Persistence → Option Persistence
  create_group name permissions p = do
    t ← S.insert p.groups name (record { permissions = permissions })
    some (record p { groups = t })

  unfoldable pub get_group : String → Persistence → Option PersistedGroup
  get_group name p = S.get p.groups name

  unfoldable pub delete_group : String → Persistence → Option Persistence
  delete_group name p = do t ← S.remove p.groups name; some (record p { groups = t })

  pub modify_group : String → ℕ → Persistence → Option (Persistence × Bool)
  modify_group name permissions p =
      if is_some (S.get p.groups name)
      then (do p' ← create_group name permissions p; some (p', true))
      else some (p, false)

  pub toggle_group_permission : String → ℕ → Bool → Persistence → Option (Persistence × Option ℕ)
  toggle_group_permission name bits enable p = do
    (t, updated) ← S.update_and_fetch p.groups name (map_old (toggled bits enable))
    some (record p { groups = t }, map_old (λ (g : PersistedGroup). g.permissions) updated)

  unfoldable pub list_groups : Persistence → List (String × PersistedGroup)
  list_groups p = S.iter p.groups
