-- ===== src/Permission.antt =====
-- crates/rumble-protocol/src/permissions.rs: the permission flags and the data of a room's access
-- control list. A set of flags is the `u32` of its bits. The operations that the `bitflags` macro
-- generates are a parameter: an instance of `BitFlags`, with what they do to each bit.
pub mod Effective
pub mod Flags
use rumble.Prelude.{ℕ, ◌≡◌, Bool, true, ◌&&◌, ◌||◌, not, String, List}
use rumble.Prelude.Bits.{has}

-- Every flag that the macro declares, which is what `!` and `from_bits_truncate` keep.
abbrev pub declared : ℕ
declared = 0xff03ff

pub record BitFlags : Type 0 where
  pub union : ℕ → ℕ → ℕ
  pub intersection : ℕ → ℕ → ℕ
  pub complement : ℕ → ℕ
  pub from_bits_truncate : ℕ → ℕ
  pub contains : ℕ → ℕ → Bool
  pub has-union : (a b k : ℕ) → has (union a b) k ≡ (has a k || has b k)
  pub has-intersection : (a b k : ℕ) → has (intersection a b) k ≡ (has a k && has b k)
  pub has-complement : (a k : ℕ) → has (complement a) k ≡ (has declared k && not (has a k))
  pub has-from_bits_truncate :
      (a k : ℕ) → has (from_bits_truncate a) k ≡ (has declared k && has a k)
  pub contains_sound : (a b k : ℕ) → contains a b ≡ true → has b k ≡ true → has a k ≡ true
  pub contains_complete :
      (a b : ℕ) → ((k : ℕ) → has b k ≡ true → has a k ≡ true) → contains a b ≡ true

abbrev pub empty : ℕ
empty = 0

-- Room-scoped flags.
abbrev pub traverse : ℕ
traverse = 0x001

abbrev pub enter : ℕ
enter = 0x002

abbrev pub speak : ℕ
speak = 0x004

abbrev pub text_message : ℕ
text_message = 0x008

abbrev pub share_file : ℕ
share_file = 0x010

abbrev pub mute_deafen : ℕ
mute_deafen = 0x020

abbrev pub move_user : ℕ
move_user = 0x040

abbrev pub make_room : ℕ
make_room = 0x080

abbrev pub modify_room : ℕ
modify_room = 0x100

abbrev pub write : ℕ
write = 0x200

-- Server-scoped flags.
abbrev pub kick : ℕ
kick = 0x10000

abbrev pub ban : ℕ
ban = 0x20000

abbrev pub register : ℕ
register = 0x40000

abbrev pub self_register : ℕ
self_register = 0x80000

abbrev pub manage_acl : ℕ
manage_acl = 0x100000

abbrev pub sudo : ℕ
sudo = 0x200000

abbrev pub banned : ℕ
banned = 0x400000

abbrev pub manage_participants : ℕ
manage_participants = 0x800000

module _ ⦃F : BitFlags⦄ where
  open F use {union, intersection, complement}

  abbrev pub difference : ℕ → ℕ → ℕ
  difference a b = intersection a (complement b)

  infixl 45 ◌∪◌
  abbrev ◌∪◌ : ℕ → ℕ → ℕ
  a ∪ b = union a b

  abbrev pub all_room_scoped : ℕ
  all_room_scoped =
      traverse ∪ enter ∪ speak ∪ text_message ∪ share_file ∪ mute_deafen ∪ move_user ∪ make_room
      ∪ modify_room ∪ write

  abbrev pub all_server_scoped : ℕ
  all_server_scoped =
      kick ∪ ban ∪ register ∪ self_register ∪ manage_acl ∪ sudo ∪ banned ∪ manage_participants

  abbrev pub all : ℕ
  all = all_room_scoped ∪ all_server_scoped

  abbrev pub default_permissions : ℕ
  default_permissions =
      traverse ∪ enter ∪ speak ∪ text_message ∪ share_file ∪ self_register ∪ make_room ∪ modify_room

  abbrev pub admin_permissions : ℕ
  admin_permissions = difference all banned

-- One line of a room's list: what it grants to and denies from the members of a group.
pub record AclEntry : Type 0 where
  pub group : String
  pub grant : ℕ
  pub deny : ℕ
  pub apply_here : Bool
  pub apply_subs : Bool

pub record RoomAclData : Type 0 where
  pub inherit_acl : Bool
  pub entries : List AclEntry
