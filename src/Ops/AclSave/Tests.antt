-- ===== src/Ops/AclSave/Tests.antt =====
-- The save of an access control list of crates/server/src/ops.rs at concrete input, with a digest
-- that counts the bytes.
use rumble.Prelude.{ℕ, ◌≡◌, ◌↔◌, ◌≢◌, refl, true, false, [], length, arith}
use rumble.Permission.Flags.{native_flags}
use rumble.Sled.Memory.{memory}
use rumble.Persistence.{codes}
use rumble.Persistence.Example.{two_groups}
use rumble.Persistence.Memberships
use rumble.Persistence.Memberships.{get_room_acl}
use rumble.Rooms.{set_room_acl, update_room}
use rumble.Rooms.Example.{small_house}
use rumble.Ops.{Server, ok, err, acl_conflict}
use rumble.Ops.AclSave.{
  Digest, le_bytes, entry_bytes, entries_bytes, room_acl_version, current_room_acl_version,
  stale_base, apply_set_room_acl,
}
use rumble.Ops.AclSave.Conflict.{apply_set_room_acl-acl_conflict, apply_set_room_acl-twice}

abbrev byte_count : Digest
byte_count = record { digest = length; utf8 = codes }

abbrev house : Server
house = record {
  state = small_house;
  clients = [];
  persistence = two_groups;
  sessions = [];
  sent = [];
}

stored_version : current_room_acl_version byte_count two_groups 5 ≡ 24
unfolding current_room_acl_version room_acl_version entries_bytes entry_bytes le_bytes get_room_acl
    memory
stored_version = refl

saved_version : room_acl_version byte_count true [] ≡ 1
unfolding room_acl_version entries_bytes
saved_version = refl

granted : (apply_set_room_acl byte_count 5 true [] 24 house).0 ≡ ok tt
unfolding apply_set_room_acl stale_base current_room_acl_version room_acl_version entries_bytes
    entry_bytes le_bytes get_room_acl set_room_acl update_room Memberships.set_room_acl memory
granted = refl

apply_set_room_acl-acl_conflict_example :
    (((apply_set_room_acl byte_count 5 false [] 23 house).0 ≡ err acl_conflict)
      ↔ (◌≢◌ {A = ℕ} 23 0) × (◌≢◌ {A = ℕ} 23 (current_room_acl_version byte_count two_groups 5)))
    × ((apply_set_room_acl byte_count 5 false [] 23 house).0 ≡ err acl_conflict
        → (apply_set_room_acl byte_count 5 false [] 23 house).1 ≡ house)
apply_set_room_acl-acl_conflict_example =
    apply_set_room_acl-acl_conflict byte_count 5 false [] 23 house

apply_set_room_acl-twice_example :
    apply_set_room_acl byte_count 5 false [] 24 (apply_set_room_acl byte_count 5 true [] 24 house).1
    ≡ (err acl_conflict, (apply_set_room_acl byte_count 5 true [] 24 house).1)
apply_set_room_acl-twice_example =
    apply_set_room_acl-twice byte_count 5 true false [] [] 24 house (ground arith)
      (ground (arith, saved_version)) granted
