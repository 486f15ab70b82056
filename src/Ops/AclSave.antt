-- ===== src/Ops/AclSave.antt =====
-- The save of a room's access control list: `apply_set_room_acl` of crates/server/src/ops.rs with
-- the version that guards it against a lost update, `room_acl_version` of
-- crates/rumble-protocol/src/lib.rs. The gate makes a save one step. The digest (blake3, its first 8
-- bytes) and the UTF-8 coding are a parameter, and the broadcast does not fail.
pub mod Conflict
mod Tests
use rumble.Prelude.{
  ℕ, zero, suc, ◌+◌, ◌/◌, ◌%◌, ◌^◌, Bool, true, false, not, ◌&&◌, Option, none, some, String, List,
  [], ◌∷◌, ◌++◌, map, ◌==◌, if◌then◌else◌, length,
}
use rumble.Permission.{BitFlags}
use rumble.Sled.{Sled}
use rumble.Persistence.{Persistence, PersistedAclEntry, PersistedRoomAcl}
use rumble.Persistence.Memberships
use rumble.Persistence.Memberships.{get_room_acl}
use rumble.Rooms.{RoomAclEntry, set_room_acl, get_room_members}
use rumble.Ops.{
  Server, Result, ok, err, broadcast_state_update, reevaluate_members, room_acl_changed,
  acl_conflict, room_not_found, not_persisted,
}

pub record Digest : Type 0 where
  pub digest : List ℕ → ℕ
  pub utf8 : String → List ℕ

-- `to_le_bytes`.
pub le_bytes : ℕ → ℕ → List ℕ
le_bytes zero n = []
le_bytes (suc width) n = n % 256 ∷ le_bytes width (n / 256)

abbrev byte : Bool → ℕ
byte true = 1
byte false = 0

module _ (H : Digest) where
  pub entry_bytes : RoomAclEntry → List ℕ
  unfolding le_bytes
  entry_bytes e =
      le_bytes 8 (length (H.utf8 e.group))
      ++ H.utf8 e.group
      ++ le_bytes 4 e.grant
      ++ le_bytes 4 e.deny
      ++ byte e.apply_here ∷ byte e.apply_subs ∷ []

  pub entries_bytes : List RoomAclEntry → List ℕ
  unfolding entry_bytes
  entries_bytes [] = []
  entries_bytes (e ∷ es) = entry_bytes e ++ entries_bytes es

  -- Zero stands for no version on the wire.
  pub room_acl_version : Bool → List RoomAclEntry → ℕ
  unfolding entries_bytes
  room_acl_version inherit_acl entries =
      let v = H.digest (byte inherit_acl ∷ entries_bytes entries) in if v == 0 then 1 else v

-- The domain entry of a stored one, and back.
abbrev pub loaded : PersistedAclEntry → RoomAclEntry
loaded e = record {
  group = e.group;
  grant = e.grant;
  deny = e.deny;
  apply_here = e.apply_here;
  apply_subs = e.apply_subs;
}

abbrev pub stored : RoomAclEntry → PersistedAclEntry
stored e = record {
  group = e.group;
  grant = e.grant;
  deny = e.deny;
  apply_here = e.apply_here;
  apply_subs = e.apply_subs;
}

abbrev pub stored_acl : Bool → List RoomAclEntry → PersistedRoomAcl
stored_acl inherit_acl entries = record { inherit_acl = inherit_acl; entries = map stored entries }

abbrev pub Saved : Type 0
Saved = Result (Unit {0})

module _ ⦃S : Sled⦄ (H : Digest) where
  pub current_room_acl_version : Persistence → ℕ → ℕ
  current_room_acl_version p room_uuid = elim (get_room_acl room_uuid p) [
    | some acl ↦ room_acl_version H acl.inherit_acl (map loaded acl.entries)
    | none ↦ room_acl_version H true []
  ]

  -- Whether a save comes from a configuration that is not the current one.
  pub stale_base : ℕ → ℕ → Server → Bool
  unfolding current_room_acl_version
  stale_base base_version room_uuid s =
      not (base_version == 0)
      && not (base_version == current_room_acl_version s.persistence room_uuid)

module _ ⦃S : Sled⦄ ⦃F : BitFlags⦄ (H : Digest) where
  unfoldable pub apply_set_room_acl : ℕ → Bool → List RoomAclEntry → ℕ → Server → Saved × Server
  unfolding stale_base
  apply_set_room_acl room_uuid inherit_acl entries base_version s =
      if stale_base H base_version room_uuid s
      then (err acl_conflict, s)
      else let (state, found) = set_room_acl room_uuid inherit_acl entries s.state in
        let live = record s { state = state } in
        if not found
        then (err room_not_found, live)
        else elim (Memberships.set_room_acl room_uuid (stored_acl inherit_acl entries)
            s.persistence) [
              | none ↦ (err not_persisted, live)
              | some p ↦ (
                ok tt,
                reevaluate_members (get_room_members room_uuid state) room_uuid (
                    broadcast_state_update (room_acl_changed room_uuid inherit_acl entries)
                      (record live { persistence = p })),
              )
            ]
