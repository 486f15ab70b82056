-- ===== src/Ops.antt =====
-- crates/server/src/ops.rs, the operations that change the room tree, and `handle_move_room` of
-- crates/server/src/handlers.rs. `Server` joins what they change: the state behind its lock
-- (`StateData`), the connected clients, the database, and the updates broadcast so far, the newest
-- last, each with the state whose hash goes out with it. The hash and the coding of a frame and the
-- texts of replies are left out.
mod State
pub use State.*
pub mod Tree
pub mod Moves
pub mod Deletion
pub mod Guard
pub mod Groups
pub mod AclSave
pub mod Registration
pub mod Broadcast
pub mod Edits
mod Tests
use rumble.Prelude.{
  ℕ, zero, suc, ◌+◌, Bool, true, false, not, ◌||◌, Option, none, some, String, List, [], ◌∷◌, ◌++◌,
  map, ◌==◌, if◌then◌else◌, find, length, str_eq, nat_keys,
}
use rumble.Prelude.Equality.{get?}
use rumble.Prelude.Fallible.{or_keep, unwrap_or}
use rumble.Permission.{BitFlags, speak, modify_room, make_room}
use rumble.Sled.{Sled}
use rumble.Persistence
use rumble.Persistence.{Persistence, PersistedRoom, get_room, save_room}
use rumble.Persistence.Memberships.{delete_room_acl}
use rumble.Rooms.{
  Room, UserStatus, StateData, root_room_uuid, fresh_room, create_room_with_parent_desc,
  delete_room, move_room, room_exists, room_parent_and_children, get_room_members, get_user_status,
}
use rumble.Acl.{Identity, PermissionDenied, evaluate_identity_permissions, check_permission}

abbrev pub name_or : String → Option Room → String
name_or fallback none = fallback
name_or fallback (some r) = r.name

abbrev pub set_client : ℕ → ClientHandle → List (ℕ × ClientHandle) → List (ℕ × ClientHandle)
set_client id client = map (λ c. if c.0 == id then (id, client) else c)

module _ ⦃S : Sled⦄ where
  abbrev pub broadcast_state_update : Update → Server → Server
  broadcast_state_update update s = record s { sent = s.sent ++ (update, s.state) ∷ [] }

  abbrev pub in_persistence : (Persistence → Option Persistence) → Server → Server
  in_persistence write s = record s { persistence = or_keep (write s.persistence) s.persistence }

  -- `parent_uuid` is `none` for a room at the top level, and stays so in the database.
  pub apply_create_room : ℕ → String → Option ℕ → Option String → Server → Result ℕ × Server
  apply_create_room new_uuid name parent_uuid description s =
      let parent = unwrap_or root_room_uuid parent_uuid in
      if elim parent_uuid [ none ↦ false | some p ↦ not (room_exists p s.state) ]
      then (err parent_room_does_not_exist, s)
      else let (state, room_uuid) =
          create_room_with_parent_desc new_uuid name parent description s.state in
        (
          ok room_uuid,
          broadcast_state_update (room_created (fresh_room room_uuid name parent description)) (
              in_persistence
                (save_room room_uuid (record {
                  name = name;
                  parent = parent_uuid;
                  description = unwrap_or "" description;
                  permanent = true;
                }))
                (record s { state = state })),
        )

  -- The stored copy of a room gets a new parent, if there is one.
  abbrev pub persist_parent : ℕ → ℕ → Server → Server
  persist_parent room_uuid new_parent s = elim (get_room room_uuid s.persistence) [
    | none ↦ s
    | some room ↦ in_persistence (save_room room_uuid (record room { parent = some new_parent })) s
  ]

  pub reparent_child : ℕ → ℕ → Server → Server
  reparent_child new_parent child s =
      broadcast_state_update (room_moved (some child) (some new_parent)) (
        persist_parent child new_parent
          (record s { state = (move_room child new_parent s.state).0 }))

  pub reparent_children : ℕ → List ℕ → Server → Server
  reparent_children new_parent [] s = s
  reparent_children new_parent (child ∷ children) s =
      reparent_children new_parent children (reparent_child new_parent child s)

  abbrev pub heal : Option (ℕ × List ℕ) → Server → Server
  heal none s = s
  heal (some (new_parent, children)) s = reparent_children new_parent children s

  -- The children of the room go to its parent before it is removed.
  pub heal_tree : ℕ → Server → Server
  heal_tree room_uuid s = heal (room_parent_and_children room_uuid s.state) s

module _ ⦃S : Sled⦄ ⦃F : BitFlags⦄ where
  -- Whether the member is to be muted in the room, by its permissions or by hand.
  abbrev pub should_mute : ℕ → ClientHandle → Server → Bool
  should_mute room client s =
      not (
        F.contains
          (evaluate_identity_permissions s.state client.is_superuser client.identity room
            s.persistence)
          speak)
      || client.manually_server_muted

  pub reevaluate_member_mute : ℕ → ℕ → Server → Server
  reevaluate_member_mute member_id room s = elim (get? member_id s.clients) [
    | none ↦ s
    | some client ↦
        let mute = should_mute room client s in
        if if mute then client.server_muted else not client.server_muted
        then s
        else let status = get_user_status member_id s.state in
          broadcast_state_update
            (user_status_changed member_id
              (record status { server_muted = mute; is_elevated = client.is_superuser }))
            (record s {
              clients = set_client member_id (record client { server_muted = mute }) s.clients;
            })
  ]

  pub reevaluate_members : List ℕ → ℕ → Server → Server
  reevaluate_members [] room s = s
  reevaluate_members (m ∷ ms) room s = reevaluate_members ms room (reevaluate_member_mute m room s)

  pub apply_delete_room : ℕ → Server → Result String × Server
  apply_delete_room room_uuid s =
      if room_uuid == root_room_uuid
      then (err cannot_delete_the_root_room, s)
      else let room_name = name_or "room" (find (λ r. r.id == room_uuid) s.state.rooms) in
        let healed = heal_tree room_uuid s in
        let displaced_members = get_room_members room_uuid healed.state in
        let (state, deleted) = delete_room room_uuid healed.state in
        if not deleted then (err room_not_found, record healed { state = state }) else (
          ok room_name,
          reevaluate_members displaced_members root_room_uuid (
              broadcast_state_update (room_deleted room_uuid root_room_uuid) (
                in_persistence (delete_room_acl room_uuid) (
                  in_persistence (Persistence.delete_room room_uuid)
                    (record healed { state = state })))),
        )

-- `handle_move_room`.

-- A request, its ids as `uuid_from_room_id` reads them: `none` if absent or not 16 bytes.
pub record MoveRoom : Type 0 where
  pub room_id : Option ℕ
  pub new_parent_id : Option ℕ

pub data Reply : Type 0 where
  permission_denied : PermissionDenied → Reply
  into_itself : Reply
  into_own_descendant : Reply
  not_found : Reply
  moved : Reply

-- The closure `parent_of`: Root counts as no further parent.
pub parent_of : List Room → ℕ → Option ℕ
parent_of rooms uuid = elim (find (λ r. r.id == uuid) rooms) [
  | none ↦ none
  | some r ↦ if r.parent == root_room_uuid then none else some r.parent
]

-- The walk up from the cursor: whether it meets the room. `left` is `rooms.len() - steps`.
pub closes_cycle : ℕ → List Room → ℕ → Option ℕ → Bool
closes_cycle left rooms room_uuid none = false
closes_cycle zero rooms room_uuid (some c) = c == room_uuid
closes_cycle (suc left) rooms room_uuid (some c) =
    let rest = closes_cycle left rooms room_uuid (parent_of rooms c) in
    if c == room_uuid then true else rest

module _ ⦃S : Sled⦄ ⦃F : BitFlags⦄ where
  abbrev pub refusal : ClientHandle → Server → ℕ → ℕ → Option PermissionDenied
  refusal sender s room flag =
      check_permission s.state sender.is_superuser sender.identity room flag s.persistence

  pub handle_move_room : MoveRoom → ClientHandle → Server → Reply × Server
  handle_move_room mr sender s =
      let room_uuid = unwrap_or root_room_uuid mr.room_id in
      let new_parent_uuid = unwrap_or root_room_uuid mr.new_parent_id in
      elim (refusal sender s room_uuid modify_room) [
        | some denied ↦ (permission_denied denied, s)
        | none ↦ elim (refusal sender s new_parent_uuid make_room) [
          | some denied ↦ (permission_denied denied, s)
          | none ↦
              if new_parent_uuid == room_uuid
              then (into_itself, s)
              else if closes_cycle (length s.state.rooms) s.state.rooms room_uuid
                  (some new_parent_uuid)
              then (into_own_descendant, s)
              else let (state, found) = move_room room_uuid new_parent_uuid s.state in
                if not found then (not_found, record s { state = state }) else (
                  moved,
                  broadcast_state_update (room_moved mr.room_id mr.new_parent_id)
                      (persist_parent room_uuid new_parent_uuid (record s { state = state })),
                )
        ]
      ]
