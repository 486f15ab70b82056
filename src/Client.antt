-- ===== src/Client.antt =====
-- The state of the client that the projection task keeps: `State` of crates/rumble-client/src/events.rs
-- without its audio and chat parts, and `apply_room` of crates/rumble-client/src/projection.rs. The
-- task is the only writer, so applying an event is one step. What it sends to the audio task and to
-- the file transfer is returned with the state; repaints and warnings are left out.
mod Events
pub use Events.*
pub mod Tree
pub mod Permissions
pub mod Updates
pub mod Audio
pub mod Rooms
pub mod Freshness
use rumble.Prelude.{
  ℕ, Bool, true, false, not, ◌&&◌, Option, none, some, String, List, [], ◌∷◌, ◌++◌, map, ◌==◌,
  if◌then◌else◌, retain, find, any, str_eq, elem, nat_keys, text_keys, length,
}
use rumble.Prelude.Equality.{get?}
use rumble.Prelude.Fallible.{unwrap_or, is_some}
use rumble.Permission.{BitFlags}
use rumble.Rooms.{Room, RoomAclEntry, root_room_uuid}
use rumble.Wire.{User, Group, SlashCommand, RegisteredUser}
use rumble.Client.Tree.{RoomTree, rebuild}
use rumble.Client.Permissions.{effective_in_rooms}

-- The users in a room, except one.
pub room_user_ids : List User → ℕ → Option ℕ → List ℕ
room_user_ids users room_id exclude =
    map (λ (u : User). u.user_id)
      (retain (λ u. u.current_room == room_id && not (same_id exclude u.user_id)) users)

-- We are in another room.
abbrev pub enter : ℕ → State → Applied
enter room_id s = record {
  state = record s { my_room_id = some room_id };
  audio = room_changed (room_user_ids s.users room_id s.my_user_id) ∷ [];
  file_transfer = some room_id;
  recompute = true;
}

pub replace_all :
    List Room → List User → List Group → List SlashCommand → List (ℕ × ℕ) → State → Applied
replace_all rooms users groups slash_commands per_room s =
    let t =
      record (rebuild_room_tree (record s {
        per_room_permissions = per_room;
        rooms = rooms;
        users = users;
        group_definitions = groups;
        slash_commands = slash_commands;
      })) {
        effective_permissions = elim s.my_room_id [
          | none ↦ s.effective_permissions
          | some my_room ↦ unwrap_or s.effective_permissions (get? my_room per_room)
        ];
      } in
    let entered : List AudioCommand = elim s.my_room_id [
      | none ↦ []
      | some my_room ↦ room_changed (room_user_ids users my_room s.my_user_id) ∷ []
    ] in
    let muted : List AudioCommand = elim s.my_user_id [
      | none ↦ []
      | some me ↦ elim (user_of me users) [
        | none ↦ []
        | some u ↦ set_server_muted u.server_muted ∷ []
      ]
    ] in
    record { state = t; audio = entered ++ muted; file_transfer = none; recompute = true }

pub join : User → State → Applied
join user s = if is_some (user_of user.user_id s.users) then quiet s else record {
  state = record s { users = s.users ++ user ∷ [] };
  audio = if same_id s.my_room_id user.current_room then user_joined_room user.user_id ∷ [] else [];
  file_transfer = none;
  recompute = false;
}

pub leave : ℕ → State → Applied
leave user_id s =
    let was_in_our_room : Bool = elim (user_of user_id s.users) [
      | none ↦ false
      | some u ↦ same_id s.my_room_id u.current_room
    ] in
    record {
      state = record s { users = retain (λ u. not (u.user_id == user_id)) s.users };
      audio = if was_in_our_room then user_left_room user_id ∷ [] else [];
      file_transfer = none;
      recompute = false;
    }

-- `a.is_some() && a == b`.
abbrev pub both : Option ℕ → Option ℕ → Bool
both none b = false
both (some a) b = same_id b a

pub move_user : ℕ → Option ℕ → State → Applied
move_user user_id room_id s =
    let from : Option ℕ = elim (user_of user_id s.users) [
      | none ↦ none
      | some u ↦ some u.current_room
    ] in
    let t =
      change_user user_id (λ u. record u { current_room = unwrap_or root_room_uuid room_id }) s in
    if same_id s.my_user_id user_id
    then elim room_id [ none ↦ quiet t | some room ↦ enter room t ]
    else record (quiet t) {
      audio =
          if both s.my_room_id room_id
          then user_joined_room user_id ∷ []
          else if both s.my_room_id from
          then user_left_room user_id ∷ []
          else [];
    }

abbrev differ : Bool → Bool → Bool
differ a b = if a then not b else b

pub change_status : ℕ → Bool → Bool → Bool → Bool → State → Applied
change_status user_id is_muted is_deafened server_muted is_elevated s =
    elim (user_of user_id s.users) [
      | none ↦ quiet s
      | some user ↦
          let is_me = same_id s.my_user_id user_id in
          record {
            state =
                change_user user_id
                  (λ u. record u {
                    is_muted = is_muted;
                    is_deafened = is_deafened;
                    server_muted = server_muted;
                    is_elevated = is_elevated;
                  })
                  s;
            audio =
                if is_me && differ user.server_muted server_muted
                then set_server_muted server_muted ∷ []
                else [];
            file_transfer = none;
            recompute = is_me && differ user.is_elevated is_elevated;
          }
    ]

abbrev pub regroup : String → Bool → List String → List String
regroup group added groups =
    if added
    then if elem group groups then groups else groups ++ group ∷ []
    else retain (λ g. not (str_eq g group)) groups

pub change_group : ℕ → String → Bool → State → Applied
change_group user_id group added s = elim (user_of user_id s.users) [
  | none ↦ quiet s
  | some user ↦
      let changed =
        if added
        then not (elem group user.groups)
        else not (length (regroup group added user.groups) == length user.groups) in
      record (quiet
        (change_user user_id (λ u. record u { groups = regroup group added u.groups }) s)) {
          recompute = changed && same_id s.my_user_id user_id;
        }
]

pub upsert_group : Group → List Group → List Group
upsert_group group groups =
    if any (λ g. str_eq g.name group.name) groups
    then change_first (λ g. str_eq g.name group.name) (λ g. group) groups
    else groups ++ group ∷ []

abbrev pub recomputed : State → Applied
recomputed s = record (quiet s) { recompute = true }

-- The mutation under the lock. A checkpoint is handled before it.
pub mutate : RoomEvent → State → Applied
unfolding replace_all join leave move_user change_status change_group upsert_group
mutate (full_state_replaced rooms users groups commands per_room) s =
    replace_all rooms users groups commands per_room s
mutate (room_added room) s =
    recomputed (rebuild_room_tree (record s { rooms = s.rooms ++ room ∷ [] }))
mutate (room_removed room_id) s =
    recomputed
      (rebuild_room_tree (record s { rooms = retain (λ r. not (r.id == room_id)) s.rooms }))
mutate (room_renamed room_id name) s =
    quiet (rebuild_room_tree (change_room room_id (λ r. record r { name = name }) s))
mutate (room_moved room_id new_parent) s = quiet (
    rebuild_room_tree
      (change_room room_id (λ r. record r { parent = unwrap_or root_room_uuid new_parent }) s))
mutate (room_description_set room_id description) s =
    quiet (rebuild_room_tree (change_room room_id (λ r. record r { description = description }) s))
mutate (room_acl_changed room_id inherit_acl acls) s =
    recomputed (change_room room_id (λ r. record r { inherit_acl = inherit_acl; acls = acls }) s)
mutate (user_joined user) s = join user s
mutate (user_left user_id) s = leave user_id s
mutate (user_moved user_id room_id) s = move_user user_id room_id s
mutate (user_status_changed user_id muted deafened server_muted elevated) s =
    change_status user_id muted deafened server_muted elevated s
mutate (user_group_changed user_id group added) s = change_group user_id group added s
mutate (group_added group) s =
    recomputed (record s { group_definitions = upsert_group group s.group_definitions })
mutate (group_modified group) s =
    recomputed (record s { group_definitions = upsert_group group s.group_definitions })
mutate (group_removed name) s =
    recomputed
      (record s { group_definitions = retain (λ g. not (str_eq g.name name)) s.group_definitions })
mutate (registered_users_replaced users) s = quiet (record s { registered_users = users })
mutate (self_moved_to_room room_id) s = enter room_id s
mutate (state_hash_checkpoint hash) s = quiet s

module _ ⦃F : BitFlags⦄ where
  -- The permissions of all rooms again, if we know who we are.
  pub recompute_effective_permissions : State → State
  recompute_effective_permissions s = elim s.my_user_id [
    | none ↦ s
    | some me ↦
        let per_room = effective_in_rooms (user_of me s.users) s.group_definitions s.rooms in
        record s {
          per_room_permissions = per_room;
          effective_permissions = elim s.my_room_id [
            | none ↦ s.effective_permissions
            | some my_room ↦ unwrap_or s.effective_permissions (get? my_room per_room)
          ];
        }
  ]

  -- The state after an event.
  pub apply_room : RoomEvent → State → State
  unfolding mutate recompute_effective_permissions
  apply_room ev s =
      let applied = mutate ev s in
      if applied.recompute then recompute_effective_permissions applied.state else applied.state
