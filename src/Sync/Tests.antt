-- ===== src/Sync/Tests.antt =====
-- A client of crates/rumble-client that follows the server of crates/server at concrete input.
use rumble.Prelude.{◌≡◌, refl, true, false, none, some, []}
use rumble.Permission.Flags.{native_flags}
use rumble.Sled.Memory.{memory}
use rumble.Persistence.{codes}
use rumble.Persistence.Example.{two_groups}
use rumble.Rooms.Example.{small_house}
use rumble.Ops.{Server, ClientHandle}
use rumble.Ops.AclSave.{Digest}
use rumble.Ops.Broadcast.History.{
  begun, next, creates, deletes, moves, renames, describes, run, client_keeps_up,
}
use rumble.Client.{State}
use rumble.Client.Tree.{rebuild}
use rumble.Sync.{hash_rooms, receive_all}

abbrev byte_sum : Digest
byte_sum = record { digest = λ bytes. 7; utf8 = codes }

abbrev house : Server
house = record {
  state = small_house;
  clients = [];
  persistence = two_groups;
  sessions = [];
  sent = [];
}

abbrev admin : ClientHandle
admin = record {
  identity = record { display_name = "root"; verified_username = none; label = none; groups = [] };
  is_superuser = true;
  server_muted = false;
  manually_server_muted = false;
}

-- User 1, who is in the hall.
abbrev observer : State
observer = record {
  rooms = small_house.rooms;
  users = [];
  my_user_id = some 1;
  my_room_id = some 5;
  room_tree = rebuild small_house.rooms;
  effective_permissions = 0;
  per_room_permissions = [];
  group_definitions = [];
  slash_commands = [];
  registered_users = [];
}

-- A room is made in the booth and renamed, the booth goes under Root, the hall is deleted, and Root
-- gets a description.
abbrev attic : Server
attic =
    run byte_sum (renames (some 9) "loft" admin)
      (run byte_sum (creates 9 "attic" (some 6) none) house)

abbrev rebuilt : Server
rebuilt =
    run byte_sum (describes none "start here" admin)
      (run byte_sum (deletes 5) (run byte_sum (moves 6 none admin) attic))

client_keeps_up_example :
    hash_rooms (receive_all rebuilt.sent observer).rooms ≡ hash_rooms rebuilt.state.rooms
client_keeps_up_example = client_keeps_up byte_sum observer house rebuilt refl refl (
    next
      (next
        (next
          (next (next begun (creates 9 "attic" (some 6) none) refl) (renames (some 9) "loft" admin)
            refl)
          (moves 6 none admin) refl)
        (deletes 5) refl)
      (describes none "start here" admin) refl)
