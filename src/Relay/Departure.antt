-- ===== src/Relay/Departure.antt =====
-- The end of a connection: `cleanup_client` of crates/server/src/handlers.rs with the teardown claim
-- of `ClientHandle` in crates/server/src/state.rs. The users whose leaving is broadcast are
-- returned in order.
pub mod Gone
use rumble.Prelude.{
  ℕ, Bool, true, false, not, ◌&&◌, Option, none, some, List, [], ◌∷◌, ◌++◌, if◌then◌else◌,
}
use rumble.Rooms.{remove_user_membership}
use rumble.Relay.{
  ServerState, Client, connection, members_by_owner, remove_client, remove_session,
  remove_voice_rate,
}

-- The first caller claims the teardown.
pub begin_teardown : Client → Client × Bool
begin_teardown c = (record c { torn_down = true }, not c.torn_down)

abbrev leave_rooms : ℕ → ServerState → ServerState
leave_rooms user_id s = record s { state_data = remove_user_membership user_id s.state_data }

-- One participant of a controller: it leaves, if no other teardown removed it.
pub cleanup_participant : ℕ → ServerState → ServerState × List ℕ
cleanup_participant vu_id s =
    let (s', present) = remove_client vu_id s in
    if present then (leave_rooms vu_id s', vu_id ∷ []) else (s', [])

pub cleanup_participants : List ℕ → ServerState → ServerState × List ℕ
unfolding cleanup_participant
cleanup_participants [] s = (s, [])
cleanup_participants (vu_id ∷ ids) s =
    let (s', left) = cleanup_participant vu_id s in
    let (s'', rest) = cleanup_participants ids s' in (s'', left ++ rest)

-- The participants that a controller drove.
pub cleanup_owned : Client → ServerState → ServerState × List ℕ
unfolding cleanup_participants
cleanup_owned c s =
    if c.is_controller
    then cleanup_participants (members_by_owner (connection c.user_id) s) s
    else (s, [])

pub cleanup_client : Client → ServerState → ServerState × List ℕ
unfolding cleanup_owned
cleanup_client c s =
    let (s1, participants) = cleanup_owned c s in
    let (s2, was_present) = remove_client c.user_id s1 in
    let s3 = remove_voice_rate c.user_id (remove_session c.user_id (leave_rooms c.user_id s2)) in
    let left =
      if was_present && c.authenticated && not c.is_controller then c.user_id ∷ [] else [] in
    (s3, participants ++ left)
