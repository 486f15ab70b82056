-- ===== src/Relay.antt =====
-- Members, sessions and voice limits of crates/server/src/state.rs: `ServerState` without its
-- database, pending authentication, certificate and command list. A concurrent map is an
-- association list and each call one step on it; a time is a count of nanoseconds and a key its
-- number. Of a connection only the flags are kept, of a session its keys and id, and of a member no
-- identity.
pub mod Sinks
pub mod Voice
pub mod Departure
pub mod RateLimit
use rumble.Prelude.{
  ℕ, ◌+◌, ◌-◌, ◌/◌, ◌%◌, ◌^◌, Bool, true, false, not, ◌&&◌, ◌||◌, Option, none, some, List, [], ◌∷◌,
  ◌++◌, map, ltb, leb, ◌==◌, if◌then◌else◌, retain, find, nat_keys,
}
use rumble.Prelude.Equality.{get?, insert, remove}
use rumble.Rooms.{StateData}
use rumble.Acl.{Identity}

-- A `ClientHandle` as far as the relay, the teardown and the moderation read it.
pub record Client : Type 0 where
  pub user_id : ℕ
  pub authenticated : Bool
  pub is_controller : Bool
  pub server_muted : Bool
  pub torn_down : Bool
  pub is_superuser : Bool
  pub identity : Identity

pub data OwnerId : Type 0 where
  plugin : ℕ → OwnerId
  connection : ℕ → OwnerId

pub data Binding : Type 0 where
  client : Client → Binding
  owned : OwnerId → Binding

pub record Member : Type 0 where
  pub user_id : ℕ
  pub binding : Binding

pub record SessionEntry : Type 0 where
  pub user_public_key : ℕ
  pub session_public_key : ℕ
  pub session_id : ℕ

pub record VoiceRateLimit : Type 0 where
  pub window_start : ℕ
  pub bytes_in_window : ℕ

pub record AudioSink : Type 0 where
  pub owner_id : ℕ
  pub sub_id : ℕ

pub record ServerState : Type 0 where
  pub members : List (ℕ × Member)
  pub state_data : StateData
  pub next_user_id : ℕ
  pub sessions : List (ℕ × SessionEntry)
  pub sessions_by_id : List (ℕ × ℕ)
  pub voice_rate_limits : List (ℕ × VoiceRateLimit)
  pub audio_sinks : List (ℕ × List AudioSink)
  pub next_sub_id : ℕ

abbrev pub voice_rate_limit_bytes_per_sec : ℕ
voice_rate_limit_bytes_per_sec = 32000

-- `VoiceRateLimit::new`.
pub new_rate : ℕ → VoiceRateLimit
new_rate now = record { window_start = now; bytes_in_window = 0 }

pub check : ℕ → ℕ → VoiceRateLimit → VoiceRateLimit × Bool
check now bytes r =
    if leb 1 ((now - r.window_start) / 10 ^ 9)
    then (record { window_start = now; bytes_in_window = bytes }, true)
    else if ltb voice_rate_limit_bytes_per_sec (r.bytes_in_window + bytes)
    then (r, false)
    else (record r { bytes_in_window = r.bytes_in_window + bytes }, true)

abbrev pub rate_of : ℕ → ℕ → ServerState → VoiceRateLimit
rate_of now user_id s = elim (get? user_id s.voice_rate_limits) [ none ↦ new_rate now | some r ↦ r ]

pub check_voice_rate : ℕ → ℕ → ℕ → ServerState → ServerState × Bool
check_voice_rate now user_id bytes s =
    let (r, allowed) = check now bytes (rate_of now user_id s) in
    (record s { voice_rate_limits = insert user_id r s.voice_rate_limits }, allowed)

pub remove_voice_rate : ℕ → ServerState → ServerState
remove_voice_rate user_id s = record s { voice_rate_limits = remove user_id s.voice_rate_limits }

-- Sessions, with their index by session id.

pub add_session : ℕ → SessionEntry → ServerState → ServerState
add_session user_id session s = record s {
  sessions = insert user_id session s.sessions;
  sessions_by_id = insert session.session_id user_id s.sessions_by_id;
}

pub remove_session : ℕ → ServerState → ServerState
remove_session user_id s = elim (get? user_id s.sessions) [
  | none ↦ s
  | some session ↦ record s {
    sessions = remove user_id s.sessions;
    sessions_by_id = remove session.session_id s.sessions_by_id;
  }
]

unfoldable pub get_session : ℕ → ServerState → Option SessionEntry
get_session user_id s = get? user_id s.sessions

pub get_session_by_id : ℕ → ServerState → Option (ℕ × SessionEntry)
get_session_by_id session_id s = elim (get? session_id s.sessions_by_id) [
  | none ↦ none
  | some uid ↦ elim (get? uid s.sessions) [ none ↦ none | some e ↦ some (uid, e) ]
]

pub user_ids_with_key : ℕ → ServerState → List ℕ
user_ids_with_key key s =
    map (λ (e : ℕ × SessionEntry). e.0) (retain (λ e. e.1.user_public_key == key) s.sessions)

-- Members.

pub allocate_user_id : ServerState → ServerState × ℕ
allocate_user_id s = (record s { next_user_id = (s.next_user_id + 1) % 2 ^ 64 }, s.next_user_id)

pub register_client : Client → ServerState → ServerState
register_client handle s = record s {
  members =
      insert handle.user_id (record { user_id = handle.user_id; binding = client handle })
        s.members;
}

pub register_participant : Member → ServerState → ServerState
register_participant member s = record s { members = insert member.user_id member s.members }

pub remove_client : ℕ → ServerState → ServerState × Bool
remove_client user_id s = (
  record s { members = remove user_id s.members },
  elim (get? user_id s.members) [ none ↦ false | some m ↦ true ],
)

-- `Member::client`.
abbrev pub client_of : Binding → Option Client
client_of (client h) = some h
client_of (owned o) = none

unfoldable pub get_client : ℕ → ServerState → Option Client
get_client user_id s = elim (get? user_id s.members) [ none ↦ none | some m ↦ client_of m.binding ]

abbrev same_owner : OwnerId → OwnerId → Bool
same_owner (plugin a) (plugin b) = a == b
same_owner (connection a) (connection b) = a == b
same_owner _ _ = false

abbrev pub owned_by : OwnerId → Binding → Bool
owned_by owner (client h) = false
owned_by owner (owned o) = same_owner o owner

pub is_participant_of : ℕ → OwnerId → ServerState → Bool
is_participant_of user_id owner s = elim (get? user_id s.members) [
  | none ↦ false
  | some m ↦ owned_by owner m.binding
]

pub members_by_owner : OwnerId → ServerState → List ℕ
members_by_owner owner s =
    map (λ (e : ℕ × Member). e.1.user_id) (retain (λ e. owned_by owner e.1.binding) s.members)

abbrev deliver_to : ServerState → Binding → Option Client
deliver_to s (client h) = some h
deliver_to s (owned (connection c)) = get_client c s
deliver_to s (owned (plugin p)) = none

pub delivery_client : ℕ → ServerState → Option Client
delivery_client user_id s = elim (get? user_id s.members) [
  | none ↦ none
  | some m ↦ deliver_to s m.binding
]
