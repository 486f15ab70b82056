-- ===== src/Relay/Voice/Tests.antt =====
-- The theorems about members, the voice relay and the teardown (crates/server/src/state.rs and
-- handlers.rs) at a small server: the users 1 and 3 in the hall, 2 deafened in the booth, and 9 a
-- controller that drives 3.
use rumble.Prelude.{
  ◌==◌, if◌then◌else◌, ◌+◌, ◌≡◌, ◌≤◌, ◌⊎◌, refl, true, false, ◌||◌, none, some, [], ◌∷◌, arith,
  Option, nat_keys, ap, ◌∙◌, ℕ,
}
use rumble.Prelude.Equality.{get?}
use rumble.Rooms.{get_user_status, snapshot_voice_routing}
use rumble.Rooms.Example.{small_house, small_house-IsValid, small_house_one, small_house_routing}
use rumble.Relay.{
  ServerState, Client, client, owned, connection, get_client, is_participant_of, check_voice_rate,
  check, new_rate,
}
use rumble.Relay.RateLimit.{accepted, accepted-le}
use rumble.Relay.Voice.{
  VoiceDatagram, RelayPacket, Wire, effective_sender, muted_by_server, packet_for, recipients_in,
  build_relay_packet, frame_from,
}
use rumble.Relay.Voice.Routing.{IsRelayOf, build_lem, route_lem, build_relay_packet_sound}
use rumble.Relay.Departure.{cleanup_client}
use rumble.Relay.Departure.Gone.{owned_in, cleanup_client_once}

abbrev plain : ℕ → Client
plain n = record {
  user_id = n;
  authenticated = true;
  is_controller = false;
  server_muted = false;
  torn_down = false;
  is_superuser = false;
  identity = record { display_name = "user"; verified_username = none; label = none; groups = [] };
}

abbrev bridge : Client
bridge = record (plain 9) { is_controller = true }

abbrev house : ServerState
house = record {
  members =
      (1, record { user_id = 1; binding = client (plain 1) })
      ∷ (3, record { user_id = 3; binding = owned (connection 9) })
      ∷ (9, record { user_id = 9; binding = client bridge })
      ∷ [];
  state_data = small_house;
  next_user_id = 10;
  sessions = [];
  sessions_by_id = [];
  voice_rate_limits = [];
  audio_sinks = [];
  next_sub_id = 0;
}

-- A coding that keeps the payload only.
abbrev payload_only : Wire
payload_only = record {
  as_bytes = λ u. u ∷ [];
  encode_to_vec = λ d. d.opus_data;
  decode = λ b. none;
}

abbrev word : VoiceDatagram
word = record {
  opus_data = 7 ∷ [];
  sequence = 1;
  timestamp_us = 20000;
  end_of_stream = false;
  sender_id = none;
  room_id = none;
}

speaks_for_itself : effective_sender 1 word house ≡ some 1
unfolding effective_sender get_client
speaks_for_itself = refl

not_muted : muted_by_server 1 house ≡ false
unfolding muted_by_server get_client
not_muted = refl

within_rate : (check_voice_rate 0 1 100 house).1 ≡ true
unfolding check_voice_rate check new_rate
within_rate = refl

abbrev relayed : RelayPacket
relayed = record {
  bytes = 7 ∷ [];
  recipients = 3 ∷ [];
  room = 5;
  frame = frame_from payload_only 1 word;
}

house_packet : packet_for payload_only 1 5 word (snapshot_voice_routing small_house) ≡ relayed
unfolding packet_for recipients_in
house_packet = rw small_house_routing

-- User 3 of the hall hears it, the sender and the booth do not.
house_relays : (build_relay_packet payload_only 0 1 word 100 house).1 ≡ some relayed
house_relays =
    build_lem payload_only 0 1 100 1 word house speaks_for_itself
    ∙ rw (not_muted, ap (λ s. s.is_muted) small_house_one.1, within_rate)
        (route_lem payload_only 1 word small_house small_house-IsValid
          ∙ rw (small_house_one.0, house_packet))

build_relay_packet_sound_example :
    (who : ℕ) × ((who ≡ 1) ⊎ (is_participant_of who (connection 1) house ≡ true))
    × ((muted_by_server 1 house || (get_user_status who small_house).is_muted) ≡ false)
    × IsRelayOf payload_only who 3 word small_house relayed
build_relay_packet_sound_example =
    build_relay_packet_sound payload_only 0 1 100 3 word house relayed small_house-IsValid
      house_relays

-- Users 3 and 4 are driven by the connection 9, and 5 has none.
abbrev driven : ℕ → Option ℕ
driven n = if n == 3 || n == 4 then some 9 else none

accepted-le_example :
    accepted ((5, 20000) ∷ (6, 20000) ∷ []) (record { window_start = 0; bytes_in_window = 100 })
      + 100
    ≤ 64000
accepted-le_example =
    accepted-le 5 ((5, 20000) ∷ (6, 20000) ∷ [])
      (record { window_start = 0; bytes_in_window = 100 }) refl (omega arith)

cleanup_client_once_example :
    (get? 9 (cleanup_client bridge house).0.members ≡ none)
    × ((false || owned_in (connection 9) [] (cleanup_client bridge house).0.members) ≡ true)
    × ((cleanup_client bridge (cleanup_client bridge house).0).1 ≡ [])
cleanup_client_once_example = cleanup_client_once bridge house refl
