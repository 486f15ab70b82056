-- ===== src/Relay/Voice.antt =====
-- The voice relay of crates/server/src/handlers.rs: what becomes of a datagram, and to whom it goes
-- (`build_relay_packet`,
-- `dedup_delivery_targets`, a turn of `handle_datagrams`, `relay_voice_as`),
-- with the audio subscriptions of crates/server/src/state.rs. The coding of a datagram is a
-- parameter.
pub mod Routing
pub mod Hearing
pub mod Targets
mod Tests
use rumble.Prelude.{
  ℕ, ◌+◌, ◌%◌, ◌^◌, Bool, true, false, not, ◌&&◌, ◌||◌, Option, none, some, List, [], ◌∷◌, ◌++◌,
  map, ◌==◌, if◌then◌else◌, retain, length, nat_keys,
}
use rumble.Prelude.Predicates.{mentions}
use rumble.Prelude.Equality.{get?, insert}
use rumble.Rooms.{StateData, get_user_status, snapshot_voice_routing}
use rumble.Rooms.Routing.{find_room}
use rumble.Relay.Sinks.{VoiceFrame, fanout_audio}
use rumble.Relay.{
  ServerState, Client, OwnerId, connection, get_client, is_participant_of, delivery_client,
  check_voice_rate,
}

pub record VoiceDatagram : Type 0 where
  pub opus_data : List ℕ
  pub sequence : ℕ
  pub timestamp_us : ℕ
  pub end_of_stream : Bool
  pub sender_id : Option ℕ
  pub room_id : Option (List ℕ)

pub record RelayPacket : Type 0 where
  pub bytes : List ℕ
  pub recipients : List ℕ
  pub room : ℕ
  pub frame : VoiceFrame

-- The bytes of a UUID, and a datagram as protobuf.
pub record Wire : Type 0 where
  pub as_bytes : ℕ → List ℕ
  pub encode_to_vec : VoiceDatagram → List ℕ
  pub decode : List ℕ → Option VoiceDatagram

abbrev holds : (Client → Bool) → Option Client → Bool
holds p none = false
holds p (some c) = p c

abbrev claimed : OwnerId → Option ℕ → ServerState → Option ℕ
claimed owner none s = none
claimed owner (some id) s = if is_participant_of id owner s then some id else none

-- A controller speaks for one of its participants, any other client for itself.
pub effective_sender : ℕ → VoiceDatagram → ServerState → Option ℕ
effective_sender sender_user_id voice_dgram s =
    if holds (λ c. c.is_controller) (get_client sender_user_id s)
    then claimed (connection sender_user_id) voice_dgram.sender_id s
    else some sender_user_id

-- The drop of a client that the server muted; a controller is not muted as a whole.
pub muted_by_server : ℕ → ServerState → Bool
muted_by_server sender_user_id s =
    not (holds (λ c. c.is_controller) (get_client sender_user_id s))
    && holds (λ c. c.server_muted) (get_client sender_user_id s)

-- The members of the room except the sender and the deafened.
pub recipients_in : ℕ → ℕ → List (ℕ × List ℕ) × List ℕ → List ℕ
recipients_in sender room (room_memberships, deafened) = elim (get? room room_memberships) [
  | none ↦ []
  | some members ↦ retain (λ id. not (id == sender) && not (mentions id deafened)) members
]

module _ (wire : Wire) where
  -- The datagram with the sender and the room that the server stamps on it.
  abbrev pub stamped : ℕ → ℕ → VoiceDatagram → VoiceDatagram
  stamped sender room d = record d { sender_id = some sender; room_id = some (wire.as_bytes room) }

  abbrev pub frame_from : ℕ → VoiceDatagram → VoiceFrame
  frame_from sender d = record {
    sender_id = sender;
    opus_data = d.opus_data;
    sequence = d.sequence;
    timestamp_us = d.timestamp_us;
    end_of_stream = d.end_of_stream;
  }

  pub packet_for : ℕ → ℕ → VoiceDatagram → List (ℕ × List ℕ) × List ℕ → RelayPacket
  unfolding recipients_in
  packet_for sender room voice_dgram routing = record {
    bytes = wire.encode_to_vec (stamped sender room voice_dgram);
    recipients = recipients_in sender room routing;
    room = room;
    frame = frame_from sender voice_dgram;
  }

  -- The packet for the room that the sender is in.
  pub route : ℕ → VoiceDatagram → StateData → Option RelayPacket
  unfolding packet_for
  route sender voice_dgram data' =
      let routing = snapshot_voice_routing data' in
      elim (find_room sender routing.0) [
        | none ↦ none
        | some room ↦ some (packet_for sender room voice_dgram routing)
      ]

  pub build_relay_packet :
      ℕ → ℕ → VoiceDatagram → ℕ → ServerState → ServerState × Option RelayPacket
  unfolding effective_sender muted_by_server route
  build_relay_packet now sender_user_id voice_dgram datagram_len s =
      elim (effective_sender sender_user_id voice_dgram s) [
        | none ↦ (s, none)
        | some sender ↦
            if muted_by_server sender_user_id s
            then (s, none)
            else if (get_user_status sender s.state_data).is_muted
            then (s, none)
            else let (limited, allowed) = check_voice_rate now sender_user_id datagram_len s in
              if allowed
              then (limited, route sender voice_dgram limited.state_data)
              else (limited, none)
      ]

-- The loop of `dedup_delivery_targets`, with the targets seen so far.
pub dedup_from : (ℕ → Option ℕ) → List ℕ → List ℕ → List ℕ
dedup_from resolve seen [] = []
dedup_from resolve seen (id ∷ ids) = elim (resolve id) [
  | none ↦ dedup_from resolve seen ids
  | some target ↦ elim (mentions target seen) [
    | true ↦ dedup_from resolve seen ids
    | false ↦ target ∷ dedup_from resolve (target ∷ seen) ids
  ]
]

pub dedup_delivery_targets : List ℕ → (ℕ → Option ℕ) → List ℕ
unfolding dedup_from
dedup_delivery_targets recipients resolve = dedup_from resolve [] recipients

-- `|id| state.delivery_client(id).map(|c| c.user_id)`.
abbrev pub target_of : ServerState → ℕ → Option ℕ
target_of s id = elim (delivery_client id s) [ none ↦ none | some c ↦ some c.user_id ]

-- The datagrams sent: the target connection and the bytes.
abbrev sends_to : ServerState → List ℕ → List ℕ → List (ℕ × List ℕ)
sends_to s bytes [] = []
sends_to s bytes (id ∷ ids) = elim (get_client id s) [
  | none ↦ sends_to s bytes ids
  | some c ↦ (c.user_id, bytes) ∷ sends_to s bytes ids
]

abbrev Sent : Type 0
Sent = List (ℕ × List ℕ) × List ℕ

-- What is sent for a packet, and the subscriptions it is offered to.
pub relay : Option RelayPacket → ServerState → Sent
unfolding dedup_delivery_targets
relay none s = ([], [])
relay (some packet) s = (
  sends_to s packet.bytes (dedup_delivery_targets packet.recipients (target_of s)),
  fanout_audio packet.room packet.frame s,
)

module _ (wire : Wire) where
  -- A turn of the loop in `handle_datagrams`.
  pub handle_datagram : ℕ → ℕ → List ℕ → ServerState → ServerState × Sent
  unfolding build_relay_packet relay
  handle_datagram now sender_user_id datagram s = elim (wire.decode datagram) [
    | none ↦ (s, ([], []))
    | some voice_dgram ↦
        let (s', packet) =
          build_relay_packet wire now sender_user_id voice_dgram (length datagram) s in
        (s', relay packet s')
  ]

  pub relay_voice_as : ℕ → List ℕ → ℕ → ℕ → Bool → ServerState → Sent
  unfolding route relay
  relay_voice_as sender_id opus_data sequence timestamp_us end_of_stream s =
      relay
        (route wire sender_id
          (record {
            opus_data = opus_data;
            sequence = sequence;
            timestamp_us = timestamp_us;
            end_of_stream = end_of_stream;
            sender_id = none;
            room_id = none;
          })
          s.state_data)
        s
