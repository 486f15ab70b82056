-- ===== src/Relay/Sinks.antt =====
-- The subscriptions of plugins to the voice of a room: `subscribe_audio`, `unsubscribe_audio` and
-- `fanout_audio` of crates/server/src/state.rs. Of a subscription's channel only its id is kept: a
-- frame that is offered may be missed.
use rumble.Prelude.{
  ℕ, ◌+◌, ◌%◌, ◌^◌, Bool, not, none, some, List, [], ◌∷◌, ◌++◌, map, ◌==◌, retain, nat_keys,
}
use rumble.Prelude.Equality.{get?, insert}
use rumble.Relay.{ServerState, AudioSink}

pub record VoiceFrame : Type 0 where
  pub sender_id : ℕ
  pub opus_data : List ℕ
  pub sequence : ℕ
  pub timestamp_us : ℕ
  pub end_of_stream : Bool

abbrev pub sinks_in : ℕ → ServerState → List AudioSink
sinks_in room s = elim (get? room s.audio_sinks) [ none ↦ [] | some sinks ↦ sinks ]

pub subscribe_audio : ℕ → ℕ → ServerState → ServerState × ℕ
subscribe_audio room owner_id s = (
  record s {
    next_sub_id = (s.next_sub_id + 1) % 2 ^ 64;
    audio_sinks =
        insert room (sinks_in room s ++ record { owner_id = owner_id; sub_id = s.next_sub_id } ∷ [])
          s.audio_sinks;
  },
  s.next_sub_id,
)

pub unsubscribe_audio : ℕ → ℕ → ServerState → ServerState
unsubscribe_audio room sub_id s = elim (get? room s.audio_sinks) [
  | none ↦ s
  | some sinks ↦ record s {
    audio_sinks = insert room (retain (λ k. not (k.sub_id == sub_id)) sinks) s.audio_sinks;
  }
]

-- The subscriptions that a frame is offered to.
pub fanout_audio : ℕ → VoiceFrame → ServerState → List ℕ
fanout_audio room frame s =
    map (λ (k : AudioSink). k.sub_id)
      (retain (λ k. not (k.owner_id == frame.sender_id)) (sinks_in room s))
