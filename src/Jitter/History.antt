-- ===== src/Jitter/History.antt =====
-- Whatever packets, markers and ticks come, in any order, the jitter buffer of
-- crates/rumble-client/src/audio_task.rs stays valid.
use rumble.Prelude.{ℕ, List}
use rumble.Jitter.{UserAudioState, JitterEstimate, new_state, insert_packet_at, mark_end_of_stream}
use rumble.Jitter.Arrival.{IsValid}
use rumble.Jitter.Admission.{insert_packet_at_bounds, mark_end_of_stream-IsValid, new_state-IsValid}
use rumble.Jitter.Playout.{VoiceDecoder, decode_next_into}
use rumble.Jitter.Playout.Onward.{decode_next_into-Onward}

module _ {D J A : Type 0} (jitter : JitterEstimate J) (voice : VoiceDecoder D A) where
  pub data StreamHistory : UserAudioState D J → Type 0 where
    created :
        (decoder : D) (base_delay now : ℕ) → StreamHistory (new_state jitter decoder base_delay now)
    arrived :
        {s : UserAudioState D J} (sequence timestamp_us : ℕ) (opus : List ℕ) (arrival : ℕ)
        → StreamHistory s
        → StreamHistory (insert_packet_at jitter sequence timestamp_us opus arrival s)
    ended :
        {s : UserAudioState D J} (sequence : ℕ)
        → StreamHistory s
        → StreamHistory (mark_end_of_stream sequence s)
    played :
        {s : UserAudioState D J} (now : ℕ)
        → StreamHistory s
        → StreamHistory (decode_next_into voice now s).0

  -- After any history of packets, end-of-stream markers and ticks of playout the buffer is valid:
  -- its frames ascend from the cursor and are at most 20, the target is from 2 to 12 frames, the
  -- last frame played is behind the cursor while the stream plays, a spurt that has not begun
  -- begins at the cursor, at most 8 markers are kept, and a run of late packets is at most 10.
  pub StreamHistory-IsValid : {s : UserAudioState D J} → StreamHistory s → IsValid s
  StreamHistory-IsValid (created decoder base_delay now) =
      new_state-IsValid jitter decoder base_delay now
  StreamHistory-IsValid (arrived {s} sequence timestamp_us opus arrival h) =
      (insert_packet_at_bounds jitter sequence timestamp_us opus arrival s
        (StreamHistory-IsValid h)).0
  StreamHistory-IsValid (ended {s} sequence h) =
      mark_end_of_stream-IsValid sequence s (StreamHistory-IsValid h)
  StreamHistory-IsValid (played {s} now h) =
      (decode_next_into-Onward voice now s (StreamHistory-IsValid h)).0
