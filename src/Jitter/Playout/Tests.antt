-- ===== src/Jitter/Playout/Tests.antt =====
-- Tests of the jitter buffer of crates/rumble-client/src/audio_task.rs, with an estimate that never
-- asks for headroom and a decoder that writes the length of a payload.
use rumble.Prelude.{ℕ, ◌≡◌, refl, true, false, some, List, [], ◌∷◌, length, foldl, arith}
use rumble.Jitter.{
  UserAudioState, BufferedPacket, JitterEstimate, new_state, insert_packet_at, mark_end_of_stream,
  update_jitter, admit, accept, buffer_packet, follow_first, trim, too_deep, depth, max_depth,
  drop_oldest, ready_to_play,
}
use rumble.Jitter.Arrival.{IsValid}
use rumble.Jitter.Resync.{Arrival, receive, Afresh, late_run-resync}
use rumble.Jitter.Playout.{VoiceDecoder, decode_next_into}
use rumble.Jitter.History.{created, arrived, ended, played, StreamHistory-IsValid}

abbrev steady : JitterEstimate ℕ
steady = record { initial = 0; smooth = λ e a f. e; headroom = λ e. e }

abbrev echo : VoiceDecoder ℕ ℕ
echo = record {
  decode = λ d opus. (d, some (length opus));
  decode_fec = λ d opus. (d, some (length opus));
  decode_plc = λ d. (d, some 0);
}

abbrev packet : ℕ → BufferedPacket
packet n = record { seq = n; opus = n ∷ [] }

-- A stream that plays: frame 9 was the last, the cursor is at 10.
abbrev playing : List (ℕ × BufferedPacket) → UserAudioState ℕ ℕ
playing frames = record {
  decoder = 0;
  jitter_buffer = frames;
  next_play_frame = 10;
  started = true;
  last_played_seq = 9;
  last_played_frame = 9;
  target_frames = 2;
  base_frames = 2;
  jitter_est_us = 0;
  last_arrival = 0;
  last_arrival_frame = 12;
  have_arrival = true;
  packets_received = 3;
  packets_lost = 0;
  packets_recovered_fec = 0;
  frames_concealed = 0;
  bytes_received = 3;
  stream_ended = false;
  needs_prime = false;
  pending_eos_seqs = [];
  consecutive_late = 0;
}

abbrev at_gap : UserAudioState ℕ ℕ
at_gap = playing ((12, packet 12) ∷ [])

-- One frame of silence: voice 9, a marker 10, then voice 11 two frames on.
abbrev at_pause : UserAudioState ℕ ℕ
at_pause = record (playing ((11, packet 11) ∷ [])) { pending_eos_seqs = 10 ∷ [] }

StreamHistory-IsValid_example :
    IsValid
      (decode_next_into echo 9 (
        mark_end_of_stream 5
          (insert_packet_at steady 4 80000 (1 ∷ []) 7 (new_state steady 0 3 0)))).0
StreamHistory-IsValid_example =
    StreamHistory-IsValid steady echo
      (played 9 (ended 5 (arrived 4 80000 (1 ∷ []) 7 (created 0 3 0))))

-- Frame 8 arrives again and again.
abbrev again : Arrival
again = record { sequence = 8; timestamp_us = 160000; opus = 1 ∷ []; instant = 9 }

abbrev ten_times : List Arrival
ten_times = again ∷ again ∷ again ∷ again ∷ again ∷ again ∷ again ∷ again ∷ again ∷ again ∷ []

late_run-resync_example :
    ((foldl (receive steady) at_gap ten_times).jitter_buffer ≡ (12, packet 12) ∷ [])
    × ((foldl (receive steady) at_gap ten_times).next_play_frame ≡ 10)
    × Afresh 8
        (record { seq = 8; opus = 1 ∷ [] })
        (receive steady (foldl (receive steady) at_gap ten_times) again)
late_run-resync_example = late_run-resync steady ten_times again at_gap refl refl (omega arith)

-- Two frames start playout at the first, and the third tick conceals.
abbrev two_frames : UserAudioState ℕ ℕ
two_frames =
    insert_packet_at steady 1 20000 (7 ∷ 7 ∷ []) 0
      (insert_packet_at steady 2 40000 (7 ∷ []) 0 (new_state steady 0 0 0))

plays_in_order :
    ((decode_next_into echo 0 two_frames).1 ≡ some 2)
    × ((decode_next_into echo 0 (decode_next_into echo 0 two_frames).0).1 ≡ some 1)
unfolding new_state insert_packet_at update_jitter admit accept buffer_packet follow_first trim
    too_deep max_depth depth drop_oldest ready_to_play decode_next_into
plays_in_order = (refl, refl)
