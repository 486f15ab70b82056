-- ===== src/Jitter.antt =====
-- The jitter buffer of crates/rumble-client/src/audio_task.rs: `UserAudioState`, one per peer,
-- from the arrival of a packet to its place in the buffer (`Playout` takes it out again). A time
-- is a count of nanoseconds. A frame index does not wrap: a time stamp is below 2 ^ 64
-- microseconds, and the cursor is at most one past a frame received and the ticks of playout. Other
-- counters do.
mod State
pub mod Valid
pub mod Arrival
pub mod Admission
pub mod Resync
pub mod Playout
pub mod History
pub use State.*
use rumble.Prelude.OrderedMap
use rumble.Prelude.{
  ℕ, zero, suc, ◌+◌, ◌-◌, ◌*◌, ◌/◌, ◌%◌, ◌^◌, Bool, true, false, not, ◌&&◌, ◌||◌, Option, none,
  some, List, [], ◌∷◌, ◌++◌, ltb, leb, ◌==◌, if◌then◌else◌, length, drop, elem, nat_keys,
}

-- `Ord::clamp`.
abbrev pub clamp : ℕ → ℕ → ℕ → ℕ
clamp x lo hi = if ltb x lo then lo else if ltb hi x then hi else x

-- `u32::saturating_add`, one more.
abbrev pub count_on : ℕ → ℕ
count_on n = if ltb n (2 ^ 32 - 1) then n + 1 else 2 ^ 32 - 1

module _ {D J : Type 0} where
  -- `depth`.
  pub depth : UserAudioState D J → ℕ
  depth s = length (OrderedMap.range_from s.next_play_frame s.jitter_buffer)

  pub reanchor : ℕ → UserAudioState D J → UserAudioState D J
  reanchor frame s = record s {
    next_play_frame = frame;
    started = false;
    needs_prime = true;
    pending_eos_seqs = [];
  }

  -- A sender restart: the old stream is dropped.
  pub resync : ℕ → UserAudioState D J → UserAudioState D J
  unfolding reanchor
  resync frame s = reanchor frame (record s { jitter_buffer = [] })

  -- The body of the trim loop.
  pub drop_oldest : UserAudioState D J → UserAudioState D J
  drop_oldest s = elim (OrderedMap.first s.jitter_buffer) [
    | none ↦ s
    | some oldest ↦
        let rest = OrderedMap.remove oldest.0 s.jitter_buffer in
        let cursor =
          if s.started
          then (if leb s.next_play_frame oldest.0 then oldest.0 + 1 else s.next_play_frame)
          else elim (OrderedMap.first rest) [ none ↦ s.next_play_frame | some e ↦ e.0 ] in
        record s { jitter_buffer = rest; next_play_frame = cursor }
  ]

  -- The test of the trim loop.
  pub too_deep : ℕ → UserAudioState D J → Bool
  unfolding depth
  too_deep max_depth s =
      ltb jitter_buffer_max_packets (length s.jitter_buffer) || ltb max_depth (depth s)

  -- The trim loop, on fuel: a round removes a packet.
  pub trim : ℕ → ℕ → UserAudioState D J → UserAudioState D J
  unfolding drop_oldest too_deep
  trim zero max_depth s = s
  trim (suc fuel) max_depth s = elim (too_deep max_depth s) [
    | true ↦ trim fuel max_depth (drop_oldest s)
    | false ↦ s
  ]

  pub max_depth : UserAudioState D J → ℕ
  max_depth s =
      if s.started then (s.target_frames + drift_drop_slack) % 2 ^ 32 else jitter_buffer_max_packets

  -- While a spurt is buffered, the cursor is on its earliest frame.
  pub follow_first : UserAudioState D J → UserAudioState D J
  follow_first s = if s.started then s else elim (OrderedMap.first s.jitter_buffer) [
    | none ↦ s
    | some e ↦ record s { next_play_frame = e.0 }
  ]

  pub buffer_packet : ℕ → BufferedPacket → UserAudioState D J → UserAudioState D J
  buffer_packet frame packet s = record s {
    consecutive_late = 0;
    stream_ended = false;
    jitter_buffer = OrderedMap.insert frame packet s.jitter_buffer;
  }

  -- An accepted packet, from the reset of the late run on.
  pub accept : ℕ → BufferedPacket → UserAudioState D J → UserAudioState D J
  unfolding buffer_packet follow_first trim max_depth
  accept frame packet s =
      let placed = follow_first (buffer_packet frame packet s) in
      trim (length placed.jitter_buffer) (max_depth placed) placed

  -- A packet against the cursor: a restart, a late packet, or one to accept.
  pub admit : ℕ → BufferedPacket → UserAudioState D J → UserAudioState D J
  unfolding accept resync
  admit frame packet s =
      if s.started && ltb (frame + restart_backward_frames) s.next_play_frame
      then accept frame packet (resync frame s)
      else if s.started && ltb frame s.next_play_frame
      then (let late = record s { consecutive_late = count_on s.consecutive_late } in
          if leb late.consecutive_late late_resync_frames
          then late
          else accept frame packet (resync frame late))
      else accept frame packet s

  pub mark_end_of_stream : ℕ → UserAudioState D J → UserAudioState D J
  mark_end_of_stream sequence s =
      let ended = record s { stream_ended = true } in
      let room =
        if leb 8 (length ended.pending_eos_seqs)
        then drop 1 ended.pending_eos_seqs
        else ended.pending_eos_seqs in
      if elem sequence ended.pending_eos_seqs
      then ended
      else record ended { pending_eos_seqs = room ++ sequence ∷ [] }

  pub ready_to_play : UserAudioState D J → Bool
  unfolding depth
  ready_to_play s = s.started || leb s.target_frames (depth s)

module _ {D J : Type 0} (jitter : JitterEstimate J) where
  -- `new`, at a time.
  pub new_state : D → ℕ → ℕ → UserAudioState D J
  new_state decoder base_delay now =
      let base = clamp base_delay min_target_frames max_target_frames in
      record {
        decoder = decoder;
        jitter_buffer = [];
        next_play_frame = 0;
        started = false;
        last_played_seq = 0;
        last_played_frame = 0;
        target_frames = base;
        base_frames = base;
        jitter_est_us = jitter.initial;
        last_arrival = now;
        last_arrival_frame = 0;
        have_arrival = false;
        packets_received = 0;
        packets_lost = 0;
        packets_recovered_fec = 0;
        frames_concealed = 0;
        bytes_received = 0;
        stream_ended = true;
        needs_prime = false;
        pending_eos_seqs = [];
        consecutive_late = 0;
      }

  -- The new estimate, and the target of it, with the wrap of a release build's `u32` addition.
  pub retarget : ℕ → ℕ → UserAudioState D J → UserAudioState D J
  retarget frame now s =
      let estimate =
        jitter.smooth s.jitter_est_us ((now - s.last_arrival) / 1000)
          (frame - s.last_arrival_frame) in
      let wanted = (s.base_frames + jitter.headroom estimate) % 2 ^ 32 in
      record s {
        jitter_est_us = estimate;
        target_frames = clamp wanted min_target_frames max_target_frames;
      }

  pub update_jitter : ℕ → ℕ → UserAudioState D J → UserAudioState D J
  unfolding retarget
  update_jitter frame now s =
      let aimed =
        if s.have_arrival && ltb s.last_arrival_frame frame then retarget frame now s else s in
      record aimed { last_arrival = now; last_arrival_frame = frame; have_arrival = true }

  pub insert_packet_at : ℕ → ℕ → List ℕ → ℕ → UserAudioState D J → UserAudioState D J
  unfolding update_jitter admit
  insert_packet_at sequence timestamp_us opus_data arrival s =
      let frame = timestamp_us / frame_us in
      let counted = record s {
        packets_received = (s.packets_received + 1) % 2 ^ 32;
        bytes_received = (s.bytes_received + length opus_data) % 2 ^ 64;
      } in
      admit frame (record { seq = sequence; opus = opus_data })
        (update_jitter frame arrival counted)
