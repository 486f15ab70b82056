-- ===== src/Jitter/Playout.antt =====
-- Playout of the jitter buffer in crates/rumble-client/src/audio_task.rs: `decode_next_into`, which
-- plays, conceals or skips the frame at the cursor. What the decoder writes is of any type, `none`
-- for an error.
pub mod Valid
pub mod Onward
pub mod Gap
mod Tests
use rumble.Prelude.OrderedMap
use rumble.Prelude.{
  ℕ, suc, ◌+◌, ◌-◌, ◌*◌, ◌/◌, ◌%◌, ◌^◌, Bool, true, false, not, ◌&&◌, ◌||◌, Option, none, some,
  List, [], ◌∷◌, ltb, leb, ◌==◌, if◌then◌else◌, length, retain, find,
}
use rumble.Jitter.{UserAudioState, BufferedPacket, reanchor, ready_to_play}

-- The voice codec of a platform, with the decoder's state.
pub record VoiceDecoder (D A : Type 0) : Type 0 where
  pub decode : D → List ℕ → D × Option A
  pub decode_fec : D → List ℕ → D × Option A
  pub decode_plc : D → D × Option A

abbrev pub stream_stale_threshold : ℕ
stream_stale_threshold = 200000000

abbrev pub wrapping_sub : ℕ → ℕ → ℕ
wrapping_sub a b = (a + 2 ^ 32 - b) % 2 ^ 32

abbrev pub is_empty : List (ℕ × BufferedPacket) → Bool
is_empty [] = true
is_empty (e ∷ m) = false

-- The markers still ahead of a sequence number.
pub markers_ahead : ℕ → List ℕ → List ℕ
markers_ahead played =
    retain (λ s. let d = wrapping_sub s played in not (d == 0) && ltb d ((2 ^ 32 - 1) / 2))

module _ {D J : Type 0} where
  pub stale : ℕ → UserAudioState D J → Bool
  stale now s = s.have_arrival && ltb stream_stale_threshold (now - s.last_arrival)

  pub is_stream_live : ℕ → UserAudioState D J → Bool
  unfolding stale
  is_stream_live now s =
      if not s.stream_ended && not (stale now s)
      then true
      else ready_to_play s && not (is_empty s.jitter_buffer)

  -- The stale-stream guard.
  pub expire : ℕ → UserAudioState D J → UserAudioState D J
  unfolding stale
  expire now s = if not s.stream_ended && stale now s then record s { stream_ended = true } else s

  -- The sequence numbers between the last frame played and the next one buffered, less those of
  -- end-of-stream markers.
  pub sent_span : ℕ → UserAudioState D J → ℕ
  sent_span next_seq s =
      let seq_span = wrapping_sub next_seq s.last_played_seq in
      let eos_in_span = length (
        retain (λ m. let d = wrapping_sub m s.last_played_seq in ltb 0 d && ltb d seq_span)
          s.pending_eos_seqs) in
      seq_span - eos_in_span

  -- Whether the sender was silent before the next buffered frame.
  pub silent_gap : ℕ → ℕ → UserAudioState D J → Bool
  unfolding sent_span
  silent_gap next_frame next_seq s =
      s.started && ltb (sent_span next_seq s) (next_frame - s.last_played_frame)

  -- The bookkeeping of a frame that is played.
  pub advance_played : ℕ → UserAudioState D J → UserAudioState D J
  unfolding markers_ahead
  advance_played seq s = record s {
    jitter_buffer = OrderedMap.remove s.next_play_frame s.jitter_buffer;
    started = true;
    last_played_seq = seq;
    last_played_frame = s.next_play_frame;
    next_play_frame = s.next_play_frame + 1;
    pending_eos_seqs = markers_ahead seq s.pending_eos_seqs;
  }

  pub skip : UserAudioState D J → UserAudioState D J
  skip s = record s { next_play_frame = s.next_play_frame + 1 }

  pub lose : UserAudioState D J → UserAudioState D J
  lose s = record s {
    packets_lost = (s.packets_lost + 1) % 2 ^ 64;
    next_play_frame = s.next_play_frame + 1;
  }

  -- The next buffered frame, if it directly follows the one at the cursor.
  pub successor : ℕ → UserAudioState D J → Option (ℕ × BufferedPacket)
  successor next_frame s =
      if next_frame == s.next_play_frame + 1
      then OrderedMap.get next_frame s.jitter_buffer
      else none

module _ {D J A : Type 0} (voice : VoiceDecoder D A) where
  -- The discarded frame at the onset of a spurt.
  pub prime : UserAudioState D J → UserAudioState D J
  prime s =
      if s.needs_prime
      then record s { needs_prime = false; decoder = (voice.decode_plc s.decoder).0 }
      else s

  pub conceal : UserAudioState D J → UserAudioState D J × Option A
  conceal s =
      let (d, out) = voice.decode_plc s.decoder in
      (record s { decoder = d; frames_concealed = (s.frames_concealed + 1) % 2 ^ 64 }, out)

  pub decode_packet : List ℕ → UserAudioState D J → UserAudioState D J × Option A
  unfolding conceal
  decode_packet opus s =
      let (d, out) = voice.decode s.decoder opus in
      let s' = record s { decoder = d } in elim out [ some a ↦ (s', some a) | none ↦ conceal s' ]

  pub recover : List ℕ → UserAudioState D J → UserAudioState D J × Option A
  unfolding conceal
  recover opus s =
      let (d, out) = voice.decode_fec s.decoder opus in
      let s' = record s { decoder = d } in
      elim out [
        | some a ↦
            (record s' { packets_recovered_fec = (s.packets_recovered_fec + 1) % 2 ^ 64 }, some a)
        | none ↦ conceal s'
      ]

  -- A lost frame: the next one repairs it, if it is the next in time.
  pub repair : ℕ → UserAudioState D J → UserAudioState D J × Option A
  unfolding recover conceal lose successor
  repair next_frame s = elim (successor next_frame s) [
    | some e ↦ recover e.1.opus (lose s)
    | none ↦ conceal (lose s)
  ]

  pub fill_gap : UserAudioState D J → UserAudioState D J × Option A
  unfolding silent_gap repair conceal skip
  fill_gap s =
      elim (OrderedMap.first (OrderedMap.range_from (s.next_play_frame + 1) s.jitter_buffer)) [
        | none ↦ if s.stream_ended then (s, none) else conceal (skip s)
        | some next ↦
            if silent_gap next.0 next.1.seq s then (reanchor next.0 s, none) else repair next.0 s
      ]

  pub play_cursor : UserAudioState D J → UserAudioState D J × Option A
  unfolding fill_gap decode_packet advance_played
  play_cursor s = elim (OrderedMap.get s.next_play_frame s.jitter_buffer) [
    | some e ↦ decode_packet e.1.opus (advance_played e.1.seq s)
    | none ↦ fill_gap s
  ]

  pub decode_next_into : ℕ → UserAudioState D J → UserAudioState D J × Option A
  unfolding expire prime play_cursor
  decode_next_into now s =
      let t = expire now s in
      if not (ready_to_play s)
      then (s, none)
      else if t.stream_ended && is_empty t.jitter_buffer
      then (t, none)
      else play_cursor (prime t)
