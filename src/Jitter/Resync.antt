-- ===== src/Jitter/Resync.antt =====
-- How the jitter buffer of crates/rumble-client/src/audio_task.rs recovers when the sender's clock
-- falls a little behind the cursor.

use rumble.Prelude.{
  ℕ, suc, ◌+◌, ◌/◌, ◌%◌, ◌^◌, ◌≤◌, ◌<◌, ◌≡◌, refl, ap, ◌∙◌, Bool, true, false, ◌&&◌, List, [], ◌∷◌,
  length, ltb, leb, arith, foldl,
}
use rumble.Prelude.Predicates.{every}
use rumble.Jitter.{
  UserAudioState, BufferedPacket, JitterEstimate, frame_us, count_on, admit, accept, resync,
  reanchor, buffer_packet, follow_first, trim, too_deep, depth, max_depth, update_jitter,
  insert_packet_at,
}
use rumble.Jitter.Admission.{update_jitter-only}

-- A voice datagram and when it arrives.
pub record Arrival : Type 0 where
  pub sequence : ℕ
  pub timestamp_us : ℕ
  pub opus : List ℕ
  pub instant : ℕ

abbrev pub frame_of : Arrival → ℕ
frame_of p = p.timestamp_us / frame_us

-- Behind the cursor, and not so far as a restart.
abbrev pub slightly_behind : ℕ → Arrival → Bool
slightly_behind cursor p = ltb (frame_of p) cursor && leb cursor (frame_of p + 100)

module _ {D J : Type 0} where
  abbrev Waits : UserAudioState D J → UserAudioState D J → Type 0
  Waits s t =
      (t.jitter_buffer ≡ s.jitter_buffer)
      × (t.next_play_frame ≡ s.next_play_frame)
      × (t.started ≡ true)

  admit_late :
      (frame : ℕ) (x : BufferedPacket) (s : UserAudioState D J)
      → s.started ≡ true
      → (ltb frame s.next_play_frame && leb s.next_play_frame (frame + 100)) ≡ true
      → s.consecutive_late < 10
      → Waits s (admit frame x s) × ((admit frame x s).consecutive_late ≡ suc s.consecutive_late)
  unfolding admit
  admit_late frame x s on behind few =
      let near : (s.started && ltb (frame + 100) s.next_play_frame) ≡ false = ground arith in
      let low : (s.started && ltb frame s.next_play_frame) ≡ true = ground arith in
      let short : leb (count_on s.consecutive_late) 10 ≡ true = ground arith in
      rw (near, low, short) ((refl, refl, on), ground arith)

  -- The state right after a packet from which the stream starts afresh.
  abbrev pub Afresh : ℕ → BufferedPacket → UserAudioState D J → Type 0
  Afresh frame x t =
      (t.jitter_buffer ≡ (frame, x) ∷ [])
      × (t.next_play_frame ≡ frame)
      × (t.started ≡ false)
      × (t.consecutive_late ≡ 0)

  trim_fits :
      (fuel deep : ℕ) (s : UserAudioState D J)
      → too_deep deep s ≡ false
      → trim (suc fuel) deep s ≡ s
  unfolding trim
  trim_fits fuel deep s h = rw (trim, h)

  accept-resync :
      (frame : ℕ) (x : BufferedPacket) (s : UserAudioState D J)
      → Afresh frame x (accept frame x (resync frame s))
  unfolding accept resync buffer_packet follow_first reanchor trim too_deep depth max_depth
  accept-resync frame x s =
      let spurt = follow_first (buffer_packet frame x (resync frame s)) in
      let fits : too_deep 20 spurt ≡ false = ground arith in
      let same : accept frame x (resync frame s) ≡ spurt = trim_fits 0 20 spurt fits in
      rw same (refl, refl, refl, refl)

  admit_resync :
      (frame : ℕ) (x : BufferedPacket) (s : UserAudioState D J)
      → s.started ≡ true
      → (ltb frame s.next_play_frame && leb s.next_play_frame (frame + 100)) ≡ true
      → s.consecutive_late ≡ 10
      → Afresh frame x (admit frame x s)
  unfolding admit
  admit_resync frame x s on behind run =
      let near : (s.started && ltb (frame + 100) s.next_play_frame) ≡ false = ground arith in
      let low : (s.started && ltb frame s.next_play_frame) ≡ true = ground arith in
      let long : leb (count_on s.consecutive_late) 10 ≡ false = ground arith in
      rw (near, low, long)
        (accept-resync frame x (record s { consecutive_late = count_on s.consecutive_late }))

module _ {D J : Type 0} (jitter : JitterEstimate J) where
  abbrev pub receive : UserAudioState D J → Arrival → UserAudioState D J
  receive s p = insert_packet_at jitter p.sequence p.timestamp_us p.opus p.instant s

  receive_late :
      (p : Arrival) (s : UserAudioState D J)
      → s.started ≡ true
      → slightly_behind s.next_play_frame p ≡ true
      → s.consecutive_late < 10
      → Waits s (receive s p) × ((receive s p).consecutive_late ≡ suc s.consecutive_late)
  unfolding insert_packet_at
  receive_late p s on behind few =
      let x : BufferedPacket = record { seq = p.sequence; opus = p.opus } in
      let counted = record s {
        packets_received = (s.packets_received + 1) % 2 ^ 32;
        bytes_received = (s.bytes_received + length p.opus) % 2 ^ 64;
      } in
      let u = update_jitter jitter (frame_of p) p.instant counted in
      let (buffer, cursor, late, begun) =
        update_jitter-only jitter (frame_of p) p.instant counted in
      let ((b, c, o), l) =
        admit_late (frame_of p) x u (begun ∙ on) (rw cursor behind) (rw late few) in
      ((b ∙ buffer, c ∙ cursor, o), l ∙ ap suc late)

  receive_resync :
      (p : Arrival) (s : UserAudioState D J)
      → s.started ≡ true
      → slightly_behind s.next_play_frame p ≡ true
      → s.consecutive_late ≡ 10
      → Afresh (frame_of p) (record { seq = p.sequence; opus = p.opus }) (receive s p)
  unfolding insert_packet_at
  receive_resync p s on behind run =
      let x : BufferedPacket = record { seq = p.sequence; opus = p.opus } in
      let counted = record s {
        packets_received = (s.packets_received + 1) % 2 ^ 32;
        bytes_received = (s.bytes_received + length p.opus) % 2 ^ 64;
      } in
      let u = update_jitter jitter (frame_of p) p.instant counted in
      let (buffer, cursor, late, begun) =
        update_jitter-only jitter (frame_of p) p.instant counted in
      admit_resync (frame_of p) x u (begun ∙ on) (rw cursor behind) (late ∙ run)

  late_run :
      (ps : List Arrival) (s : UserAudioState D J)
      → s.started ≡ true
      → every (slightly_behind s.next_play_frame) ps ≡ true
      → length ps + s.consecutive_late ≤ 10
      → Waits s (foldl receive s ps)
        × ((foldl receive s ps).consecutive_late ≡ length ps + s.consecutive_late)
  late_run [] s on behind few = ((refl, refl, on), omega arith)
  late_run (p ∷ ps) s on behind few =
      let ((b, c, o), l) = receive_late p s on (ground arith) (omega arith) in
      let ((b', c', o'), l') =
        late_run ps (receive s p) o (rw c (ground arith)) (omega (arith, l)) in
      ((b' ∙ b, c' ∙ c, o'), omega (arith, l, l'))

  -- Packets slightly behind the cursor of a stream that plays are dropped, and leave the frames and
  -- the cursor, until the run of late packets is ten; the next one starts the stream afresh from it.
  pub late_run-resync :
      (ps : List Arrival) (p : Arrival) (s : UserAudioState D J)
      → s.started ≡ true
      → every (slightly_behind s.next_play_frame) (p ∷ ps) ≡ true
      → length ps + s.consecutive_late ≡ 10
      → ((foldl receive s ps).jitter_buffer ≡ s.jitter_buffer)
        × ((foldl receive s ps).next_play_frame ≡ s.next_play_frame)
        × Afresh
            (frame_of p)
            (record { seq = p.sequence; opus = p.opus })
            (receive (foldl receive s ps) p)
  late_run-resync ps p s on behind run =
      let ((b, c, o), l) = late_run ps s on (ground arith) (omega arith) in
      (b, c, receive_resync p (foldl receive s ps) o (rw c (ground arith)) (omega (arith, l)))
