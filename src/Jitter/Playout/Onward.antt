-- ===== src/Jitter/Playout/Onward.antt =====
-- The cursor of the jitter buffer in crates/rumble-client/src/audio_task.rs only moves on with the
-- ticks of playout.
use rumble.Prelude.OrderedMap
use rumble.Prelude.OrderedMap.{
  ascending, ascending_mono, remove_absent, get_ascending, get_absent, range_from_all,
}
use rumble.Prelude.{
  ℕ, ◌+◌, ◌≤◌, ◌≡◌, refl, ap, ◌∙◌, Bool, true, false, not, ◌||◌, ◌&&◌, none, Option, List, [], ◌∷◌,
  length, if◌then◌else◌, arith, Bool-cases, Option-cases, inl, inr,
}
use rumble.Jitter.{UserAudioState, BufferedPacket, ready_to_play, reanchor}
use rumble.Jitter.Valid.{starts_at, depth-IsPlaced}
use rumble.Jitter.Arrival.{IsValid}
use rumble.Jitter.Playout.{
  VoiceDecoder, expire, prime, conceal, repair, fill_gap, play_cursor, lose, skip, silent_gap,
  advance_played, decode_next_into, is_empty,
}
use rumble.Jitter.Playout.Valid.{
  Onward, Onward-core, IsValid-core, expire-core, prime-core, decode_packet-core, repair-core,
  lose-IsValid, advance_played-IsValid, first_from, ascending_absent, begun_or_here,
}

is_empty-length : (m : List (ℕ × BufferedPacket)) → is_empty m ≡ true → length m ≡ 0
is_empty-length [] h = refl
is_empty-length (e ∷ m) h = cc

module _ {D J A : Type 0} (voice : VoiceDecoder D A) where
  Onward-if :
      (s : UserAudioState D J) (b : Bool) (x y : UserAudioState D J × Option A)
      → Onward s x.0
      → Onward s y.0
      → Onward s (if b then x else y).0
  Onward-if s true x y f g = f
  Onward-if s false x y f g = g

  reanchor-Onward :
      (f : ℕ) (s : UserAudioState D J)
      → IsValid s
      → (s.next_play_frame + 1 ≤ f)
        × (ascending f s.jitter_buffer ≡ true)
        × (starts_at f s.jitter_buffer ≡ true)
      → Onward s (reanchor f s)
  unfolding reanchor
  reanchor-Onward f s v h = (
    record {
      placed = (h.1, h.2, refl);
      few = v.few;
      target = v.target;
      markers = omega arith;
      late = v.late;
    },
    omega arith,
  )

  fill_gap-Onward :
      (s : UserAudioState D J)
      → IsValid s
      → s.started ≡ true
      → OrderedMap.get s.next_play_frame s.jitter_buffer ≡ none
      → Onward s (fill_gap voice s).0
  unfolding fill_gap lose skip conceal
  fill_gap-Onward s v on h =
      let above = ascending_absent s.next_play_frame s.jitter_buffer v.placed.0 h in
      let lost = lose-IsValid s v on h in
      let next = OrderedMap.first (OrderedMap.range_from (s.next_play_frame + 1) s.jitter_buffer) in
      elim (Option-cases next) [
        | inl e ↦
            rw (fill_gap, e)
              (Onward-if s s.stream_ended _ _ (v, omega arith)
                (Onward-core s (lose s) (conceal voice (skip s)).0 refl (lost, omega arith)))
        | inr (f, e) ↦
            rw (fill_gap, e)
              (Onward-if s (silent_gap f.0 f.1.seq s) _ _
                (reanchor-Onward f.0 s v
                  (first_from (s.next_play_frame + 1) f s.jitter_buffer (ground arith) e))
                (Onward-core s (lose s) (repair voice f.0 s).0 (repair-core voice f.0 s)
                  (lost, omega arith)))
      ]

  play_cursor-Onward :
      (s : UserAudioState D J)
      → IsValid s
      → (s.started || not (is_empty s.jitter_buffer)) ≡ true
      → Onward s (play_cursor voice s).0
  unfolding play_cursor
  play_cursor-Onward s v r =
      elim (Option-cases (OrderedMap.get s.next_play_frame s.jitter_buffer)) [
        | inl e ↦
            let on = begun_or_here s.next_play_frame s.started s.jitter_buffer r v.placed.1 e in
            rw (play_cursor, e) (fill_gap-Onward s v on e)
        | inr (f, e) ↦
            rw (play_cursor, e)
              (Onward-core s (advance_played f.1.seq s) _
                (decode_packet-core voice f.1.opus (advance_played f.1.seq s))
                (advance_played-IsValid f.1.seq s v, omega arith))
      ]

  ready-IsValid :
      (s : UserAudioState D J)
      → IsValid s
      → ready_to_play s ≡ true
      → (s.started || not (is_empty s.jitter_buffer)) ≡ true
  unfolding ready_to_play
  ready-IsValid s v r = elim (Bool-cases (is_empty s.jitter_buffer)) [
    | inl e ↦ ground (arith, depth-IsPlaced s v.placed, is_empty-length s.jitter_buffer)
    | inr e ↦ ground arith
  ]

  -- On a valid buffer a tick of playout keeps it valid and does not move the cursor back.
  pub decode_next_into-Onward :
      (now : ℕ) (s : UserAudioState D J) → IsValid s → Onward s (decode_next_into voice now s).0
  unfolding decode_next_into
  decode_next_into-Onward now s v =
      let e = expire now s in
      let t = prime voice e in
      let expired = expire-core now s in
      let primed = prime-core voice e ∙ expired in
      elim (Bool-cases (ready_to_play s)) [
        | inr waiting ↦ rw (decode_next_into, waiting) (v, omega arith)
        | inl ready ↦
            let on : (t.started || not (is_empty t.jitter_buffer)) ≡ true =
              rw (ap (λ c. c.2) primed, ap (λ c. c.0) primed) (ready-IsValid s v ready) in
            let (after, moved) = play_cursor-Onward t (IsValid-core s t primed v) on in
            rw (decode_next_into, ready)
              (Onward-if s (e.stream_ended && is_empty e.jitter_buffer) (e, none)
                (play_cursor voice t) (Onward-core s s e expired (v, omega arith))
                (after, omega (arith, ap (λ c. c.1) primed)))
      ]
