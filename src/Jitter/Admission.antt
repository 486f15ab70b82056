-- ===== src/Jitter/Admission.antt =====
-- Every packet and end-of-stream marker keeps the jitter buffer of
-- crates/rumble-client/src/audio_task.rs valid.
use rumble.Prelude.{
  ℕ, suc, ◌+◌, ◌/◌, ◌^◌, ◌%◌, ◌≤◌, ◌≡◌, refl, ap, ◌∙◌, ◌⊎◌, true, ◌&&◌, List, [], ◌∷◌, length, ltb,
  leb, arith, Bool-cases, inl, inr, elem, nat_keys, drop, length-append, length-drop,
}
use rumble.Jitter.{
  UserAudioState, BufferedPacket, JitterEstimate, count_on, resync, admit, accept,
  mark_end_of_stream, update_jitter, insert_packet_at, new_state, frame_us,
}
use rumble.Jitter.Arrival.{IsValid, within_target, accept-IsValid}

module _ {D J : Type 0} where
  accept-resync-IsValid :
      (frame : ℕ) (x : BufferedPacket) (s : UserAudioState D J)
      → (2 ≤ s.target_frames) × (s.target_frames ≤ 12)
      → IsValid (accept frame x (resync frame s))
        × (within_target (accept frame x (resync frame s)) ≡ true)
        × ((accept frame x (resync frame s)).consecutive_late ≡ 0)
  unfolding resync
  accept-resync-IsValid frame x s t =
      accept-IsValid frame x (resync frame s) ((refl, refl, refl)) t (omega arith) refl

  pub mark_end_of_stream-IsValid :
      (sequence : ℕ) (s : UserAudioState D J) → IsValid s → IsValid (mark_end_of_stream sequence s)
  unfolding mark_end_of_stream
  mark_end_of_stream-IsValid sequence s v = elim (Bool-cases (elem sequence s.pending_eos_seqs)) [
    | inl old ↦ rw old (record {
      placed = v.placed;
      few = v.few;
      target = v.target;
      markers = v.markers;
      late = v.late;
    })
    | inr new ↦ rw new (record {
      placed = v.placed;
      few = v.few;
      target = v.target;
      late = v.late;
      markers = ground (
        arith,
        length-append s.pending_eos_seqs (sequence ∷ []),
        length-append (drop 1 s.pending_eos_seqs) (sequence ∷ []),
        length-drop 1 s.pending_eos_seqs,
      );
    })
  ]

  -- What a packet comes to: a late one is only counted; any other is accepted.
  abbrev pub Admitted : UserAudioState D J → UserAudioState D J → Type 0
  Admitted s t =
      ((t.jitter_buffer ≡ s.jitter_buffer)
        × (t.next_play_frame ≡ s.next_play_frame)
        × (t.consecutive_late ≡ suc s.consecutive_late))
      ⊎ ((within_target t ≡ true) × (t.consecutive_late ≡ 0))

  admit-IsValid :
      (frame : ℕ) (x : BufferedPacket) (s : UserAudioState D J)
      → IsValid s
      → IsValid (admit frame x s) × Admitted s (admit frame x s)
  unfolding admit
  admit-IsValid frame x s v = elim (Bool-cases (s.started && ltb (frame + 100) s.next_play_frame)) [
    | inl restart ↦
        let a = accept-resync-IsValid frame x s v.target in rw restart (a.0, inr (a.1, a.2))
    | inr near ↦ elim (Bool-cases (s.started && ltb frame s.next_play_frame)) [
      | inr ahead ↦
          let a = accept-IsValid frame x s v.placed v.target v.markers (ground arith) in
          rw (near, ahead) (a.0, inr (a.1, a.2))
      | inl behind ↦ elim (Bool-cases (leb (count_on s.consecutive_late) 10)) [
        | inl few ↦
            rw (near, behind, few)
              (
                record {
                  placed = v.placed;
                  few = v.few;
                  target = v.target;
                  markers = v.markers;
                  late = ground arith;
                },
                inl (refl, refl, ground arith),
              )
        | inr run ↦
            let a =
              accept-resync-IsValid frame x
                (record s { consecutive_late = count_on s.consecutive_late }) v.target in
            rw (near, behind, run) (a.0, inr (a.1, a.2))
      ]
    ]
  ]

  update_jitter-IsValid :
      (jitter : JitterEstimate J) (frame now : ℕ) (s : UserAudioState D J)
      → IsValid s
      → IsValid (update_jitter jitter frame now s)
  unfolding update_jitter
  update_jitter-IsValid jitter frame now s v =
      elim (Bool-cases (s.have_arrival && ltb s.last_arrival_frame frame)) [
        | inl on ↦ rw on (record {
          placed = v.placed;
          few = v.few;
          target = ground arith;
          markers = v.markers;
          late = v.late;
        })
        | inr off ↦ rw off (record {
          placed = v.placed;
          few = v.few;
          target = v.target;
          markers = v.markers;
          late = v.late;
        })
      ]

  Admitted-same :
      (s u t : UserAudioState D J)
      → u.jitter_buffer ≡ s.jitter_buffer
      → u.next_play_frame ≡ s.next_play_frame
      → u.consecutive_late ≡ s.consecutive_late
      → Admitted u t
      → Admitted s t
  Admitted-same s u t b c l (inl (x, y, z)) = inl (x ∙ b, y ∙ c, z ∙ ap suc l)
  Admitted-same s u t b c l (inr r) = inr r

  pub update_jitter-only :
      (jitter : JitterEstimate J) (frame now : ℕ) (s : UserAudioState D J)
      → ((update_jitter jitter frame now s).jitter_buffer ≡ s.jitter_buffer)
        × ((update_jitter jitter frame now s).next_play_frame ≡ s.next_play_frame)
        × ((update_jitter jitter frame now s).consecutive_late ≡ s.consecutive_late)
        × ((update_jitter jitter frame now s).started ≡ s.started)
  unfolding update_jitter
  update_jitter-only jitter frame now s =
      elim (Bool-cases (s.have_arrival && ltb s.last_arrival_frame frame)) [
        | inl on ↦ rw on (refl, refl, refl, refl)
        | inr off ↦ rw off (refl, refl, refl, refl)
      ]

-- A packet keeps a valid buffer valid. Either it is late: it leaves the frames and the cursor and
-- lengthens the run of late packets. Or it is accepted: it ends the run, and a stream that plays
-- then holds at most four frames more than its target.
pub insert_packet_at_bounds :
    {D J : Type 0} (jitter : JitterEstimate J) (sequence timestamp_us : ℕ) (opus : List ℕ)
    (arrival : ℕ) (s : UserAudioState D J)
    → IsValid s
    → IsValid (insert_packet_at jitter sequence timestamp_us opus arrival s)
      × Admitted s (insert_packet_at jitter sequence timestamp_us opus arrival s)
unfolding insert_packet_at
insert_packet_at_bounds jitter sequence timestamp_us opus arrival s v =
    let frame = timestamp_us / frame_us in
    let counted = record s {
      packets_received = (s.packets_received + 1) % 2 ^ 32;
      bytes_received = (s.bytes_received + length opus) % 2 ^ 64;
    } in
    let u = update_jitter jitter frame arrival counted in
    let valid = update_jitter-IsValid jitter frame arrival counted (record {
      placed = v.placed;
      few = v.few;
      target = v.target;
      markers = v.markers;
      late = v.late;
    }) in
    let (buffer, cursor, late, _) = update_jitter-only jitter frame arrival counted in
    let (after, outcome) = admit-IsValid frame (record { seq = sequence; opus = opus }) u valid in
    (
      after,
      Admitted-same counted u (admit frame (record { seq = sequence; opus = opus }) u) buffer cursor
          late outcome,
    )

pub new_state-IsValid :
    {D J : Type 0} (jitter : JitterEstimate J) (decoder : D) (base_delay now : ℕ)
    → IsValid (new_state jitter decoder base_delay now)
unfolding new_state
new_state-IsValid jitter decoder base_delay now = record {
  placed = (refl, refl, refl);
  few = omega arith;
  target = ground arith;
  markers = omega arith;
  late = omega arith;
}
