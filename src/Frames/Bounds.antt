-- ===== src/Frames/Bounds.antt =====
-- The loop over the frames in a buffer ends for any bytes, and the buffer of
-- `run_envelope_stream_with_prefix` in crates/server/src/server.rs is capped.
use rumble.Prelude.{
  ℕ, zero, suc, ◌+◌, ◌%◌, ◌^◌, ◌<◌, ◌≤◌, ◌≡◌, refl, ap, Bool, true, false, ◌||◌, ◌⊎◌, none, some,
  List, [], ◌∷◌, ◌++◌, length, ltb, leb, if◌then◌else◌, arith, length-drop, length-append,
  Bool-cases, Option-cases, inl, inr,
}
use rumble.Prelude.Predicates.{every}
use rumble.Frames.{
  Delimiter, Decoded, wait, frame, panics, Drained, Reading, ReadResult, bytes, stream_closed,
  read_failed, timed_out, oversized, try_decode_frame, split_to, max_frame_len, drain,
  process_frames, read_step, read_loop, run_envelope_stream_with_prefix,
}

-- Nothing more can be taken.
abbrev pub is_spent : Decoded → Bool
is_spent wait = true
is_spent (frame f rest) = false
is_spent panics = false

-- What a read of a frame leaves is shorter.
abbrev shrinks : ℕ → Decoded → Bool
shrinks n (frame f rest) = ltb (length rest) n
shrinks n _ = true

Decoded-cases :
    (x : Decoded)
    → (x ≡ wait) ⊎ ((x ≡ panics) ⊎ ((f : List ℕ) × (rest : List ℕ) × (x ≡ frame f rest)))
Decoded-cases wait = inl refl
Decoded-cases panics = inr (inl refl)
Decoded-cases (frame f rest) = inr (inr (f, rest, refl))

module _ ⦃D : Delimiter⦄ where
  split_to-shrinks :
      (n len need : ℕ) (after : List ℕ)
      → length after < n
      → shrinks n (if ltb n need then wait else split_to len after) ≡ true
  split_to-shrinks n len need after less = elim (Bool-cases (ltb n need)) [
    | inl more ↦ rw more refl
    | inr enough ↦ rw enough (elim (Bool-cases (leb len (length after))) [
      | inl within ↦ rw within (ground (arith, length-drop len after))
      | inr beyond ↦ rw beyond refl
    ])
  ]

  try_decode_frame-shrinks : (buf : List ℕ) → shrinks (length buf) (try_decode_frame buf) ≡ true
  unfolding try_decode_frame
  try_decode_frame-shrinks buf = elim (Option-cases (D.decode_length_delimiter buf)) [
    | inl e ↦ rw (try_decode_frame, e) refl
    | inr ((len, after), e) ↦
        let less : length after < length buf = D.advances buf after len e in
        rw (try_decode_frame, e)
          (split_to-shrinks (length buf) len ((D.length_delimiter_len len + len) % 2 ^ 64) after
            less)
  ]

  -- For any buffer the loop over its frames ends: it panics, or it stops where no whole frame is left
  -- in what remains, which is no longer than the buffer was.
  pub drain_ends :
      (fuel : ℕ) (buf : List ℕ)
      → length buf < fuel
      → (d : Drained) × (drain fuel buf ≡ some d)
        × ((d.panicked || is_spent (try_decode_frame d.rest)) ≡ true)
        × (length d.rest ≤ length buf)
  unfolding drain
  drain_ends zero buf h = absurd (omega arith)
  drain_ends (suc fuel) buf h = elim (Decoded-cases (try_decode_frame buf)) [
    | inl e ↦ (
      record { frames = []; rest = buf; panicked = false },
      rw (drain, e) refl,
      rw e refl,
      omega arith,
    )
    | inr (inl e) ↦
        (record { frames = []; rest = buf; panicked = true }, rw (drain, e) refl, refl, omega arith)
    | inr (inr (f, rest, e)) ↦
        let less : length rest < length buf =
          ground (arith, ap (shrinks (length buf)) e, try_decode_frame-shrinks buf) in
        let (d, runs, spent, short) = drain_ends fuel rest (omega arith) in
        (record d { frames = f ∷ d.frames }, rw (drain, e, runs) refl, spent, omega arith)
  ]

  process_frames-shrinks : (s : Reading) → length (process_frames s).buf ≤ length s.buf
  unfolding process_frames
  process_frames-shrinks s =
      let (d, runs, spent, short) = drain_ends (suc (length s.buf)) s.buf (omega arith) in
      rw (process_frames, runs) short

  abbrev pub is_brief : ReadResult → Bool
  is_brief (bytes chunk) = leb (length chunk) 1024
  is_brief _ = true

  -- No more than the cap is kept, or the stream was closed by the read that went over it.
  abbrev pub IsCapped : Reading → Type 0
  IsCapped s =
      (length s.buf ≤ max_frame_len)
      ⊎ ((s.ending ≡ some oversized) × (length s.buf ≤ max_frame_len + 1024))

  read_step-IsCapped :
      (r : ReadResult) (s : Reading)
      → is_brief r ≡ true
      → length s.buf ≤ max_frame_len
      → IsCapped (read_step r s)
  unfolding read_step
  read_step-IsCapped (bytes chunk) s brief h =
      elim (Bool-cases (ltb max_frame_len (length (s.buf ++ chunk)))) [
        | inl over ↦ rw over (inr (refl, ground (arith, length-append s.buf chunk)))
        | inr under ↦
            let t = record s { buf = s.buf ++ chunk } in
            rw under (inl (ground (arith, process_frames-shrinks t)))
      ]
  read_step-IsCapped (timed_out true) s brief h = inl h
  read_step-IsCapped (timed_out false) s brief h = inl h
  read_step-IsCapped stream_closed s brief h = inl h
  read_step-IsCapped read_failed s brief h = inl h

  read_loop-IsCapped :
      (reads : List ReadResult) (s : Reading)
      → every is_brief reads ≡ true
      → IsCapped s
      → IsCapped (read_loop reads s)
  unfolding read_loop
  read_loop-IsCapped [] s brief h = h
  read_loop-IsCapped (r ∷ reads) s brief h = elim (Option-cases s.ending) [
    | inr (e, ended) ↦ rw (read_loop, ended) h
    | inl running ↦ elim h [
      | inl small ↦
          rw (read_loop, running)
            (read_loop-IsCapped reads (read_step r s) (ground arith)
              (read_step-IsCapped r s (ground arith) small))
      | inr (over, big) ↦ absurd cc
    ]
  ]

  -- Whatever bytes a peer sends, the server keeps at most `max_frame_len` of them, or it has closed
  -- the stream as oversized when a read of up to 1024 bytes went over that; the bytes that it was
  -- handed with the connection are no more than the cap.
  pub run_envelope_stream_with_prefix-IsCapped :
      (initial_buf : List ℕ) (reads : List ReadResult)
      → every is_brief reads ≡ true
      → length initial_buf ≤ max_frame_len
      → IsCapped (run_envelope_stream_with_prefix initial_buf reads)
  unfolding run_envelope_stream_with_prefix
  run_envelope_stream_with_prefix-IsCapped initial_buf reads brief h =
      let s : Reading = record { buf = initial_buf; handled = []; ending = none } in
      read_loop-IsCapped reads (process_frames s) brief
        (inl (omega (arith, process_frames-shrinks s)))
