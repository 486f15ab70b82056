-- ===== src/Frames/Loop.antt =====
-- The read loop of `run_envelope_stream_with_prefix` in crates/server/src/server.rs: it ends, and it
-- hands on the frames that the peer wrote.
use rumble.Prelude.{
  ℕ, zero, suc, ◌+◌, ◌^◌, ◌<◌, ◌≤◌, ◌≡◌, refl, sym, ap, ◌∙◌, Bool, true, false, none, some, List,
  [], ◌∷◌, ◌++◌, length, ltb, leb, arith, length-append, Bool-cases, inl, inr,
}
use rumble.Prelude.Predicates.{every, every-append}
use mathlib.Core.List.{append_assoc, append-nil}
use rumble.Frames.{
  Delimiter, wait, Drained, ReadResult, bytes, stream_closed, read_failed, timed_out,
  encode_frame_raw, try_decode_frame, max_frame_len, drain, process_frames, read_step, read_loop,
  run_envelope_stream_with_prefix,
}
use rumble.Frames.Prefix.{
  append_split, try_decode_frame_waits, try_decode_frame_gives, length-encode_frame_raw,
}

module _ ⦃D : Delimiter⦄ where
  -- What a writer of frames puts on the wire.
  abbrev pub stream : List (List ℕ) → List ℕ
  stream [] = []
  stream (f ∷ fs) = encode_frame_raw f ++ stream fs

  abbrev pub is_small : List ℕ → Bool
  is_small f = leb (length (encode_frame_raw f) + 1023) max_frame_len

  -- Nothing is left to hand on.
  abbrev IsWaiting : List ℕ → List (List ℕ) → Type 0
  IsWaiting buf [] = buf ≡ []
  IsWaiting buf (f ∷ fs) = length buf < length (encode_frame_raw f)

  record Caught (fuel : ℕ) (buf more : List ℕ) (fs : List (List ℕ)) : Type 0 where
    done : List (List ℕ)
    left : List (List ℕ)
    over : List ℕ
    drained : drain fuel buf ≡ some (record { frames = done; rest = over; panicked = false })
    parts : fs ≡ done ++ left
    onward : over ++ more ≡ stream left
    waits : IsWaiting over left

  delimiter_takes : (n : ℕ) → n < 2 ^ 64 → 0 < length (D.encode_length_delimiter n)
  delimiter_takes n h =
      let enc = D.encode_length_delimiter n in
      let none_left : List ℕ = [] in
      omega (
        arith,
        D.advances (enc ++ none_left) none_left n (D.decoded n none_left h),
        length-append enc none_left,
      )

  frame_takes : (f : List ℕ) → is_small f ≡ true → 0 < length (encode_frame_raw f)
  frame_takes f small =
      let fits : length (encode_frame_raw f) + 1023 ≤ max_frame_len = ground arith in
      omega (
        arith,
        D.measured (length f),
        length-encode_frame_raw f,
        delimiter_takes (length f) (omega (arith, length-encode_frame_raw f)),
      )

  nothing_waits : try_decode_frame [] ≡ wait
  unfolding try_decode_frame
  nothing_waits =
      rw
        (
          try_decode_frame,
          D.cut_short 0 [] (D.encode_length_delimiter 0) (omega arith) refl
              (delimiter_takes 0 (omega arith)),
        )
        refl

  drain-frame :
      (fuel : ℕ) (f c buf : List ℕ) (d : Drained)
      → buf ≡ encode_frame_raw f ++ c
      → is_small f ≡ true
      → drain fuel c ≡ some d
      → drain (suc fuel) buf ≡ some (record d { frames = f ∷ d.frames })
  unfolding drain
  drain-frame fuel f c buf d p small e =
      ap (drain (suc fuel)) p ∙ rw (drain, try_decode_frame_gives f c (ground arith), e) refl

  drain-Caught :
      (fuel : ℕ) (buf more : List ℕ) (fs : List (List ℕ))
      → every is_small fs ≡ true
      → buf ++ more ≡ stream fs
      → length buf < fuel
      → Caught fuel buf more fs
  unfolding drain
  drain-Caught zero buf more fs small e h = absurd (omega arith)
  drain-Caught (suc fuel) [] more [] small e h = record {
    done = [];
    left = [];
    over = [];
    drained = rw (drain, nothing_waits) refl;
    parts = refl;
    onward = e;
    waits = refl;
  }
  drain-Caught (suc fuel) (b ∷ buf) more [] small e h = absurd (omega (arith, ap length e))
  drain-Caught (suc fuel) buf more (f ∷ fs) small e h =
      elim (Bool-cases (ltb (length buf) (length (encode_frame_raw f)))) [
        | inl short ↦
            let (c, p, q) =
              append_split (encode_frame_raw f) (stream fs) buf more (sym e) (ground arith) in
            record {
              done = [];
              left = f ∷ fs;
              over = buf;
              drained =
                  rw
                    (
                      drain,
                      try_decode_frame_waits f buf c (ground arith) p
                          (ground (arith, ap length p, length-append buf c)),
                    )
                    refl;
              parts = refl;
              onward = e;
              waits = ground arith;
            }
        | inr full ↦
            let (c, p, q) =
              append_split buf more (encode_frame_raw f) (stream fs) e (ground arith) in
            let further : Caught fuel c more fs = drain-Caught fuel c more fs (ground arith) q (
              omega (
                arith,
                ap length p,
                length-append (encode_frame_raw f) c,
                frame_takes f (ground arith),
              )) in
            record {
              done = f ∷ further.done;
              left = further.left;
              over = further.over;
              drained = drain-frame fuel f c buf _ p (ground arith) further.drained;
              parts = ap (λ t. f ∷ t) further.parts;
              onward = further.onward;
              waits = further.waits;
            }
      ]

  -- A read that brings at most 1024 bytes, or a timeout whose probe could be sent.
  abbrev pub is_live : ReadResult → Bool
  is_live (bytes chunk) = leb (length chunk) 1024
  is_live (timed_out sent) = sent
  is_live _ = false

  abbrev pub payload : List ReadResult → List ℕ
  payload [] = []
  payload (bytes chunk ∷ reads) = chunk ++ payload reads
  payload (_ ∷ reads) = payload reads

  process_frames_lem :
      (buf more : List ℕ) (handled fs : List (List ℕ)) (c : Caught (suc (length buf)) buf more fs)
      → process_frames (record { buf = buf; handled = handled; ending = none })
        ≡ record { buf = c.over; handled = handled ++ c.done; ending = none }
  unfolding process_frames
  process_frames_lem buf more handled fs c = rw (process_frames, c.drained) refl

  waiting_fits :
      (buf chunk : List ℕ) (more : List ℕ) (fs : List (List ℕ))
      → every is_small fs ≡ true
      → IsWaiting buf fs
      → leb (length chunk) 1024 ≡ true
      → ltb max_frame_len (length (buf ++ chunk)) ≡ false
  waiting_fits buf chunk more [] small w h = ground (arith, ap length w, length-append buf chunk)
  waiting_fits buf chunk more (f ∷ fs) small w h = ground (arith, length-append buf chunk)

  read_loop-live :
      (reads : List ReadResult) (buf : List ℕ) (handled fs : List (List ℕ))
      → every is_live reads ≡ true
      → every is_small fs ≡ true
      → buf ++ payload reads ≡ stream fs
      → IsWaiting buf fs
      → read_loop reads (record { buf = buf; handled = handled; ending = none })
        ≡ record { buf = []; handled = handled ++ fs; ending = none }
  unfolding read_loop read_step
  read_loop-live [] buf handled [] live small e w =
      ap (λ b. record { buf = b; handled = handled; ending = none }) w
      ∙ ap (λ hs. record { buf = []; handled = hs; ending = none }) (sym (append-nil handled))
  read_loop-live [] buf handled (f ∷ fs) live small e w =
      let none_left : List ℕ = [] in
      absurd (
        omega (
          arith,
          ap length e,
          length-append buf none_left,
          length-append (encode_frame_raw f) (stream fs),
        ))
  read_loop-live (bytes chunk ∷ reads) buf handled fs live small e w =
      let c =
        drain-Caught (suc (length (buf ++ chunk))) (buf ++ chunk) (payload reads) fs small
          (append_assoc buf chunk (payload reads) ∙ e) (omega arith) in
      let left_small : every is_small c.left ≡ true =
        ground (arith, ap (every is_small) c.parts, every-append is_small c.done c.left) in
      rw
        (
          read_loop,
          read_step,
          waiting_fits buf chunk (payload reads) fs small w (ground arith),
          process_frames_lem (buf ++ chunk) (payload reads) handled fs c,
        )
        (read_loop-live reads c.over (handled ++ c.done) c.left (ground arith) left_small c.onward
          c.waits)
      ∙ ap (λ hs. record { buf = []; handled = hs; ending = none })
          (append_assoc handled c.done c.left ∙ ap (λ t. handled ++ t) (sym c.parts))
  read_loop-live (timed_out true ∷ reads) buf handled fs live small e w =
      read_loop-live reads buf handled fs live small e w
  read_loop-live (timed_out false ∷ reads) buf handled fs live small e w = absurd cc
  read_loop-live (stream_closed ∷ reads) buf handled fs live small e w = absurd cc
  read_loop-live (read_failed ∷ reads) buf handled fs live small e w = absurd cc

  -- A peer writes frames, each at least 1023 bytes under the cap with its length; the connection was
  -- handed over with some of the bytes read, and the others arrive in reads of up to 1024 bytes, cut
  -- anywhere, between timeouts that the probe survives. Then the server hands on exactly the frames
  -- that were written, in order, keeps the stream open and has no bytes left over.
  pub run_envelope_stream_with_prefix_lem :
      (initial_buf : List ℕ) (reads : List ReadResult) (fs : List (List ℕ))
      → every is_live reads ≡ true
      → every is_small fs ≡ true
      → initial_buf ++ payload reads ≡ stream fs
      → run_envelope_stream_with_prefix initial_buf reads
        ≡ record { buf = []; handled = fs; ending = none }
  unfolding run_envelope_stream_with_prefix
  run_envelope_stream_with_prefix_lem initial_buf reads fs live small e =
      let c =
        drain-Caught (suc (length initial_buf)) initial_buf (payload reads) fs small e
          (omega arith) in
      let left_small : every is_small c.left ≡ true =
        ground (arith, ap (every is_small) c.parts, every-append is_small c.done c.left) in
      rw (run_envelope_stream_with_prefix, process_frames_lem initial_buf (payload reads) [] fs c)
        (read_loop-live reads c.over c.done c.left live left_small c.onward c.waits)
      ∙ ap (λ hs. record { buf = []; handled = hs; ending = none }) (sym c.parts)
