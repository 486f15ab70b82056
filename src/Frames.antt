-- ===== src/Frames.antt =====
-- Length-prefixed frames: `encode_frame_raw` and `try_decode_frame` of
-- crates/rumble-protocol/src/lib.rs, and the read loop of `run_envelope_stream_with_prefix` in
-- crates/server/src/server.rs. A byte is its number and a buffer a list. The varint of a length is
-- prost's, a parameter.
pub mod Prefix
pub mod Loop
pub mod Bounds
mod Tests
use rumble.Prelude.{
  ℕ, zero, suc, ◌+◌, ◌*◌, ◌%◌, ◌^◌, ◌<◌, ◌≡◌, Bool, true, false, Option, none, some, List, [], ◌∷◌,
  ◌++◌, length, take, drop, ltb, leb, if◌then◌else◌,
}

-- What prost documents of length delimiters: an encoding has the length it announces and is read
-- back, one that is cut short is an error, and a read moves on.
pub record Delimiter : Type 0 where
  pub encode_length_delimiter : ℕ → List ℕ
  pub length_delimiter_len : ℕ → ℕ
  pub decode_length_delimiter : List ℕ → Option (ℕ × List ℕ)
  pub measured : (n : ℕ) → length (encode_length_delimiter n) ≡ length_delimiter_len n
  pub decoded :
      (n : ℕ) (rest : List ℕ)
      → n < 2 ^ 64
      → decode_length_delimiter (encode_length_delimiter n ++ rest) ≡ some (n, rest)
  pub cut_short :
      (n : ℕ) (a b : List ℕ)
      → n < 2 ^ 64
      → encode_length_delimiter n ≡ a ++ b
      → 0 < length b
      → decode_length_delimiter a ≡ none
  pub advances :
      (bytes rest : List ℕ) (n : ℕ)
      → decode_length_delimiter bytes ≡ some (n, rest)
      → length rest < length bytes

-- A read that needs more bytes, a frame with the bytes after it, or the panic of `split_to` out of
-- range.
pub data Decoded : Type 0 where
  wait : Decoded
  frame : List ℕ → List ℕ → Decoded
  panics : Decoded

abbrev pub max_frame_len : ℕ
max_frame_len = 16 * 1024 * 1024

-- What the loop over the frames in a buffer does.
pub record Drained : Type 0 where
  pub frames : List (List ℕ)
  pub rest : List ℕ
  pub panicked : Bool

pub data Ending : Type 0 where
  closed : Ending
  read_error : Ending
  oversized : Ending
  dead : Ending
  panic : Ending

-- The frames handed on to be decoded and handled, in order.
pub record Reading : Type 0 where
  pub buf : List ℕ
  pub handled : List (List ℕ)
  pub ending : Option Ending

-- A read of at most 1024 bytes. A timeout comes with whether the probe could be sent.
pub data ReadResult : Type 0 where
  bytes : List ℕ → ReadResult
  stream_closed : ReadResult
  read_failed : ReadResult
  timed_out : Bool → ReadResult

module _ ⦃D : Delimiter⦄ where
  pub encode_frame_raw : List ℕ → List ℕ
  encode_frame_raw data' = D.encode_length_delimiter (length data') ++ data'

  abbrev pub split_to : ℕ → List ℕ → Decoded
  split_to len src = if leb len (length src) then frame (take len src) (drop len src) else panics

  -- The sum is of 64 bits.
  pub try_decode_frame : List ℕ → Decoded
  try_decode_frame src = elim (D.decode_length_delimiter src) [
    | none ↦ wait
    | some (len, after) ↦
        if ltb (length src) ((D.length_delimiter_len len + len) % 2 ^ 64)
        then wait
        else split_to len after
  ]

  -- `while let Some(frame) = try_decode_frame(&mut buf)`, with fuel.
  pub drain : ℕ → List ℕ → Option Drained
  unfolding try_decode_frame
  drain zero buf = none
  drain (suc fuel) buf = elim (try_decode_frame buf) [
    | wait ↦ some (record { frames = []; rest = buf; panicked = false })
    | frame f rest ↦ elim (drain fuel rest) [
      | none ↦ none
      | some d ↦ some (record d { frames = f ∷ d.frames })
    ]
    | panics ↦ some (record { frames = []; rest = buf; panicked = true })
  ]

  -- Every frame takes a byte at least.
  pub process_frames : Reading → Reading
  unfolding drain
  process_frames s = elim (drain (suc (length s.buf)) s.buf) [
    | none ↦ s
    | some d ↦ record {
      buf = d.rest;
      handled = s.handled ++ d.frames;
      ending = if d.panicked then some panic else s.ending;
    }
  ]

  pub read_step : ReadResult → Reading → Reading
  unfolding process_frames
  read_step (bytes chunk) s =
      let t = record s { buf = s.buf ++ chunk } in
      if ltb max_frame_len (length t.buf)
      then record t { ending = some oversized }
      else process_frames t
  read_step stream_closed s = record s { ending = some closed }
  read_step read_failed s = record s { ending = some read_error }
  read_step (timed_out sent) s = if sent then s else record s { ending = some dead }

  -- The loop over the reads that there are.
  pub read_loop : List ReadResult → Reading → Reading
  unfolding read_step
  read_loop [] s = s
  read_loop (r ∷ rs) s = elim s.ending [ none ↦ read_loop rs (read_step r s) | some e ↦ s ]

  pub run_envelope_stream_with_prefix : List ℕ → List ReadResult → Reading
  unfolding read_loop process_frames
  run_envelope_stream_with_prefix initial_buf reads =
      read_loop reads (process_frames (record { buf = initial_buf; handled = []; ending = none }))
