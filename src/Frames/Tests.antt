-- ===== src/Frames/Tests.antt =====
-- Frames of crates/rumble-protocol/src/lib.rs with varints of 7 bits a byte, the low ones first.
use rumble.Prelude.{
  ℕ, zero, suc, ◌+◌, ◌-◌, ◌*◌, ◌/◌, ◌%◌, ◌<◌, ◌≤◌, ◌≡◌, refl, ap, true, false, ◌||◌, Option, none,
  some, List, [], ◌∷◌, ◌++◌, length, length-append, ltb, if◌then◌else◌, arith, Bool-cases,
  Option-cases, inl, inr,
}
use rumble.Frames.{
  Delimiter, Drained, panics, bytes, timed_out, encode_frame_raw, try_decode_frame, drain,
  run_envelope_stream_with_prefix,
}
use rumble.Frames.Loop.{run_envelope_stream_with_prefix_lem}
use rumble.Frames.Bounds.{IsCapped, is_spent, drain_ends, run_envelope_stream_with_prefix-IsCapped}

abbrev write_leb128 : ℕ → ℕ → List ℕ
write_leb128 zero n = n ∷ []
write_leb128 (suc k) n =
    let rest = write_leb128 k (n / 128) in if ltb n 128 then n ∷ [] else (n % 128 + 128) ∷ rest

abbrev read_leb128 : List ℕ → Option (ℕ × List ℕ)
read_leb128 [] = none
read_leb128 (b ∷ bs) =
    let rest = read_leb128 bs in
    if ltb b 128
    then some (b, bs)
    else elim rest [ none ↦ none | some (n, after) ↦ some (b - 128 + 128 * n, after) ]

abbrev limit : ℕ → ℕ
limit zero = 128
limit (suc k) = 128 * limit k

read_leb128-write_leb128 :
    (k n : ℕ) (rest : List ℕ)
    → n < limit k
    → read_leb128 (write_leb128 k n ++ rest) ≡ some (n, rest)
read_leb128-write_leb128 zero n rest h = ground arith
read_leb128-write_leb128 (suc k) n rest h = elim (Bool-cases (ltb n 128)) [
  | inl small ↦ rw small (rw small refl)
  | inr big ↦
      let digit : ltb (n % 128 + 128) 128 ≡ false = ground arith in
      let value : n % 128 + 128 - 128 + 128 * (n / 128) ≡ n = omega arith in
      rw (big, digit, read_leb128-write_leb128 k (n / 128) rest (omega arith))
        (ap (λ m. some (m, rest)) value)
]

write_leb128-cut :
    (k n : ℕ) (a b : List ℕ) → write_leb128 k n ≡ a ++ b → 0 < length b → read_leb128 a ≡ none
write_leb128-cut k n [] b e h = refl
write_leb128-cut zero n (x ∷ a) b e h = absurd (omega (arith, ap length e, length-append a b))
write_leb128-cut (suc k) n (x ∷ a) b e h = elim (Bool-cases (ltb n 128)) [
  | inl small ↦ absurd (omega (arith, ap length (rw small at e), length-append a b))
  | inr big ↦
      let e' : (n % 128 + 128) ∷ write_leb128 k (n / 128) ≡ x ∷ (a ++ b) = (rw big at e) in
      let digit : n % 128 + 128 ≡ x = cc in
      let tail : write_leb128 k (n / 128) ≡ a ++ b = cc in
      let high : ltb x 128 ≡ false = ground arith in
      rw (high, write_leb128-cut k (n / 128) a b tail h) refl
]

read_leb128-moves :
    (bs rest : List ℕ) (n : ℕ) → read_leb128 bs ≡ some (n, rest) → length rest < length bs
read_leb128-moves [] rest n e = absurd cc
read_leb128-moves (b ∷ bs) rest n e = elim (Bool-cases (ltb b 128)) [
  | inl last ↦
      let same : bs ≡ rest =
        ap (λ (o : Option (ℕ × List ℕ)). elim o [ none ↦ bs | some q ↦ q.1 ]) (rw last at e) in
      omega (arith, ap length same)
  | inr more ↦ elim (Option-cases (read_leb128 bs)) [
    | inl bad ↦ absurd (cc (rw (more, bad) at e))
    | inr ((m, after), got) ↦
        let same : after ≡ rest =
          ap (λ (o : Option (ℕ × List ℕ)). elim o [ none ↦ after | some q ↦ q.1 ])
            (rw (more, got) at e) in
        omega (arith, ap length same, read_leb128-moves bs after m got)
  ]
]

instance varints : Delimiter
varints = record {
  encode_length_delimiter = write_leb128 9;
  length_delimiter_len = λ n. length (write_leb128 9 n);
  decode_length_delimiter = read_leb128;
  measured = λ n. refl;
  decoded = λ n rest h. read_leb128-write_leb128 9 n rest (omega arith);
  cut_short = λ n a b h e left. write_leb128-cut 9 n a b e left;
  advances = λ bs rest n e. read_leb128-moves bs rest n e;
}

-- Two messages, the first handed over in part, and a timeout between the reads.
run_envelope_stream_with_prefix_lem_example :
    run_envelope_stream_with_prefix
      (3 ∷ 7 ∷ [])
      (bytes (8 ∷ []) ∷ timed_out true ∷ bytes (9 ∷ 1 ∷ 5 ∷ []) ∷ [])
    ≡ record { buf = []; handled = (7 ∷ 8 ∷ 9 ∷ []) ∷ (5 ∷ []) ∷ []; ending = none }
unfolding encode_frame_raw varints
run_envelope_stream_with_prefix_lem_example =
    run_envelope_stream_with_prefix_lem (3 ∷ 7 ∷ [])
      (bytes (8 ∷ []) ∷ timed_out true ∷ bytes (9 ∷ 1 ∷ 5 ∷ []) ∷ [])
      ((7 ∷ 8 ∷ 9 ∷ []) ∷ (5 ∷ []) ∷ []) refl refl refl

drain_ends_example :
    (d : Drained) × (drain 4 (1 ∷ 5 ∷ 200 ∷ []) ≡ some d)
    × ((d.panicked || is_spent (try_decode_frame d.rest)) ≡ true)
    × (length d.rest ≤ 3)
drain_ends_example = drain_ends 4 (1 ∷ 5 ∷ 200 ∷ []) (omega arith)

run_envelope_stream_with_prefix-IsCapped_example :
    IsCapped (run_envelope_stream_with_prefix [] (bytes (255 ∷ 255 ∷ []) ∷ bytes (3 ∷ []) ∷ []))
run_envelope_stream_with_prefix-IsCapped_example =
    run_envelope_stream_with_prefix-IsCapped [] (bytes (255 ∷ 255 ∷ []) ∷ bytes (3 ∷ []) ∷ []) refl
      (omega arith)

-- A length of one written in two bytes, without the byte that it announces.
overlong_length : try_decode_frame (0x81 ∷ 0 ∷ []) ≡ panics
unfolding try_decode_frame varints
overlong_length = refl

-- The length 2 ^ 64 - 1, whose sum with that of its varint wraps to 9.
huge_length :
    try_decode_frame (255 ∷ 255 ∷ 255 ∷ 255 ∷ 255 ∷ 255 ∷ 255 ∷ 255 ∷ 255 ∷ 1 ∷ []) ≡ panics
unfolding try_decode_frame varints
huge_length = refl
