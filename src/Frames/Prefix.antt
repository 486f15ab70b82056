-- ===== src/Frames/Prefix.antt =====
-- What `try_decode_frame` of crates/rumble-protocol/src/lib.rs does with the start of a stream of
-- frames.
use rumble.Prelude.{
  ℕ, ◌+◌, ◌%◌, ◌^◌, ◌<◌, ◌≤◌, ◌≡◌, refl, sym, ap, ◌∙◌, some, List, [], ◌∷◌, ◌++◌, length, ltb,
  arith, length-append, Bool-cases, inl, inr, take_all, drop_all,
}
use mathlib.Core.List.{append_assoc}
use rumble.Frames.{Delimiter, wait, frame, encode_frame_raw, try_decode_frame, max_frame_len}

-- The longer of two splits of one list goes on where the shorter ends.
pub append_split :
    (xs ys us vs : List ℕ)
    → xs ++ ys ≡ us ++ vs
    → length us ≤ length xs
    → (c : List ℕ) × (xs ≡ us ++ c) × (c ++ ys ≡ vs)
append_split xs ys [] vs e h = (xs, refl, e)
append_split [] ys (u ∷ us) vs e h = absurd (omega arith)
append_split (x ∷ xs) ys (u ∷ us) vs e h =
    let heads : x ≡ u = cc in
    let tails : xs ++ ys ≡ us ++ vs = cc in
    let (c, p, q) = append_split xs ys us vs tails (omega arith) in
    (c, ap (λ t. x ∷ t) p ∙ ap (λ z. z ∷ us ++ c) heads, q)

module _ ⦃D : Delimiter⦄ where
  -- A frame that the cap of the buffer lets through however it is cut into reads of 1024 bytes.
  abbrev pub IsSmall : List ℕ → Type 0
  IsSmall f = length (encode_frame_raw f) + 1023 ≤ max_frame_len

  pub length-encode_frame_raw :
      (f : List ℕ) → length (encode_frame_raw f) ≡ D.length_delimiter_len (length f) + length f
  unfolding encode_frame_raw
  length-encode_frame_raw f =
      length-append (D.encode_length_delimiter (length f)) f
      ∙ ap (λ n. n + length f) (D.measured (length f))

  fits :
      (f : List ℕ)
      → IsSmall f
      → (D.length_delimiter_len (length f) + length f) % 2 ^ 64
        ≡ D.length_delimiter_len (length f) + length f
  fits f small = omega (arith, length-encode_frame_raw f)

  bounded : (f : List ℕ) → IsSmall f → length f < 2 ^ 64
  bounded f small = omega (arith, length-encode_frame_raw f)

  pub try_decode_frame_waits :
      (f buf c : List ℕ)
      → IsSmall f
      → encode_frame_raw f ≡ buf ++ c
      → 0 < length c
      → try_decode_frame buf ≡ wait
  unfolding try_decode_frame encode_frame_raw
  try_decode_frame_waits f buf c small e h =
      let len = length f in
      elim (Bool-cases (ltb (length buf) (length (D.encode_length_delimiter len)))) [
        | inl before ↦
            let (d, p, q) = append_split (D.encode_length_delimiter len) f buf c e (ground arith) in
            let some_left : 0 < length d = ground (arith, ap length p, length-append buf d) in
            rw (try_decode_frame, D.cut_short len buf d (bounded f small) p some_left) refl
        | inr within ↦
            let (d, p, q) =
              append_split buf c (D.encode_length_delimiter len) f (sym e) (ground arith) in
            let read : D.decode_length_delimiter buf ≡ some (len, d) =
              ap D.decode_length_delimiter p ∙ D.decoded len d (bounded f small) in
            let short : length buf < D.length_delimiter_len len + len =
              omega (arith, ap length e, length-append buf c, length-encode_frame_raw f) in
            rw (try_decode_frame, read, fits f small) (ground arith)
      ]

  pub try_decode_frame_gives :
      (f rest : List ℕ) → IsSmall f → try_decode_frame (encode_frame_raw f ++ rest) ≡ frame f rest
  unfolding try_decode_frame encode_frame_raw
  try_decode_frame_gives f rest small =
      let read : D.decode_length_delimiter (encode_frame_raw f ++ rest)
          ≡ some (length f, f ++ rest) =
        ap D.decode_length_delimiter (append_assoc (D.encode_length_delimiter (length f)) f rest)
        ∙ D.decoded (length f) (f ++ rest) (bounded f small) in
      rw (try_decode_frame, read, fits f small, take_all f rest, drop_all f rest)
        (ground (
          arith,
          length-append (encode_frame_raw f) rest,
          length-encode_frame_raw f,
          length-append f rest,
        ))
