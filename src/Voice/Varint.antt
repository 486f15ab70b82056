-- ===== src/Voice/Varint.antt =====
-- The variable-length integers of crates/mumble-bridge/src/mumble_voice.rs: what is encoded is read
-- back, from the front of any data.
use Prim.Native.Nat.{bit_and, bit_or}
use rumble.Prelude.{
  ℕ, ◌+◌, ◌*◌, ◌/◌, ◌%◌, ◌^◌, ◌-◌, ◌<◌, ◌≡◌, refl, true, not, ◌&&◌, some, List, ◌++◌, ◌==◌, ltb,
  leb, length, arith, Bool-cases, inl, inr,
}
use rumble.Prelude.Bytes.{all_below_sound, or_sum}
use rumble.Voice.{read_14, read_21, read_28, read_32, read_64, read_varint, encode_varint}

-- What the tests of `read_varint` find in a first byte made of a mark and the highest bits.
one_byte : (x : ℕ) → x < 128 → (bit_and x 0x80 == 0) ≡ true
one_byte x h = all_below_sound 128 (λ x. bit_and x 0x80 == 0) x refl h

two_bytes :
    (x : ℕ)
    → x < 64
    → (not (bit_and (bit_or x 0x80) 0x80 == 0)
        && bit_and (bit_or x 0x80) 0xC0 == 0x80
        && bit_and (bit_or x 0x80) 0x3F == x)
      ≡ true
two_bytes x h =
    all_below_sound 64
      (λ x.
        not (bit_and (bit_or x 0x80) 0x80 == 0)
        && bit_and (bit_or x 0x80) 0xC0 == 0x80
        && bit_and (bit_or x 0x80) 0x3F == x)
      x refl h

three_bytes :
    (x : ℕ)
    → x < 32
    → (not (bit_and (bit_or x 0xC0) 0x80 == 0)
        && not (bit_and (bit_or x 0xC0) 0xC0 == 0x80)
        && bit_and (bit_or x 0xC0) 0xE0 == 0xC0
        && bit_and (bit_or x 0xC0) 0x1F == x)
      ≡ true
three_bytes x h =
    all_below_sound 32
      (λ x.
        not (bit_and (bit_or x 0xC0) 0x80 == 0)
        && not (bit_and (bit_or x 0xC0) 0xC0 == 0x80)
        && bit_and (bit_or x 0xC0) 0xE0 == 0xC0
        && bit_and (bit_or x 0xC0) 0x1F == x)
      x refl h

four_bytes :
    (x : ℕ)
    → x < 16
    → (not (bit_and (bit_or x 0xE0) 0x80 == 0)
        && not (bit_and (bit_or x 0xE0) 0xC0 == 0x80)
        && not (bit_and (bit_or x 0xE0) 0xE0 == 0xC0)
        && bit_and (bit_or x 0xE0) 0xF0 == 0xE0
        && bit_and (bit_or x 0xE0) 0x0F == x)
      ≡ true
four_bytes x h =
    all_below_sound 16
      (λ x.
        not (bit_and (bit_or x 0xE0) 0x80 == 0)
        && not (bit_and (bit_or x 0xE0) 0xC0 == 0x80)
        && not (bit_and (bit_or x 0xE0) 0xE0 == 0xC0)
        && bit_and (bit_or x 0xE0) 0xF0 == 0xE0
        && bit_and (bit_or x 0xE0) 0x0F == x)
      x refl h

-- Fields of two, three and four bytes put together.
join2 : (a b : ℕ) → b < 256 → bit_or (a * 2 ^ 8) b ≡ a * 2 ^ 8 + b
join2 a b h = or_sum 8 (a * 2 ^ 8) a b refl h

join3 :
    (a b c : ℕ)
    → b < 256
    → c < 256
    → bit_or (bit_or (a * 2 ^ 16) (b * 2 ^ 8)) c ≡ a * 2 ^ 16 + b * 2 ^ 8 + c
join3 a b c p q =
    let high : bit_or (a * 2 ^ 16) (b * 2 ^ 8) ≡ a * 2 ^ 16 + b * 2 ^ 8 =
      or_sum 16 (a * 2 ^ 16) a (b * 2 ^ 8) refl (omega arith) in
    rw high (or_sum 8 (a * 2 ^ 16 + b * 2 ^ 8) (a * 256 + b) c (omega arith) q)

join4 :
    (a b c d : ℕ)
    → b < 256
    → c < 256
    → d < 256
    → bit_or (bit_or (bit_or (a * 2 ^ 24) (b * 2 ^ 16)) (c * 2 ^ 8)) d
      ≡ a * 2 ^ 24 + b * 2 ^ 16 + c * 2 ^ 8 + d
join4 a b c d p q r =
    let high : bit_or (a * 2 ^ 24) (b * 2 ^ 16) ≡ a * 2 ^ 24 + b * 2 ^ 16 =
      or_sum 24 (a * 2 ^ 24) a (b * 2 ^ 16) refl (omega arith) in
    let mid : bit_or (a * 2 ^ 24 + b * 2 ^ 16) (c * 2 ^ 8) ≡ a * 2 ^ 24 + b * 2 ^ 16 + c * 2 ^ 8 =
      or_sum 16 (a * 2 ^ 24 + b * 2 ^ 16) (a * 256 + b) (c * 2 ^ 8) (omega arith) (omega arith) in
    rw (high, mid)
      (or_sum 8 (a * 2 ^ 24 + b * 2 ^ 16 + c * 2 ^ 8) (a * 65536 + b * 256 + c) d (omega arith) r)

join8 :
    (a b c d e f g h : ℕ)
    → b < 256
    → c < 256
    → d < 256
    → e < 256
    → f < 256
    → g < 256
    → h < 256
    → bit_or
        (bit_or
          (bit_or
            (bit_or
              (bit_or (bit_or (bit_or (a * 2 ^ 56) (b * 2 ^ 48)) (c * 2 ^ 40)) (d * 2 ^ 32))
              (e * 2 ^ 24))
            (f * 2 ^ 16))
          (g * 2 ^ 8))
        h
      ≡ a * 2 ^ 56 + b * 2 ^ 48 + c * 2 ^ 40 + d * 2 ^ 32 + e * 2 ^ 24 + f * 2 ^ 16 + g * 2 ^ 8 + h
join8 a b c d e f g h pb pc pd pe pf pg ph =
    let s1 : bit_or (a * 2 ^ 56) (b * 2 ^ 48) ≡ a * 2 ^ 56 + b * 2 ^ 48 =
      or_sum 56 (a * 2 ^ 56) (a) (b * 2 ^ 48) (omega arith) (omega arith) in
    let s2 : bit_or (a * 2 ^ 56 + b * 2 ^ 48) (c * 2 ^ 40) ≡ a * 2 ^ 56 + b * 2 ^ 48 + c * 2 ^ 40 =
      or_sum 48 (a * 2 ^ 56 + b * 2 ^ 48) ((a) * 256 + b) (c * 2 ^ 40) (omega arith)
        (omega arith) in
    let s3 : bit_or (a * 2 ^ 56 + b * 2 ^ 48 + c * 2 ^ 40) (d * 2 ^ 32)
        ≡ a * 2 ^ 56 + b * 2 ^ 48 + c * 2 ^ 40 + d * 2 ^ 32 =
      or_sum 40 (a * 2 ^ 56 + b * 2 ^ 48 + c * 2 ^ 40) (((a) * 256 + b) * 256 + c) (d * 2 ^ 32)
        (omega arith) (omega arith) in
    let s4 : bit_or (a * 2 ^ 56 + b * 2 ^ 48 + c * 2 ^ 40 + d * 2 ^ 32) (e * 2 ^ 24)
        ≡ a * 2 ^ 56 + b * 2 ^ 48 + c * 2 ^ 40 + d * 2 ^ 32 + e * 2 ^ 24 =
      or_sum 32 (a * 2 ^ 56 + b * 2 ^ 48 + c * 2 ^ 40 + d * 2 ^ 32)
        ((((a) * 256 + b) * 256 + c) * 256 + d) (e * 2 ^ 24) (omega arith) (omega arith) in
    let s5 : bit_or (a * 2 ^ 56 + b * 2 ^ 48 + c * 2 ^ 40 + d * 2 ^ 32 + e * 2 ^ 24) (f * 2 ^ 16)
        ≡ a * 2 ^ 56 + b * 2 ^ 48 + c * 2 ^ 40 + d * 2 ^ 32 + e * 2 ^ 24 + f * 2 ^ 16 =
      or_sum 24 (a * 2 ^ 56 + b * 2 ^ 48 + c * 2 ^ 40 + d * 2 ^ 32 + e * 2 ^ 24)
        (((((a) * 256 + b) * 256 + c) * 256 + d) * 256 + e) (f * 2 ^ 16) (omega arith)
        (omega arith) in
    let s6 : bit_or (a * 2 ^ 56 + b * 2 ^ 48 + c * 2 ^ 40 + d * 2 ^ 32 + e * 2 ^ 24 + f * 2 ^ 16)
          (g * 2 ^ 8)
        ≡ a * 2 ^ 56 + b * 2 ^ 48 + c * 2 ^ 40 + d * 2 ^ 32 + e * 2 ^ 24 + f * 2 ^ 16 + g * 2 ^ 8 =
      or_sum 16 (a * 2 ^ 56 + b * 2 ^ 48 + c * 2 ^ 40 + d * 2 ^ 32 + e * 2 ^ 24 + f * 2 ^ 16)
        ((((((a) * 256 + b) * 256 + c) * 256 + d) * 256 + e) * 256 + f) (g * 2 ^ 8) (omega arith)
        (omega arith) in
    rw (s1, s2, s3, s4, s5, s6)
      (or_sum 8
        (a * 2 ^ 56 + b * 2 ^ 48 + c * 2 ^ 40 + d * 2 ^ 32 + e * 2 ^ 24 + f * 2 ^ 16 + g * 2 ^ 8)
        (((((((a) * 256 + b) * 256 + c) * 256 + d) * 256 + e) * 256 + f) * 256 + g) h (omega arith)
        ph)

bytes_of_64 :
    (val : ℕ)
    → val < 2 ^ 64
    → val / 2 ^ 56 % 256 * 2 ^ 56
        + val / 2 ^ 48 % 256 * 2 ^ 48
        + val / 2 ^ 40 % 256 * 2 ^ 40
        + val / 2 ^ 32 % 256 * 2 ^ 32
        + val / 2 ^ 24 % 256 * 2 ^ 24
        + val / 2 ^ 16 % 256 * 2 ^ 16
        + val / 2 ^ 8 % 256 * 2 ^ 8
        + val % 256
      ≡ val
bytes_of_64 val h = omega arith

-- Every `u64` that is encoded is read back with the number of its bytes, whatever follows it.
pub read_varint-encode_varint :
    (val : ℕ) (rest : List ℕ)
    → val < 2 ^ 64
    → read_varint (encode_varint val ++ rest) ≡ some (val, length (encode_varint val))
unfolding encode_varint read_varint read_14 read_21 read_28 read_32 read_64
read_varint-encode_varint val rest h = elim (Bool-cases (ltb val 0x80)) [
  | inl v7 ↦ ground (arith, one_byte (val % 256) (ground arith))
  | inr n7 ↦ elim (Bool-cases (ltb val 0x4000)) [
    | inl v14 ↦ ground (
      arith,
      two_bytes (val / 2 ^ 8 % 256) (ground arith),
      join2 (val / 2 ^ 8 % 256) (val % 256) (omega arith),
    )
    | inr n14 ↦ elim (Bool-cases (ltb val 0x200000)) [
      | inl v21 ↦ ground (
        arith,
        three_bytes (val / 2 ^ 16 % 256) (ground arith),
        join3 (val / 2 ^ 16 % 256) (val / 2 ^ 8 % 256) (val % 256) (omega arith) (omega arith),
      )
      | inr n21 ↦ elim (Bool-cases (ltb val 0x10000000)) [
        | inl v28 ↦ ground (
          arith,
          four_bytes (val / 2 ^ 24 % 256) (ground arith),
          join4 (val / 2 ^ 24 % 256) (val / 2 ^ 16 % 256) (val / 2 ^ 8 % 256) (val % 256)
              (omega arith) (omega arith) (omega arith),
        )
        | inr n28 ↦ elim (Bool-cases (leb val (2 ^ 32 - 1))) [
          | inl v32 ↦ ground (
            arith,
            join4 (val / 2 ^ 24 % 256) (val / 2 ^ 16 % 256) (val / 2 ^ 8 % 256) (val % 256)
                (omega arith) (omega arith) (omega arith),
          )
          | inr n32 ↦ ground (
            arith,
            join8 (val / 2 ^ 56 % 256) (val / 2 ^ 48 % 256) (val / 2 ^ 40 % 256)
                (val / 2 ^ 32 % 256) (val / 2 ^ 24 % 256) (val / 2 ^ 16 % 256) (val / 2 ^ 8 % 256)
                (val % 256) (omega arith) (omega arith) (omega arith) (omega arith) (omega arith)
                (omega arith) (omega arith),
            bytes_of_64 val h,
          )
        ]
      ]
    ]
  ]
]
