-- ===== src/Voice.antt =====
-- crates/mumble-bridge/src/mumble_voice.rs: the Mumble voice packets that go through the TCP
-- tunnel, and the variable-length integers in them. A byte is its number, a slice is a list.
-- `as u8` is `% 256`; a shift is a product or a quotient by a power of two.
pub mod Varint
pub mod Packet
mod Tests
use Prim.Native.Nat.{bit_and, bit_or}
use rumble.Prelude.{
  ℕ, ◌+◌, ◌*◌, ◌/◌, ◌%◌, ◌^◌, ◌-◌, Bool, true, false, not, Option, none, some, List, [], ◌∷◌, ◌++◌,
  ◌==◌, ltb, leb, if◌then◌else◌, length, take, drop,
}
use rumble.Prelude.Fallible.{◌>>=◌}

abbrev pub opus_type : ℕ
opus_type = 4

-- The arms of `read_varint` by the number of bytes that follow the first, as the slice holds them.

read_14 : ℕ → List ℕ → Option (ℕ × ℕ)
read_14 first (d1 ∷ _) = some (bit_or (bit_and first 0x3F * 2 ^ 8) d1, 2)
read_14 first _ = none

read_21 : ℕ → List ℕ → Option (ℕ × ℕ)
read_21 first (d1 ∷ d2 ∷ _) =
    some (bit_or (bit_or (bit_and first 0x1F * 2 ^ 16) (d1 * 2 ^ 8)) d2, 3)
read_21 first _ = none

read_28 : ℕ → List ℕ → Option (ℕ × ℕ)
read_28 first (d1 ∷ d2 ∷ d3 ∷ _) =
    some (bit_or (bit_or (bit_or (bit_and first 0x0F * 2 ^ 24) (d1 * 2 ^ 16)) (d2 * 2 ^ 8)) d3, 4)
read_28 first _ = none

read_32 : List ℕ → Option (ℕ × ℕ)
read_32 (d1 ∷ d2 ∷ d3 ∷ d4 ∷ _) =
    some (bit_or (bit_or (bit_or (d1 * 2 ^ 24) (d2 * 2 ^ 16)) (d3 * 2 ^ 8)) d4, 5)
read_32 _ = none

read_64 : List ℕ → Option (ℕ × ℕ)
read_64 (d1 ∷ d2 ∷ d3 ∷ d4 ∷ d5 ∷ d6 ∷ d7 ∷ d8 ∷ _) = some (
  bit_or
      (bit_or
        (bit_or
          (bit_or (bit_or (bit_or (bit_or (d1 * 2 ^ 56) (d2 * 2 ^ 48)) (d3 * 2 ^ 40)) (d4 * 2 ^ 32))
            (d5 * 2 ^ 24))
          (d6 * 2 ^ 16))
        (d7 * 2 ^ 8))
      d8,
  9,
)
read_64 _ = none

-- The value and the number of bytes read.
pub read_varint : List ℕ → Option (ℕ × ℕ)
read_varint [] = none
read_varint (first ∷ rest) =
    if bit_and first 0x80 == 0
    then some (first, 1)
    else if bit_and first 0xC0 == 0x80
    then read_14 first rest
    else if bit_and first 0xE0 == 0xC0
    then read_21 first rest
    else if bit_and first 0xF0 == 0xE0
    then read_28 first rest
    else if bit_and first 0xF0 == 0xF0
    then (if bit_and first 0x0C == 0x00
        then read_32 rest
        else if bit_and first 0x0C == 0x04
        then read_64 rest
        else none)
    else none

pub encode_varint : ℕ → List ℕ
encode_varint val =
    if ltb val 0x80
    then val % 256 ∷ []
    else if ltb val 0x4000
    then bit_or (val / 2 ^ 8 % 256) 0x80 ∷ val % 256 ∷ []
    else if ltb val 0x200000
    then bit_or (val / 2 ^ 16 % 256) 0xC0 ∷ val / 2 ^ 8 % 256 ∷ val % 256 ∷ []
    else if ltb val 0x10000000
    then bit_or (val / 2 ^ 24 % 256) 0xE0 ∷ val / 2 ^ 16 % 256 ∷ val / 2 ^ 8 % 256 ∷ val % 256 ∷ []
    else if leb val (2 ^ 32 - 1)
    then 0xF0 ∷ val / 2 ^ 24 % 256 ∷ val / 2 ^ 16 % 256 ∷ val / 2 ^ 8 % 256 ∷ val % 256 ∷ []
    else 0xF4
      ∷ val / 2 ^ 56 % 256
      ∷ val / 2 ^ 48 % 256
      ∷ val / 2 ^ 40 % 256
      ∷ val / 2 ^ 32 % 256
      ∷ val / 2 ^ 24 % 256
      ∷ val / 2 ^ 16 % 256
      ∷ val / 2 ^ 8 % 256
      ∷ val % 256
      ∷ []

pub record MumbleVoicePacket : Type 0 where
  pub target : ℕ
  pub sequence : ℕ
  pub opus_data : List ℕ
  pub is_last : Bool

-- The opus payload behind its length and terminator field.
parse_payload : ℕ → ℕ → ℕ → List ℕ → Option MumbleVoicePacket
parse_payload target sequence opus_header rest =
    let opus_len = bit_and opus_header 0x1FFF in
    if ltb (length rest) opus_len
    then none
    else some (record {
      target = target;
      sequence = sequence;
      opus_data = take opus_len rest;
      is_last = not (bit_and opus_header 0x2000 == 0);
    })

pub parse_voice_packet : List ℕ → Option MumbleVoicePacket
parse_voice_packet [] = none
parse_voice_packet (header ∷ rest) =
    if not (bit_and (header / 2 ^ 5) 0x07 == opus_type) then none else (do
      (sequence, consumed) ← read_varint rest
      let rest' = drop consumed rest
      (opus_header, consumed') ← read_varint rest'
      parse_payload (bit_and header 0x1F) sequence opus_header (drop consumed' rest'))

-- The `u8` of `OPUS_TYPE << 5`, and the length with its terminator bit.
abbrev pub voice_header : ℕ
voice_header = opus_type * 2 ^ 5 % 256

abbrev pub length_field : List ℕ → Bool → ℕ
length_field opus_data is_last =
    if is_last then bit_or (length opus_data) 0x2000 else length opus_data

pub encode_voice_packet : ℕ → ℕ → List ℕ → Bool → List ℕ
encode_voice_packet session_id sequence opus_data is_last =
    voice_header ∷ []
    ++ encode_varint session_id
    ++ encode_varint sequence
    ++ encode_varint (length_field opus_data is_last)
    ++ opus_data
