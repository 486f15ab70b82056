-- ===== src/Voice/Tests.antt =====
-- The theorems about crates/mumble-bridge/src/mumble_voice.rs at concrete input.
use rumble.Prelude.{◌+◌, ◌≡◌, refl, true, some, [], ◌∷◌, ◌++◌, length, arith}
use rumble.Voice.{read_varint, encode_varint, voice_header, length_field, parse_voice_packet}
use rumble.Voice.Varint.{read_varint-encode_varint}
use rumble.Voice.Packet.{parse_voice_packet_lem}

two_byte_varint : encode_varint 300 ≡ 0x81 ∷ 0x2C ∷ []
unfolding encode_varint
two_byte_varint = refl

read_varint-encode_varint_example :
    read_varint (encode_varint 100000 ++ 9 ∷ []) ≡ some (100000, length (encode_varint 100000))
read_varint-encode_varint_example = read_varint-encode_varint 100000 (9 ∷ []) (omega arith)

parse_voice_packet_lem_example :
    parse_voice_packet (
      (voice_header + 3)
      ∷ (encode_varint 77 ++ (encode_varint (length_field (1 ∷ 2 ∷ []) true) ++ 1 ∷ 2 ∷ [])))
    ≡ some (record { target = 3; sequence = 77; opus_data = 1 ∷ 2 ∷ []; is_last = true })
parse_voice_packet_lem_example =
    parse_voice_packet_lem 3 77 (1 ∷ 2 ∷ []) true (omega arith) (omega arith) (omega arith)
