-- ===== src/Voice/Packet.antt =====
-- The voice packets of crates/mumble-bridge/src/mumble_voice.rs: what a packet holds is parsed back.
use Prim.Native.Nat.{bit_and}
use mathlib.Core.List.{append_assoc}
use rumble.Prelude.{
  ℕ, suc, ◌+◌, ◌/◌, ◌^◌, ◌<◌, ◌≡◌, refl, ap, ◌∙◌, Bool, true, false, not, ◌&&◌, some, List, [], ◌∷◌,
  ◌++◌, ◌==◌, ltb, length, take, drop, drop_all, arith, ==_iff,
}
use rumble.Prelude.Bytes.{all_below_sound, or_top, and_low, and_top}
use rumble.Voice.{
  read_varint, encode_varint, parse_payload, parse_voice_packet, opus_type, voice_header,
  length_field, encode_voice_packet,
}
use rumble.Voice.Varint.{read_varint-encode_varint}

-- The length field keeps a length of 13 bits and the terminator apart.
fields_of_length :
    (opus : List ℕ) (last : Bool)
    → length opus < 8192
    → (length_field opus last < 2 ^ 64)
      × (bit_and (length_field opus last) 0x1FFF ≡ length opus)
      × (not (bit_and (length_field opus last) 0x2000 == 0) ≡ last)
fields_of_length opus false h =
    let e : length opus ≡ length opus + 0 = omega arith in
    (
      omega arith,
      ap (λ n. bit_and n 0x1FFF) e ∙ and_low 13 (length opus) 0 h,
      ap (λ n. not (bit_and n 0x2000 == 0)) e
          ∙ ground (arith, and_top 13 (length opus) 0 h (omega arith)),
    )
fields_of_length opus true h = rw (or_top 13 (length opus) h) (
  omega arith,
  and_low 13 (length opus) 1 h,
  ground (arith, and_top 13 (length opus) 1 h (omega arith)),
)

-- The header byte keeps the type and a target of 5 bits apart.
fields_of_header :
    (target : ℕ)
    → target < 32
    → (bit_and ((voice_header + target) / 2 ^ 5) 0x07 == opus_type
        && bit_and (voice_header + target) 0x1F == target)
      ≡ true
fields_of_header target h =
    all_below_sound 32
      (λ t.
        bit_and ((voice_header + t) / 2 ^ 5) 0x07 == opus_type
        && bit_and (voice_header + t) 0x1F == t)
      target refl h

take-length : (opus : List ℕ) → take (length opus) opus ≡ opus
take-length [] = refl
take-length (x ∷ xs) = ap (λ t. x ∷ t) (take-length xs)

payload_back :
    (target sequence field : ℕ) (opus : List ℕ) (last : Bool)
    → bit_and field 0x1FFF ≡ length opus
    → not (bit_and field 0x2000 == 0) ≡ last
    → parse_payload target sequence field opus
      ≡ some (record { target = target; sequence = sequence; opus_data = opus; is_last = last })
unfolding parse_payload
payload_back target sequence field opus last len term =
    let fits : ltb (length opus) (length opus) ≡ false = ground arith in
    rw (len, term, fits, take-length opus) refl

-- A packet of a Mumble client, with a target of 5 bits, a sequence number of 64 bits and less than
-- 8192 bytes of Opus data, is parsed into exactly what it holds.
pub parse_voice_packet_lem :
    (target sequence : ℕ) (opus : List ℕ) (last : Bool)
    → target < 32
    → sequence < 2 ^ 64
    → length opus < 8192
    → parse_voice_packet (
        (voice_header + target)
        ∷ (encode_varint sequence ++ (encode_varint (length_field opus last) ++ opus)))
      ≡ some (record { target = target; sequence = sequence; opus_data = opus; is_last = last })
unfolding parse_voice_packet
parse_voice_packet_lem target sequence opus last t s h =
    let field = length_field opus last in
    let (small, len, term) = fields_of_length opus last h in
    let head = fields_of_header target t in
    let typed : (bit_and ((voice_header + target) / 2 ^ 5) 0x07 == opus_type) ≡ true =
      ground arith in
    let aimed : bit_and (voice_header + target) 0x1F ≡ target =
      (==_iff _ _).0 (ground (arith, head)) in
    rw
      (
        typed,
        read_varint-encode_varint sequence (encode_varint field ++ opus) s,
        drop_all (encode_varint sequence) (encode_varint field ++ opus),
        read_varint-encode_varint field opus small,
        drop_all (encode_varint field) opus,
        aimed,
      )
      (payload_back target sequence field opus last len term)

drop_past : (x : ℕ) (xs ys : List ℕ) → drop (1 + length xs) (x ∷ (xs ++ ys)) ≡ ys
drop_past x xs ys = let e : 1 + length xs ≡ suc (length xs) = omega arith in rw e (drop_all xs ys)

-- A packet to a Mumble client: behind the header stands the varint of the sender's session, and
-- without it the packet is one that holds the same sequence number, data and terminator, so a
-- client that reads the session and then the packet gets back what was sent.
pub encode_voice_packet_lem :
    (session sequence : ℕ) (opus : List ℕ) (last : Bool)
    → session < 2 ^ 32
    → sequence < 2 ^ 64
    → length opus < 8192
    → (read_varint (drop 1 (encode_voice_packet session sequence opus last))
        ≡ some (session, length (encode_varint session)))
      × (parse_voice_packet (
            take 1 (encode_voice_packet session sequence opus last)
            ++ drop
                (1 + length (encode_varint session))
                (encode_voice_packet session sequence opus last))
          ≡ some (record { target = 0; sequence = sequence; opus_data = opus; is_last = last }))
unfolding encode_voice_packet
encode_voice_packet_lem session sequence opus last t s h =
    let field = encode_varint (length_field opus last) in
    let body = encode_varint sequence ++ (field ++ opus) in
    let whole : encode_voice_packet session sequence opus last
        ≡ voice_header ∷ (encode_varint session ++ body) =
      ap (λ l. voice_header ∷ l)
        (append_assoc (encode_varint session ++ encode_varint sequence) field opus
          ∙ append_assoc (encode_varint session) (encode_varint sequence) (field ++ opus)) in
    rw whole (
      read_varint-encode_varint session body (omega arith),
      rw (drop_past voice_header (encode_varint session) body)
          (parse_voice_packet_lem 0 sequence opus last (omega arith) s h),
    )
