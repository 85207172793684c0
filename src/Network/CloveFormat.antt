-- ===== src/Network/CloveFormat.antt =====
-- network/clove.go: the frames of the Clove wire format, `ClovePacketParser` and
-- `ClovePacketPackager`. No call of these methods panics.
pub mod Frame
pub mod Bounds
pub mod Stream
pub mod Chunks
pub mod Score
use clove.Prelude.{
  ℕ, zero, suc, ◌+◌, ◌*◌, ◌/◌, ◌%◌, ◌^◌, Bool, true, false, not, ◌&&◌, ◌||◌, Option, none, some,
  List, [], ◌∷◌, ◌++◌, length, take, drop, bit_and, bit_or, ltb, leb, ◌==◌, if◌then◌else◌,
}
use clove.Prelude.Bytes.{big_endian, uint32, put_uint32}
use clove.Base.Buffer.{Buffer, next, peek, len}
use clove.Prelude.Run.{Run, returned, panicked, out_of_fuel}
use clove.Base.Bit.{test_mask}
use clove.Network.Packet.{
  PacketError, unsupported, not_ready, not_match, is_damage, BinaryPacket, Packet, binary, Parsed,
  ParsedAll, Packaged, packet_max_length, get_type, type_eq,
}

abbrev pub header_length : ℕ
header_length = 5

abbrev pub mask_compress_support : ℕ
mask_compress_support = 0x1

abbrev pub mask_encrypt : ℕ
mask_encrypt = 0x2

abbrev pub mask_compressed : ℕ
mask_compressed = 0x4

-- `MaskCloveReserved | MaskClove`
abbrev pub mask_feature : ℕ
mask_feature = 0x88

abbrev pub refused : PacketError → Parsed
refused e = (some e, none, 0)

-- The word behind the flag byte; `none` if fewer than five bytes are there.
abbrev pub header_word : List ℕ → Option (ℕ × ℕ)
header_word (op ∷ a ∷ b ∷ c ∷ d ∷ r) = some (op, a * 2 ^ 24 + b * 2 ^ 16 + c * 2 ^ 8 + d)
header_word _ = none

unfoldable pub frame_packet : List ℕ → ℕ → ℕ → BinaryPacket
unfolding test_mask
frame_packet input op word = record {
  from = [];
  encrypted = test_mask op mask_encrypt;
  compressed = test_mask op mask_compressed;
  protocol_type = bit_and (word / 2 ^ 28) 0xf % 2 ^ 8;
  protocol_ver = bit_and (word / 2 ^ 24) 0xf % 2 ^ 8;
  compress_support = test_mask op mask_compress_support;
  raw = drop header_length (take (bit_and word packet_max_length) input);
}

-- The tests on the header, and the packet of a frame that passes them.
unfoldable pub parse_frame : List ℕ → ℕ → ℕ → Parsed
unfolding frame_packet
parse_frame input op word =
    let packet_len = bit_and word packet_max_length in
    if ltb packet_max_length packet_len || ltb packet_len header_length
    then refused is_damage
    else if not (bit_and op mask_feature == mask_feature)
    then refused not_match
    else if ltb (length input) packet_len
    then refused not_ready
    else (none, some (binary (frame_packet input op word)), packet_len)

unfoldable pub parse_from_bytes : List ℕ → Parsed
unfolding parse_frame
parse_from_bytes input = elim (header_word input) [
  | none ↦ refused not_ready
  | some (op, word) ↦ parse_frame input op word
]

-- The tests on what `ParseFromBytes` returned; without an error it has a packet.
abbrev pub after_parse : Parsed → Buffer → List Packet → (Packet → Run ParsedAll) → Run ParsedAll
after_parse (some not_ready, p, k) rest pcks go = returned (none, pcks, rest)
after_parse (some e, p, k) rest pcks go = returned (some e, pcks, rest)
after_parse (none, none, k) rest pcks go = returned (none, pcks, rest)
after_parse (none, some p, k) rest pcks go = go p

-- The loop of `ParseFromBuffer`: a frame that is complete leaves the buffer and is parsed.
unfoldable pub parse_loop : ℕ → Buffer → List Packet → Run ParsedAll
unfolding peek next len parse_from_bytes
parse_loop zero b pcks = out_of_fuel
parse_loop (suc fuel) b pcks = elim (header_word (peek header_length b).0) [
  | none ↦ returned (none, pcks, b)
  | some (op, word) ↦
      let packet_len = bit_and word packet_max_length in
      let ((input, n), rest) = next packet_len b in
      let parsed =
        after_parse (parse_from_bytes input) rest pcks
          λ p. parse_loop fuel rest (pcks ++ (p ∷ [])) in
      if ltb (len b) packet_len
      then returned (none, pcks, b)
      else if not (n == packet_len)
      then returned (some is_damage, pcks, rest)
      else parsed
]

-- What a loop that has its fuel returns; the other cases do not occur.
abbrev pub loop_returned : Buffer → Run ParsedAll → ParsedAll
loop_returned b (returned r) = r
loop_returned b _ = (some not_ready, [], b)

-- Each round takes at least five bytes, so the length of the buffer is fuel enough.
unfoldable pub parse_from_buffer : Buffer → ParsedAll
unfolding parse_loop
parse_from_buffer b = loop_returned b (parse_loop (suc (length b)) b [])

-- The score as a number above -1: `none` is -1.
unfoldable pub test_match_score : Buffer → Option ℕ
unfolding peek len
test_match_score b = elim (header_word (peek header_length b).0) [
  | none ↦ none
  | some (op, word) ↦
      let packet_len = bit_and word packet_max_length in
      if bit_and (word / 2 ^ 28) 0xf == 0 || bit_and (word / 2 ^ 24) 0xf == 0
      then some 0
      else if ltb packet_max_length packet_len || ltb packet_len header_length
      then some 0
      else if not (bit_and op mask_feature == mask_feature)
      then some 0
      else if ltb (len b % 2 ^ 32) packet_len
      then some 50
      else some 99
]

abbrev pub flag : Bool → ℕ → ℕ → ℕ
flag b mask op = if b then bit_or op mask else op

unfoldable op_flag : BinaryPacket → ℕ
op_flag p =
    flag p.encrypted mask_encrypt
      (flag p.compress_support mask_compress_support (flag p.compressed mask_compressed 0))

-- The word of the header, with the protocol in its top byte: both shifts are of a byte.
unfoldable pub package_word : BinaryPacket → ℕ
package_word p =
    let pto_info = bit_or (p.protocol_type * 2 ^ 4 % 2 ^ 8) p.protocol_ver * 2 ^ 24 in
    bit_or ((length p.raw % 2 ^ 32 + header_length) % 2 ^ 32) pto_info

unfoldable pub package_packet : Packet → Packaged
unfolding get_type type_eq op_flag package_word
package_packet (binary p) =
    (none, bit_or mask_feature (op_flag p) ∷ (put_uint32 big_endian (package_word p) ++ p.raw))
package_packet p = (some unsupported, [])
