-- ===== src/Network/WsFormat.antt =====
-- network/ws.go: the frames of a websocket connection. `getPayloadData` unmasks its bytes in place;
-- here the payload is a value and the buffer keeps the masked bytes. They differ where the buffer is
-- read again, which is only when `ParseFromBytes` has panicked: the frames that it had unmasked are
-- then unmasked once more.
pub mod Single
pub mod Fragmented
use clove.Prelude.{
  ℕ, zero, suc, ◌+◌, ◌/◌, ◌%◌, ◌^◌, ◌≡◌, Bool, true, false, ◌||◌, not, ◌*◌, Option, none, some,
  List, [], ◌∷◌, ◌++◌, length, take, drop, get_elem?, ltb, leb, ◌==◌, if◌then◌else◌, bit_and,
  bit_xor, bit_or,
}
use clove.Prelude.Run.{Run, returned, panicked, out_of_fuel, recover, ◌>>=◌}
use clove.Prelude.Bytes.{big_endian, put_uint16, put_uint64, uint16, uint64}
use clove.Base.Buffer.{Buffer, next, peek}
use clove.Network.Packet.{
  PacketError, not_ready, is_damage, req_disconnect, Packet, binary, text, http, ping, unix_msg,
  BinaryPacket, TextPacket, Parsed, ParsedAll, Packaged,
}

abbrev ws_data_min_length : ℕ
ws_data_min_length = 2

abbrev mask_bits : ℕ → ℕ
mask_bits b1 = if b1 / 2 ^ 7 == 1 then 4 else 0

abbrev head_length : ℕ → ℕ
head_length b1 =
    if b1 % 2 ^ 7 == 126
    then 4 + mask_bits b1
    else if b1 % 2 ^ 7 == 127
    then 10 + mask_bits b1
    else ws_data_min_length + mask_bits b1

abbrev data_length : ℕ → List ℕ → Option ℕ
data_length b1 bytes =
    if b1 % 2 ^ 7 == 126
    then uint16 big_endian (drop 2 bytes)
    else if b1 % 2 ^ 7 == 127
    then uint64 big_endian (drop 2 bytes)
    else some (b1 % 2 ^ 7)

-- The length of the header and the total length, which is `none` for -1.
abbrev total_lengths : ℕ → Option ℕ → Run (ℕ × Option ℕ)
total_lengths h none = panicked
total_lengths h (some n) = returned (h, some (h + n % 2 ^ 32))

-- `getFrameLengths`, less the data length, which no caller uses.
unfoldable pub get_frame_lengths : List ℕ → Run (ℕ × Option ℕ)
unfolding uint16 uint64
get_frame_lengths (b0 ∷ b1 ∷ bytes) =
    if ltb (length (b0 ∷ b1 ∷ bytes)) (head_length b1)
    then returned (head_length b1, none)
    else total_lengths (head_length b1) (data_length b1 (b0 ∷ b1 ∷ bytes))
get_frame_lengths _ = panicked

abbrev mask_at : List ℕ → ℕ → ℕ
mask_at mask i = elim (get_elem? mask (i % 4)) [ none ↦ 0 | some m ↦ m ]

-- The loop from byte `i` of the payload on.
unfoldable unmask : List ℕ → ℕ → List ℕ → List ℕ
unmask mask i [] = []
unmask mask i (b ∷ bytes) = bit_xor b (mask_at mask i) ∷ unmask mask (i + 1) bytes

abbrev mask_offset : ℕ → ℕ
mask_offset b1 = if b1 % 2 ^ 7 == 126 then 4 else if b1 % 2 ^ 7 == 127 then 10 else 2

-- Of a frame that is all there: its header holds the four bytes of the mask.
unfoldable pub get_payload_data : List ℕ → ℕ → ℕ → List ℕ
unfolding unmask
get_payload_data (b0 ∷ b1 ∷ bytes) h l =
    let payload = drop h (take l (b0 ∷ b1 ∷ bytes)) in
    if b1 / 2 ^ 7 == 1
    then unmask (take 4 (drop (mask_offset b1) (b0 ∷ b1 ∷ bytes))) 0 payload
    else payload
get_payload_data bytes h l = []

unfoldable pub check_finish_frame_loop : ℕ → List ℕ → Run Bool
unfolding get_frame_lengths
check_finish_frame_loop zero bytes = out_of_fuel
check_finish_frame_loop (suc fuel) [] = panicked
check_finish_frame_loop (suc fuel) (b0 ∷ bytes) =
    if b0 / 2 ^ 7 == 1
    then returned true
    else get_frame_lengths (b0 ∷ bytes) >>= λ (h, total). elim total [
      | none ↦ returned false
      | some l ↦
          let more = check_finish_frame_loop fuel (drop l (b0 ∷ bytes)) in
          if ltb (length (b0 ∷ bytes)) l then returned false else more
    ]

unfoldable pub check_finish_frame : List ℕ → Run Bool
unfolding check_finish_frame_loop
check_finish_frame bytes =
    if ltb (length bytes) ws_data_min_length
    then returned false
    else check_finish_frame_loop (suc (length bytes)) bytes

pub data FrameResult : Type 0 where
  got : Packet → FrameResult
  bad : PacketError → FrameResult

abbrev pub plain_text : List ℕ → Packet
plain_text bytes = text (record { from = []; text = bytes })

abbrev pub plain_binary : List ℕ → Packet
plain_binary bytes = binary (record {
  from = [];
  encrypted = false;
  compressed = false;
  protocol_type = 0;
  protocol_ver = 0;
  compress_support = false;
  raw = bytes;
})

-- The frame of opcode 0, which goes on with the packet of the frames before.
unfoldable recombine : Bool → Option Packet → List ℕ → FrameResult
recombine true (some (text t)) bytes = got (text (record t { text = t.text ++ bytes }))
recombine true (some (binary b)) bytes = got (binary (record b { raw = b.raw ++ bytes }))
recombine true (some (ping d)) bytes = got (ping (d ++ bytes))
recombine _ _ bytes = bad is_damage

unfoldable apply_frame : ℕ → Bool → Option Packet → List ℕ → FrameResult
unfolding recombine
apply_frame opcode recombining packet bytes =
    if opcode == 0x0
    then recombine recombining packet bytes
    else if opcode == 0x1
    then got (plain_text bytes)
    else if opcode == 0x2
    then got (plain_binary bytes)
    else if opcode == 0x8
    then bad req_disconnect
    else if opcode == 0x9
    then got (ping bytes)
    else bad is_damage

-- The loop of `ParseFromBytes`.
unfoldable pub parse_frames : ℕ → List ℕ → Option Packet → Bool → ℕ → Run Parsed
unfolding get_frame_lengths get_payload_data apply_frame
parse_frames zero bytes packet recombining readed_len = out_of_fuel
parse_frames (suc fuel) [] packet recombining readed_len = panicked
parse_frames (suc fuel) (b0 ∷ bytes) packet recombining readed_len =
    let all : List ℕ = b0 ∷ bytes in
    let joins : Bool = recombining || b0 / 2 ^ 7 == 0 in
    get_frame_lengths all >>= λ (h, total). elim total [
      | none ↦ returned (none, packet, readed_len)
      | some l ↦
          if ltb (length all) l
          then returned (none, packet, readed_len)
          else elim (apply_frame (b0 % 16) joins packet (get_payload_data all h l)) [
            | bad e ↦ returned (some e, none, 0)
            | got p ↦
                let more = parse_frames fuel (drop l all) (some p) joins (readed_len + l) in
                if b0 / 2 ^ 7 == 1 then returned (none, some p, readed_len + l) else more
          ]
    ]

unfoldable pub parse_from_bytes : List ℕ → Run Parsed
unfolding check_finish_frame parse_frames
parse_from_bytes bytes =
    recover (none, none, 0)
      (check_finish_frame bytes >>= λ finished.
        if finished
        then parse_frames (suc (length bytes)) bytes none false 0
        else returned (none, none, 0))

-- The tests on what `ParseFromBytes` returned, with `rest` the buffer behind what it took.
abbrev after_parse_ws : Parsed → Buffer → List Packet → (Packet → Run ParsedAll) → Run ParsedAll
after_parse_ws (none, some p, l) rest pcks go = go p
after_parse_ws (none, none, l) rest pcks go = returned (none, pcks, rest)
after_parse_ws (some not_ready, p, l) rest pcks go = returned (none, pcks, rest)
after_parse_ws (some e, p, l) rest pcks go = returned (some e, pcks, rest)

abbrev taken : Parsed → Buffer → Buffer
unfolding next
taken (e, p, l) b = if ltb 0 l then (next l b).1 else b

-- The loop of `ParseFromBuffer`.
unfoldable parse_buffer_loop : ℕ → Buffer → List Packet → Run ParsedAll
unfolding peek parse_from_bytes taken
parse_buffer_loop zero b pcks = out_of_fuel
parse_buffer_loop (suc fuel) b pcks = parse_from_bytes (peek (length b) b).0 >>= λ r.
    after_parse_ws r (taken r b) pcks λ p. parse_buffer_loop fuel (taken r b) (pcks ++ (p ∷ []))

-- A packet takes at least two bytes. A panic would return no error and no packet.
unfoldable pub parse_from_buffer : Buffer → Run ParsedAll
unfolding parse_buffer_loop
parse_from_buffer b = recover (none, [], b) (parse_buffer_loop (suc (length b)) b [])

abbrev opcode_and_data : Packet → ℕ × List ℕ
opcode_and_data (text t) = (0x1, t.text)
opcode_and_data (binary b) = (0x2, b.raw)
opcode_and_data (ping d) = (0xa, d)
opcode_and_data _ = (0x0, [])

abbrev pub length_bytes : ℕ → List ℕ
unfolding put_uint16 put_uint64
length_bytes n =
    if leb n 125
    then n ∷ []
    else if leb n 0xffff
    then 0x7e ∷ put_uint16 big_endian (n % 2 ^ 16)
    else 0x7f ∷ put_uint64 big_endian n

unfoldable pub package_packet : Packet → Packaged
unfolding length_bytes
package_packet p =
    let (opcode, raw) = opcode_and_data p in
    (none, bit_or (1 * 2 ^ 7 % 2 ^ 8) opcode ∷ (length_bytes (length raw) ++ raw))

-- `Farewell`: a close frame without data.
abbrev pub farewell : List ℕ
farewell = bit_or (1 * 2 ^ 7 % 2 ^ 8) 0x8 ∷ 0 ∷ []
