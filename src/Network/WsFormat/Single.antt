-- ===== src/Network/WsFormat/Single.antt =====
-- network/ws.go: `Package` and `ParseFromBytes` on a frame of the server.
use clove.Prelude.{
  ℕ, suc, ◌+◌, ◌<◌, ◌^◌, ◌%◌, ◌/◌, ◌≡◌, refl, false, Bool-cases, inl, inr, arith, List, [], ◌∷◌,
  ◌++◌, length, take, drop, none, some, ◌==◌, leb→le, ltb, leb, length-append, take-append_self,
  append_assoc,
}
use clove.Prelude.Run.{returned}
use clove.Prelude.Bytes.{put_uint16, put_uint64, big_endian}
use clove.Network.Packet.{TextPacket, BinaryPacket, text, binary}
use clove.Network.WsFormat.{
  package_packet, parse_from_bytes, length_bytes, plain_text, plain_binary, get_frame_lengths,
  get_payload_data, parse_frames, check_finish_frame, check_finish_frame_loop,
}

frame_of : ℕ → List ℕ → List ℕ
frame_of b0 raw = b0 ∷ (length_bytes (length raw) ++ raw)

pub get_frame_lengths-frame :
    (b0 : ℕ) (raw rest : List ℕ)
    → length raw < 2 ^ 32
    → let h = suc (length (length_bytes (length raw))) in
      get_frame_lengths (b0 ∷ (length_bytes (length raw) ++ (raw ++ rest)))
      ≡ returned (h, some (h + length raw))
unfolding get_frame_lengths length_bytes
get_frame_lengths-frame b0 raw rest h = elim (Bool-cases (leb (length raw) 125)) [
  | inl s ↦
      let small = leb→le (length raw) 125 s in
      let e7 : length raw / 2 ^ 7 ≡ 0 = omega arith in
      let em : length raw % 2 ^ 7 ≡ length raw = omega arith in
      rw s (ground (arith, length-append raw rest))
  | inr s ↦ elim (Bool-cases (leb (length raw) 0xffff)) [
    | inl m ↦ rw (s, m) (ground (arith, length-append raw rest))
    | inr m ↦ rw (s, m) (ground (arith, length-append raw rest))
  ]
]

slice-append :
    (head raw rest : List ℕ)
    → drop (length head) (take (length head + length raw) (head ++ (raw ++ rest))) ≡ raw
slice-append [] raw rest =
    let e : 0 + length raw ≡ length raw = omega arith in rw e (take-append_self raw rest)
slice-append (x ∷ head) raw rest =
    let e : suc (length head) + length raw ≡ suc (length head + length raw) = omega arith in
    rw e (slice-append head raw rest)

length_bytes-lt : (n : ℕ) → 0 < length (length_bytes n)
unfolding length_bytes
length_bytes-lt n = ground arith

pub get_payload_data-frame :
    (b0 : ℕ) (raw rest : List ℕ)
    → let h = suc (length (length_bytes (length raw))) in
      get_payload_data (b0 ∷ (length_bytes (length raw) ++ (raw ++ rest))) h (h + length raw) ≡ raw
unfolding get_payload_data length_bytes
get_payload_data-frame b0 raw rest = elim (Bool-cases (leb (length raw) 125)) [
  | inl s ↦
      let e7 : (length raw / 2 ^ 7 == 1) ≡ false = ground arith in
      rw (s, e7) (slice-append (b0 ∷ length raw ∷ []) raw rest)
  | inr s ↦ elim (Bool-cases (leb (length raw) 0xffff)) [
    | inl m ↦
        rw (s, m) (slice-append (b0 ∷ 0x7e ∷ put_uint16 big_endian (length raw % 2 ^ 16)) raw rest)
    | inr m ↦ rw (s, m) (slice-append (b0 ∷ 0x7f ∷ put_uint64 big_endian (length raw)) raw rest)
  ]
]

pub frame_fits :
    (raw rest : List ℕ)
    → let h = length (length_bytes (length raw)) in
      let n = length (length_bytes (length raw) ++ (raw ++ rest)) in
      (ltb (suc n) 2 ≡ false)
      × (ltb (suc n) (suc h + length raw) ≡ false)
      × (0 + (suc h + length raw) ≡ suc (h + length raw))
frame_fits raw rest =
    let l1 = length_bytes-lt (length raw) in
    let l2 = length-append (length_bytes (length raw)) (raw ++ rest) in
    let l3 = length-append raw rest in (ground arith, ground arith, omega arith)

parse-text :
    (raw rest : List ℕ)
    → length raw < 2 ^ 32
    → parse_from_bytes (0x81 ∷ (length_bytes (length raw) ++ (raw ++ rest)))
      ≡ returned
          (none, some (plain_text raw), suc (length (length_bytes (length raw)) + length raw))
unfolding parse_from_bytes parse_frames check_finish_frame check_finish_frame_loop
parse-text raw rest h =
    let (two, fits, total) = frame_fits raw rest in
    rw (two, get_frame_lengths-frame 0x81 raw rest h, fits)
      (rw (get_payload_data-frame 0x81 raw rest, total) refl)

parse-binary :
    (raw rest : List ℕ)
    → length raw < 2 ^ 32
    → parse_from_bytes (0x82 ∷ (length_bytes (length raw) ++ (raw ++ rest)))
      ≡ returned
          (none, some (plain_binary raw), suc (length (length_bytes (length raw)) + length raw))
unfolding parse_from_bytes parse_frames check_finish_frame check_finish_frame_loop
parse-binary raw rest h =
    let (two, fits, total) = frame_fits raw rest in
    rw (two, get_frame_lengths-frame 0x82 raw rest h, fits)
      (rw (get_payload_data-frame 0x82 raw rest, total) refl)

-- A text packet and a binary packet of fewer than 2^32 bytes, packaged and followed by anything,
-- are read as a packet of the same bytes without a sender or flags, and no byte more is taken.
pub parse_from_bytes-package_packet :
    (t : TextPacket) (b : BinaryPacket) (rest : List ℕ)
    → length t.text < 2 ^ 32
    → length b.raw < 2 ^ 32
    → (parse_from_bytes ((package_packet (text t)).1 ++ rest)
        ≡ returned (none, some (plain_text t.text), length (package_packet (text t)).1))
      × (parse_from_bytes ((package_packet (binary b)).1 ++ rest)
          ≡ returned (none, some (plain_binary b.raw), length (package_packet (binary b)).1))
unfolding package_packet
parse_from_bytes-package_packet t b rest ht hb = (
  rw
      (
        append_assoc (length_bytes (length t.text)) t.text rest,
        length-append (length_bytes (length t.text)) t.text,
      )
      (parse-text t.text rest ht),
  rw
      (
        append_assoc (length_bytes (length b.raw)) b.raw rest,
        length-append (length_bytes (length b.raw)) b.raw,
      )
      (parse-binary b.raw rest hb),
)
