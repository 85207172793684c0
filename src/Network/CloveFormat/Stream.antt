-- ===== src/Network/CloveFormat/Stream.antt =====
-- network/clove.go: `ParseFromBuffer` on a stream of frames, however it is cut into reads.
use clove.Prelude.{
  ℕ, zero, suc, ◌+◌, ◌*◌, ◌<◌, true, false, ◌⊎◌, inl, inr, ◌≡◌, refl, ◌∙◌, none, some, List, [],
  ◌∷◌, ◌++◌, length, bit_and, ltb, ◌==◌, arith, append_assoc, append-nil, length-append, All,
  take-append_self, drop-append_self,
}
use clove.Prelude.Bytes.{lengths, put_uint32}
use clove.Base.Buffer.{next, peek, len}
use clove.Prelude.Run.{returned}
use clove.Prelude.{ap}
use clove.Network.CloveFormat.{loop_returned}
use clove.Network.Packet.{BinaryPacket, Packet, binary, packet_max_length}
use clove.Network.CloveFormat.{
  header_word, package_word, package_packet, parse_from_bytes, parse_loop, parse_from_buffer,
  header_length,
}
use clove.Prelude.Bits.{bit_and_low}
use clove.Network.CloveFormat.Frame.{
  flag_byte, package_word-fields, IsFramable, without_from, parse-package, frame_split,
  package_word-lt, header_word-put_uint32,
}

abbrev pub frame : BinaryPacket → List ℕ
frame p = (package_packet (binary p)).1

abbrev pub frames : List BinaryPacket → List ℕ
frames [] = []
frames (p ∷ ps) = frame p ++ frames ps

abbrev pub packets : List BinaryPacket → List Packet
packets [] = []
packets (p ∷ ps) = binary (without_from p) ∷ packets ps

-- Too short for a header, or shorter than its header says.
abbrev pub IsIncomplete : List ℕ → Type 0
IsIncomplete b =
    (header_word b ≡ none)
    ⊎ ((op word : ℕ) × (header_word b ≡ some (op, word))
        × (length b < bit_and word packet_max_length))

pub header_word-peek : (b : List ℕ) → header_word (peek header_length b).0 ≡ header_word b
unfolding peek
header_word-peek [] = refl
header_word-peek (a ∷ []) = refl
header_word-peek (a ∷ b ∷ []) = refl
header_word-peek (a ∷ b ∷ c ∷ []) = refl
header_word-peek (a ∷ b ∷ c ∷ d ∷ []) = refl
header_word-peek (a ∷ b ∷ c ∷ d ∷ e ∷ r) = ground arith

-- One round of the loop on a frame that is complete.
parse_loop_round :
    (f : ℕ) (x rest : List ℕ) (acc : List Packet) (op word : ℕ) (p : Packet)
    → header_word (x ++ rest) ≡ some (op, word)
    → bit_and word packet_max_length ≡ length x
    → parse_from_bytes x ≡ (none, some p, length x)
    → parse_loop (suc f) (x ++ rest) acc ≡ parse_loop f rest (acc ++ (p ∷ []))
unfolding parse_loop len next
parse_loop_round f x rest acc op word p eh el ep =
    let whole : ltb (length (x ++ rest)) (length x) ≡ false =
      ground (arith, length-append x rest) in
    let same : (length x == length x) ≡ true = ground arith in
    rw (header_word-peek (x ++ rest) ∙ eh, parse_loop)
      (rw (el, whole, same, take-append_self x rest, drop-append_self x rest, ep) refl)

parse_loop_incomplete :
    (f : ℕ) (b : List ℕ) (acc : List Packet)
    → IsIncomplete b
    → parse_loop (suc f) b acc ≡ returned (none, acc, b)
unfolding parse_loop len next
parse_loop_incomplete f b acc (inl e) = rw (header_word-peek b ∙ e, parse_loop) refl
parse_loop_incomplete f b acc (inr (op, word, e, l)) =
    let short : ltb (length b) (bit_and word packet_max_length) ≡ true = ground arith in
    rw (header_word-peek b ∙ e, parse_loop) (rw short refl)

pub length-frame : (p : BinaryPacket) → length (frame p) ≡ length p.raw + 5
unfolding package_packet put_uint32
length-frame p = omega arith

pub header_word-frame :
    (p : BinaryPacket) (rest : List ℕ)
    → IsFramable p
    → header_word (frame p ++ rest)
      ≡ some (flag_byte p.encrypted p.compress_support p.compressed, package_word p)
header_word-frame p rest h =
    rw (frame_split p rest)
      (header_word-put_uint32 _ (package_word p) (p.raw ++ rest) (package_word-lt p h))

pub frame-header :
    (p : BinaryPacket) (rest : List ℕ)
    → IsFramable p
    → (op : ℕ) × (header_word (frame p ++ rest) ≡ some (op, package_word p))
      × (bit_and (package_word p) packet_max_length ≡ length (frame p))
frame-header p rest (ht, hv, hl) = (
  flag_byte p.encrypted p.compress_support p.compressed,
  header_word-frame p rest (ht, hv, hl),
  rw (package_word-fields p (ht, hv, hl), length-frame p)
      (bit_and_low 24 (p.protocol_type * 16 + p.protocol_ver) (length p.raw + 5) (omega arith)),
)

frame-parse :
    (p : BinaryPacket)
    → IsFramable p
    → parse_from_bytes (frame p) ≡ (none, some (binary (without_from p)), length (frame p))
frame-parse p h = rw (length-frame p) (rw append-nil at ((parse-package p [] h).1))

parse_loop-frames :
    (f : ℕ) (ps : List BinaryPacket) (tail : List ℕ) (acc : List Packet)
    → All IsFramable ps
    → IsIncomplete tail
    → length (frames ps ++ tail) < f
    → parse_loop f (frames ps ++ tail) acc ≡ returned (none, acc ++ packets ps, tail)
parse_loop-frames zero [] tail acc h t l = absurd (omega arith)
parse_loop-frames (suc f) [] tail acc h t l = rw append-nil (parse_loop_incomplete f tail acc t)
parse_loop-frames zero (p ∷ ps) tail acc h t l = absurd (omega arith)
parse_loop-frames (suc f) (p ∷ ps) tail acc (hp, h) t l =
    let (op, eh, el) = frame-header p (frames ps ++ tail) hp in
    rw (append_assoc (frame p) (frames ps) tail) (
      parse_loop_round f (frame p) (frames ps ++ tail) acc op (package_word p)
        (binary (without_from p)) eh el (frame-parse p hp)
      ∙ parse_loop-frames f ps tail (acc ++ (binary (without_from p) ∷ [])) h t
          (omega (lengths, length-frame p))
      ∙ rw (append_assoc acc (binary (without_from p) ∷ []) (packets ps)) refl)

-- `ParseFromBuffer` of whole frames with an incomplete one behind them returns no error and the
-- packets in order, and leaves the incomplete frame in the buffer.
pub parse_from_buffer-frames :
    (ps : List BinaryPacket) (tail : List ℕ)
    → All IsFramable ps
    → IsIncomplete tail
    → parse_from_buffer (frames ps ++ tail) ≡ (none, packets ps, tail)
unfolding parse_from_buffer
parse_from_buffer-frames ps tail h t =
    ap (loop_returned (frames ps ++ tail))
      (parse_loop-frames (suc (length (frames ps ++ tail))) ps tail [] h t (omega arith))
