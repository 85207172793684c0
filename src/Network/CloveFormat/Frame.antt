-- ===== src/Network/CloveFormat/Frame.antt =====
-- network/clove.go: one frame, as `Package` writes it and `ParseFromBytes` reads it.
use clove.Prelude.{
  ℕ, suc, ◌+◌, ◌*◌, ◌/◌, ◌%◌, ◌^◌, ◌<◌, ◌≤◌, Bool, true, false, ◌∙◌, ◌≡◌, refl, none, some, List,
  [], ◌∷◌, ◌++◌, length, take, drop, bit_and, bit_or, ==_iff, append_assoc, length-append, ◌==◌,
  arith, take-append_self,
}
use clove.Prelude.Bytes.{big_endian, put_uint32}
use clove.Prelude.Bits.{holds_below, holds_below_at, bit_or_sum, bit_and_low}
use clove.Network.CloveFormat.{
  refused, header_word, flag, package_word, package_packet, parse_frame, parse_from_bytes,
  mask_feature, mask_encrypt, mask_compressed, mask_compress_support,
}
use clove.Network.Packet.{not_ready, BinaryPacket, binary, packet_max_length}
use clove.Base.Bit.{test_mask}

-- A packet whose protocol fits its two half bytes and whose frame fits the length field.
abbrev pub IsFramable : BinaryPacket → Type 0
IsFramable p =
    (p.protocol_type < 16) × (p.protocol_ver < 16) × (length p.raw + 5 ≤ packet_max_length)

abbrev pub flag_byte : Bool → Bool → Bool → ℕ
flag_byte e s c =
    bit_or mask_feature
      (flag e mask_encrypt (flag s mask_compress_support (flag c mask_compressed 0)))

pub flag_byte_fields :
    (e s c : Bool)
    → (bit_and (flag_byte e s c) mask_feature ≡ mask_feature)
      × (test_mask (flag_byte e s c) mask_encrypt ≡ e)
      × (test_mask (flag_byte e s c) mask_compress_support ≡ s)
      × (test_mask (flag_byte e s c) mask_compressed ≡ c)
unfolding test_mask
flag_byte_fields true true true = (refl, refl, refl, refl)
flag_byte_fields true true false = (refl, refl, refl, refl)
flag_byte_fields true false true = (refl, refl, refl, refl)
flag_byte_fields true false false = (refl, refl, refl, refl)
flag_byte_fields false true true = (refl, refl, refl, refl)
flag_byte_fields false true false = (refl, refl, refl, refl)
flag_byte_fields false false true = (refl, refl, refl, refl)
flag_byte_fields false false false = (refl, refl, refl, refl)

abbrev protocol_test : ℕ → Bool
protocol_test x = bit_or (x / 16 * 2 ^ 4 % 2 ^ 8) (x % 16) == x

protocol_table : holds_below 256 protocol_test ≡ true
unfolding holds_below
protocol_table = refl

protocol_byte : (t v : ℕ) → t < 16 → v < 16 → bit_or (t * 2 ^ 4 % 2 ^ 8) v ≡ t * 16 + v
protocol_byte t v ht hv =
    let x : ℕ = t * 16 + v in
    let et : x / 16 ≡ t = omega arith in
    let ev : x % 16 ≡ v = omega arith in
    let test : protocol_test x ≡ true =
      holds_below_at 256 x protocol_test (omega arith) protocol_table in
    rw (et, ev) at ((==_iff _ x).0 test)

pub package_word-fields :
    (p : BinaryPacket)
    → IsFramable p
    → package_word p ≡ (p.protocol_type * 16 + p.protocol_ver) * 2 ^ 24 + (length p.raw + 5)
unfolding package_word
package_word-fields p (ht, hv, hl) =
    let e : (length p.raw % 2 ^ 32 + 5) % 2 ^ 32 ≡ length p.raw + 5 = omega arith in
    rw
      (
        protocol_byte p.protocol_type p.protocol_ver ht hv,
        e,
        bit_or_sum 24 (p.protocol_type * 16 + p.protocol_ver) (length p.raw + 5) (omega arith),
      )
      refl

pub package_word-lt : (p : BinaryPacket) → IsFramable p → package_word p < 2 ^ 32
package_word-lt p (ht, hv, hl) = omega (arith, package_word-fields p (ht, hv, hl))

pub header_word-put_uint32 :
    (op w : ℕ) (r : List ℕ)
    → w < 2 ^ 32
    → header_word (op ∷ (put_uint32 big_endian w ++ r)) ≡ some (op, w)
unfolding put_uint32
header_word-put_uint32 op w r h = ground arith

-- The fields that `ParseFromBytes` takes out of a word.
pub word_fields :
    (t v l : ℕ)
    → t < 16
    → v < 16
    → l < 2 ^ 24
    → let w = (t * 16 + v) * 2 ^ 24 + l in
      (bit_and w packet_max_length ≡ l)
      × (bit_and (w / 2 ^ 28) 0xf ≡ t)
      × (bit_and (w / 2 ^ 24) 0xf ≡ v)
word_fields t v l ht hv hl =
    let top : ((t * 16 + v) * 2 ^ 24 + l) / 2 ^ 28 ≡ 0 * 2 ^ 4 + t = omega arith in
    let mid : ((t * 16 + v) * 2 ^ 24 + l) / 2 ^ 24 ≡ t * 2 ^ 4 + v = omega arith in
    (bit_and_low 24 (t * 16 + v) l hl, rw top (bit_and_low 4 0 t ht), rw mid (bit_and_low 4 t v hv))

abbrev pub without_from : BinaryPacket → BinaryPacket
without_from p = record p { from = [] }

take_frame :
    (a b c d e : ℕ) (xs ys : List ℕ)
    → drop 5 (take (length xs + 5) (a ∷ b ∷ c ∷ d ∷ e ∷ (xs ++ ys))) ≡ xs
take_frame a b c d e xs ys =
    let n : length xs + 5 ≡ suc (suc (suc (suc (suc (length xs))))) = omega arith in
    rw n (take-append_self xs ys)

parse_frame-package :
    (p : BinaryPacket) (rest : List ℕ)
    → IsFramable p
    → let op = flag_byte p.encrypted p.compress_support p.compressed in
      let body = put_uint32 big_endian (package_word p) ++ (p.raw ++ rest) in
      parse_frame (op ∷ body) op (package_word p)
      ≡ (none, some (binary (without_from p)), length p.raw + 5)
unfolding parse_frame put_uint32
parse_frame-package p rest (ht, hv, hl) =
    let (fm, fe, fs, fc) = flag_byte_fields p.encrypted p.compress_support p.compressed in
    let (wl, wt, wv) =
      word_fields p.protocol_type p.protocol_ver (length p.raw + 5) ht hv (omega arith) in
    let mt : p.protocol_type % 2 ^ 8 ≡ p.protocol_type = omega arith in
    let mv : p.protocol_ver % 2 ^ 8 ≡ p.protocol_ver = omega arith in
    rw (package_word-fields p (ht, hv, hl), wl, wt, wv, fm, fe, fs, fc)
      (unfold put_uint32 in
        rw (mt, mv, take_frame _ _ _ _ _ p.raw rest) (ground (arith, length-append p.raw rest)))

pub parse_from_bytes-of :
    (input : List ℕ) (op word : ℕ)
    → header_word input ≡ some (op, word)
    → parse_from_bytes input ≡ parse_frame input op word
unfolding parse_from_bytes
parse_from_bytes-of input op word e = rw (e, parse_from_bytes) refl

pub parse_from_bytes-none :
    (input : List ℕ) → header_word input ≡ none → parse_from_bytes input ≡ refused not_ready
unfolding parse_from_bytes
parse_from_bytes-none input e = rw (e, parse_from_bytes) refl

-- The bytes of a packet with what follows them.
pub frame_split :
    (p : BinaryPacket) (rest : List ℕ)
    → (package_packet (binary p)).1 ++ rest
      ≡ flag_byte p.encrypted p.compress_support p.compressed
        ∷ (put_uint32 big_endian (package_word p) ++ (p.raw ++ rest))
unfolding package_packet
frame_split p rest = rw (append_assoc (put_uint32 big_endian (package_word p)) p.raw rest) refl

-- A packet whose protocol fits two half bytes and whose frame fits the length field is packaged
-- without an error, and `ParseFromBytes` of the bytes, whatever follows them, returns no error, the
-- packet with no sender, and the length of the frame.
pub parse-package :
    (p : BinaryPacket) (rest : List ℕ)
    → IsFramable p
    → ((package_packet (binary p)).0 ≡ none)
      × (parse_from_bytes ((package_packet (binary p)).1 ++ rest)
          ≡ (none, some (binary (without_from p)), length p.raw + 5))
parse-package p rest h = (
  unfold package_packet in refl,
  rw (frame_split p rest) (
      parse_from_bytes-of _ _ (package_word p)
        (header_word-put_uint32 _ (package_word p) (p.raw ++ rest) (package_word-lt p h))
      ∙ parse_frame-package p rest h),
)
