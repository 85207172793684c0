-- ===== src/Codec/RoundTrip/Numbers.antt =====
-- codec/clove.go: every integer and every float is read back from the shortest form written for it.
use clove.Prelude.{
  ℕ, suc, ◌+◌, ◌-◌, ◌%◌, ◌^◌, ◌<◌, ◌≤◌, ◌⊎◌, inl, inr, ◌≡◌, refl, none, List, [], ◌∷◌, ◌++◌, length,
  arith, leb, Bool-cases,
}
use clove.Prelude.Int.{ℤ, pos, negsuc, to_signed, IsInt64}
use clove.Prelude.Bytes.{ByteOrder, big_endian, little_endian, put_uint16, put_uint32, put_uint64}
use clove.Prelude.Run.{returned}
use clove.Codec.Value.{Value, signed, int}
use clove.Codec.Encoder.{encode_negative, encode_unsigned, encode_signed, encode_float}
use clove.Codec.Decoder.{decode_fuel}
use clove.Codec.Decoder.Scalars.{
  decode_tiny, decode_int8, decode_uint8, decode_int16, decode_uint16, decode_int32, decode_uint32,
  decode_int64, decode_uint64, decode_float32, decode_float64,
}
use clove.Codec.Canonical.{canonical_uint, canonical_int, canonical_float}

-- On any fuel, `Decode` reads the value off the front of the bytes and leaves the rest.
abbrev pub Reads : ByteOrder → List ℕ → Value → Type 0
Reads o b v =
    (f : ℕ) (rest : List ℕ)
    → length (b ++ rest) < 2 ^ 32
    → decode_fuel (suc f) o (b ++ rest) ≡ returned (none, v, rest)

length-put_uint16 :
    (o : ByteOrder) (w : ℕ) (r : List ℕ) → length (put_uint16 o w ++ r) ≡ length r + 2
unfolding put_uint16
length-put_uint16 big_endian w r = omega arith
length-put_uint16 little_endian w r = omega arith

length-put_uint32 :
    (o : ByteOrder) (w : ℕ) (r : List ℕ) → length (put_uint32 o w ++ r) ≡ length r + 4
unfolding put_uint32
length-put_uint32 big_endian w r = omega arith
length-put_uint32 little_endian w r = omega arith

length-put_uint64 :
    (o : ByteOrder) (w : ℕ) (r : List ℕ) → length (put_uint64 o w ++ r) ≡ length r + 8
unfolding put_uint64
length-put_uint64 big_endian w r = omega arith
length-put_uint64 little_endian w r = omega arith

-- The five forms of an unsigned integer.
encode_unsigned_cases :
    (o : ByteOrder) (n : ℕ)
    → ((n < 2 ^ 7) × (encode_unsigned o n ≡ n ∷ []))
      ⊎ ((2 ^ 7 ≤ n) × (encode_unsigned o n ≡ 0x82 ∷ n ∷ []))
      ⊎ ((2 ^ 7 ≤ n) × (n < 2 ^ 16) × (encode_unsigned o n ≡ 0x84 ∷ put_uint16 o n))
      ⊎ ((2 ^ 7 ≤ n) × (n < 2 ^ 32) × (encode_unsigned o n ≡ 0x86 ∷ put_uint32 o n))
      ⊎ ((2 ^ 7 ≤ n) × (encode_unsigned o n ≡ 0x88 ∷ put_uint64 o n))
unfolding encode_unsigned
encode_unsigned_cases o n = ground arith

-- A value that is not tiny keeps its kind `uint`.
pub encode_unsigned-Reads :
    (o : ByteOrder) (n : ℕ) → n < 2 ^ 64 → Reads o (encode_unsigned o n) (canonical_uint n)
encode_unsigned-Reads o n fits f rest = elim (encode_unsigned_cases o n) [
  | inl (h, e) ↦ rw e (λ l. rw (decode_tiny f o n rest h) (ground arith))
  | inr (inl (h, e)) ↦ rw e (λ l. rw (decode_uint8 f o n rest (omega arith)) (ground arith))
  | inr (inr (inl (h, k, e))) ↦ rw e (λ l.
      rw (decode_uint16 f o n rest k (omega (arith, length-put_uint16 o n rest))) (ground arith))
  | inr (inr (inr (inl (h, k, e)))) ↦ rw e (λ l.
      rw (decode_uint32 f o n rest k (omega (arith, length-put_uint32 o n rest))) (ground arith))
  | inr (inr (inr (inr (h, e)))) ↦ rw e (λ l.
      rw (decode_uint64 f o n rest fits (omega (arith, length-put_uint64 o n rest))) (ground arith))
]

-- The four forms of a negative integer -(n + 1).
encode_negative_cases :
    (o : ByteOrder) (n : ℕ)
    → n < 2 ^ 63
    → ((n < 2 ^ 7) × (encode_negative o (negsuc n) ≡ 0x81 ∷ (2 ^ 8 - 1 - n) ∷ []))
      ⊎ ((n < 2 ^ 15) × (encode_negative o (negsuc n) ≡ 0x83 ∷ put_uint16 o (2 ^ 16 - 1 - n)))
      ⊎ ((n < 2 ^ 31) × (encode_negative o (negsuc n) ≡ 0x85 ∷ put_uint32 o (2 ^ 32 - 1 - n)))
      ⊎ (encode_negative o (negsuc n) ≡ 0x87 ∷ put_uint64 o (2 ^ 64 - 1 - n))
unfolding encode_negative
encode_negative_cases o n h = ground arith

to_signed_negative :
    (half m n : ℕ) → n < half → m ≡ half + half → to_signed half m (m - 1 - n) ≡ negsuc n
to_signed_negative half m n h e = ground arith

encode_negative-Reads :
    (o : ByteOrder) (n : ℕ)
    → n < 2 ^ 63
    → Reads o (encode_negative o (negsuc n)) (signed int (negsuc n))
encode_negative-Reads o n fits f rest = elim (encode_negative_cases o n fits) [
  | inl (h, e) ↦ rw e (λ l.
      rw
        (
          decode_int8 f o (2 ^ 8 - 1 - n) rest (omega arith),
          to_signed_negative (2 ^ 7) (2 ^ 8) n h refl,
        )
        refl)
  | inr (inl (h, e)) ↦ rw e (λ l.
      rw
        (
          decode_int16 f o (2 ^ 16 - 1 - n) rest (omega arith)
              (omega (arith, length-put_uint16 o (2 ^ 16 - 1 - n) rest)),
          to_signed_negative (2 ^ 15) (2 ^ 16) n h refl,
        )
        refl)
  | inr (inr (inl (h, e))) ↦ rw e (λ l.
      rw
        (
          decode_int32 f o (2 ^ 32 - 1 - n) rest (omega arith)
              (omega (arith, length-put_uint32 o (2 ^ 32 - 1 - n) rest)),
          to_signed_negative (2 ^ 31) (2 ^ 32) n h refl,
        )
        refl)
  | inr (inr (inr e)) ↦ rw e (λ l.
      rw
        (
          decode_int64 f o (2 ^ 64 - 1 - n) rest (omega arith)
              (omega (arith, length-put_uint64 o (2 ^ 64 - 1 - n) rest)),
          to_signed_negative (2 ^ 63) (2 ^ 64) n fits refl,
        )
        refl)
]

encode_signed_pos :
    (o : ByteOrder) (n : ℕ) → n < 2 ^ 63 → encode_signed o (pos n) ≡ encode_unsigned o n
unfolding encode_signed
encode_signed_pos o n h = let e : n % 2 ^ 64 ≡ n = omega arith in rw e (ground arith)

encode_signed_negsuc :
    (o : ByteOrder) (n : ℕ) → encode_signed o (negsuc n) ≡ encode_negative o (negsuc n)
unfolding encode_signed
encode_signed_negsuc o n = ground arith

pub encode_signed-Reads :
    (o : ByteOrder) (i : ℤ) → IsInt64 i → Reads o (encode_signed o i) (canonical_int i)
encode_signed-Reads o (pos n) h =
    rw (encode_signed_pos o n h) (encode_unsigned-Reads o n (omega arith))
encode_signed-Reads o (negsuc n) h = rw (encode_signed_negsuc o n) (encode_negative-Reads o n h)

pub encode_float-Reads :
    (o : ByteOrder) (u : ℕ) → u < 2 ^ 64 → Reads o (encode_float o u) (canonical_float u)
unfolding encode_float
encode_float-Reads o u fits f rest = elim (Bool-cases (leb u 0xffffffff)) [
  | inl e ↦
      let whole : u % 2 ^ 32 ≡ u = ground arith in
      rw (e, whole)
        (λ l.
          rw (decode_float32 f o u rest (ground arith) (omega (arith, length-put_uint32 o u rest)))
            (ground arith))
  | inr e ↦ rw e (λ l.
      rw (decode_float64 f o u rest fits (omega (arith, length-put_uint64 o u rest)))
        (ground arith))
]
