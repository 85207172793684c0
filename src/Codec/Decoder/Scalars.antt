-- ===== src/Codec/Decoder/Scalars.antt =====
-- codec/clove.go: what `Decode` reads back from each form that `Encode` writes for a scalar.
use clove.Prelude.{ℕ, suc, ◌+◌, ◌^◌, ◌<◌, ◌≡◌, none, List, ◌∷◌, ◌++◌, length, arith}
use clove.Prelude.Int.{pos, to_signed}
use clove.Prelude.Bytes.{
  ByteOrder, big_endian, little_endian, put_uint16, put_uint32, put_uint64, uint16-put_uint16,
  uint32-put_uint32, uint64-put_uint64,
}
use clove.Prelude.Run.{returned}
use clove.Codec.Value.{signed, unsigned, float32, float64, int, uint}
use clove.Codec.Decoder.{decode_fuel}

module _ (f : ℕ) (o : ByteOrder) where
  pub decode_tiny :
      (b : ℕ) (rest : List ℕ)
      → b < 128
      → decode_fuel (suc f) o (b ∷ rest) ≡ returned (none, signed int (pos b), rest)
  unfolding decode_fuel
  decode_tiny b rest h = ground arith

  pub decode_int8 :
      (b : ℕ) (rest : List ℕ)
      → length rest + 1 < 2 ^ 32
      → decode_fuel (suc f) o (0x81 ∷ b ∷ rest)
        ≡ returned (none, signed int (to_signed (2 ^ 7) (2 ^ 8) b), rest)
  unfolding decode_fuel
  decode_int8 b rest h = ground arith

  pub decode_uint8 :
      (b : ℕ) (rest : List ℕ)
      → length rest + 1 < 2 ^ 32
      → decode_fuel (suc f) o (0x82 ∷ b ∷ rest) ≡ returned (none, unsigned uint b, rest)
  unfolding decode_fuel
  decode_uint8 b rest h = ground arith

module _ (f : ℕ) where
  pub decode_int16 :
      (o : ByteOrder) (w : ℕ) (rest : List ℕ)
      → w < 2 ^ 16
      → length rest + 2 < 2 ^ 32
      → decode_fuel (suc f) o (0x83 ∷ (put_uint16 o w ++ rest))
        ≡ returned (none, signed int (to_signed (2 ^ 15) (2 ^ 16) w), rest)
  unfolding decode_fuel put_uint16
  decode_int16 big_endian w rest hw h = rw (uint16-put_uint16 big_endian w rest hw) (ground arith)
  decode_int16 little_endian w rest hw h =
      rw (uint16-put_uint16 little_endian w rest hw) (ground arith)

  pub decode_int32 :
      (o : ByteOrder) (w : ℕ) (rest : List ℕ)
      → w < 2 ^ 32
      → length rest + 4 < 2 ^ 32
      → decode_fuel (suc f) o (0x85 ∷ (put_uint32 o w ++ rest))
        ≡ returned (none, signed int (to_signed (2 ^ 31) (2 ^ 32) w), rest)
  unfolding decode_fuel put_uint32
  decode_int32 big_endian w rest hw h = rw (uint32-put_uint32 big_endian w rest hw) (ground arith)
  decode_int32 little_endian w rest hw h =
      rw (uint32-put_uint32 little_endian w rest hw) (ground arith)

  pub decode_int64 :
      (o : ByteOrder) (w : ℕ) (rest : List ℕ)
      → w < 2 ^ 64
      → length rest + 8 < 2 ^ 32
      → decode_fuel (suc f) o (0x87 ∷ (put_uint64 o w ++ rest))
        ≡ returned (none, signed int (to_signed (2 ^ 63) (2 ^ 64) w), rest)
  unfolding decode_fuel put_uint64
  decode_int64 big_endian w rest hw h = rw (uint64-put_uint64 big_endian w rest hw) (ground arith)
  decode_int64 little_endian w rest hw h =
      rw (uint64-put_uint64 little_endian w rest hw) (ground arith)

  pub decode_uint16 :
      (o : ByteOrder) (w : ℕ) (rest : List ℕ)
      → w < 2 ^ 16
      → length rest + 2 < 2 ^ 32
      → decode_fuel (suc f) o (0x84 ∷ (put_uint16 o w ++ rest))
        ≡ returned (none, unsigned uint w, rest)
  unfolding decode_fuel put_uint16
  decode_uint16 big_endian w rest hw h = rw (uint16-put_uint16 big_endian w rest hw) (ground arith)
  decode_uint16 little_endian w rest hw h =
      rw (uint16-put_uint16 little_endian w rest hw) (ground arith)

  pub decode_uint32 :
      (o : ByteOrder) (w : ℕ) (rest : List ℕ)
      → w < 2 ^ 32
      → length rest + 4 < 2 ^ 32
      → decode_fuel (suc f) o (0x86 ∷ (put_uint32 o w ++ rest))
        ≡ returned (none, unsigned uint w, rest)
  unfolding decode_fuel put_uint32
  decode_uint32 big_endian w rest hw h = rw (uint32-put_uint32 big_endian w rest hw) (ground arith)
  decode_uint32 little_endian w rest hw h =
      rw (uint32-put_uint32 little_endian w rest hw) (ground arith)

  pub decode_uint64 :
      (o : ByteOrder) (w : ℕ) (rest : List ℕ)
      → w < 2 ^ 64
      → length rest + 8 < 2 ^ 32
      → decode_fuel (suc f) o (0x88 ∷ (put_uint64 o w ++ rest))
        ≡ returned (none, unsigned uint w, rest)
  unfolding decode_fuel put_uint64
  decode_uint64 big_endian w rest hw h = rw (uint64-put_uint64 big_endian w rest hw) (ground arith)
  decode_uint64 little_endian w rest hw h =
      rw (uint64-put_uint64 little_endian w rest hw) (ground arith)

  pub decode_float32 :
      (o : ByteOrder) (w : ℕ) (rest : List ℕ)
      → w < 2 ^ 32
      → length rest + 4 < 2 ^ 32
      → decode_fuel (suc f) o (0x89 ∷ (put_uint32 o w ++ rest)) ≡ returned (none, float32 w, rest)
  unfolding decode_fuel put_uint32
  decode_float32 big_endian w rest hw h = rw (uint32-put_uint32 big_endian w rest hw) (ground arith)
  decode_float32 little_endian w rest hw h =
      rw (uint32-put_uint32 little_endian w rest hw) (ground arith)

  pub decode_float64 :
      (o : ByteOrder) (w : ℕ) (rest : List ℕ)
      → w < 2 ^ 64
      → length rest + 8 < 2 ^ 32
      → decode_fuel (suc f) o (0x8a ∷ (put_uint64 o w ++ rest)) ≡ returned (none, float64 w, rest)
  unfolding decode_fuel put_uint64
  decode_float64 big_endian w rest hw h = rw (uint64-put_uint64 big_endian w rest hw) (ground arith)
  decode_float64 little_endian w rest hw h =
      rw (uint64-put_uint64 little_endian w rest hw) (ground arith)
