-- ===== src/Codec/Decoder/Header.antt =====
-- codec/clove.go: the header byte, as `makeHeader` packs it and `Decode` takes it apart.
use clove.Prelude.{
  ℕ, suc, ◌/◌, ◌%◌, ◌^◌, ◌<◌, Bool, true, ◌&&◌, ◌≤◌, length, ◌≡◌, refl, none, some, List, [], ◌∷◌,
  ◌++◌, arith, ◌==◌, leb, bit_and, ◌⊎◌, inl, inr, Bool-cases, if◌then◌else◌,
}
use clove.Prelude.Bits.{holds_below, holds_below_at}
use clove.Prelude.Bytes.{
  ByteOrder, big_endian, little_endian, put_uint16, put_uint32, uint16-put_uint16,
  uint32-put_uint32,
}
use clove.Prelude.Run.{Run, recover}
use clove.Codec.Value.{nil_value}
use clove.Codec.Encoder.{make_header, make_header_and_length}
use clove.Codec.Decoder.{Decoded, read_count, decode_counted, decode_body, decode_fuel}

-- The two low bits above the element type, for a length of so many bytes.
abbrev size_code : ℕ → ℕ
size_code n = if n == 4 then 3 else n

abbrev header_reads : ℕ → ℕ → Bool
header_reads size tp =
    let h = make_header tp size in
    h / 2 ^ 7 == 1 && (bit_and h 0x1f == tp && bit_and (h / 2 ^ 5) 0x3 == size_code size)

abbrev HeaderReads : ℕ → ℕ → Type 0
HeaderReads size tp =
    let h = make_header tp size in
    (h / 2 ^ 7 ≡ 1) × (bit_and h 0x1f ≡ tp) × (bit_and (h / 2 ^ 5) 0x3 ≡ size_code size)

HeaderReads-of : (size tp : ℕ) → header_reads size tp ≡ true → HeaderReads size tp
HeaderReads-of size tp h = ground arith

-- A header keeps an element type below 32 and the size of the length: the top bit is set, and the
-- two masks of the decoder read the type and the code of the size (0, 1, 2, or 3 for four bytes).
header_fields :
    (tp : ℕ) → tp < 32 → HeaderReads 0 tp × HeaderReads 1 tp × HeaderReads 2 tp × HeaderReads 4 tp
unfolding holds_below make_header
header_fields tp h = (
  HeaderReads-of 0 tp (holds_below_at 32 tp (header_reads 0) h refl),
  HeaderReads-of 1 tp (holds_below_at 32 tp (header_reads 1) h refl),
  HeaderReads-of 2 tp (holds_below_at 32 tp (header_reads 2) h refl),
  HeaderReads-of 4 tp (holds_below_at 32 tp (header_reads 4) h refl),
)

read_count_2 :
    (o : ByteOrder) (n tp h : ℕ) (body : List ℕ)
    → n < 2 ^ 16
    → read_count o 2 tp (h ∷ (put_uint16 o n ++ body)) ≡ some (body, n)
unfolding read_count put_uint16
read_count_2 big_endian n tp h body fits =
    rw (uint16-put_uint16 big_endian n body fits) (ground arith)
read_count_2 little_endian n tp h body fits =
    rw (uint16-put_uint16 little_endian n body fits) (ground arith)

read_count_4 :
    (o : ByteOrder) (n tp h : ℕ) (body : List ℕ)
    → n < 2 ^ 32
    → read_count o 3 tp (h ∷ (put_uint32 o n ++ body)) ≡ some (body, n)
unfolding read_count put_uint32
read_count_4 big_endian n tp h body fits =
    rw (uint32-put_uint32 big_endian n body fits) (ground arith)
read_count_4 little_endian n tp h body fits =
    rw (uint32-put_uint32 little_endian n body fits) (ground arith)

make_header_and_length_cases :
    (o : ByteOrder) (tp n : ℕ)
    → n < 2 ^ 32
    → ((n < 2 ^ 8) × (make_header_and_length o tp n ≡ make_header tp 1 ∷ n ∷ []))
      ⊎ ((n < 2 ^ 16) × (make_header_and_length o tp n ≡ make_header tp 2 ∷ put_uint16 o n))
      ⊎ (make_header_and_length o tp n ≡ make_header tp 4 ∷ put_uint32 o n)
unfolding make_header_and_length
make_header_and_length_cases o tp n h = elim (Bool-cases (leb n 0xff)) [
  | inl e ↦ inl (ground arith, rw e (ground arith))
  | inr e ↦ elim (Bool-cases (leb n 0xffff)) [
    | inl e' ↦
        let fits : n % 2 ^ 16 ≡ n = ground arith in inr (inl (ground arith, rw (e, e', fits) refl))
    | inr e' ↦ let fits : n % 2 ^ 32 ≡ n = ground arith in inr (inr (rw (e, e', fits) refl))
  ]
]

-- One round of `Decode` behind a header whose length takes 1, 2 or 4 bytes.
module _ (f : ℕ) (o : ByteOrder) (tp : ℕ) (small : tp < 32) (n : ℕ) (body : List ℕ) where
  abbrev counted : List ℕ → Run Decoded
  counted raw =
      recover (none, nil_value, []) (decode_counted o (decode_fuel f o) raw tp (some (body, n)))

  decode_header_1 : let raw = make_header tp 1 ∷ n ∷ body in decode_fuel (suc f) o raw ≡ counted raw
  unfolding decode_fuel decode_body read_count
  decode_header_1 =
      let (h0, h1, h2, h4) = header_fields tp small in rw (h1.0, h1.1, h1.2) (ground arith)

  decode_header_2 :
      n < 2 ^ 16
      → let raw = make_header tp 2 ∷ (put_uint16 o n ++ body) in
        decode_fuel (suc f) o raw ≡ counted raw
  unfolding decode_fuel decode_body read_count
  decode_header_2 fits =
      let (h0, h1, h2, h4) = header_fields tp small in
      rw (h2.0, h2.1, h2.2, read_count_2 o n tp (make_header tp 2) body fits) refl

  decode_header_4 :
      n < 2 ^ 32
      → let raw = make_header tp 4 ∷ (put_uint32 o n ++ body) in
        decode_fuel (suc f) o raw ≡ counted raw
  unfolding decode_fuel decode_body read_count
  decode_header_4 fits =
      let (h0, h1, h2, h4) = header_fields tp small in
      rw (h4.0, h4.1, h4.2, read_count_4 o n tp (make_header tp 4) body fits) refl

  -- Behind the header of a length below 2 ^ 32, `Decode` goes on with the type and the length.
  pub decode_header :
      n < 2 ^ 32
      → let raw = make_header_and_length o tp n ++ body in decode_fuel (suc f) o raw ≡ counted raw
  decode_header fits = elim (make_header_and_length_cases o tp n fits) [
    | inl (_, e) ↦ rw e decode_header_1
    | inr (inl (h, e)) ↦ rw e (decode_header_2 h)
    | inr (inr e) ↦ rw e (decode_header_4 fits)
  ]

pub length-header : (o : ByteOrder) (tp n : ℕ) → 1 ≤ length (make_header_and_length o tp n)
unfolding make_header_and_length
length-header o tp n = ground arith
