-- ===== src/Codec/Encoder.antt =====
-- codec/clove.go: the headers and `EncoderClove`, on a platform where `int` has 64 bits.
use clove.Prelude.{
  ℕ, ◌+◌, ◌%◌, ◌^◌, true, false, ◌&&◌, List, [], ◌∷◌, ◌++◌, Option, none, some, bit_and, bit_or,
  leb, ◌==◌, if◌then◌else◌, length,
}
use clove.Prelude.Int.{ℤ, pos, negsuc, leb_ℤ, ltb_ℤ, to_unsigned}
use clove.Prelude.Bytes.{ByteOrder, put_uint16, put_uint32, put_uint64}
use clove.Codec.Value.{
  Value, nil_value, signed, unsigned, float32, float64, bool, str, bytes, map, slice, typed_map,
  typed_slice, other, Items, no_items, item, Entries, no_entries, entry, length_items,
}
use clove.Codec.DataType

pub data CodecError : Type 0 where
  dl_short dhl_short type_not_supported : CodecError

-- Go's pair of an error and the bytes.
abbrev Encoded : Type 0
Encoded = Option CodecError × List ℕ

unfoldable pub make_header : ℕ → ℕ → ℕ
make_header tp len_size =
    let h = bit_or 0x80 (bit_and tp 0x1f) in
    if len_size == 1
    then bit_or h 0x20
    else if len_size == 2
    then bit_or h 0x40
    else if len_size == 4
    then bit_or h 0x60
    else h

unfoldable pub make_header_and_length : ByteOrder → ℕ → ℕ → List ℕ
unfolding make_header put_uint16 put_uint32
make_header_and_length o tp len =
    if leb len 0xff
    then make_header tp 1 ∷ len % 2 ^ 8 ∷ []
    else if leb len 0xffff
    then make_header tp 2 ∷ put_uint16 o (len % 2 ^ 16)
    else make_header tp 4 ∷ put_uint32 o (len % 2 ^ 32)

-- The shortest form of a negative integer.
unfoldable pub encode_negative : ByteOrder → ℤ → List ℕ
unfolding make_header put_uint16 put_uint32 put_uint64
encode_negative o i =
    let u = to_unsigned (2 ^ 64) i in
    if leb_ℤ i (pos 127) && leb_ℤ (negsuc 127) i
    then make_header DataType.int8 0 ∷ u % 2 ^ 8 ∷ []
    else if leb_ℤ i (negsuc 128) && leb_ℤ (negsuc 32767) i
    then make_header DataType.int16 0 ∷ put_uint16 o (u % 2 ^ 16)
    else if ltb_ℤ i (negsuc 32767) && leb_ℤ (negsuc 2147483647) i
    then make_header DataType.int32 0 ∷ put_uint32 o (u % 2 ^ 32)
    else make_header DataType.int64 0 ∷ put_uint64 o u

-- The shortest form of an unsigned integer; one below 128 is its own header.
unfoldable pub encode_unsigned : ByteOrder → ℕ → List ℕ
unfolding make_header put_uint16 put_uint32 put_uint64
encode_unsigned o n =
    if leb n 0x7f
    then n % 2 ^ 8 ∷ []
    else if leb n 0xff
    then make_header DataType.uint8 0 ∷ n % 2 ^ 8 ∷ []
    else if leb n 0xffff
    then make_header DataType.uint16 0 ∷ put_uint16 o (n % 2 ^ 16)
    else if leb n 0xffffffff
    then make_header DataType.uint32 0 ∷ put_uint32 o (n % 2 ^ 32)
    else make_header DataType.uint64 0 ∷ put_uint64 o n

-- `isSign := intRawValue < 0`
unfoldable pub encode_signed : ByteOrder → ℤ → List ℕ
unfolding encode_negative encode_unsigned
encode_signed o i =
    if ltb_ℤ i (pos 0) then encode_negative o i else encode_unsigned o (to_unsigned (2 ^ 64) i)

-- A float of either width is stored by the size of its bit pattern.
unfoldable pub encode_float : ByteOrder → ℕ → List ℕ
unfolding make_header put_uint32 put_uint64
encode_float o u =
    if leb u 0xffffffff
    then make_header DataType.float32 0 ∷ put_uint32 o (u % 2 ^ 32)
    else make_header DataType.float64 0 ∷ put_uint64 o u

-- What `bytes.Join` finds in the slot of an element: nothing if the element failed.
abbrev emitted : Encoded → List ℕ
emitted (none, b) = b
emitted (some e, b) = []

-- The bytes of a key and its value, unless one of them failed.
abbrev join_pair : Encoded → Encoded → Option (List ℕ)
join_pair (some e, b) v = none
join_pair (none, b) (some e, c) = none
join_pair (none, b) (none, c) = some (b ++ c)

abbrev add_pair : Option (List ℕ) → ℕ × List ℕ → ℕ × List ℕ
add_pair none r = r
add_pair (some b) (i, c) = (i + 1, b ++ c)

-- On a typed map or slice with an element, `Elem` panics and the recovered call returns nils.
unfoldable mutual
  unfolding make_header make_header_and_length encode_unsigned encode_signed encode_float

  pub encode : ByteOrder → Value → Encoded
  encode o nil_value = (none, make_header DataType.nil 0 ∷ [])
  encode o (signed k i) = (none, encode_signed o i)
  encode o (unsigned k n) = (none, encode_unsigned o n)
  encode o (float32 u) = (none, encode_float o u)
  encode o (float64 u) = (none, encode_float o u)
  encode o (bool true) = (none, make_header DataType.true_value 0 ∷ [])
  encode o (bool false) = (none, make_header DataType.false_value 0 ∷ [])
  encode o (str s) = (none, make_header_and_length o DataType.string (length s) ++ s)
  encode o (bytes b) = (none, make_header_and_length o DataType.bytes (length b) ++ b)
  encode o (map es) =
      let r = encode_entries o es in (none, make_header_and_length o DataType.map r.0 ++ r.1)
  encode o (slice xs) =
      (none, make_header_and_length o DataType.list (length_items xs) ++ encode_items o xs)
  encode o (typed_map n) = (none, if n == 0 then make_header_and_length o DataType.map 0 else [])
  encode o (typed_slice n) = (none, if n == 0 then make_header_and_length o DataType.list 0 else [])
  encode o other = (some type_not_supported, [])

  pub encode_items : ByteOrder → Items → List ℕ
  encode_items o no_items = []
  encode_items o (item v xs) = emitted (encode o v) ++ encode_items o xs

  pub encode_entries : ByteOrder → Entries → ℕ × List ℕ
  encode_entries o no_entries = (0, [])
  encode_entries o (entry k v es) =
      add_pair (join_pair (encode o k) (encode o v)) (encode_entries o es)
