-- ===== src/Codec/Decoder.antt =====
-- codec/clove.go: `DecoderClove`, on a platform where `int` has 64 bits.
-- `Decode` recovers from its panics, so a panic is a return of the three zero values.
pub mod Header
pub mod Scalars
pub mod Total
use clove.Prelude.{
  ℕ, zero, suc, ◌+◌, ◌*◌, ◌-◌, ◌/◌, ◌%◌, ◌^◌, Bool, true, false, ◌&&◌, ◌||◌, not, Option, none,
  some, bit_and, leb, ltb, ◌==◌, if◌then◌else◌, length, get_elem?, List, [], ◌∷◌, take, drop,
}
use clove.Prelude.Int.{ℤ, pos, negsuc, to_signed}
use clove.Prelude.Bytes.{ByteOrder, uint16, uint32, uint64}
use clove.Prelude.Run.{Run, returned, panicked, out_of_fuel, ◌>>=◌, recover}
use clove.Codec.Value.{
  Value, nil_value, signed, unsigned, float32, float64, bool, str, bytes, map, slice, int, uint,
  Items, no_items, item, Entries, no_entries, is_hashable, assign,
}
use clove.Codec.Encoder.{CodecError, dl_short, dhl_short}
use clove.Codec.DataType
use clove.Prelude.Decimal.{parse_int}
use mathlib.Core.Option

-- The error, the value and the bytes that remain.
abbrev pub Decoded : Type 0
Decoded = Option CodecError × Value × List ℕ

abbrev pub fail : CodecError → Decoded
fail e = (some e, nil_value, [])

unfoldable calculate_clove_type_size : ℕ → ℕ
calculate_clove_type_size tp =
    if tp == DataType.int8 || tp == DataType.uint8
    then 1
    else if tp == DataType.int16 || tp == DataType.uint16
    then 2
    else if tp == DataType.float32 || tp == DataType.int32 || tp == DataType.uint32
    then 4
    else if tp == DataType.float64 || tp == DataType.int64 || tp == DataType.uint64
    then 8
    else 0

-- The data behind the header and the element count, or `none` for a header that is cut off.
unfoldable pub read_count : ByteOrder → ℕ → ℕ → List ℕ → Option (List ℕ × ℕ)
unfolding calculate_clove_type_size
read_count o len_size_type tp raw =
    if len_size_type == 1
    then if ltb (length raw) 2 then none else Option.map (λ c. (drop 2 raw, c)) (get_elem? raw 1)
    else if len_size_type == 2
    then if ltb (length raw) 3
      then none
      else Option.map (λ c. (drop 3 raw, c)) (uint16 o (drop 1 raw))
    else if len_size_type == 3
    then if ltb (length raw) 5
      then none
      else Option.map (λ c. (drop 5 raw, c)) (uint32 o (drop 1 raw))
    else some (drop 1 raw, calculate_clove_type_size tp)

abbrev big_number_value : Option ℤ → Value
big_number_value none = signed int (pos 0)
big_number_value (some i) = signed int i

-- A value read from the data, and the data behind `elementCount` bytes.
abbrev pub then_drop {ℓ} : {A : Type ℓ} → ℕ → List ℕ → (A → Value) → Option A → Run Decoded
then_drop count rest f none = panicked
then_drop count rest f (some a) = returned (none, f a, drop count rest)

-- The cases of the numbers.
unfoldable pub decode_number : ByteOrder → ℕ → ℕ → List ℕ → Run Decoded
decode_number o tp count rest =
    if tp == DataType.int8
    then then_drop count rest (λ b. signed int (to_signed (2 ^ 7) (2 ^ 8) b)) (get_elem? rest 0)
    else if tp == DataType.uint8
    then then_drop count rest (unsigned uint) (get_elem? rest 0)
    else if tp == DataType.int16
    then then_drop count rest (λ w. signed int (to_signed (2 ^ 15) (2 ^ 16) w)) (uint16 o rest)
    else if tp == DataType.uint16
    then then_drop count rest (unsigned uint) (uint16 o rest)
    else if tp == DataType.int32
    then then_drop count rest (λ w. signed int (to_signed (2 ^ 31) (2 ^ 32) w)) (uint32 o rest)
    else if tp == DataType.uint32
    then then_drop count rest (unsigned uint) (uint32 o rest)
    else if tp == DataType.int64
    then then_drop count rest (λ w. signed int (to_signed (2 ^ 63) (2 ^ 64) w)) (uint64 o rest)
    else if tp == DataType.uint64
    then then_drop count rest (unsigned uint) (uint64 o rest)
    else if tp == DataType.float32
    then then_drop count rest float32 (uint32 o rest)
    else then_drop count rest float64 (uint64 o rest)

-- `err, v, remain := receiver.Decode(realData); if err != nil { return err, nil, nil }`.
abbrev pub on_value {ℓ} :
    {A : Type ℓ}
    → A
    → Run Decoded
    → (Value → List ℕ → Run (Option CodecError × A × List ℕ))
    → Run (Option CodecError × A × List ℕ)
on_value z (returned (none, v, remain)) k = k v remain
on_value z (returned (some e, v, remain)) k = returned (some e, z, [])
on_value z panicked k = panicked
on_value z out_of_fuel k = out_of_fuel

-- The list case: each round decodes an element and goes on behind it.
unfoldable pub decode_items :
    (List ℕ → Run Decoded) → ℕ → List ℕ → Run (Option CodecError × Items × List ℕ)
decode_items dec zero rest = returned (none, no_items, rest)
decode_items dec (suc n) rest =
    on_value no_items (dec rest)
      λ v remain. do (e, xs, remain') ← decode_items dec n remain; returned (e, item v xs, remain')

-- The map case: a key, a value and an assignment, which panics at a key with no hash.
unfoldable pub decode_entries :
    (List ℕ → Run Decoded) → ℕ → List ℕ → Entries → Run (Option CodecError × Entries × List ℕ)
unfolding is_hashable assign
decode_entries dec zero rest acc = returned (none, acc, rest)
decode_entries dec (suc n) rest acc = on_value no_entries (dec rest) λ k remain.
    on_value no_entries (dec remain) λ v remain'.
      let more = decode_entries dec n remain' (assign acc k v) in
      if is_hashable k then more else panicked

-- The values of the two loops: `return err, nil, nil` on an error.
abbrev pub list_result : Option CodecError × Items × List ℕ → Decoded
list_result (none, xs, rest) = (none, slice xs, rest)
list_result (some e, xs, rest) = fail e

abbrev pub map_result : Option CodecError × Entries × List ℕ → Decoded
map_result (none, es, rest) = (none, map es, rest)
map_result (some e, es, rest) = fail e

-- The `switch elementType`, the cases 1 to 10 apart.
unfoldable pub decode_element :
    ByteOrder → (List ℕ → Run Decoded) → List ℕ → ℕ → ℕ → List ℕ → Run Decoded
unfolding decode_number parse_int decode_items decode_entries
decode_element o dec raw tp count rest =
    if tp == DataType.nil
    then returned (none, nil_value, drop count rest)
    else if tp == DataType.big_number
    then returned (none, big_number_value (parse_int (take count rest)), drop count rest)
    else if leb DataType.int8 tp && leb tp DataType.float64
    then decode_number o tp count rest
    else if tp == DataType.true_value
    then returned (none, bool true, rest)
    else if tp == DataType.false_value
    then returned (none, bool false, rest)
    else if tp == DataType.string
    then returned (none, str (take count rest), drop count rest)
    else if tp == DataType.bytes
    then returned (none, bytes (take count rest), drop count rest)
    else if tp == DataType.map
    then (do r ← decode_entries dec count rest no_entries; returned (map_result r))
    else if tp == DataType.list
    then (do r ← decode_items dec count rest; returned (list_result r))
    else returned (none, nil_value, raw)

-- What follows a header byte with the top bit set.
unfoldable pub decode_counted :
    ByteOrder → (List ℕ → Run Decoded) → List ℕ → ℕ → Option (List ℕ × ℕ) → Run Decoded
unfolding decode_element
decode_counted o dec raw tp none = returned (some dhl_short, nil_value, raw)
decode_counted o dec raw tp (some (rest, count)) =
    if not (tp == DataType.map) && not (tp == DataType.list) && ltb (length rest % 2 ^ 32) count
    then returned (some dhl_short, nil_value, [])
    else decode_element o dec raw tp count rest

unfoldable pub decode_body : ByteOrder → (List ℕ → Run Decoded) → List ℕ → Run Decoded
unfolding read_count decode_counted
decode_body o dec [] = returned (some dl_short, nil_value, [])
decode_body o dec (b ∷ rest) =
    if b / 2 ^ 7 == 0
    then returned (none, signed int (pos b), rest)
    else decode_counted o dec (b ∷ rest) (bit_and b 0x1f)
        (read_count o (bit_and (b / 2 ^ 5) 0x3) (bit_and b 0x1f) (b ∷ rest))

-- Every nested call starts behind the header of the call around it.
unfoldable pub decode_fuel : ℕ → ByteOrder → List ℕ → Run Decoded
unfolding decode_body
decode_fuel zero o raw = out_of_fuel
decode_fuel (suc f) o raw = recover (none, nil_value, []) (decode_body o (decode_fuel f o) raw)

unfoldable pub decode : ByteOrder → List ℕ → Run Decoded
unfolding decode_fuel
decode o raw = decode_fuel (suc (length raw)) o raw
