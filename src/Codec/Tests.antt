-- ===== src/Codec/Tests.antt =====
-- The theorems of the codec at concrete values, and runs of it.
mod Readers
use clove.Prelude.{◌^◌, ◌<◌, ◌≤◌, ◌≡◌, refl, none, [], ◌∷◌, ◌++◌, length, arith}
use clove.Prelude.Int.{negsuc, pos}
use clove.Prelude.Run.{returned}
use clove.Prelude.Bytes.{big_endian, little_endian}
use clove.Codec.Value.{
  Value, slice, signed, str, map, int8, item, no_items, entry, no_entries, has_key, is_hashable,
  Items,
}
use clove.Codec.SliceReader.{int_value_of, uint_value_of, str_value_of, bool_value_of}
use clove.Codec.SliceReader.Transmitted.{value_of-canonical}
use clove.Codec.Encoder.{encode, dl_short}
use clove.Codec.Decoder.{Decoded, decode, fail}
use clove.Codec.Decoder.Total.{decode-total}
use clove.Codec.Canonical.{
  canonical, IsEncodable, append_entries, AreEncodableItems, canonical_items,
}
use clove.Codec.RoundTrip.Values.{decode-encode}
use clove.Codec.RoundTrip.Refused.{decode-encode_refused, refused_items}

abbrev sample : Value
sample = slice (
    item (signed int8 (negsuc 4))
      (item (map (entry (str (b'k' ∷ [])) (str (b'v' ∷ [])) no_entries)) no_items))

sample-IsEncodable : IsEncodable sample
unfolding canonical append_entries has_key is_hashable
sample-IsEncodable = (
  omega arith,
  (omega arith, ((omega arith, (refl, refl, tt), (omega arith, omega arith, tt)), tt)),
)

sample-length : length ((encode big_endian sample).1 ++ (7 ∷ [])) < 2 ^ 32
unfolding encode
sample-length = omega arith

decode-encode_example :
    ((encode big_endian sample).0 ≡ none)
    × (decode big_endian ((encode big_endian sample).1 ++ (7 ∷ []))
        ≡ returned (none, canonical sample, 7 ∷ []))
decode-encode_example = decode-encode big_endian sample (7 ∷ []) sample-IsEncodable sample-length

decode-total_example :
    (d : Decoded) × (decode little_endian (0x90 ∷ 3 ∷ []) ≡ returned d) × (length d.2 ≤ 2)
decode-total_example = decode-total little_endian (0x90 ∷ 3 ∷ [])

decode-encode_refused_example :
    ((encode little_endian (slice (refused_items 3))).0 ≡ none)
    × (decode little_endian (encode little_endian (slice (refused_items 3))).1
        ≡ returned (fail dl_short))
decode-encode_refused_example = decode-encode_refused little_endian 2 (omega arith)

abbrev three_items : Items
three_items =
    item (signed int8 (negsuc 4)) (item (str (b'x' ∷ [])) (item (signed int8 (pos 9)) no_items))

three_items-AreEncodableItems : AreEncodableItems three_items
three_items-AreEncodableItems = (omega arith, (omega arith, (omega arith, tt)))

value_of-canonical_example :
    (int_value_of (canonical_items three_items) (pos 2) (pos 0)
      ≡ int_value_of three_items (pos 2) (pos 0))
    × (uint_value_of (canonical_items three_items) (pos 2) 7 ≡ uint_value_of three_items (pos 2) 7)
    × (str_value_of (canonical_items three_items) (pos 2) [] ≡ str_value_of three_items (pos 2) [])
    × (bool_value_of (canonical_items three_items) (pos 2) ≡ bool_value_of three_items (pos 2))
value_of-canonical_example =
    value_of-canonical three_items (pos 2) (pos 0) 7 [] three_items-AreEncodableItems
