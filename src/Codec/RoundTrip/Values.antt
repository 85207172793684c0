-- ===== src/Codec/RoundTrip/Values.antt =====
-- codec/clove.go: `Decode` reads back the canonical form of every value that can be encoded.
mod Loops
mod Parts
use clove.Prelude.{
  ℕ, zero, suc, ◌+◌, ◌%◌, ◌^◌, ◌<◌, ◌≤◌, Bool, true, false, refl, ◌∙◌, ap, ◌≡◌, none, some, List,
  [], ◌∷◌, ◌++◌, length, length-append, arith, append_assoc, append-nil, take-append_self,
  drop-append_self, length-take_le,
}
use clove.Prelude.Bytes.{ByteOrder, lengths}
use clove.Prelude.Run.{returned, recover}
use clove.Prelude.Int.{ℤ}
use clove.Codec.Value.{
  IntKind, UintKind, Value, nil_value, signed, unsigned, float32, float64, bool, str, bytes, map,
  slice, typed_map, typed_slice, other, Items, no_items, item, Entries, no_entries, entry,
  length_items, length_entries,
}
use clove.Codec.DataType
use clove.Codec.Encoder.{
  make_header_and_length, encode, encode_unsigned, encode_signed, encode_float, encode_items,
  encode_entries,
}
use clove.Codec.Decoder.{decode_items, decode_entries, decode_counted, decode_fuel, decode}
use clove.Codec.Decoder.Header.{decode_header}
use clove.Codec.Canonical.{
  canonical, canonical_items, canonical_entries, append_entries, HasKeysFresh, IsEncodable,
  AreEncodableItems, AreEncodableEntries,
}
use clove.Codec.RoundTrip.Numbers.{
  Reads, encode_unsigned-Reads, encode_signed-Reads, encode_float-Reads,
}
use Parts.{
  ReadsWhole, IsReadBack, AreItemsReadBack, AreEntriesReadBack, item-IsReadBack, str-IsReadBack,
  bytes-IsReadBack, slice-IsReadBack, map-IsReadBack, entry-IsReadBack, bool-IsReadBack,
  nil-IsReadBack, of_Reads, number-IsReadBack, typed_map-IsReadBack, typed_slice-IsReadBack,
  no_items-IsReadBack, no_entries-IsReadBack,
}

mutual
  unfolding canonical

  value-IsReadBack : (o : ByteOrder) (v : Value) → IsEncodable v → IsReadBack o v
  value-IsReadBack o nil_value h = nil-IsReadBack o
  value-IsReadBack o (signed k i) h =
      of_Reads o (signed k i) (encode_signed o i) ((number-IsReadBack o).0 k i)
        (encode_signed-Reads o i h)
  value-IsReadBack o (unsigned k n) h =
      of_Reads o (unsigned k n) (encode_unsigned o n) ((number-IsReadBack o).1 k n)
        (encode_unsigned-Reads o n h)
  value-IsReadBack o (float32 u) h =
      of_Reads o (float32 u) (encode_float o u) ((number-IsReadBack o).2 u)
        (encode_float-Reads o u (omega arith))
  value-IsReadBack o (float64 u) h =
      of_Reads o (float64 u) (encode_float o u) ((number-IsReadBack o).3 u)
        (encode_float-Reads o u h)
  value-IsReadBack o (bool b) h = bool-IsReadBack o b
  value-IsReadBack o (str s) h = str-IsReadBack o s h
  value-IsReadBack o (bytes s) h = bytes-IsReadBack o s h
  value-IsReadBack o (map es) (small, fresh, h) =
      map-IsReadBack o es small fresh (entries-IsReadBack o es h)
  value-IsReadBack o (slice xs) (small, h) = slice-IsReadBack o xs small (items-IsReadBack o xs h)
  value-IsReadBack o (typed_map n) h = typed_map-IsReadBack o n h
  value-IsReadBack o (typed_slice n) h = typed_slice-IsReadBack o n h
  value-IsReadBack o other h = absurd h

  items-IsReadBack : (o : ByteOrder) (xs : Items) → AreEncodableItems xs → AreItemsReadBack o xs
  items-IsReadBack o no_items h = no_items-IsReadBack o
  items-IsReadBack o (item v xs) (hv, hxs) =
      item-IsReadBack o v xs (value-IsReadBack o v hv) (items-IsReadBack o xs hxs)

  entries-IsReadBack :
      (o : ByteOrder) (es : Entries) → AreEncodableEntries es → AreEntriesReadBack o es
  entries-IsReadBack o no_entries h = no_entries-IsReadBack o
  entries-IsReadBack o (entry k v es) (hk, hv, hes) =
      entry-IsReadBack o k v es (value-IsReadBack o k hk) (value-IsReadBack o v hv)
        (entries-IsReadBack o es hes)

-- For every value whose integers fit 64 bits, whose strings, byte slices, lists and maps have fewer
-- than 2 ^ 32 elements, whose maps and slices of a typed element are empty, in which nothing is of a
-- kind that the encoder refuses, and in which the keys of each map can be keys and are different from
-- each other in their canonical form too (int8(1) and int16(1) are not): `Encode` reports no error, and `Decode` of its bytes with any bytes behind them returns no
-- error, the canonical form of the value and the bytes behind, as long as the whole input is shorter
-- than 2 ^ 32.
pub decode-encode :
    (o : ByteOrder) (v : Value) (rest : List ℕ)
    → IsEncodable v
    → length ((encode o v).1 ++ rest) < 2 ^ 32
    → ((encode o v).0 ≡ none)
      × (decode o ((encode o v).1 ++ rest) ≡ returned (none, canonical v, rest))
unfolding decode
decode-encode o v rest h =
    let (b, e, reads) = value-IsReadBack o v h in
    rw e (λ l. (refl, reads (length (b ++ rest)) rest (omega lengths) l))
