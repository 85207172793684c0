-- ===== src/Codec/RoundTrip/Values/Loops.antt =====
-- codec/clove.go: what `Decode` makes of a length, a string or a byte slice, and one round of its
-- list loop and of its map loop.
use clove.Prelude.{
  ℕ, suc, ◌%◌, ◌^◌, ◌<◌, true, false, refl, ◌∙◌, ap, ◌≡◌, none, List, ◌++◌, length, length-append,
  arith, take-append_self, drop-append_self,
}
use clove.Prelude.Bytes.{ByteOrder}
use clove.Prelude.Run.{Run, returned}
use clove.Codec.Value.{
  Value, str, bytes, map, slice, Items, item, Entries, no_entries, entry, is_hashable, assign,
  has_key,
}
use clove.Codec.DataType
use clove.Codec.Encoder.{make_header_and_length}
use clove.Codec.Decoder.{
  Decoded, decode_items, decode_entries, decode_counted, decode_element, decode_fuel,
}
use clove.Codec.Decoder.Header.{decode_header}
use clove.Codec.Canonical.{append_entries}

module _ (f : ℕ) (o : ByteOrder) where
  pub decode_str :
      (s rest : List ℕ)
      → length s < 2 ^ 32
      → length (s ++ rest) < 2 ^ 32
      → decode_fuel (suc f) o (make_header_and_length o DataType.string (length s) ++ (s ++ rest))
        ≡ returned (none, str s, rest)
  unfolding decode_counted
  decode_str s rest h l =
      let e : length (s ++ rest) % 2 ^ 32 ≡ length (s ++ rest) = omega arith in
      decode_header f o DataType.string (omega arith) (length s) (s ++ rest) h
      ∙ rw (e, take-append_self s rest, drop-append_self s rest, length-append s rest)
          (ground arith)

  pub decode_bytes :
      (s rest : List ℕ)
      → length s < 2 ^ 32
      → length (s ++ rest) < 2 ^ 32
      → decode_fuel (suc f) o (make_header_and_length o DataType.bytes (length s) ++ (s ++ rest))
        ≡ returned (none, bytes s, rest)
  unfolding decode_counted
  decode_bytes s rest h l =
      let e : length (s ++ rest) % 2 ^ 32 ≡ length (s ++ rest) = omega arith in
      decode_header f o DataType.bytes (omega arith) (length s) (s ++ rest) h
      ∙ rw (e, take-append_self s rest, drop-append_self s rest, length-append s rest)
          (ground arith)

  pub decode_list :
      (n : ℕ) (body rest : List ℕ) (xs : Items)
      → n < 2 ^ 32
      → decode_items (decode_fuel f o) n body ≡ returned (none, xs, rest)
      → decode_fuel (suc f) o (make_header_and_length o DataType.list n ++ body)
        ≡ returned (none, slice xs, rest)
  unfolding decode_counted decode_element
  decode_list n body rest xs h loop =
      decode_header f o DataType.list (omega arith) n body h ∙ rw loop refl

  pub decode_map :
      (n : ℕ) (body rest : List ℕ) (es : Entries)
      → n < 2 ^ 32
      → decode_entries (decode_fuel f o) n body no_entries ≡ returned (none, es, rest)
      → decode_fuel (suc f) o (make_header_and_length o DataType.map n ++ body)
        ≡ returned (none, map es, rest)
  unfolding decode_counted decode_element
  decode_map n body rest es h loop =
      decode_header f o DataType.map (omega arith) n body h ∙ rw loop refl

module _ (dec : List ℕ → Run Decoded) where
  pub decode_items_round :
      (n : ℕ) (b rest remain : List ℕ) (v : Value) (xs : Items)
      → dec b ≡ returned (none, v, remain)
      → decode_items dec n remain ≡ returned (none, xs, rest)
      → decode_items dec (suc n) b ≡ returned (none, item v xs, rest)
  unfolding decode_items
  decode_items_round n b rest remain v xs first more = rw (first, more) refl

  pub decode_entries_round :
      (n : ℕ) (b c remain : List ℕ) (k v : Value) (acc : Entries)
      → dec b ≡ returned (none, k, c)
      → dec c ≡ returned (none, v, remain)
      → is_hashable k ≡ true
      → decode_entries dec (suc n) b acc ≡ decode_entries dec n remain (assign acc k v)
  unfolding decode_entries
  decode_entries_round n b c remain k v acc first second hash = rw (first, second, hash) refl

pub assign_fresh :
    (acc : Entries) (k v : Value)
    → has_key acc k ≡ false
    → assign acc k v ≡ append_entries acc (entry k v no_entries)
unfolding assign has_key append_entries
assign_fresh no_entries k v h = refl
assign_fresh (entry j w es) k v h = ground (arith, assign_fresh es k v)

pub append_entries_assoc :
    (es fs gs : Entries)
    → append_entries (append_entries es fs) gs ≡ append_entries es (append_entries fs gs)
unfolding append_entries
append_entries_assoc no_entries fs gs = refl
append_entries_assoc (entry k v es) fs gs = ap (entry k v) (append_entries_assoc es fs gs)
