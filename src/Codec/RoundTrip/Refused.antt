-- ===== src/Codec/RoundTrip/Refused.antt =====
-- codec/clove.go: lists with elements that the encoder refuses. `EncodeWithReflectValue` skips such
-- an element of a list, but counts it in the header.
use clove.Prelude.{
  ℕ, zero, suc, ◌-◌, ◌^◌, ◌<◌, ◌≡◌, refl, ◌∙◌, none, [], ◌++◌, arith, append-nil, ap, sym, length,
}
use clove.Prelude.Bytes.{ByteOrder}
use clove.Prelude.Run.{returned}
use clove.Codec.Value.{slice, other, Items, no_items, item, length_items}
use clove.Codec.DataType
use clove.Codec.Encoder.{dl_short, make_header_and_length, encode, encode_items}
use clove.Codec.Decoder.{fail, decode_counted, decode_fuel, decode}
use clove.Codec.Decoder.Header.{decode_header, length-header}

abbrev pub refused_items : ℕ → Items
refused_items zero = no_items
refused_items (suc n) = item other (refused_items n)

encode_items-refused : (o : ByteOrder) (n : ℕ) → encode_items o (refused_items n) ≡ []
unfolding encode
encode_items-refused o zero = refl
encode_items-refused o (suc n) = encode_items-refused o n

length-refused_items : (n : ℕ) → length_items (refused_items n) ≡ n
length-refused_items zero = refl
length-refused_items (suc n) = ap suc (length-refused_items n)

encode-refused :
    (o : ByteOrder) (n : ℕ)
    → encode o (slice (refused_items n)) ≡ (none, make_header_and_length o DataType.list n)
encode-refused o n =
    encode_slice o (refused_items n)
    ∙ rw (encode_items-refused o n, length-refused_items n, append-nil) refl
  where
    encode_slice :
        (o : ByteOrder) (xs : Items)
        → encode o (slice xs)
          ≡ (none, make_header_and_length o DataType.list (length_items xs) ++ encode_items o xs)
    encode_slice o xs = unfold encode in refl

decode-empty_list :
    (f : ℕ) (o : ByteOrder) (n : ℕ)
    → suc n < 2 ^ 32
    → decode_fuel (suc (suc f)) o (make_header_and_length o DataType.list (suc n))
      ≡ returned (fail dl_short)
decode-empty_list f o n h =
    ap (decode_fuel (suc (suc f)) o) (sym (append-nil _))
    ∙ decode_header (suc f) o DataType.list (omega arith) (suc n) [] h
    ∙ unfold decode_counted decode_fuel in refl

-- For every list of 1 to 2 ^ 32 - 1 elements that the encoder refuses, `Encode` reports no error,
-- and `Decode` of its bytes fails with `ErrDLShort`.
pub decode-encode_refused :
    (o : ByteOrder) (n : ℕ)
    → suc n < 2 ^ 32
    → ((encode o (slice (refused_items (suc n)))).0 ≡ none)
      × (decode o (encode o (slice (refused_items (suc n)))).1 ≡ returned (fail dl_short))
decode-encode_refused o n h =
    let header = make_header_and_length o DataType.list (suc n) in
    let e : length header ≡ suc (length header - 1) =
      omega (arith, length-header o DataType.list (suc n)) in
    let k = length header - 1 in
    rw (encode-refused o (suc n)) (refl, unfold decode in rw e (decode-empty_list k o n h))
