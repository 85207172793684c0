-- ===== src/Codec/RoundTrip/Values/Parts.antt =====
-- codec/clove.go: each form of a value is read back, given that its parts are.
use clove.Prelude.{
  ℕ, zero, suc, ◌^◌, ◌<◌, ◌≤◌, Bool, true, false, refl, ◌∙◌, ap, ◌≡◌, none, List, [], ◌∷◌, ◌++◌,
  length, arith, append_assoc,
}
use clove.Prelude.Bytes.{ByteOrder, lengths}
use clove.Codec.RoundTrip.Values.Loops.{
  decode_str, decode_bytes, decode_list, decode_map, decode_items_round, decode_entries_round,
  assign_fresh, append_entries_assoc,
}
use clove.Prelude.Run.{returned}
use clove.Prelude.Int.{ℤ}
use clove.Codec.Value.{
  IntKind, UintKind, Value, nil_value, signed, unsigned, float32, float64, bool, str, bytes, map,
  slice, typed_map, typed_slice, Items, no_items, item, Entries, no_entries, entry, length_items,
  length_entries,
}
use clove.Codec.DataType
use clove.Codec.Encoder.{
  make_header_and_length, encode, encode_unsigned, encode_signed, encode_float, encode_items,
  encode_entries,
}
use clove.Codec.Decoder.{decode_items, decode_entries, decode_fuel}
use clove.Codec.Decoder.Header.{length-header}
use clove.Codec.Canonical.{
  canonical, canonical_items, canonical_entries, append_entries, HasKeysFresh,
}
use clove.Codec.RoundTrip.Numbers.{Reads}

-- On fuel for its length, `Decode` reads the value off the front of the bytes and leaves the rest.
abbrev pub ReadsWhole : ByteOrder → List ℕ → Value → Type 0
ReadsWhole o b v =
    (f : ℕ) (rest : List ℕ)
    → length b ≤ f
    → length (b ++ rest) < 2 ^ 32
    → decode_fuel (suc f) o (b ++ rest) ≡ returned (none, v, rest)

abbrev pub IsReadBack : ByteOrder → Value → Type 0
IsReadBack o v = (b : List ℕ) × (encode o v ≡ (none, b)) × ReadsWhole o b (canonical v)

abbrev pub AreItemsReadBack : ByteOrder → Items → Type 0
AreItemsReadBack o xs =
    (f : ℕ) (rest : List ℕ)
    → length (encode_items o xs) < f
    → length (encode_items o xs ++ rest) < 2 ^ 32
    → decode_items (decode_fuel f o) (length_items xs) (encode_items o xs ++ rest)
      ≡ returned (none, canonical_items xs, rest)

abbrev pub AreEntriesReadBack : ByteOrder → Entries → Type 0
AreEntriesReadBack o es =
    (b : List ℕ) × (encode_entries o es ≡ (length_entries es, b))
    × ((f : ℕ) (rest : List ℕ) (acc : Entries)
        → length b < f
        → length (b ++ rest) < 2 ^ 32
        → HasKeysFresh acc (canonical_entries es)
        → decode_entries (decode_fuel f o) (length_entries es) (b ++ rest) acc
          ≡ returned (none, append_entries acc (canonical_entries es), rest))

items_with :
    (o : ByteOrder) (v : Value) (xs : Items) (b : List ℕ)
    → encode o v ≡ (none, b)
    → encode_items o (item v xs) ≡ b ++ encode_items o xs
unfolding encode
items_with o v xs b e = rw e refl

pub item-IsReadBack :
    (o : ByteOrder) (v : Value) (xs : Items)
    → IsReadBack o v
    → AreItemsReadBack o xs
    → AreItemsReadBack o (item v xs)
unfolding canonical
item-IsReadBack o v xs (b, e, reads) more zero rest = λ h l. absurd (omega arith)
item-IsReadBack o v xs (b, e, reads) more (suc f) rest =
    let c = encode_items o xs in
    rw (items_with o v xs b e, append_assoc b c rest)
      λ h l.
        decode_items_round (decode_fuel (suc f) o) (length_items xs) (b ++ (c ++ rest)) rest
          (c ++ rest) (canonical v) (canonical_items xs)
          (reads f (c ++ rest) (omega lengths) (omega lengths))
          (more (suc f) rest (omega lengths) (omega lengths))

pub str-IsReadBack : (o : ByteOrder) (s : List ℕ) → length s < 2 ^ 32 → IsReadBack o (str s)
unfolding encode canonical
str-IsReadBack o s h =
    let head = make_header_and_length o DataType.string (length s) in
    (
      head ++ s,
      refl,
      λ f rest hf. rw (append_assoc head s rest) λ hl. decode_str f o s rest h (omega lengths),
    )

pub bytes-IsReadBack : (o : ByteOrder) (s : List ℕ) → length s < 2 ^ 32 → IsReadBack o (bytes s)
unfolding encode canonical
bytes-IsReadBack o s h =
    let head = make_header_and_length o DataType.bytes (length s) in
    (
      head ++ s,
      refl,
      λ f rest hf. rw (append_assoc head s rest) λ hl. decode_bytes f o s rest h (omega lengths),
    )

pub slice-IsReadBack :
    (o : ByteOrder) (xs : Items)
    → length_items xs < 2 ^ 32
    → AreItemsReadBack o xs
    → IsReadBack o (slice xs)
unfolding encode canonical
slice-IsReadBack o xs small items =
    let head = make_header_and_length o DataType.list (length_items xs) in
    let c = encode_items o xs in
    (
      head ++ c,
      refl,
      λ f rest. rw (append_assoc head c rest) λ hf hl.
          decode_list f o (length_items xs) (c ++ rest) rest (canonical_items xs) small (
            items f rest (omega (lengths, length-header o DataType.list (length_items xs)))
              (omega lengths)),
    )

pub map-IsReadBack :
    (o : ByteOrder) (es : Entries)
    → length_entries es < 2 ^ 32
    → HasKeysFresh no_entries (canonical_entries es)
    → AreEntriesReadBack o es
    → IsReadBack o (map es)
unfolding append_entries
map-IsReadBack o es small fresh (c, e, entries) =
    let head = make_header_and_length o DataType.map (length_entries es) in
    (
      head ++ c,
      unfold encode in rw e refl,
      λ f rest. rw (append_assoc head c rest) λ hf hl.
          unfold canonical in
          decode_map f o (length_entries es) (c ++ rest) rest (canonical_entries es) small (
            entries f rest no_entries
              (omega (lengths, length-header o DataType.map (length_entries es))) (omega lengths)
              fresh),
    )

entries_with :
    (o : ByteOrder) (k v : Value) (es : Entries) (n : ℕ) (bk bv c : List ℕ)
    → encode o k ≡ (none, bk)
    → encode o v ≡ (none, bv)
    → encode_entries o es ≡ (n, c)
    → encode_entries o (entry k v es) ≡ (suc n, bk ++ (bv ++ c))
unfolding encode
entries_with o k v es n bk bv c ek ev ees = rw (ek, ev, ees, append_assoc bk bv c) (ground arith)

pub entry-IsReadBack :
    (o : ByteOrder) (k v : Value) (es : Entries)
    → IsReadBack o k
    → IsReadBack o v
    → AreEntriesReadBack o es
    → AreEntriesReadBack o (entry k v es)
unfolding canonical append_entries
entry-IsReadBack o k v es (bk, ek, reads_k) (bv, ev, reads_v) (c, e, more) =
    (bk ++ (bv ++ c), entries_with o k v es (length_entries es) bk bv c ek ev e, go)
  where
    go :
        (f : ℕ) (rest : List ℕ) (acc : Entries)
        → length (bk ++ (bv ++ c)) < f
        → length ((bk ++ (bv ++ c)) ++ rest) < 2 ^ 32
        → HasKeysFresh acc (canonical_entries (entry k v es))
        → decode_entries (decode_fuel f o) (suc (length_entries es)) ((bk ++ (bv ++ c)) ++ rest) acc
          ≡ returned (none, append_entries acc (canonical_entries (entry k v es)), rest)
    go zero rest acc h l fresh = absurd (omega arith)
    go (suc f) rest acc h l (hash, new, later) =
        rw (append_assoc bk (bv ++ c) rest, append_assoc bv c rest)
          (decode_entries_round (decode_fuel (suc f) o) (length_entries es)
              (bk ++ (bv ++ (c ++ rest))) (bv ++ (c ++ rest)) (c ++ rest) (canonical k)
              (canonical v) acc (reads_k f (bv ++ (c ++ rest)) (omega lengths) (omega lengths))
              (reads_v f (c ++ rest) (omega lengths) (omega lengths)) hash
            ∙ rw (assign_fresh acc (canonical k) (canonical v) new) (
                more (suc f) rest
                  (append_entries acc (entry (canonical k) (canonical v) no_entries))
                  (omega lengths) (omega lengths) later)
            ∙ ap (λ es'. returned (none, es', rest))
                (append_entries_assoc acc (entry (canonical k) (canonical v) no_entries)
                  (canonical_entries es)))

pub bool-IsReadBack : (o : ByteOrder) (b : Bool) → IsReadBack o (bool b)
unfolding encode canonical decode_fuel
bool-IsReadBack o true = (0x8c ∷ [], refl, λ f rest hf hl. ground arith)
bool-IsReadBack o false = (0x8d ∷ [], refl, λ f rest hf hl. ground arith)

pub nil-IsReadBack : (o : ByteOrder) → IsReadBack o nil_value
unfolding encode canonical decode_fuel
nil-IsReadBack o = (0x8b ∷ [], refl, λ f rest hf hl. ground arith)

-- A value whose bytes are read back at every fuel.
pub of_Reads :
    (o : ByteOrder) (v : Value) (b : List ℕ)
    → encode o v ≡ (none, b)
    → Reads o b (canonical v)
    → IsReadBack o v
of_Reads o v b e reads = (b, e, λ f rest hf. reads f rest)

pub number-IsReadBack :
    (o : ByteOrder)
    → ((k : IntKind) (i : ℤ) → encode o (signed k i) ≡ (none, encode_signed o i))
      × ((k : UintKind) (n : ℕ) → encode o (unsigned k n) ≡ (none, encode_unsigned o n))
      × ((u : ℕ) → encode o (float32 u) ≡ (none, encode_float o u))
      × ((u : ℕ) → encode o (float64 u) ≡ (none, encode_float o u))
unfolding encode
number-IsReadBack o = (λ k i. refl, λ k n. refl, λ u. refl, λ u. refl)

pub typed_map-IsReadBack : (o : ByteOrder) (n : ℕ) → n ≡ 0 → IsReadBack o (typed_map n)
unfolding encode canonical decode_entries
typed_map-IsReadBack o n h = (
  make_header_and_length o DataType.map 0,
  rw h refl,
  λ f rest hf hl. decode_map f o 0 rest rest no_entries (omega arith) refl,
)

pub typed_slice-IsReadBack : (o : ByteOrder) (n : ℕ) → n ≡ 0 → IsReadBack o (typed_slice n)
unfolding encode canonical decode_items
typed_slice-IsReadBack o n h = (
  make_header_and_length o DataType.list 0,
  rw h refl,
  λ f rest hf hl. decode_list f o 0 rest rest no_items (omega arith) refl,
)

pub no_items-IsReadBack : (o : ByteOrder) → AreItemsReadBack o no_items
unfolding encode canonical decode_items
no_items-IsReadBack o f rest hf hl = refl

append-no_entries : (es : Entries) → append_entries es no_entries ≡ es
unfolding append_entries
append-no_entries no_entries = refl
append-no_entries (entry k v es) = ap (entry k v) (append-no_entries es)

pub no_entries-IsReadBack : (o : ByteOrder) → AreEntriesReadBack o no_entries
unfolding encode canonical decode_entries
no_entries-IsReadBack o = ([], refl, λ f rest acc hf hl fresh. rw (append-no_entries acc) refl)
