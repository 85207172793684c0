-- ===== src/Codec/Canonical.antt =====
-- The values that survive a transmission: how `Decode` returns each value that `Encode` accepts.
-- The forms on the wire keep no integer kinds, and a 64-bit float whose pattern fits 32 bits is
-- sent as a 32-bit one.
use clove.Prelude.{ℕ, ◌^◌, ◌<◌, ◌≡◌, true, false, length, ltb, if◌then◌else◌}
use clove.Prelude.Int.{ℤ, pos, negsuc, IsInt64}
use clove.Codec.Value.{
  Value, nil_value, signed, unsigned, float32, float64, bool, str, bytes, int, uint, map, slice,
  typed_map, typed_slice, other, Items, no_items, item, Entries, no_entries, entry, length_items,
  length_entries, is_hashable, has_key,
}

abbrev pub canonical_uint : ℕ → Value
canonical_uint n = if ltb n 128 then signed int (pos n) else unsigned uint n

abbrev pub canonical_int : ℤ → Value
canonical_int (pos n) = canonical_uint n
canonical_int (negsuc n) = signed int (negsuc n)

abbrev pub canonical_float : ℕ → Value
canonical_float u = if ltb u (2 ^ 32) then float32 u else float64 u

unfoldable mutual
  pub canonical : Value → Value
  canonical nil_value = nil_value
  canonical (signed k i) = canonical_int i
  canonical (unsigned k n) = canonical_uint n
  canonical (float32 u) = canonical_float u
  canonical (float64 u) = canonical_float u
  canonical (bool b) = bool b
  canonical (str s) = str s
  canonical (bytes b) = bytes b
  canonical (map es) = map (canonical_entries es)
  canonical (slice xs) = slice (canonical_items xs)
  canonical (typed_map n) = map no_entries
  canonical (typed_slice n) = slice no_items
  canonical other = other

  pub canonical_items : Items → Items
  canonical_items no_items = no_items
  canonical_items (item v xs) = item (canonical v) (canonical_items xs)

  pub canonical_entries : Entries → Entries
  canonical_entries no_entries = no_entries
  canonical_entries (entry k v es) = entry (canonical k) (canonical v) (canonical_entries es)

unfoldable pub append_entries : Entries → Entries → Entries
append_entries no_entries fs = fs
append_entries (entry k v es) fs = entry k v (append_entries es fs)

-- Each key can be a map key, and differs from those of `before` and from the earlier ones.
abbrev pub HasKeysFresh : Entries → Entries → Type 0
HasKeysFresh before no_entries = Unit {0}
HasKeysFresh before (entry k v es) =
    (is_hashable k ≡ true)
    × (has_key before k ≡ false)
    × HasKeysFresh (append_entries before (entry k v no_entries)) es

-- Numbers are in the range of their kind, lengths fit 32 bits, nothing in the value is of a kind
-- that the encoder refuses, and the keys of each map stay distinct when they are canonical.
abbrev mutual
  pub IsEncodable : Value → Type 0
  IsEncodable nil_value = Unit {0}
  IsEncodable (signed k i) = IsInt64 i
  IsEncodable (unsigned k n) = n < 2 ^ 64
  IsEncodable (float32 u) = u < 2 ^ 32
  IsEncodable (float64 u) = u < 2 ^ 64
  IsEncodable (bool b) = Unit {0}
  IsEncodable (str s) = length s < 2 ^ 32
  IsEncodable (bytes b) = length b < 2 ^ 32
  IsEncodable (map es) =
      (length_entries es < 2 ^ 32)
      × HasKeysFresh no_entries (canonical_entries es)
      × AreEncodableEntries es
  IsEncodable (slice xs) = (length_items xs < 2 ^ 32) × AreEncodableItems xs
  IsEncodable (typed_map n) = n ≡ 0
  IsEncodable (typed_slice n) = n ≡ 0
  IsEncodable other = ⊥

  pub AreEncodableItems : Items → Type 0
  AreEncodableItems no_items = Unit {0}
  AreEncodableItems (item v xs) = IsEncodable v × AreEncodableItems xs

  pub AreEncodableEntries : Entries → Type 0
  AreEncodableEntries no_entries = Unit {0}
  AreEncodableEntries (entry k v es) = IsEncodable k × IsEncodable v × AreEncodableEntries es
