-- ===== src/Codec/MapReader/Readers.antt =====
-- codec/codec.go with codec/clove.go: what the typed readers make of a transmitted map.
use clove.Prelude.{ℕ, ◌^◌, ◌≡◌, false, none, List, refl, Bool-cases, inl, inr, ltb}
use clove.Prelude.Int.{ℤ, pos, negsuc}
use clove.Prelude.Run.{returned}
use clove.Codec.Value.{
  Value, nil_value, signed, unsigned, float32, float64, bool, str, bytes, map, slice, typed_map,
  typed_slice, other, Entries, no_entries, entry,
}
use clove.Codec.Canonical.{
  canonical, canonical_entries, IsEncodable, append_entries, HasKeysFresh, canonical_uint,
  canonical_float,
}
use clove.Codec.SliceReader.{FloatOps, int_of, uint_of, from_default}
use clove.Codec.SliceReader.Transmitted.{value-ReadsSame}
use clove.Codec.MapReader.{
  int_value_of, uint_value_of, str_value_of, bool_value_of, str_of, bool_of,
}
use clove.Codec.MapReader.Transmitted.{IsSameKey, try_read_value-canonical}

abbrev IsNumeric : Value → Type 0
IsNumeric v = (str_of v ≡ none) × (bool_of v ≡ none)

canonical_uint-IsNumeric : (n : ℕ) → IsNumeric (canonical_uint n)
unfolding str_of bool_of
canonical_uint-IsNumeric n = elim (Bool-cases (ltb n 128)) [
  | inl e ↦ rw e (refl, refl)
  | inr e ↦ rw e (refl, refl)
]

canonical_float-IsNumeric : (u : ℕ) → IsNumeric (canonical_float u)
unfolding str_of bool_of
canonical_float-IsNumeric u = elim (Bool-cases (ltb u (2 ^ 32))) [
  | inl e ↦ rw e (refl, refl)
  | inr e ↦ rw e (refl, refl)
]

-- A value keeps its string and its Boolean.
abbrev KeepsText : Value → Type 0
KeepsText v = (str_of (canonical v) ≡ str_of v) × (bool_of (canonical v) ≡ bool_of v)

canonical-KeepsText : (v : Value) → KeepsText v
unfolding canonical str_of bool_of
canonical-KeepsText nil_value = (refl, refl)
canonical-KeepsText (signed k (pos n)) = canonical_uint-IsNumeric n
canonical-KeepsText (signed k (negsuc n)) = (refl, refl)
canonical-KeepsText (unsigned k n) = canonical_uint-IsNumeric n
canonical-KeepsText (float32 u) = canonical_float-IsNumeric u
canonical-KeepsText (float64 u) = canonical_float-IsNumeric u
canonical-KeepsText (bool b) = (refl, refl)
canonical-KeepsText (str s) = (refl, refl)
canonical-KeepsText (bytes b) = (refl, refl)
canonical-KeepsText (map es) = (refl, refl)
canonical-KeepsText (slice xs) = (refl, refl)
canonical-KeepsText (typed_map n) = (refl, refl)
canonical-KeepsText (typed_slice n) = (refl, refl)
canonical-KeepsText other = (refl, refl)

-- Of a transmitted map whose keys stay distinct, `IntValueOf`, `UintValueOf`, `StrValueOf` and
-- `BoolValueOf` under any name of a key return the integer, unsigned integer, string or Boolean
-- of the value that was sent, and the default where that value is of another kind; none panics.
pub value_of-transmitted :
    (ops : FloatOps) (before : Entries) (k v : Value) (after : Entries) (b : Value) (di : ℤ)
    (du : ℕ) (ds : List ℕ)
    → HasKeysFresh no_entries (canonical_entries (append_entries before (entry k v after)))
    → IsEncodable b
    → IsEncodable v
    → IsSameKey k b
    → let received = canonical_entries (append_entries before (entry k v after)) in
      (int_value_of ops received b di ≡ returned (from_default di (int_of v)))
      × (uint_value_of ops received b du ≡ returned (from_default du (uint_of v)))
      × (str_value_of ops received b ds ≡ returned (from_default ds (str_of v)))
      × (bool_value_of ops received b ≡ returned (from_default false (bool_of v)))
unfolding int_value_of uint_value_of str_value_of bool_value_of
value_of-transmitted ops before k v after b di du ds fresh rb rv same =
    let (i, u, _, _) = value-ReadsSame v ds rv in
    let (s, t) = canonical-KeepsText v in
    rw (try_read_value-canonical ops before k v after b fresh rb same, i, u, s, t)
      (refl, refl, refl, refl)
