-- ===== src/Codec/IntermediateValue.antt =====
-- codec/clove.go: `IntermediateValue`, the accessors that accept one Go type each.
use clove.Prelude.{
  ℕ, ◌≡◌, Bool, false, List, [], refl, Bool-cases, inl, inr, arith, ltb, if◌then◌else◌,
}
use clove.Prelude.Int.{ℤ, pos, negsuc, ltb_ℤ}
use clove.Codec.Value.{
  Value, signed, float32, float64, bool, str, map, slice, IntKind, int, int64, Items, no_items,
  Entries, no_entries,
}
use clove.Codec.Canonical.{canonical}

unfoldable string_value : Value → List ℕ
string_value (str s) = s
string_value _ = []

unfoldable int_with_default : Value → ℤ → ℤ
int_with_default (signed int i) def = i
int_with_default _ def = def

abbrev int_value : Value → ℤ
unfolding int_with_default
int_value v = int_with_default v (pos 0)

unfoldable int64_with_default : Value → ℤ → ℤ
int64_with_default (signed int64 i) def = i
int64_with_default _ def = def

abbrev int64_value : Value → ℤ
unfolding int64_with_default
int64_value v = int64_with_default v (pos 0)

unfoldable bool_value : Value → Bool
bool_value (bool b) = b
bool_value _ = false

unfoldable float32_value : Value → ℕ
float32_value (float32 u) = u
float32_value _ = 0

unfoldable float64_value : Value → ℕ
float64_value (float64 u) = u
float64_value _ = 0

unfoldable map_value : Value → Entries
map_value (map es) = es
map_value _ = no_entries

unfoldable slice_value : Value → Items
slice_value (slice xs) = xs
slice_value _ = no_items

-- Of an integer that was transmitted, `IntWithDefault` returns the integer only below 128 and the
-- default from 128 on, whatever kind it was sent as, and `Int64WithDefault` returns the default
-- always, an int64 included.
with_default-canonical :
    (k : IntKind) (i def : ℤ)
    → (int_with_default (canonical (signed k i)) def ≡ (if ltb_ℤ i (pos 128) then i else def))
      × (int64_with_default (canonical (signed k i)) def ≡ def)
unfolding int_with_default int64_with_default canonical
with_default-canonical k (pos n) def = elim (Bool-cases (ltb n 128)) [
  | inl e ↦ rw e (ground arith, refl)
  | inr e ↦ rw e (ground arith, refl)
]
with_default-canonical k (negsuc n) def = (ground arith, refl)
