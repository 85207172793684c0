-- ===== src/Codec/MapReader.antt =====
-- codec/codec.go: `CloveMapReader`, which looks a key up under every kind of number it may be
-- stored with, and reads its value as a Go integer, float, string or Boolean.
pub mod Keys
pub mod Transmitted
pub mod Readers
use clove.Prelude.{ℕ, ◌^◌, Bool, true, false, Option, none, some, List, [], ◌∷◌, if◌then◌else◌}
use clove.Prelude.Int.{ℤ, pos, negsuc, to_signed, to_unsigned}
use clove.Prelude.Run.{Run, returned, panicked, ◌>>=◌}
use clove.Codec.Value.{
  Value, nil_value, signed, unsigned, float32, float64, bool, str, Entries, no_entries, entry,
  key_eq, int, int8, int16, int32, int64, uint, uint8, uint16, uint32, uint64,
}
use clove.Codec.SliceReader.{int_of, uint_of, from_default, FloatOps, integer_of, float_of}

-- `v, ok := receiver.Map[key]`.
unfoldable pub lookup_key : Entries → Value → Option Value
unfolding key_eq
lookup_key no_entries k = none
lookup_key (entry j v es) k = if key_eq j k then some v else lookup_key es k

abbrev pub or_else : Option Value → Value → Value
or_else none v = v
or_else (some u) v = u

-- The value of the first of the keys that the map has, or nil.
unfoldable pub first_of : Entries → List Value → Value
unfolding lookup_key
first_of es [] = nil_value
first_of es (k ∷ ks) = or_else (lookup_key es k) (first_of es ks)

-- `int8(i)`, with `half` and `m` for the width.
abbrev pub wrap : ℕ → ℕ → ℤ → ℤ
wrap half m i = to_signed half m (to_unsigned m i)

unfoldable pub signed_keys : ℤ → List Value
signed_keys i =
    signed int i
    ∷ signed int8 (wrap (2 ^ 7) (2 ^ 8) i)
    ∷ signed int16 (wrap (2 ^ 15) (2 ^ 16) i)
    ∷ signed int32 (wrap (2 ^ 31) (2 ^ 32) i)
    ∷ signed int64 i
    ∷ unsigned uint (to_unsigned (2 ^ 64) i)
    ∷ unsigned uint8 (to_unsigned (2 ^ 8) i)
    ∷ unsigned uint16 (to_unsigned (2 ^ 16) i)
    ∷ unsigned uint32 (to_unsigned (2 ^ 32) i)
    ∷ unsigned uint64 (to_unsigned (2 ^ 64) i)
    ∷ []

unfoldable pub unsigned_keys : ℕ → List Value
unsigned_keys n =
    unsigned uint n
    ∷ unsigned uint8 (to_unsigned (2 ^ 8) (pos n))
    ∷ unsigned uint16 (to_unsigned (2 ^ 16) (pos n))
    ∷ unsigned uint32 (to_unsigned (2 ^ 32) (pos n))
    ∷ unsigned uint64 n
    ∷ signed int (wrap (2 ^ 63) (2 ^ 64) (pos n))
    ∷ signed int8 (wrap (2 ^ 7) (2 ^ 8) (pos n))
    ∷ signed int16 (wrap (2 ^ 15) (2 ^ 16) (pos n))
    ∷ signed int32 (wrap (2 ^ 31) (2 ^ 32) (pos n))
    ∷ signed int64 (wrap (2 ^ 63) (2 ^ 64) (pos n))
    ∷ []

unfoldable pub str_of : Value → Option (List ℕ)
str_of (str s) = some s
str_of _ = none

unfoldable pub bool_of : Value → Option Bool
bool_of (bool b) = some b
bool_of _ = none

-- The methods that no float takes part in are those of any `FloatOps`.
module _ (ops : FloatOps) where
  abbrev float_keys : ℕ → List Value
  float_keys u = float64 u ∷ float32 (ops.narrow u) ∷ []

  -- `reflect.TypeOf` of a nil key is nil, and `Kind` of that panics.
  unfoldable pub try_read_value : Entries → Value → Run Value
  unfolding first_of signed_keys unsigned_keys
  try_read_value es nil_value = panicked
  try_read_value es (str s) = returned (first_of es (str s ∷ []))
  try_read_value es (signed k i) = returned (first_of es (signed_keys i))
  try_read_value es (unsigned k n) = returned (first_of es (unsigned_keys n))
  try_read_value es (float32 u) = returned (first_of es (float_keys (ops.widen u)))
  try_read_value es (float64 u) = returned (first_of es (float_keys u))
  try_read_value es _ = returned nil_value

  -- A missing key and a key whose value is nil or of another kind all read as the default.
  abbrev read_with {ℓ} : {B : Type ℓ} → (Value → Option B) → Entries → Value → B → Run B
  read_with f es key def = try_read_value es key >>= (λ v. returned (from_default def (f v)))

  unfoldable pub int_value_of : Entries → Value → ℤ → Run ℤ
  unfolding try_read_value int_of
  int_value_of = read_with int_of

  unfoldable pub integer_number_of : Entries → Value → ℤ → Run ℤ
  unfolding try_read_value integer_of
  integer_number_of = read_with (integer_of ops)

  unfoldable pub uint_value_of : Entries → Value → ℕ → Run ℕ
  unfolding try_read_value uint_of
  uint_value_of = read_with uint_of

  unfoldable pub str_value_of : Entries → Value → List ℕ → Run (List ℕ)
  unfolding try_read_value str_of
  str_value_of = read_with str_of

  unfoldable pub float_value_of : Entries → Value → ℕ → Run ℕ
  unfolding try_read_value float_of
  float_value_of = read_with (float_of ops)

  unfoldable pub bool_value_of : Entries → Value → Run Bool
  unfolding try_read_value bool_of
  bool_value_of es key = read_with bool_of es key false
