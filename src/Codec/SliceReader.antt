-- ===== src/Codec/SliceReader.antt =====
-- codec/codec.go: `CloveSliceReader`, which reads the elements of a list as Go integers, floats, strings and
-- Booleans.
pub mod Transmitted
use clove.Prelude.{ℕ, zero, suc, ◌^◌, Bool, true, false, Option, none, some, List, [], ◌∷◌}
use clove.Prelude.Int.{ℤ, pos, negsuc, to_signed, to_unsigned}
use clove.Prelude.Run.{Run, returned, panicked}
use clove.Codec.Value.{
  Value, nil_value, signed, unsigned, bool, str, bytes, slice, typed_slice, Items, no_items, item,
  float32, float64,
}
use clove.Prelude.Decimal.{parse_int}

-- The conversions of the hardware between the patterns of floats: `float64(f)` of a float32,
-- `float32(f)` of a float64, and `int64(math.Floor(f))` of a float64.
pub record FloatOps : Type 0 where
  pub widen : ℕ → ℕ
  pub narrow : ℕ → ℕ
  pub floor_int : ℕ → ℤ

-- The element, or `none` for an index out of range.
unfoldable pub item_at : Items → ℕ → Option Value
item_at no_items i = none
item_at (item v xs) zero = some v
item_at (item v xs) (suc i) = item_at xs i

unfoldable item_of : Items → ℤ → Option Value
unfolding item_at
item_of xs (pos i) = item_at xs i
item_of xs (negsuc i) = none

-- The conversions to int64 and to uint64; `none` is the default branch.
unfoldable pub int_of : Value → Option ℤ
int_of (signed k i) = some i
int_of (unsigned k n) = some (to_signed (2 ^ 63) (2 ^ 64) n)
int_of _ = none

unfoldable pub uint_of : Value → Option ℕ
uint_of (signed k i) = some (to_unsigned (2 ^ 64) i)
uint_of (unsigned k n) = some n
uint_of _ = none

abbrev pub from_default {ℓ} : {B : Type ℓ} → B → Option B → B
from_default def none = def
from_default def (some b) = b

abbrev pub or_default {ℓ κ} : {A : Type ℓ} {B : Type κ} → (A → Option B) → B → Option A → B
or_default f def none = def
or_default f def (some a) = from_default def (f a)

unfoldable pub int_value_of : Items → ℤ → ℤ → ℤ
unfolding item_of int_of
int_value_of xs index def = or_default int_of def (item_of xs index)

unfoldable pub uint_value_of : Items → ℤ → ℕ → ℕ
unfolding item_of uint_of
uint_value_of xs index def = or_default uint_of def (item_of xs index)

-- `reflect.TypeOf` of nil is nil, and `Kind` of that panics.
unfoldable pub str_or : List ℕ → Option Value → Run (List ℕ)
str_or def (some nil_value) = panicked
str_or def (some (str s)) = returned s
str_or def _ = returned def

unfoldable pub str_value_of : Items → ℤ → List ℕ → Run (List ℕ)
unfolding item_of str_or
str_value_of xs index def = str_or def (item_of xs index)

unfoldable pub bool_or : Option Value → Run Bool
bool_or (some nil_value) = panicked
bool_or (some (bool b)) = returned b
bool_or _ = returned false

unfoldable pub bool_value_of : Items → ℤ → Run Bool
unfolding item_of bool_or
bool_value_of xs index = bool_or (item_of xs index)

-- `Bytes` of a slice that is no byte slice panics.
unfoldable mysql_str_or : List ℕ → Option Value → Run (List ℕ)
mysql_str_or def (some (bytes b)) = returned b
mysql_str_or def (some (slice xs)) = panicked
mysql_str_or def (some (typed_slice n)) = panicked
mysql_str_or def _ = returned def

unfoldable mysql_str_value_of : Items → ℤ → List ℕ → Run (List ℕ)
unfolding item_of mysql_str_or
mysql_str_value_of xs index def = mysql_str_or def (item_of xs index)

-- `Kind` of nil panics, as for strings.
unfoldable float_or : (Value → Option ℕ) → ℕ → Option Value → Run ℕ
float_or f def (some nil_value) = panicked
float_or f def o = returned (or_default f def o)

module _ (ops : FloatOps) where
  -- The switch of `IntegerNumberOf`; an integer is read as `IntValueOf` reads it.
  unfoldable pub integer_of : Value → Option ℤ
  unfolding int_of parse_int
  integer_of (float64 u) = some (ops.floor_int u)
  integer_of (float32 u) = some (ops.floor_int (ops.widen u))
  integer_of (str s) = parse_int s
  integer_of v = int_of v

  unfoldable pub float_of : Value → Option ℕ
  float_of (float64 u) = some u
  float_of (float32 u) = some (ops.widen u)
  float_of _ = none

  unfoldable pub integer_number_of : Items → ℤ → ℤ → ℤ
  unfolding item_of integer_of
  integer_number_of xs index def = or_default integer_of def (item_of xs index)

  unfoldable pub float_value_of : Items → ℤ → ℕ → Run ℕ
  unfolding item_of float_or float_of
  float_value_of xs index def = float_or float_of def (item_of xs index)
