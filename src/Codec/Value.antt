-- ===== src/Codec/Value.antt =====
-- codec/codec.go and codec/clove.go: the Go values that `interface{}` holds in Clove data. A value is
-- of a predeclared type: one of a type that a package names, which the encoder takes by its kind and
-- the readers do not know by its type, has no place here.
use clove.Prelude.{
  ℕ, suc, Bool, true, false, not, ◌&&◌, ◌||◌, List, ◌%◌, ◌^◌, [], ◌∷◌, ltb, ◌==◌, if◌then◌else◌,
}
use clove.Prelude.Int.{ℤ, pos, negsuc}

-- The kinds of reflect that carry an integer.
pub data IntKind : Type 0 where
  int int8 int16 int32 int64 : IntKind

pub data UintKind : Type 0 where
  uint uint8 uint16 uint32 uint64 : UintKind

-- A float is its bit pattern, a string is its bytes. `typed_map n` and `typed_slice n` stand for a
-- map or slice of `n` elements whose element type is no interface or pointer, and `other` for a
-- value of any kind that the encoder has no case for. `Entries` lists a CloveMap in the order of
-- its iteration.
mutual
  pub data Value : Type 0 where
    nil_value : Value
    signed : IntKind → ℤ → Value
    unsigned : UintKind → ℕ → Value
    float32 float64 : ℕ → Value
    bool : Bool → Value
    str : List ℕ → Value
    bytes : List ℕ → Value
    map : Entries → Value
    slice : Items → Value
    typed_map typed_slice : ℕ → Value
    other : Value

  pub data Items : Type 0 where
    no_items : Items
    item : Value → Items → Items

  pub data Entries : Type 0 where
    no_entries : Entries
    entry : Value → Value → Entries → Entries

abbrev pub length_items : Items → ℕ
length_items no_items = 0
length_items (item v xs) = suc (length_items xs)

abbrev pub length_entries : Entries → ℕ
length_entries no_entries = 0
length_entries (entry k v es) = suc (length_entries es)

unfoldable pub int_kind_eq : IntKind → IntKind → Bool
int_kind_eq int int = true
int_kind_eq int8 int8 = true
int_kind_eq int16 int16 = true
int_kind_eq int32 int32 = true
int_kind_eq int64 int64 = true
int_kind_eq _ _ = false

unfoldable pub uint_kind_eq : UintKind → UintKind → Bool
uint_kind_eq uint uint = true
uint_kind_eq uint8 uint8 = true
uint_kind_eq uint16 uint16 = true
uint_kind_eq uint32 uint32 = true
uint_kind_eq uint64 uint64 = true
uint_kind_eq _ _ = false

unfoldable pub int_eq : ℤ → ℤ → Bool
int_eq (pos a) (pos b) = a == b
int_eq (negsuc a) (negsuc b) = a == b
int_eq _ _ = false

unfoldable pub str_eq : List ℕ → List ℕ → Bool
str_eq [] [] = true
str_eq (a ∷ s) (b ∷ t) = a == b && str_eq s t
str_eq _ _ = false

-- `==` on floats of `half` exponent and fraction codes above `inf`: a NaN differs from everything,
-- and the two zeros are equal.
unfoldable float_eq : ℕ → ℕ → ℕ → ℕ → Bool
float_eq half inf a b =
    if ltb inf (a % half) || ltb inf (b % half)
    then false
    else (a == b || (a % half == 0 && b % half == 0))

-- `==` on two interface values that can be map keys: same dynamic type and same value.
unfoldable pub key_eq : Value → Value → Bool
unfolding int_kind_eq uint_kind_eq int_eq str_eq float_eq
key_eq nil_value nil_value = true
key_eq (signed j a) (signed k b) = int_kind_eq j k && int_eq a b
key_eq (unsigned j a) (unsigned k b) = uint_kind_eq j k && (a == b)
key_eq (float32 a) (float32 b) = float_eq (2 ^ 31) 0x7f800000 a b
key_eq (float64 a) (float64 b) = float_eq (2 ^ 63) 0x7ff0000000000000 a b
key_eq (bool true) (bool b) = b
key_eq (bool false) (bool b) = not b
key_eq (str s) (str t) = str_eq s t
key_eq _ _ = false

-- A byte slice, a map or a slice as a key makes the map access panic.
unfoldable pub is_hashable : Value → Bool
is_hashable (bytes b) = false
is_hashable (map es) = false
is_hashable (slice xs) = false
is_hashable (typed_map n) = false
is_hashable (typed_slice n) = false
is_hashable _ = true

-- `m[k] = v`.
unfoldable pub assign : Entries → Value → Value → Entries
unfolding key_eq
assign no_entries k v = entry k v no_entries
assign (entry j w es) k v = if key_eq j k then entry k v es else entry j w (assign es k v)

unfoldable pub has_key : Entries → Value → Bool
unfolding key_eq
has_key no_entries k = false
has_key (entry j w es) k = key_eq j k || has_key es k
