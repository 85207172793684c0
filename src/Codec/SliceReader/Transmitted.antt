-- ===== src/Codec/SliceReader/Transmitted.antt =====
-- codec/codec.go with codec/clove.go: what a slice reader reads of a list that was transmitted.
use clove.Prelude.{
  ℕ, zero, suc, ◌^◌, ◌<◌, ◌≡◌, none, some, List, refl, arith, Bool-cases, inl, inr, ltb, ap, ◌∙◌,
  true, false,
}
use clove.Prelude.Int.{ℤ, pos, negsuc, to_signed}
use clove.Prelude.Run.{returned}
use clove.Codec.Value.{
  Value, nil_value, signed, unsigned, float32, float64, bool, str, bytes, map, slice, typed_map,
  typed_slice, other, Items, no_items, item,
}
use clove.Codec.Canonical.{
  canonical, canonical_items, IsEncodable, AreEncodableItems, canonical_uint, canonical_float,
}
use clove.Codec.SliceReader.{
  item_at, int_of, uint_of, int_value_of, uint_value_of, str_or, str_value_of, bool_or,
  bool_value_of, or_default, from_default,
}

numbers_of-canonical_uint :
    (n : ℕ)
    → n < 2 ^ 64
    → (int_of (canonical_uint n) ≡ some (to_signed (2 ^ 63) (2 ^ 64) n))
      × (uint_of (canonical_uint n) ≡ some n)
unfolding int_of uint_of
numbers_of-canonical_uint n h = elim (Bool-cases (ltb n 128)) [
  | inl e ↦ rw e (ground arith, ground arith)
  | inr e ↦ rw e (refl, refl)
]

-- What the readers of strings and Booleans make of a number, of whatever kind.
plain_number :
    (n : ℕ) (def : List ℕ)
    → (str_or def (some (canonical_uint n)) ≡ returned def)
      × (bool_or (some (canonical_uint n)) ≡ returned false)
unfolding str_or bool_or
plain_number n def = elim (Bool-cases (ltb n 128)) [
  | inl e ↦ rw e (refl, refl)
  | inr e ↦ rw e (refl, refl)
]

plain_float :
    (u : ℕ) (def : List ℕ)
    → (int_of (canonical_float u) ≡ none)
      × (uint_of (canonical_float u) ≡ none)
      × (str_or def (some (canonical_float u)) ≡ returned def)
      × (bool_or (some (canonical_float u)) ≡ returned false)
unfolding int_of uint_of str_or bool_or
plain_float u def = elim (Bool-cases (ltb u (2 ^ 32))) [
  | inl e ↦ rw e (refl, refl, refl, refl)
  | inr e ↦ rw e (refl, refl, refl, refl)
]

-- The four readers on a value and on its canonical form.
abbrev ReadsSame : Value → List ℕ → Type 0
ReadsSame v def =
    (int_of (canonical v) ≡ int_of v)
    × (uint_of (canonical v) ≡ uint_of v)
    × (str_or def (some (canonical v)) ≡ str_or def (some v))
    × (bool_or (some (canonical v)) ≡ bool_or (some v))

pub value-ReadsSame : (v : Value) (def : List ℕ) → IsEncodable v → ReadsSame v def
unfolding canonical int_of uint_of str_or bool_or
value-ReadsSame nil_value def h = (refl, refl, refl, refl)
value-ReadsSame (signed k (pos n)) def h =
    let fits : n < 2 ^ 63 = h in
    let (i, u) = numbers_of-canonical_uint n (omega arith) in
    let (s, b) = plain_number n def in
    let low : ltb n (2 ^ 63) ≡ true = ground arith in
    (i ∙ rw low refl, u ∙ ap some (omega arith), s, b)
value-ReadsSame (signed k (negsuc n)) def h = (refl, refl, refl, refl)
value-ReadsSame (unsigned k n) def h =
    let (i, u) = numbers_of-canonical_uint n h in let (s, b) = plain_number n def in (i, u, s, b)
value-ReadsSame (float32 u) def h = plain_float u def
value-ReadsSame (float64 u) def h = plain_float u def
value-ReadsSame (bool b) def h = (refl, refl, refl, refl)
value-ReadsSame (str s) def h = (refl, refl, refl, refl)
value-ReadsSame (bytes b) def h = (refl, refl, refl, refl)
value-ReadsSame (map es) def h = (refl, refl, refl, refl)
value-ReadsSame (slice xs) def h = (refl, refl, refl, refl)
value-ReadsSame (typed_map n) def h = (refl, refl, refl, refl)
value-ReadsSame (typed_slice n) def h = (refl, refl, refl, refl)
value-ReadsSame other def h = (refl, refl, refl, refl)

-- The readers at an index of the two lists.
abbrev ReadsSameAt : Items → ℕ → ℤ → ℕ → List ℕ → Type 0
ReadsSameAt xs i di du ds =
    (or_default int_of di (item_at (canonical_items xs) i) ≡ or_default int_of di (item_at xs i))
    × (or_default uint_of du (item_at (canonical_items xs) i)
        ≡ or_default uint_of du (item_at xs i))
    × (str_or ds (item_at (canonical_items xs) i) ≡ str_or ds (item_at xs i))
    × (bool_or (item_at (canonical_items xs) i) ≡ bool_or (item_at xs i))

items-ReadsSameAt :
    (xs : Items) (i : ℕ) (di : ℤ) (du : ℕ) (ds : List ℕ)
    → AreEncodableItems xs
    → ReadsSameAt xs i di du ds
unfolding canonical item_at
items-ReadsSameAt no_items i di du ds h = (refl, refl, refl, refl)
items-ReadsSameAt (item v xs) zero di du ds (h, hs) =
    let (e, u, s, b) = value-ReadsSame v ds h in
    (ap (from_default di) e, ap (from_default du) u, s, b)
items-ReadsSameAt (item v xs) (suc i) di du ds (h, hs) = items-ReadsSameAt xs i di du ds hs

-- Of a list of values of the predeclared types (none of a type that a package names, as
-- time.Duration is) that meets the conditions of the codec's round trip, the distinct keys of its
-- maps included: a slice reader reads the same integer, unsigned integer, string and Boolean at
-- every index, in range or not, before its transmission and after it, a panic included, although the
-- kinds of its integers may have changed.
pub value_of-canonical :
    (xs : Items) (index di : ℤ) (du : ℕ) (ds : List ℕ)
    → AreEncodableItems xs
    → (int_value_of (canonical_items xs) index di ≡ int_value_of xs index di)
      × (uint_value_of (canonical_items xs) index du ≡ uint_value_of xs index du)
      × (str_value_of (canonical_items xs) index ds ≡ str_value_of xs index ds)
      × (bool_value_of (canonical_items xs) index ≡ bool_value_of xs index)
unfolding int_value_of uint_value_of str_value_of bool_value_of
value_of-canonical xs (pos i) di du ds h = items-ReadsSameAt xs i di du ds h
value_of-canonical xs (negsuc i) di du ds h = (refl, refl, refl, refl)
