-- ===== src/Codec/MapReader/Transmitted.antt =====
-- codec/codec.go with codec/clove.go: what a map reader finds in a map that was transmitted.
use clove.Prelude.{
  ℕ, ◌^◌, ◌<◌, ◌≡◌, true, false, none, some, List, refl, arith, Bool-cases, inl, inr, ltb, ap, sym,
  ◌⊎◌, Option, some-injective,
}
use clove.Prelude.Int.{ℤ, pos, negsuc, to_unsigned, IsInt64}
use clove.Prelude.Run.{returned}
use clove.Codec.Value.{
  Value, nil_value, signed, unsigned, float32, float64, bool, str, bytes, map, slice, typed_map,
  typed_slice, other, Entries, no_entries, entry, key_eq, IntKind, UintKind, int8, int16, int32,
  int64, uint8, uint16, uint32, uint64, int, uint, int_kind_eq, uint_kind_eq, int_eq,
}
use mathlib.Core.Path.{subst}
use clove.Codec.Strings.{str_eq_refl}
use clove.Codec.MapReader.{wrap, lookup_key, first_of, try_read_value, signed_keys, unsigned_keys}
use clove.Codec.Canonical.{
  canonical, canonical_entries, IsEncodable, append_entries, HasKeysFresh, canonical_int,
}
use clove.Codec.SliceReader.{FloatOps}
use clove.Codec.MapReader.Keys.{
  lookup-canonical, lookup-foreign, signed-IsForeign, unsigned-IsForeign,
}

unfoldable pub number_of : Value → Option ℤ
number_of (signed k i) = some i
number_of (unsigned k n) = some (pos n)
number_of _ = none

-- Two keys that name the same thing: numbers of one value, of whatever kinds, or one string.
abbrev pub IsSameKey : Value → Value → Type 0
IsSameKey a b =
    ((z : ℤ) × (number_of a ≡ some z) × (number_of b ≡ some z))
    ⊎ ((s : List ℕ) × (a ≡ str s) × (b ≡ str s))

int_eq_refl : (z : ℤ) → int_eq z z ≡ true
unfolding int_eq
int_eq_refl (pos n) = ground arith
int_eq_refl (negsuc n) = ground arith

canonical_int_eq : (z : ℤ) → key_eq (canonical_int z) (canonical_int z) ≡ true
unfolding key_eq int_kind_eq uint_kind_eq
canonical_int_eq (pos n) = elim (Bool-cases (ltb n 128)) [
  | inl e ↦ rw e (int_eq_refl (pos n))
  | inr e ↦ rw e (ground arith)
]
canonical_int_eq (negsuc n) = int_eq_refl (negsuc n)

canonical-number : (a : Value) (z : ℤ) → number_of a ≡ some z → canonical a ≡ canonical_int z
unfolding number_of canonical
canonical-number (signed k i) z h = ap canonical_int (some-injective h)
canonical-number (unsigned k n) z h = ap canonical_int (some-injective h)
canonical-number nil_value z h = absurd (cc)
canonical-number (float32 u) z h = absurd (cc)
canonical-number (float64 u) z h = absurd (cc)
canonical-number (bool b) z h = absurd (cc)
canonical-number (str s) z h = absurd (cc)
canonical-number (bytes b) z h = absurd (cc)
canonical-number (map es) z h = absurd (cc)
canonical-number (slice xs) z h = absurd (cc)
canonical-number (typed_map n) z h = absurd (cc)
canonical-number (typed_slice n) z h = absurd (cc)
canonical-number other z h = absurd (cc)

signed_kind-absent :
    (es : Entries) (j : IntKind) (x : ℤ)
    → int_kind_eq int j ≡ false
    → lookup_key (canonical_entries es) (signed j x) ≡ none
signed_kind-absent es j x h =
    lookup-foreign es (signed j x) (signed-IsForeign j x (λ m t. rw h refl) (λ m. rw h refl))

unsigned_kind-absent :
    (es : Entries) (j : UintKind) (n : ℕ)
    → uint_kind_eq uint j ≡ false
    → lookup_key (canonical_entries es) (unsigned j n) ≡ none
unsigned_kind-absent es j n h =
    lookup-foreign es (unsigned j n) (unsigned-IsForeign j n (λ m t. rw h refl))

large-absent :
    (es : Entries) (n : ℕ)
    → ltb n 128 ≡ false
    → lookup_key (canonical_entries es) (signed int (pos n)) ≡ none
unfolding int_kind_eq int_eq
large-absent es n h =
    lookup-foreign es (signed int (pos n))
      (signed-IsForeign int (pos n) (λ m t. ground arith) (λ m. refl))

small-absent :
    (es : Entries) (n : ℕ)
    → ltb n 128 ≡ true
    → lookup_key (canonical_entries es) (unsigned uint n) ≡ none
unfolding uint_kind_eq
small-absent es n h =
    lookup-foreign es (unsigned uint n) (unsigned-IsForeign uint n (λ m t. ground arith))

-- The searches in a transmitted map that has the number among its keys.
first_of-signed :
    (es : Entries) (z : ℤ) (v : Value)
    → IsInt64 z
    → lookup_key (canonical_entries es) (canonical_int z) ≡ some v
    → first_of (canonical_entries es) (signed_keys z) ≡ v
unfolding first_of signed_keys int_kind_eq
first_of-signed es (negsuc n) v r h = rw h refl
first_of-signed es (pos n) v r h = elim (Bool-cases (ltb n 128)) [
  | inl e ↦ rw (rw e at h) refl
  | inr e ↦
      let same : to_unsigned (2 ^ 64) (pos n) ≡ n = omega arith in
      rw
        (
          large-absent es n e,
          signed_kind-absent es int8 _ refl,
          signed_kind-absent es int16 _ refl,
          signed_kind-absent es int32 _ refl,
          signed_kind-absent es int64 _ refl,
          same,
          rw e at h,
        )
        refl
]

first_of-unsigned :
    (es : Entries) (n : ℕ) (v : Value)
    → n < 2 ^ 64
    → lookup_key (canonical_entries es) (canonical_int (pos n)) ≡ some v
    → first_of (canonical_entries es) (unsigned_keys n) ≡ v
unfolding first_of unsigned_keys uint_kind_eq
first_of-unsigned es n v r h = elim (Bool-cases (ltb n 128)) [
  | inl e ↦
      let same : wrap (2 ^ 63) (2 ^ 64) (pos n) ≡ pos n = ground arith in
      rw
        (
          small-absent es n e,
          unsigned_kind-absent es uint8 _ refl,
          unsigned_kind-absent es uint16 _ refl,
          unsigned_kind-absent es uint32 _ refl,
          unsigned_kind-absent es uint64 _ refl,
          same,
          rw e at h,
        )
        refl
  | inr e ↦ rw (rw e at h) refl
]

found-as :
    {a z : ℤ} (es : Entries) (v : Value)
    → some a ≡ some z
    → lookup_key (canonical_entries es) (canonical_int z) ≡ some v
    → lookup_key (canonical_entries es) (canonical_int a) ≡ some v
found-as es v e h =
    subst (λ (t : ℤ). lookup_key (canonical_entries es) (canonical_int t) ≡ some v)
      (sym (some-injective e)) h

module _ (ops : FloatOps) where
  first_of-number :
      (es : Entries) (b v : Value) (z : ℤ)
      → IsEncodable b
      → number_of b ≡ some z
      → lookup_key (canonical_entries es) (canonical_int z) ≡ some v
      → try_read_value ops (canonical_entries es) b ≡ returned v
  unfolding number_of try_read_value
  first_of-number es (signed k i) v z r e h =
      ap returned (first_of-signed es i v r (found-as es v e h))
  first_of-number es (unsigned k n) v z r e h =
      ap returned (first_of-unsigned es n v r (found-as es v e h))
  first_of-number es nil_value v z r e h = absurd (cc)
  first_of-number es (float32 u) v z r e h = absurd (cc)
  first_of-number es (float64 u) v z r e h = absurd (cc)
  first_of-number es (bool b) v z r e h = absurd (cc)
  first_of-number es (str s) v z r e h = absurd (cc)
  first_of-number es (bytes b) v z r e h = absurd (cc)
  first_of-number es (map fs) v z r e h = absurd (cc)
  first_of-number es (slice xs) v z r e h = absurd (cc)
  first_of-number es (typed_map n) v z r e h = absurd (cc)
  first_of-number es (typed_slice n) v z r e h = absurd (cc)
  first_of-number es other v z r e h = absurd (cc)

  -- In a transmitted map whose keys stay distinct, `TryReadValue` finds the value of a key under
  -- every name of it: for a number key under that number in any signed or unsigned kind whose
  -- range has it, although the transmission changed the kinds of the keys, and for a string key
  -- under that string. What it finds is the transmitted value.
  pub try_read_value-canonical :
      (before : Entries) (k v : Value) (after : Entries) (b : Value)
      → HasKeysFresh no_entries (canonical_entries (append_entries before (entry k v after)))
      → IsEncodable b
      → IsSameKey k b
      → try_read_value ops (canonical_entries (append_entries before (entry k v after))) b
        ≡ returned (canonical v)
  unfolding try_read_value first_of canonical key_eq
  try_read_value-canonical before k v after b fresh r (inl (z, ek, eb)) =
      let c = canonical-number k z ek in
      let found = lookup-canonical before k v after fresh (rw c (canonical_int_eq z)) in
      first_of-number (append_entries before (entry k v after)) b (canonical v) z r eb
        (rw c at found)
  try_read_value-canonical before k v after b fresh r (inr (s, ek, eb)) =
      let c : canonical k ≡ str s = rw ek refl in
      let found = lookup-canonical before k v after fresh (rw c (str_eq_refl s)) in
      rw (eb, rw c at found) refl
