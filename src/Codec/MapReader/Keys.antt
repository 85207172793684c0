-- ===== src/Codec/MapReader/Keys.antt =====
-- codec/codec.go with codec/clove.go: which keys a transmitted map has.
use clove.Prelude.{
  ℕ, ◌^◌, ◌≡◌, true, false, none, some, refl, Bool-cases, inl, inr, ltb, ap, sym, ◌∙◌, ◌||◌, Bool,
  ◌&&◌, ◌==◌,
}
use clove.Prelude.Int.{ℤ, pos, negsuc}
use clove.Codec.Value.{
  Value, nil_value, signed, unsigned, float32, float64, bool, str, bytes, map, slice, typed_map,
  typed_slice, other, Entries, no_entries, entry, key_eq, IntKind, UintKind, has_key, int, uint,
  int_kind_eq, uint_kind_eq, int_eq,
}
use mathlib.Core.Path.{subst}
use clove.Codec.Canonical.{
  canonical, canonical_entries, append_entries, HasKeysFresh, canonical_uint, canonical_float,
}
use clove.Codec.MapReader.{lookup_key}

append_assoc :
    (es fs gs : Entries)
    → append_entries (append_entries es fs) gs ≡ append_entries es (append_entries fs gs)
unfolding append_entries
append_assoc no_entries fs gs = refl
append_assoc (entry k v es) fs gs = rw (append_assoc es fs gs) refl

canonical-append :
    (es fs : Entries)
    → canonical_entries (append_entries es fs)
      ≡ append_entries (canonical_entries es) (canonical_entries fs)
unfolding append_entries canonical
canonical-append no_entries fs = refl
canonical-append (entry k v es) fs = rw (canonical-append es fs) refl

has_key-append :
    (es fs : Entries) (k : Value)
    → has_key (append_entries es fs) k ≡ (has_key es k || has_key fs k)
unfolding append_entries has_key
has_key-append no_entries fs k = refl
has_key-append (entry j v es) fs k = elim (Bool-cases (key_eq j k)) [
  | inl e ↦ rw e refl
  | inr e ↦ rw e (has_key-append es fs k)
]

-- Among keys that are all distinct, the earlier ones differ from the key behind them.
fresh-split :
    (acc es : Entries) (k v : Value) (after : Entries)
    → HasKeysFresh acc (append_entries es (entry k v after))
    → has_key acc k || has_key es k ≡ false
unfolding append_entries has_key
fresh-split acc no_entries k v after (_, h, _) = rw h refl
fresh-split acc (entry j w es) k v after (_, _, hs) =
    split (has_key acc k) (key_eq j k) (has_key es k) (
      sym (ap (λ (b : Bool). b || has_key es k) (has_key-append acc (entry j w no_entries) k))
      ∙ fresh-split (append_entries acc (entry j w no_entries)) es k v after hs)
  where
    split : (a b c : Bool) → (a || (b || false)) || c ≡ false → a || (b || c) ≡ false
    split true b c h = h
    split false true c h = h
    split false false c h = h

or_false : (a b : Bool) → a || b ≡ false → (a ≡ false) × (b ≡ false)
or_false true b h = absurd (cc)
or_false false b h = (refl, h)

lookup-behind :
    (es : Entries) (j k v : Value) (after : Entries)
    → has_key es k ≡ false
    → key_eq j k ≡ true
    → lookup_key (append_entries es (entry j v after)) k ≡ some v
unfolding append_entries has_key lookup_key
lookup-behind no_entries j k v after h e = rw e refl
lookup-behind (entry i w es) j k v after h e =
    let (f, hs) = or_false (key_eq i k) (has_key es k) h in rw f (lookup-behind es j k v after hs e)

-- A key of a transmitted map is found by its canonical form.
pub lookup-canonical :
    (before : Entries) (k v : Value) (after : Entries)
    → HasKeysFresh no_entries (canonical_entries (append_entries before (entry k v after)))
    → key_eq (canonical k) (canonical k) ≡ true
    → lookup_key (canonical_entries (append_entries before (entry k v after))) (canonical k)
      ≡ some (canonical v)
unfolding canonical has_key
lookup-canonical before k v after h e =
    let eq = canonical-append before (entry k v after) in
    let fresh =
      fresh-split no_entries (canonical_entries before) (canonical k) (canonical v)
        (canonical_entries after) (subst (HasKeysFresh no_entries) eq h) in
    rw eq (
      lookup-behind (canonical_entries before) (canonical k) (canonical k) (canonical v)
        (canonical_entries after) fresh e)

-- No key of a transmitted map equals `p`.
abbrev IsForeign : Value → Type 0
IsForeign p = (k : Value) → key_eq (canonical k) p ≡ false

pub lookup-foreign :
    (es : Entries) (p : Value) → IsForeign p → lookup_key (canonical_entries es) p ≡ none
unfolding canonical lookup_key
lookup-foreign no_entries p h = refl
lookup-foreign (entry k v es) p h = rw (h k) (lookup-foreign es p h)

canonical_uint-signed :
    (m : ℕ) (j : IntKind) (x : ℤ)
    → (ltb m 128 ≡ true → int_kind_eq int j && int_eq (pos m) x ≡ false)
    → key_eq (canonical_uint m) (signed j x) ≡ false
unfolding key_eq
canonical_uint-signed m j x h = elim (Bool-cases (ltb m 128)) [
  | inl e ↦ rw e (h e)
  | inr e ↦ rw e refl
]

canonical_uint-unsigned :
    (m : ℕ) (j : UintKind) (n : ℕ)
    → (ltb m 128 ≡ false → uint_kind_eq uint j && (m == n) ≡ false)
    → key_eq (canonical_uint m) (unsigned j n) ≡ false
unfolding key_eq
canonical_uint-unsigned m j n h = elim (Bool-cases (ltb m 128)) [
  | inl e ↦ rw e refl
  | inr e ↦ rw e (h e)
]

canonical_float-foreign :
    (u : ℕ) (j : IntKind) (k : UintKind) (x : ℤ) (n : ℕ)
    → (key_eq (canonical_float u) (signed j x) ≡ false)
      × (key_eq (canonical_float u) (unsigned k n) ≡ false)
unfolding key_eq
canonical_float-foreign u j k x n = elim (Bool-cases (ltb u (2 ^ 32))) [
  | inl e ↦ rw e (refl, refl)
  | inr e ↦ rw e (refl, refl)
]

pub signed-IsForeign :
    (j : IntKind) (x : ℤ)
    → ((m : ℕ) → ltb m 128 ≡ true → int_kind_eq int j && int_eq (pos m) x ≡ false)
    → ((m : ℕ) → int_kind_eq int j && int_eq (negsuc m) x ≡ false)
    → IsForeign (signed j x)
unfolding canonical key_eq
signed-IsForeign j x h g nil_value = refl
signed-IsForeign j x h g (signed k (pos m)) = canonical_uint-signed m j x (h m)
signed-IsForeign j x h g (signed k (negsuc m)) = g m
signed-IsForeign j x h g (unsigned k m) = canonical_uint-signed m j x (h m)
signed-IsForeign j x h g (float32 u) = (canonical_float-foreign u j uint x 0).0
signed-IsForeign j x h g (float64 u) = (canonical_float-foreign u j uint x 0).0
signed-IsForeign j x h g (bool true) = refl
signed-IsForeign j x h g (bool false) = refl
signed-IsForeign j x h g (str s) = refl
signed-IsForeign j x h g (bytes b) = refl
signed-IsForeign j x h g (map es) = refl
signed-IsForeign j x h g (slice xs) = refl
signed-IsForeign j x h g (typed_map n) = refl
signed-IsForeign j x h g (typed_slice n) = refl
signed-IsForeign j x h g other = refl

pub unsigned-IsForeign :
    (j : UintKind) (n : ℕ)
    → ((m : ℕ) → ltb m 128 ≡ false → uint_kind_eq uint j && (m == n) ≡ false)
    → IsForeign (unsigned j n)
unfolding canonical key_eq
unsigned-IsForeign j n h nil_value = refl
unsigned-IsForeign j n h (signed k (pos m)) = canonical_uint-unsigned m j n (h m)
unsigned-IsForeign j n h (signed k (negsuc m)) = refl
unsigned-IsForeign j n h (unsigned k m) = canonical_uint-unsigned m j n (h m)
unsigned-IsForeign j n h (float32 u) = (canonical_float-foreign u int j (pos 0) n).1
unsigned-IsForeign j n h (float64 u) = (canonical_float-foreign u int j (pos 0) n).1
unsigned-IsForeign j n h (bool true) = refl
unsigned-IsForeign j n h (bool false) = refl
unsigned-IsForeign j n h (str s) = refl
unsigned-IsForeign j n h (bytes b) = refl
unsigned-IsForeign j n h (map es) = refl
unsigned-IsForeign j n h (slice xs) = refl
unsigned-IsForeign j n h (typed_map k) = refl
unsigned-IsForeign j n h (typed_slice k) = refl
unsigned-IsForeign j n h other = refl
