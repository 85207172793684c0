-- ===== src/Codec/Json/Members.antt =====
-- codec/json.go: which keys `tsMap` gives the map that it makes.
use clove.Prelude.{
  ℕ, ◌≡◌, true, false, Option, some, List, if◌then◌else◌, refl, Bool-cases, inl, inr, ap, sym, ◌∙◌,
}
use clove.Codec.Value.{
  Value, nil_value, signed, unsigned, float32, float64, bool, str, bytes, map, slice, typed_map,
  typed_slice, other, Entries, no_entries, entry, assign, key_eq, str_eq,
}
use clove.Codec.Strings.{str_eq_sound}
use clove.Codec.Json.{JsonMembers, no_members, member, ts_map, ts_value}
use clove.Codec.MapReader.{lookup_key}

-- The value under a name: that of its last member, where `given` stands for no member.
unfoldable pub value_under : JsonMembers → List ℕ → Option Value → Option Value
unfolding ts_value str_eq
value_under no_members s given = given
value_under (member t v ms) s given =
    value_under ms s (if str_eq t s then some (ts_value v) else given)

-- A key that equals one string equals just the strings that this one equals.
same_string : (j : Value) (s t : List ℕ) → key_eq j (str s) ≡ true → key_eq j (str t) ≡ str_eq s t
unfolding key_eq
same_string (str r) s t h = rw (str_eq_sound r s h) refl
same_string nil_value s t h = absurd (cc)
same_string (signed k i) s t h = absurd (cc)
same_string (unsigned k n) s t h = absurd (cc)
same_string (float32 u) s t h = absurd (cc)
same_string (float64 u) s t h = absurd (cc)
same_string (bool true) s t h = absurd (cc)
same_string (bool false) s t h = absurd (cc)
same_string (bytes b) s t h = absurd (cc)
same_string (map es) s t h = absurd (cc)
same_string (slice xs) s t h = absurd (cc)
same_string (typed_map n) s t h = absurd (cc)
same_string (typed_slice n) s t h = absurd (cc)
same_string other s t h = absurd (cc)

pub lookup_key-assign :
    (es : Entries) (s t : List ℕ) (v : Value)
    → lookup_key (assign es (str s) v) (str t)
      ≡ (if str_eq s t then some v else lookup_key es (str t))
unfolding lookup_key assign key_eq
lookup_key-assign no_entries s t v = refl
lookup_key-assign (entry j w es) s t v = elim (Bool-cases (key_eq j (str s))) [
  | inl e ↦ elim (Bool-cases (str_eq s t)) [
    | inl u ↦ rw (e, u) refl
    | inr f ↦ rw (e, f, same_string j s t e ∙ f) refl
  ]
  | inr e ↦ elim (Bool-cases (str_eq s t)) [
    | inl u ↦
        rw (e, sym (ap (λ (r : List ℕ). key_eq j (str r)) (str_eq_sound s t u)) ∙ e, u)
          (lookup_key-assign es s t v ∙ rw u refl)
    | inr f ↦ rw (e, lookup_key-assign es s t v, f) refl
  ]
]

-- Under a string `tsMap` stores the value of the member of that name and nothing under the
-- strings that name no member.
pub lookup_key-ts_map :
    (ms : JsonMembers) (es : Entries) (s : List ℕ)
    → lookup_key (ts_map ms es) (str s) ≡ value_under ms s (lookup_key es (str s))
unfolding ts_map value_under
lookup_key-ts_map no_members es s = refl
lookup_key-ts_map (member t v ms) es s =
    lookup_key-ts_map ms (assign es (str t) (ts_value v)) s
    ∙ ap (value_under ms s) (lookup_key-assign es t s (ts_value v))
