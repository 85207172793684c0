-- ===== src/Base/Dict.antt =====
-- base/map.go: `dict`, a map of Go values under a lock. A key that no map can have panics.
use clove.Prelude.{
  ℕ, ◌≡◌, Bool, Option, none, some, List, [], ◌∷◌, if◌then◌else◌, refl, Bool-cases, inl, inr,
}
use clove.Prelude.Run.{Run, returned, panicked}
use clove.Codec.Value.{
  Value, nil_value, str, Entries, no_entries, entry, length_entries, key_eq, is_hashable, assign,
  has_key, str_eq,
}
use clove.Codec.MapReader.{lookup_key}
use clove.Codec.Json.Members.{lookup_key-assign}

abbrev guarded {ℓ} : {A : Type ℓ} → Value → A → Run A
guarded k a = if is_hashable k then returned a else panicked

abbrev new_clove_map : Entries
new_clove_map = no_entries

unfoldable set_value : Value → Value → Entries → Run Entries
unfolding assign is_hashable
set_value k v d = guarded k (assign d k v)

unfoldable delete_key : Value → Entries → Entries
unfolding key_eq
delete_key k no_entries = no_entries
delete_key k (entry j v es) = if key_eq j k then delete_key k es else entry j v (delete_key k es)

abbrev value_or : Value → Option Value → Value
value_or def none = def
value_or def (some v) = v

-- `Pop`: the value, nil for a missing key, and the map without the key.
unfoldable pop : Value → Entries → Run (Value × Entries)
unfolding lookup_key delete_key is_hashable
pop k d = guarded k (value_or nil_value (lookup_key d k), delete_key k d)

-- `Clear` deletes each key that the iteration gives, but a NaN is no key that it can delete.
unfoldable delete_all : Entries → Entries → Entries
unfolding delete_key
delete_all no_entries d = d
delete_all (entry k v es) d = delete_all es (delete_key k d)

unfoldable clear : Entries → Entries
unfolding delete_all
clear d = delete_all d d

unfoldable contains_key : Value → Entries → Run Bool
unfolding has_key is_hashable
contains_key k d = guarded k (has_key d k)

unfoldable get_with_default : Value → Value → Entries → Run Value
unfolding lookup_key is_hashable
get_with_default k def d = guarded k (value_or def (lookup_key d k))

unfoldable get : Value → Entries → Run Value
unfolding get_with_default
get k d = get_with_default k nil_value d

unfoldable pub count : Entries → ℕ
count d = length_entries d

-- In the order of the iteration.
unfoldable keys : Entries → List Value
keys no_entries = []
keys (entry k v es) = k ∷ keys es

unfoldable values : Entries → List Value
values no_entries = []
values (entry k v es) = v ∷ values es

unfoldable pub items : Entries → List (Value × Value)
items no_entries = []
items (entry k v es) = (k, v) ∷ items es

-- After a value was set under a string, it is got under that string, and every other string gives
-- what it gave.
get-set_value :
    (d : Entries) (s t : List ℕ) (v : Value)
    → get (str t) (assign d (str s) v) ≡ (if str_eq s t then returned v else get (str t) d)
unfolding get get_with_default is_hashable
get-set_value d s t v = elim (Bool-cases (str_eq s t)) [
  | inl e ↦ rw (lookup_key-assign d s t v, e) refl
  | inr e ↦ rw (lookup_key-assign d s t v, e) refl
]
