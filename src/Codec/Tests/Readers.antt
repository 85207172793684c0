-- ===== src/Codec/Tests/Readers.antt =====
-- The theorems of the readers, the codecs by name and the configuration at concrete values.
use clove.Prelude.{◌≡◌, refl, none, some, [], ◌∷◌, arith, true, false, inl}
use clove.Prelude.Int.{negsuc, pos}
use clove.Prelude.Run.{returned}
use clove.Codec.Value.{
  signed, unsigned, str, int8, int16, int64, uint8, int, Entries, entry, no_entries, has_key,
  is_hashable, key_eq, bool,
}
use clove.Codec.Canonical.{canonical, canonical_entries, append_entries, HasKeysFresh}
use clove.Codec.SliceReader.{FloatOps, from_default, int_of, uint_of, integer_of, float_of}
use clove.Codec.MapReader.{
  try_read_value, int_value_of, uint_value_of, str_value_of, bool_value_of, str_of, bool_of,
  lookup_key,
}
use clove.Codec.MapReader.Transmitted.{IsSameKey, try_read_value-canonical, number_of}
use clove.Codec.MapReader.Readers.{value_of-transmitted}
use clove.Codec.Json.{Json, JsonMembers, no_members, member, string, number, no_values}
use clove.Codec.Configuration.{
  Files, load_configuration, read_string, read_int, read_bool, read_float,
}
use clove.Codec.Configuration.Loading.{read-document, setting}

abbrev plain_floats : FloatOps
plain_floats = record { widen = λ u. u; narrow = λ u. u; floor_int = λ u. pos u }

abbrev first_entry : Entries
first_entry = entry (signed int8 (negsuc 4)) (str (b'a' ∷ [])) no_entries

abbrev two_entries : Entries
two_entries =
    append_entries first_entry (entry (unsigned uint8 200) (signed int16 (pos 300)) no_entries)

two_entries-HasKeysFresh : HasKeysFresh no_entries (canonical_entries two_entries)
unfolding canonical append_entries has_key is_hashable key_eq
two_entries-HasKeysFresh = (refl, refl, (refl, refl, tt))

same_number : IsSameKey (unsigned uint8 200) (signed int64 (pos 200))
unfolding number_of
same_number = inl (pos 200, refl, refl)

try_read_value-canonical_example :
    try_read_value plain_floats (canonical_entries two_entries) (signed int64 (pos 200))
    ≡ returned (canonical (signed int16 (pos 300)))
try_read_value-canonical_example =
    try_read_value-canonical plain_floats first_entry (unsigned uint8 200) (signed int16 (pos 300))
      no_entries (signed int64 (pos 200)) two_entries-HasKeysFresh (omega arith) same_number

value_of-transmitted_example :
    (int_value_of plain_floats (canonical_entries two_entries) (signed int64 (pos 200)) (pos 0)
      ≡ returned (from_default (pos 0) (int_of (signed int16 (pos 300)))))
    × (uint_value_of plain_floats (canonical_entries two_entries) (signed int64 (pos 200)) 7
        ≡ returned (from_default 7 (uint_of (signed int16 (pos 300)))))
    × (str_value_of plain_floats (canonical_entries two_entries) (signed int64 (pos 200)) []
        ≡ returned (from_default [] (str_of (signed int16 (pos 300)))))
    × (bool_value_of plain_floats (canonical_entries two_entries) (signed int64 (pos 200))
        ≡ returned (from_default false (bool_of (signed int16 (pos 300)))))
value_of-transmitted_example =
    value_of-transmitted plain_floats first_entry (unsigned uint8 200) (signed int16 (pos 300))
      no_entries (signed int64 (pos 200)) (pos 0) 7 [] two_entries-HasKeysFresh (omega arith)
      (omega arith) same_number

-- Before a transmission a key of one byte answers to every number that is congruent to it.
int8_answers_to_257 :
    try_read_value plain_floats
      (entry (signed int8 (pos 1)) (bool true) no_entries)
      (signed int (pos 257))
    ≡ returned (bool true)
unfolding try_read_value lookup_key key_eq
int8_answers_to_257 = refl

abbrev document : JsonMembers
document =
    member (b'p' ∷ b'o' ∷ b'r' ∷ b't' ∷ []) (number 8080)
      (member (b'h' ∷ b'o' ∷ b's' ∷ b't' ∷ []) (string (b'a' ∷ [])) no_members)

abbrev one_document : Json
one_document = record {
  unmarshal_map = λ bytes. (none, document);
  unmarshal_slice = λ bytes. (none, no_values);
  marshal = λ v. (none, []);
}

abbrev one_file : Files
one_file path = some ((b'{' ∷ []) ∷ (b'}' ∷ []) ∷ [])

read-document_example :
    ((read_string plain_floats one_document one_file
        (b'p' ∷ b'o' ∷ b'r' ∷ b't' ∷ [])
        (load_configuration (b'f' ∷ []))).0
      ≡ returned (from_default [] (str_of (setting document (b'p' ∷ b'o' ∷ b'r' ∷ b't' ∷ [])))))
    × ((read_int plain_floats one_document one_file
          (b'p' ∷ b'o' ∷ b'r' ∷ b't' ∷ [])
          (load_configuration (b'f' ∷ []))).0
        ≡ returned (
            from_default
              (pos 0)
              (integer_of plain_floats (setting document (b'p' ∷ b'o' ∷ b'r' ∷ b't' ∷ [])))))
    × ((read_bool plain_floats one_document one_file
          (b'p' ∷ b'o' ∷ b'r' ∷ b't' ∷ [])
          (load_configuration (b'f' ∷ []))).0
        ≡ returned
            (from_default false (bool_of (setting document (b'p' ∷ b'o' ∷ b'r' ∷ b't' ∷ [])))))
    × ((read_float plain_floats one_document one_file
          (b'p' ∷ b'o' ∷ b'r' ∷ b't' ∷ [])
          (load_configuration (b'f' ∷ []))).0
        ≡ returned (
            from_default 0
              (float_of plain_floats (setting document (b'p' ∷ b'o' ∷ b'r' ∷ b't' ∷ [])))))
read-document_example =
    read-document plain_floats one_document one_file (b'f' ∷ []) ((b'{' ∷ []) ∷ (b'}' ∷ []) ∷ [])
      document (b'p' ∷ b'o' ∷ b'r' ∷ b't' ∷ []) refl refl
