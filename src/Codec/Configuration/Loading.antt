-- ===== src/Codec/Configuration/Loading.antt =====
-- codec/configuration.go: what reads give after a file was loaded and after it was not there.
use clove.Prelude.{ℕ, ◌≡◌, Bool, true, false, Option, none, some, List, [], refl, ap}
use clove.Prelude.Int.{pos}
use clove.Prelude.Run.{returned, panicked}
use clove.Codec.Value.{Value, nil_value, str, Entries, no_entries, str_eq}
use clove.Codec.SliceReader.{FloatOps, from_default, integer_of, float_of}
use clove.Codec.MapReader.{
  try_read_value, first_of, lookup_key, or_else, str_value_of, integer_number_of, bool_value_of,
  float_value_of, str_of, bool_of,
}
use clove.Codec.Json.{Json, JsonMembers, ts_map, json_decode}
use clove.Codec.Json.Members.{value_under, lookup_key-ts_map}
use clove.Codec.Manager.{
  find_codec, get_codec_manager, add_codec, json_decoded, set_codec, get_codec, memory_codec,
  clove_codec, json_codec,
}
use clove.Network.Format.{to_lower}
use clove.Codec.Configuration.{
  Configuration, Files, load_configuration, load, load_with, load_once, join_pieces, read_string,
  read_int, read_bool, read_float, after_load, decode_by, map_of,
}

-- The value of a configuration key, nil where the document has no such member.
abbrev pub setting : JsonMembers → List ℕ → Value
setting ms key = or_else (value_under ms key none) nil_value

load_once-json :
    (j : Json) (ps : List (List ℕ)) (ms : JsonMembers)
    → j.unmarshal_map (join_pieces ps) ≡ (none, ms)
    → load_once (get_codec_manager j) (some ps) ≡ some (ts_map ms no_entries)
unfolding load_once get_codec_manager find_codec decode_by map_of json_decode json_decoded add_codec
    set_codec get_codec memory_codec clove_codec json_codec to_lower str_eq
load_once-json j ps ms h = rw h refl

try_read_value-ts_map :
    (ops : FloatOps) (ms : JsonMembers) (key : List ℕ)
    → try_read_value ops (ts_map ms no_entries) (str key) ≡ returned (setting ms key)
unfolding try_read_value first_of lookup_key value_under
try_read_value-ts_map ops ms key =
    ap (λ (o : Option Value). returned (or_else o nil_value)) (lookup_key-ts_map ms no_entries key)

-- What the readers give of a value that was found.
readers-found :
    (ops : FloatOps) (es : Entries) (k v : Value)
    → try_read_value ops es k ≡ returned v
    → (str_value_of ops es k [] ≡ returned (from_default [] (str_of v)))
      × (integer_number_of ops es k (pos 0) ≡ returned (from_default (pos 0) (integer_of ops v)))
      × (bool_value_of ops es k ≡ returned (from_default false (bool_of v)))
      × (float_value_of ops es k 0 ≡ returned (from_default 0 (float_of ops v)))
unfolding str_value_of integer_number_of bool_value_of float_value_of
readers-found ops es k v h = rw h (refl, refl, refl, refl)

-- When the file of a configuration can be opened and encoding/json makes an object of its bytes,
-- however they are read in pieces, each `Read` method gives the member of its key where that
-- member is of a kind that the method accepts, and the zero value of its type otherwise.
pub read-document :
    (ops : FloatOps) (j : Json) (files : Files) (path : List ℕ) (ps : List (List ℕ))
    (ms : JsonMembers) (key : List ℕ)
    → files path ≡ some ps
    → j.unmarshal_map (join_pieces ps) ≡ (none, ms)
    → let c = load_configuration path in
      ((read_string ops j files key c).0 ≡ returned (from_default [] (str_of (setting ms key))))
      × ((read_int ops j files key c).0
          ≡ returned (from_default (pos 0) (integer_of ops (setting ms key))))
      × ((read_bool ops j files key c).0 ≡ returned (from_default false (bool_of (setting ms key))))
      × ((read_float ops j files key c).0
          ≡ returned (from_default 0 (float_of ops (setting ms key))))
unfolding read_string read_int read_bool read_float load load_with after_load str_value_of
    integer_number_of bool_value_of float_value_of
read-document ops j files path ps ms key found parsed =
    rw (found, load_once-json j ps ms parsed)
      (readers-found ops (ts_map ms no_entries) (str key) (setting ms key)
        (try_read_value-ts_map ops ms key))

abbrev IsStable : Json → Files → Configuration → Type 0
IsStable j after c = load j after c ≡ c

done-IsStable :
    (j : Json) (after : Files) (p : List ℕ) (r : Option Entries)
    → IsStable j after (record { path = p; reader = r; loaded = true })
unfolding load load_with
done-IsStable j after p (some es) = refl
done-IsStable j after p none = refl

load-IsStable :
    (j : Json) (before after : Files) (p : List ℕ) (r : Option Entries) (b : Bool)
    → IsStable j after (load j before (record { path = p; reader = r; loaded = b }))
unfolding load load_with after_load
load-IsStable j before after p (some es) b = refl
load-IsStable j before after p none true = refl
load-IsStable j before after p none false =
    done-IsStable j after p (load_once (get_codec_manager j) (before p))

-- A file is read at most once: whatever the files are later, a configuration that was read stays
-- as it is.
load-load :
    (j : Json) (before after : Files) (c : Configuration)
    → load j after (load j before c) ≡ load j before c
load-load j before after c = load-IsStable j before after c.path c.reader c.loaded

-- Of a configuration whose file cannot be opened when it is first read, every `Read` method panics
-- from then on, also when the file is there later.
load-missing :
    (ops : FloatOps) (j : Json) (before after : Files) (path : List ℕ) (key : List ℕ)
    → before path ≡ none
    → let c = load j before (load_configuration path) in
      ((read_string ops j after key c).0 ≡ panicked)
      × ((read_int ops j after key c).0 ≡ panicked)
      × ((read_bool ops j after key c).0 ≡ panicked)
      × ((read_float ops j after key c).0 ≡ panicked)
unfolding read_string read_int read_bool read_float load load_with after_load load_once
load-missing ops j before after path key missing = rw missing (refl, refl, refl, refl)
