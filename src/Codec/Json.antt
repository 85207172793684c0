-- ===== src/Codec/Json.antt =====
-- codec/json.go: the conversion of what encoding/json unmarshals to Clove data, and the codec.
pub mod Members
use clove.Prelude.{ℕ, Bool, Option, none, some, List, []}
use clove.Codec.Value.{
  Value, nil_value, float64, bool, str, map, slice, Items, no_items, item, Entries, no_entries,
  assign,
}

-- What `json.Unmarshal` makes of a document: `interface{}`, `[]interface{}` and
-- `map[string]interface{}`, whose names are distinct and which is listed in the order of its
-- iteration. A number is the pattern of a float64.
mutual
  pub data JsonValue : Type 0 where
    null : JsonValue
    boolean : Bool → JsonValue
    number : ℕ → JsonValue
    string : List ℕ → JsonValue
    array : JsonItems → JsonValue
    object : JsonMembers → JsonValue

  pub data JsonItems : Type 0 where
    no_values : JsonItems
    value : JsonValue → JsonItems → JsonItems

  pub data JsonMembers : Type 0 where
    no_members : JsonMembers
    member : List ℕ → JsonValue → JsonMembers → JsonMembers

-- `array_into_map` is the error of an array for a map.
pub data JsonError : Type 0 where
  array_into_map other_error : JsonError

-- encoding/json: what `Unmarshal` stores in a map and in a slice, an error included, and `Marshal`.
pub record Json : Type 0 where
  pub unmarshal_map : List ℕ → Option JsonError × JsonMembers
  pub unmarshal_slice : List ℕ → Option JsonError × JsonItems
  pub marshal : Value → Option JsonError × List ℕ

-- `ts_map` adds to the map that is being made.
unfoldable mutual
  unfolding assign

  pub ts_value : JsonValue → Value
  ts_value null = nil_value
  ts_value (boolean b) = bool b
  ts_value (number u) = float64 u
  ts_value (string s) = str s
  ts_value (array xs) = slice (ts_slice xs)
  ts_value (object ms) = map (ts_map ms no_entries)

  ts_slice : JsonItems → Items
  ts_slice no_values = no_items
  ts_slice (value v xs) = item (ts_value v) (ts_slice xs)

  pub ts_map : JsonMembers → Entries → Entries
  ts_map no_members es = es
  ts_map (member s v ms) es = ts_map ms (assign es (str s) (ts_value v))

abbrev pub decoded_slice : Option JsonError × JsonItems → Option JsonError × Value × List ℕ
unfolding ts_slice
decoded_slice (e, xs) = (e, slice (ts_slice xs), [])

-- Only the error of an array is a reason to try again; another leaves what the map got.
abbrev decoded_map :
    Option JsonError × JsonItems
    → Option JsonError × JsonMembers
    → Option JsonError × Value × List ℕ
unfolding ts_map
decoded_map second (some array_into_map, ms) = decoded_slice second
decoded_map second (some other_error, ms) = (some other_error, map (ts_map ms no_entries), [])
decoded_map second (none, ms) = (none, map (ts_map ms no_entries), [])

module _ (json : Json) where
  unfoldable pub json_decode : List ℕ → Option JsonError × Value × List ℕ
  unfolding ts_map
  json_decode raw = decoded_map (json.unmarshal_slice raw) (json.unmarshal_map raw)

  abbrev pub json_encode : Value → Option JsonError × List ℕ
  json_encode v = json.marshal v
