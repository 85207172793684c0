-- ===== src/Codec/Configuration.antt =====
-- codec/configuration.go: a file of JSON that is loaded once, when it is first read.
pub mod Loading
use clove.Prelude.{ℕ, Bool, true, false, Option, none, some, List, [], ◌∷◌, ◌++◌, if◌then◌else◌}
use clove.Prelude.Int.{ℤ, pos}
use clove.Prelude.Run.{Run, returned, panicked, out_of_fuel, ◌>>=◌}
use clove.Codec.Value.{Value, str, map, Entries}
use clove.Codec.SliceReader.{FloatOps}
use clove.Codec.MapReader.{str_value_of, integer_number_of, bool_value_of, float_value_of}
use clove.Codec.Json.{Json}
use clove.Codec.Manager.{AnyError, CodecEntry, CodecManager, find_codec, get_codec_manager}

-- `reader` is the map of the `CloveMapReader`, or `none` for nil; `loaded` says that the
-- `sync.Once` is used up.
pub record Configuration : Type 0 where
  pub path : List ℕ
  pub reader : Option Entries
  pub loaded : Bool

abbrev pub load_configuration : List ℕ → Configuration
load_configuration p = record { path = p; reader = none; loaded = false }

abbrev load_configuration_with_reader : Entries → Configuration
load_configuration_with_reader es = record { path = []; reader = some es; loaded = false }

-- The files: `none` where a path cannot be opened, else the pieces of up to 512 bytes that the
-- calls of `Read` return before the one that fails.
abbrev pub Files : Type 0
Files = List ℕ → Option (List (List ℕ))

unfoldable pub join_pieces : List (List ℕ) → List ℕ
join_pieces [] = []
join_pieces (p ∷ ps) = p ++ join_pieces ps

-- `GetCodecManager().FindCodec("json").Decoder.Decode`; a codec that is not there panics.
unfoldable pub decode_by : Option CodecEntry → List ℕ → Run (Option AnyError × Value × List ℕ)
decode_by none raw = panicked
decode_by (some c) raw = c.decode_with raw

-- `configData.(CloveMap)` panics for another type, and `load` recovers.
unfoldable pub map_of : Run (Option AnyError × Value × List ℕ) → Option Entries
map_of (returned (e, map es, rest)) = some es
map_of _ = none

unfoldable pub load_once : CodecManager → Option (List (List ℕ)) → Option Entries
unfolding find_codec decode_by map_of join_pieces
load_once m none = none
load_once m (some ps) =
    map_of (decode_by (find_codec (b'j' ∷ b's' ∷ b'o' ∷ b'n' ∷ []) m) (join_pieces ps))

unfoldable pub after_load : Option Entries → Configuration → Configuration
after_load r c = record c { reader = r; loaded = true }

-- `new` is what `once.Do` would leave as the reader.
unfoldable pub load_with : Option Entries → Bool → Option Entries → Configuration → Configuration
unfolding after_load
load_with (some es) done new c = c
load_with none true new c = c
load_with none false new c = after_load new c

unfoldable pub load : Json → Files → Configuration → Configuration
unfolding load_once load_with get_codec_manager
load j files c = load_with c.reader c.loaded (load_once (get_codec_manager j) (files c.path)) c

-- A method of the nil reader panics.
abbrev with_reader {ℓ} : {B : Type ℓ} → (Entries → Run B) → Option Entries → Run B
with_reader f none = panicked
with_reader f (some es) = f es

-- A read returns its result and the configuration that it leaves.
module _ (ops : FloatOps) (j : Json) (files : Files) where
  abbrev read_by {ℓ} : {B : Type ℓ} → (Entries → Run B) → Configuration → Run B × Configuration
  unfolding load
  read_by f c = let c' = load j files c in (with_reader f c'.reader, c')

  unfoldable pub read_string : List ℕ → Configuration → Run (List ℕ) × Configuration
  unfolding load str_value_of
  read_string key = read_by (λ es. str_value_of ops es (str key) [])

  unfoldable pub read_int : List ℕ → Configuration → Run ℤ × Configuration
  unfolding load integer_number_of
  read_int key = read_by (λ es. integer_number_of ops es (str key) (pos 0))

  unfoldable pub read_bool : List ℕ → Configuration → Run Bool × Configuration
  unfolding load bool_value_of
  read_bool key = read_by (λ es. bool_value_of ops es (str key))

  unfoldable pub read_float : List ℕ → Configuration → Run ℕ × Configuration
  unfolding load float_value_of
  read_float key = read_by (λ es. float_value_of ops es (str key) 0)
