-- ===== src/Codec/Manager.antt =====
-- codec/codec.go: the codecs by name, and the memory codec, which passes bytes as they are.
use clove.Prelude.{
  ℕ, ◌≡◌, Option, none, some, List, [], ◌∷◌, if◌then◌else◌, refl, ap, Bool-cases, inl, inr,
}
use clove.Prelude.Bytes.{big_endian}
use clove.Prelude.Run.{Run, returned, ◌>>=◌}
use clove.Codec.Value.{Value, bytes, str_eq}
use clove.Codec.Encoder.{CodecError, encode}
use clove.Codec.Decoder.{decode}
use clove.Codec.Json.{Json, JsonError, json_encode, json_decode}
use clove.Codec.Strings.{str_eq_sound, not_both}
use clove.Network.Format.{to_lower}

-- Errors of the codecs that come with the package.
pub data AnyError : Type 0 where
  from_clove : CodecError → AnyError
  from_json : JsonError → AnyError
  type_not_supported : AnyError

pub record CodecEntry : Type 0 where
  pub protocol : ℕ
  pub version : ℕ
  pub name : List ℕ
  pub decode_with : List ℕ → Run (Option AnyError × Value × List ℕ)
  pub encode_with : Value → Option AnyError × List ℕ

abbrev map_error {ℓ κ} : {A : Type ℓ} {B : Type κ} → (A → B) → Option A → Option B
map_error f none = none
map_error f (some a) = some (f a)

unfoldable decode_memory : List ℕ → Run (Option AnyError × Value × List ℕ)
decode_memory raw = returned (none, bytes raw, [])

unfoldable encode_memory : Value → Option AnyError × List ℕ
encode_memory (bytes b) = (none, b)
encode_memory _ = (some type_not_supported, [])

unfoldable pub memory_codec : CodecEntry
unfolding decode_memory encode_memory
memory_codec = record {
  protocol = 0;
  version = 1;
  name = (b'm' ∷ b'e' ∷ b'm' ∷ b'o' ∷ b'r' ∷ b'y' ∷ []);
  decode_with = decode_memory;
  encode_with = encode_memory;
}

-- The byte order that was not set is the big endian one.
unfoldable clove_decoded : Option CodecError × Value × List ℕ → Option AnyError × Value × List ℕ
clove_decoded (e, v, rest) = (map_error from_clove e, v, rest)

unfoldable clove_encoded : Option CodecError × List ℕ → Option AnyError × List ℕ
clove_encoded (e, b) = (map_error from_clove e, b)

unfoldable pub clove_codec : CodecEntry
unfolding decode encode clove_decoded clove_encoded
clove_codec = record {
  protocol = 1;
  version = 1;
  name = (b'c' ∷ b'l' ∷ b'o' ∷ b'v' ∷ b'e' ∷ []);
  decode_with = λ raw. decode big_endian raw >>= (λ d. returned (clove_decoded d));
  encode_with = λ v. clove_encoded (encode big_endian v);
}

unfoldable pub json_decoded : Option JsonError × Value × List ℕ → Option AnyError × Value × List ℕ
json_decoded (e, v, rest) = (map_error from_json e, v, rest)

unfoldable json_encoded : Option JsonError × List ℕ → Option AnyError × List ℕ
json_encoded (e, b) = (map_error from_json e, b)

unfoldable pub json_codec : Json → CodecEntry
unfolding json_decode json_decoded json_encoded
json_codec j = record {
  protocol = 2;
  version = 1;
  name = (b'J' ∷ b'S' ∷ b'O' ∷ b'N' ∷ []);
  decode_with = λ raw. returned (json_decoded (json_decode j raw));
  encode_with = λ v. json_encoded (json_encode j v);
}

-- `mapCodecs`, by lower-case names.
abbrev pub CodecManager : Type 0
CodecManager = List (List ℕ × CodecEntry)

unfoldable pub set_codec : List ℕ → CodecEntry → CodecManager → CodecManager
unfolding str_eq
set_codec k c [] = (k, c) ∷ []
set_codec k c ((j, d) ∷ m) = if str_eq j k then (k, c) ∷ m else (j, d) ∷ set_codec k c m

unfoldable pub get_codec : List ℕ → CodecManager → Option CodecEntry
unfolding str_eq
get_codec k [] = none
get_codec k ((j, d) ∷ m) = if str_eq j k then some d else get_codec k m

unfoldable pub add_codec : CodecEntry → CodecManager → CodecManager
unfolding set_codec to_lower
add_codec c m = set_codec (to_lower c.name) c m

unfoldable pub find_codec : List ℕ → CodecManager → Option CodecEntry
unfolding get_codec to_lower
find_codec name m = get_codec (to_lower name) m

unfoldable pub get_codec_manager : Json → CodecManager
unfolding add_codec
get_codec_manager j = add_codec (json_codec j) (add_codec clove_codec (add_codec memory_codec []))

get_codec-set :
    (k j : List ℕ) (c : CodecEntry) (m : CodecManager)
    → get_codec j (set_codec k c m) ≡ (if str_eq k j then some c else get_codec j m)
unfolding get_codec set_codec
get_codec-set k j c [] = refl
get_codec-set k j c ((i, d) ∷ m) = elim (Bool-cases (str_eq i k)) [
  | inl e ↦ rw e (elim (Bool-cases (str_eq k j)) [
    | inl t ↦ rw t refl
    | inr f ↦ rw (f, ap (λ (s : List ℕ). str_eq s j) (str_eq_sound i k e)) (rw f refl)
  ])
  | inr e ↦
      rw (e, get_codec-set k j c m)
        (elim (Bool-cases (str_eq i j)) [
          | inl t ↦ elim (Bool-cases (str_eq k j)) [
            | inl u ↦ absurd (not_both i j k e t u)
            | inr f ↦ rw (t, f) refl
          ]
          | inr f ↦ rw f refl
        ])
]

-- `FindCodec` after `AddCodec` gives the codec that was added for its own name in any case, and
-- for another name what it gave before.
find_codec-add :
    (c : CodecEntry) (m : CodecManager) (name : List ℕ)
    → find_codec name (add_codec c m)
      ≡ (if str_eq (to_lower c.name) (to_lower name) then some c else find_codec name m)
unfolding find_codec add_codec
find_codec-add c m name = get_codec-set (to_lower c.name) (to_lower name) c m
