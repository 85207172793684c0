-- ===== src/Network/Format.antt =====
-- network/packet.go: `PacketParser`, `PacketFormat` and the two managers of formats.
pub mod Choice
use clove.Prelude.{
  ℕ, ◌+◌, Bool, true, false, Option, none, some, List, [], ◌∷◌, ◌++◌, leb, ltb, ◌&&◌, ◌==◌,
  if◌then◌else◌,
}
use clove.Base.Buffer.{Buffer}
use clove.Network.Packet.{PacketError, Packet, PacketType, type_eq, Parsed, ParsedAll, Packaged}

-- The interface of a parser: a score is `none` for -1.
pub record PacketParser : Type 0 where
  pub test_match_score : Buffer → Option ℕ
  pub parse_from_bytes : List ℕ → Parsed
  pub parse_from_buffer : Buffer → ParsedAll

-- `HandshakeAck` gives the error, the acknowledgement and the buffer that is left; an empty farewell
-- is none.
pub record PacketPreprocessor : Type 0 where
  pub handshake_ack : Buffer → (Option PacketError × List ℕ) × Buffer
  pub farewell : List ℕ

pub record PacketFormat : Type 0 where
  pub tag : List ℕ
  pub priority : ℕ
  pub format_type : PacketType
  pub is_default : Bool
  pub parser : PacketParser
  pub packager : Packet → Packaged
  pub preprocessor : Option PacketPreprocessor

-- strings.ToLower, of an ASCII text.
unfoldable pub to_lower : List ℕ → List ℕ
to_lower [] = []
to_lower (c ∷ s) = (if leb b'A' c && leb c b'Z' then c + 32 else c) ∷ to_lower s

unfoldable tag_eq : List ℕ → List ℕ → Bool
tag_eq [] [] = true
tag_eq (a ∷ s) (b ∷ t) = a == b && tag_eq s t
tag_eq _ _ = false

pub record FormatManager : Type 0 where
  pub map_formats : List (List ℕ × PacketFormat)
  pub sorted_formats : List PacketFormat

abbrev pub new_format_manager : FormatManager
new_format_manager = record { map_formats = []; sorted_formats = [] }

unfoldable set_format :
    List ℕ → PacketFormat → List (List ℕ × PacketFormat) → List (List ℕ × PacketFormat)
unfolding tag_eq
set_format k f [] = (k, f) ∷ []
set_format k f ((j, g) ∷ m) = if tag_eq j k then (k, f) ∷ m else (j, g) ∷ set_format k f m

unfoldable get_format : List ℕ → List (List ℕ × PacketFormat) → Option PacketFormat
unfolding tag_eq
get_format k [] = none
get_format k ((j, g) ∷ m) = if tag_eq j k then some g else get_format k m

unfoldable pub add_packet_format : PacketFormat → FormatManager → FormatManager
unfolding set_format to_lower
add_packet_format f m = record {
  map_formats = set_format (to_lower f.tag) f m.map_formats;
  sorted_formats = m.sorted_formats ++ (f ∷ []);
}

unfoldable pub find_packet_format : List ℕ → FormatManager → Option PacketFormat
unfolding get_format to_lower
find_packet_format tag m = get_format (to_lower tag) m.map_formats

-- `NewPacketFormatManager`: a tag that `all` does not know is only logged.
unfoldable new_packet_format_manager : FormatManager → List (List ℕ) → FormatManager → FormatManager
unfolding add_packet_format find_packet_format
new_packet_format_manager all [] inst = inst
new_packet_format_manager all (tag ∷ tags) inst =
    new_packet_format_manager all tags
      (elim (find_packet_format tag all) [ none ↦ inst | some f ↦ add_packet_format f inst ])

-- `score > scorePrev`
unfoldable pub score_gt : Option ℕ → Option ℕ → Bool
score_gt none p = false
score_gt (some s) none = true
score_gt (some s) (some p) = ltb p s

abbrev pub is_score : ℕ → Option ℕ → Bool
is_score n none = false
is_score n (some s) = s == n

-- After the loop.
abbrev pub choose : Option ℕ → Option PacketFormat → Option PacketFormat → Option PacketFormat
choose none dst def = def
choose (some s) dst def = if leb 90 s then dst else none

-- The loop of `DetermineFromBuffer` over the formats that are left.
unfoldable pub determine_loop :
    Buffer
    → List PacketFormat
    → Option ℕ
    → Option PacketFormat
    → Option PacketFormat
    → Option PacketFormat
unfolding score_gt type_eq
determine_loop b [] prev dst def = choose prev dst def
determine_loop b (pf ∷ pfs) prev dst def =
    let score = pf.parser.test_match_score b in
    let skip = determine_loop b pfs prev dst def in
    let default = determine_loop b pfs prev dst (some pf) in
    let better = determine_loop b pfs score (some pf) def in
    if type_eq pf.format_type PacketType.unix_msg
    then skip
    else if pf.is_default
    then default
    else if is_score 100 score
    then some pf
    else if score_gt score prev
    then better
    else skip

unfoldable pub determine_from_buffer : FormatManager → Buffer → Option PacketFormat
unfolding determine_loop
determine_from_buffer m b = determine_loop b m.sorted_formats none none none
