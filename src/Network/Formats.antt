-- ===== src/Network/Formats.antt =====
-- network/clove.go, network/text.go and network/fd.go: the formats that the package registers, of
-- which the last two have their whole parsers here.
use clove.Prelude.{ℕ, true, false, none, some, List, [], ◌∷◌, length, Option}
use clove.Base.Buffer.{Buffer, next, len}
use clove.Network.Packet.{
  get_type, Packet, text, Parsed, ParsedAll, Packaged, PacketType, unsupported,
}
use clove.Network.Format.{FormatManager, find_packet_format, PacketFormat}
use clove.Network.CloveFormat

unfoldable pub clove_packet_format : PacketFormat
clove_packet_format = record {
  tag = (b'c' ∷ b'l' ∷ b'o' ∷ b'v' ∷ b'e' ∷ []);
  priority = 0;
  format_type = PacketType.binary;
  is_default = false;
  parser = record {
    test_match_score = CloveFormat.test_match_score;
    parse_from_bytes = CloveFormat.parse_from_bytes;
    parse_from_buffer = CloveFormat.parse_from_buffer;
  };
  packager = CloveFormat.package_packet;
  preprocessor = none;
}

abbrev text_packet : List ℕ → Packet
text_packet input = text (record { from = []; text = input })

-- `TextPacketParser`: all that there is, is one text.
unfoldable parse_text_bytes : List ℕ → Parsed
parse_text_bytes input = (none, some (text_packet input), length input)

unfoldable parse_text_buffer : Buffer → ParsedAll
unfolding next len
parse_text_buffer b =
    let ((input, n), rest) = next (len b) b in (none, text_packet input ∷ [], rest)

unfoldable pub package_text : Packet → Packaged
package_text (text t) = (none, t.text)
package_text _ = (some unsupported, [])

unfoldable pub text_packet_format : PacketFormat
unfolding parse_text_bytes parse_text_buffer package_text
text_packet_format = record {
  tag = (b't' ∷ b'e' ∷ b'x' ∷ b't' ∷ []);
  priority = 0xff;
  format_type = PacketType.text;
  is_default = true;
  parser = record {
    test_match_score = λ b. none;
    parse_from_bytes = parse_text_bytes;
    parse_from_buffer = parse_text_buffer;
  };
  packager = package_text;
  preprocessor = none;
}

-- The descriptor format is a name for the type of a socket: its methods do nothing.
unfoldable fd_packet_format : PacketFormat
fd_packet_format = record {
  tag = (b'f' ∷ b'd' ∷ []);
  priority = 0;
  format_type = PacketType.unix_msg;
  is_default = false;
  parser = record {
    test_match_score = λ b. none;
    parse_from_bytes = λ input. (none, none, 0);
    parse_from_buffer = λ b. (none, [], b);
  };
  packager = λ p. (none, []);
  preprocessor = none;
}

-- The names of the packet types.
unfoldable type_name : PacketType → List ℕ
type_name PacketType.binary = (b'b' ∷ b'i' ∷ b'n' ∷ b'a' ∷ b'r' ∷ b'y' ∷ [])
type_name PacketType.text = (b't' ∷ b'e' ∷ b'x' ∷ b't' ∷ [])
type_name PacketType.http = (b'h' ∷ b't' ∷ b't' ∷ b'p' ∷ [])
type_name PacketType.ping = (b'p' ∷ b'i' ∷ b'n' ∷ b'g' ∷ [])
type_name PacketType.unix_msg = (b'u' ∷ b'n' ∷ b'i' ∷ b'x' ∷ b'm' ∷ b's' ∷ b'g' ∷ [])
type_name PacketType.auto = (b'a' ∷ b'u' ∷ b't' ∷ b'o' ∷ [])

-- The format of a controller, or one that is found by the type of the packet.
unfoldable pub choose_format : Option PacketFormat → FormatManager → Packet → Option PacketFormat
unfolding get_type type_name find_packet_format
choose_format (some f) m p = some f
choose_format none m p = find_packet_format (type_name (get_type p)) m
