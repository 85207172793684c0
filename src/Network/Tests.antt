-- ===== src/Network/Tests.antt =====
-- The theorems of the wire formats at concrete packets.
use clove.Prelude.{
  ◌≡◌, ◌+◌, drop, some, none, ℕ, refl, List, [], ◌∷◌, ◌++◌, length, arith, suc, true, false, take,
  All,
}
use clove.Network.Packet.{
  HttpPacket, http, PacketType, type_eq, is_damage, BinaryPacket, TextPacket, binary, text,
}
use clove.Network.HttpFormat.{
  package_http, header_end, HttpLib, Request, parse_http_buffer, http_packet, total_length,
  request_body,
}
use clove.Network.HttpFormat.Response.{package_http-body}
use clove.Prelude.Int.{pos}
use clove.Base.Bit.{read_ascii_code}
use clove.Prelude.Bytes.{put_uint32}
use clove.Prelude.Run.{returned}
use mathlib.Core.List.{flatten}
use clove.Network.WsFormat.{length_bytes, plain_text, plain_binary}
use clove.Network.WsFormat.Fragmented.{parse_from_bytes-cut}
use clove.Network.Format.{FormatManager, PacketFormat, determine_from_buffer}
use clove.Network.Format.Choice.{IsAcceptable, determine_from_buffer-IsAcceptable}
use clove.Network.CloveFormat
use clove.Network.CloveFormat.{package_packet, parse_from_bytes, parse_loop, parse_from_buffer}
use clove.Network.Packet.{ParsedAll}
use clove.Prelude.Run.{returned}
use clove.Network.CloveFormat.Frame.{IsFramable, without_from, parse-package}
use clove.Network.CloveFormat.Bounds.{IsParsed, parse_from_bytes-IsParsed, parse_loop-fuel}
use clove.Network.CloveFormat.Stream.{frame, frames, packets}
use clove.Network.CloveFormat.Chunks.{read_chunks, read_chunks-frames}
use clove.Network.WsFormat
use clove.Network.WsFormat.Single.{parse_from_bytes-package_packet}

abbrev sample : BinaryPacket
sample = record {
  from = [];
  encrypted = true;
  compressed = false;
  protocol_type = 3;
  protocol_ver = 1;
  compress_support = true;
  raw = 8 ∷ 9 ∷ [];
}

sample-IsFramable : IsFramable sample
sample-IsFramable = (omega arith, omega arith, omega arith)

abbrev two_packets : List BinaryPacket
two_packets = sample ∷ sample ∷ []

two_packets-IsFramable : All IsFramable two_packets
two_packets-IsFramable = (sample-IsFramable, (sample-IsFramable, tt))

-- Two frames of seven bytes, in reads of three bytes, eight bytes and the rest.
abbrev three_reads : List (List ℕ)
three_reads =
    take 3 (frames two_packets)
    ∷ take 8 (drop 3 (frames two_packets))
    ∷ drop 11 (frames two_packets)
    ∷ []

three_reads-flatten : flatten three_reads ≡ frames two_packets
unfolding flatten package_packet put_uint32
three_reads-flatten = refl

read_chunks-frames_example : read_chunks three_reads [] ≡ (none, packets two_packets, [])
read_chunks-frames_example =
    read_chunks-frames three_reads two_packets two_packets-IsFramable three_reads-flatten

parse-package_example :
    ((package_packet (binary sample)).0 ≡ none)
    × (parse_from_bytes ((package_packet (binary sample)).1 ++ (1 ∷ []))
        ≡ (none, some (binary (without_from sample)), 7))
parse-package_example = parse-package sample (1 ∷ []) sample-IsFramable

frame_is_parsed : parse_from_bytes (frame sample) ≡ (none, some (binary sample), 7)
unfolding parse_from_bytes package_packet put_uint32
frame_is_parsed = refl

parse_from_bytes-IsParsed_example : IsParsed (frame sample) (binary sample) 7
parse_from_bytes-IsParsed_example =
    parse_from_bytes-IsParsed (frame sample) (binary sample) 7 frame_is_parsed

parse_loop-fuel_example :
    (r : ParsedAll) × (parse_loop 3 (0x80 ∷ 1 ∷ []) [] ≡ returned r)
    × (parse_loop 9 (0x80 ∷ 1 ∷ []) [] ≡ returned r)
parse_loop-fuel_example = parse_loop-fuel 3 9 (0x80 ∷ 1 ∷ []) [] (omega arith) (omega arith)

abbrev greeting : TextPacket
greeting = record { from = b'a' ∷ []; text = b'h' ∷ b'i' ∷ [] }

parse_from_bytes-package_packet_example :
    (WsFormat.parse_from_bytes ((WsFormat.package_packet (text greeting)).1 ++ (0x81 ∷ []))
      ≡ returned (
        none,
        some (plain_text greeting.text),
        length (WsFormat.package_packet (text greeting)).1,
      ))
    × (WsFormat.parse_from_bytes ((WsFormat.package_packet (binary sample)).1 ++ (0x81 ∷ []))
        ≡ returned (
          none,
          some (plain_binary sample.raw),
          length (WsFormat.package_packet (binary sample)).1,
        ))
parse_from_bytes-package_packet_example =
    parse_from_bytes-package_packet greeting sample (0x81 ∷ []) (omega arith) (omega arith)

abbrev clove_format : PacketFormat
clove_format = record {
  tag = [];
  priority = 0;
  format_type = PacketType.binary;
  is_default = false;
  parser = record {
    test_match_score = CloveFormat.test_match_score;
    parse_from_bytes = CloveFormat.parse_from_bytes;
    parse_from_buffer = CloveFormat.parse_from_buffer;
  };
  packager = CloveFormat.package_packet;
  preprocessor = none;
}

abbrev only_clove : FormatManager
only_clove = record { map_formats = []; sorted_formats = clove_format ∷ [] }

abbrev IsNotDefault : PacketFormat → Type 0
IsNotDefault f = f.is_default ≡ false

frame_is_determined : determine_from_buffer only_clove (frame sample) ≡ some clove_format
unfolding determine_from_buffer package_packet put_uint32 CloveFormat.test_match_score
frame_is_determined = refl

determine_from_buffer-IsAcceptable_example :
    IsNotDefault clove_format
    × (type_eq clove_format.format_type PacketType.unix_msg ≡ false)
    × IsAcceptable (frame sample) clove_format
determine_from_buffer-IsAcceptable_example =
    determine_from_buffer-IsAcceptable IsNotDefault only_clove (frame sample) clove_format
      (refl, tt) frame_is_determined

parse_from_bytes-cut_example :
    (WsFormat.parse_from_bytes (0x01 ∷ (length_bytes 1 ++ ((b'a' ∷ []) ++ (0x80 ∷ 2 ∷ b'b' ∷ []))))
      ≡ returned (none, some (plain_text (b'a' ∷ [])), suc (length (length_bytes 1) + 1)))
    × (WsFormat.parse_from_bytes (0x80 ∷ 2 ∷ b'b' ∷ b'c' ∷ []) ≡ returned (some is_damage, none, 0))
parse_from_bytes-cut_example =
    parse_from_bytes-cut (b'a' ∷ []) (b'b' ∷ []) (b'c' ∷ []) (omega arith) (omega arith)
      (omega arith)

abbrev no_length : Request
no_length = record {
  content_length = pos 0;
  upgrade = [];
  connection = [];
  origin = [];
  ws_key = [];
  ws_version = [];
  ws_protocol = [];
}

abbrev one_request : HttpLib
one_request = record {
  read_request = λ bytes. some no_length;
  has_form = λ bytes. false;
  read_body = λ bytes. none;
}

abbrev request_bytes : List ℕ
request_bytes =
    71 ∷ 69 ∷ 84 ∷ 32 ∷ 47 ∷ 32 ∷ 72 ∷ 84 ∷ 84 ∷ 80 ∷ 47 ∷ 49 ∷ 46 ∷ 49 ∷ 13 ∷ 10 ∷ 13 ∷ 10 ∷ []

one_request_parsed :
    parse_http_buffer one_request (request_bytes ++ (71 ∷ []))
    ≡ (none, http_packet [] ∷ [], 71 ∷ [])
unfolding parse_http_buffer read_ascii_code total_length request_body
one_request_parsed = refl

abbrev two_blanks : HttpPacket
two_blanks = record {
  response_header = ((b'A' ∷ []), (b'b' ∷ []) ∷ []) ∷ [];
  body = 88 ∷ 13 ∷ 10 ∷ 13 ∷ 10 ∷ 89 ∷ [];
  status_code = 200;
  status_text = (b'O' ∷ b'K' ∷ []);
  http_ver = (b'1' ∷ b'.' ∷ b'1' ∷ []);
}

package_http-body_example :
    ((package_http (http two_blanks)).0 ≡ none)
    × ((i : ℕ) × (header_end (package_http (http two_blanks)).1 ≡ some i)
        × (drop (i + 4) (package_http (http two_blanks)).1 ≡ two_blanks.body))
package_http-body_example =
    package_http-body two_blanks
      ((λ f. omega arith), ((λ f. omega arith), ((λ f. omega arith), tt)))
      ((λ f. omega arith), ((λ f. omega arith), tt))
      ((((λ f. omega arith), tt), (((λ f. omega arith), tt), tt)), tt)
