-- ===== src/Tcp/Tests/Packets.antt =====
-- The theorems of packets between two controllers, at a packet of two bytes.
use clove.Prelude.{ℕ, ◌≡◌, some, true, false, List, [], ◌∷◌, map, take, drop, length, refl}
use clove.Prelude.Bytes.{put_uint32}
use clove.Network.Packet.{BinaryPacket, binary, Packet}
use clove.Network.CloveFormat.{package_packet}
use clove.Network.CloveFormat.Stream.{frame}
use clove.Network.Format.{FormatManager, new_format_manager, add_packet_format}
use clove.Network.Formats.{clove_packet_format}
use clove.Tcp.Controller.{Controller, Conn, create_controller, set_packet_format}
use clove.Tcp.Controller.Packets.{send_packets_and_close, send_packet, process_read}
use clove.Tcp.Controller.Packets.Sent

abbrev whole_write : Conn
whole_write wire bytes = some (length bytes)

abbrev sample : BinaryPacket
sample = record {
  from = [];
  encrypted = false;
  compressed = false;
  protocol_type = 1;
  protocol_ver = 2;
  compress_support = true;
  raw = 7 ∷ 8 ∷ [];
}

abbrev clove_manager : FormatManager
clove_manager = add_packet_format clove_packet_format new_format_manager

-- The controller of a connector, which is told its format, and that of a listener.
abbrev client : Controller
client = set_packet_format clove_packet_format (create_controller new_format_manager)

abbrev server : Controller
server = create_controller clove_manager

abbrev with_one : Controller
with_one = send_packet clove_manager (binary sample) client

abbrev one_sent : Controller
one_sent = record with_one { waiting = []; buf_send = []; wire = frame sample }

abbrev two_reads : List (List ℕ)
two_reads = take 3 (frame sample) ∷ drop 3 (frame sample) ∷ []

abbrev read_out : Controller
read_out = process_read (map some two_reads) server

-- A packet and a close: the length 0 waits behind that of the frame.
send_and_close :
    (send_packets_and_close clove_manager true (binary sample ∷ []) client).1.waiting ≡ 7 ∷ (0 ∷ [])
unfolding send_packets_and_close set_packet_format create_controller clove_packet_format
    package_packet put_uint32
send_and_close = refl
