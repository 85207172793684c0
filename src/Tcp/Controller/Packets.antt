-- ===== src/Tcp/Controller/Packets.antt =====
-- tcp/controller.go: `SendPackets` and `SendPacketsAndClose`, and the loop of `processRead`.
pub mod Sent
pub mod Received
pub mod Determined
pub mod Delivered
pub mod Arriving
use clove.Prelude.{Bool, true, false, Option, none, some, List, [], ◌∷◌, ◌++◌, if◌then◌else◌, ℕ}
use clove.Network.Packet.{Packet, Packaged}
use clove.Network.Format.{FormatManager}
use clove.Network.Formats.{choose_format}
use clove.Tcp.Controller.{Controller, is_opened, send_bytes, read_round}

-- The bytes of a packet whose packager gave no error go to `SendBytes`.
abbrev pub send_packaged : Packaged → Controller → Controller
unfolding send_bytes
send_packaged (some e, raw) c = c
send_packaged (none, raw) c = (send_bytes raw c).1

-- One round of the goroutine of `SendPacketsAndClose`, with the package's own manager of formats: a
-- packet that no format is found for, or that cannot be packaged, is left out.
unfoldable pub send_packet : FormatManager → Packet → Controller → Controller
unfolding choose_format send_packaged
send_packet all p c = elim (choose_format c.packet_fmt all p) [
  | none ↦ c
  | some f ↦ send_packaged (f.packager p) c
]

unfoldable send_each : FormatManager → List Packet → Controller → Controller
unfolding send_packet
send_each all [] c = c
send_each all (p ∷ ps) c = send_each all ps (send_packet all p c)

-- The goroutine at its end, with nothing else between its rounds; a length of no bytes over
-- `chSend` is what closes.
unfoldable pub send_packets_and_close :
    FormatManager → Bool → List Packet → Controller → Bool × Controller
unfolding is_opened send_each send_bytes
send_packets_and_close all closes ps c =
    let sent = send_each all ps c in
    if is_opened c then (true, if closes then (send_bytes [] sent).1 else sent) else (false, c)

unfoldable send_packets : FormatManager → List Packet → Controller → Bool × Controller
unfolding send_packets_and_close
send_packets all ps c = send_packets_and_close all false ps c

-- The loop of `processRead` over the results of the connection's `Read`, as far as they have come.
unfoldable pub process_read : List (Option (List ℕ)) → Controller → Controller
unfolding read_round
process_read [] c = c
process_read (r ∷ rs) c =
    let (more, c') = read_round r c in let rest = process_read rs c' in if more then rest else c'
