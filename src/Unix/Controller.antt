-- ===== src/Unix/Controller.antt =====
-- unix/controller.go: the sending of packets and the reading of one datagram. The socket is a
-- parameter; `defer base.LogPanic(recover())` makes a panic of `SendPacket` return false.
pub mod Sending
pub mod Receiving
pub mod Steps
use clove.Prelude.{
  ℕ, Bool, true, false, not, ◌&&◌, ◌||◌, Option, none, some, List, [], ◌∷◌, length, take, ◌==◌,
  if◌then◌else◌,
}
use clove.Prelude.Run.{Run, returned, panicked, out_of_fuel}
use clove.Network.Packet.{
  Packet, binary, text, http, ping, unix_msg, PacketType, get_type, type_eq, UnixMsgPacket,
  PacketError, Parsed,
}
use clove.Network.Formats.{choose_format}
use clove.Network.Format.{PacketFormat, FormatManager, find_packet_format}

-- The errors of the calls of package net, of a write that took a part, and of the packets.
pub data UnixError : Type 0 where
  resolve_failed deadline_failed write_failed incomplete not_unix_msg packet_format read_failed :
      UnixError

-- The socket: whether `ResolveUnixAddr` takes an address, whether a deadline can be set, and what
-- `WriteToUnix` and `WriteMsgUnix` return, `none` for an error.
pub record Socket : Type 0 where
  pub resolves : List ℕ → Bool
  pub sets_deadline : Bool
  pub write_to_unix : List ℕ → List ℕ → Option ℕ
  pub write_msg_unix : List ℕ → List ℕ → List ℕ → Option (ℕ × ℕ)

-- A datagram with its out-of-band data and the address that it was written to.
pub record Datagram : Type 0 where
  pub to : List ℕ
  pub bytes : List ℕ
  pub oob : List ℕ

-- What a call writes, and its error.
abbrev pub Sent : Type 0
Sent = List Datagram × Option UnixError

abbrev pub datagram : List ℕ → List ℕ → List ℕ → Datagram
datagram addr b o = record { to = addr; bytes = b; oob = o }

unfoldable pub after_write : List ℕ → List ℕ → Option ℕ → Sent
after_write addr bytes none = ([], some write_failed)
after_write addr bytes (some n) =
    if n == length bytes
    then (datagram addr bytes [] ∷ [], none)
    else (datagram addr (take n bytes) [] ∷ [], some incomplete)

unfoldable pub send_to : Socket → List ℕ → List ℕ → Sent
unfolding after_write
send_to s addr bytes =
    if not (s.resolves addr)
    then ([], some resolve_failed)
    else if not s.sets_deadline
    then ([], some deadline_failed)
    else after_write addr bytes (s.write_to_unix bytes addr)

abbrev pub send_bytes : Socket → List ℕ → List ℕ → Sent
unfolding send_to
send_bytes s addr bytes = send_to s addr bytes

unfoldable pub after_write_msg : List ℕ → UnixMsgPacket → Option (ℕ × ℕ) → Sent
after_write_msg addr u none = ([], some write_failed)
after_write_msg addr u (some (n, k)) =
    if not (n == length u.b) || not (k == length u.oob)
    then (datagram addr (take n u.b) (take k u.oob) ∷ [], some incomplete)
    else (datagram addr u.b u.oob ∷ [], none)

unfoldable pub write_msg : Socket → List ℕ → Packet → Sent
unfolding after_write_msg
write_msg s addr (unix_msg u) = after_write_msg addr u (s.write_msg_unix u.b u.oob addr)
write_msg s addr _ = ([], some not_unix_msg)

unfoldable pub send_msg_packet : Socket → List ℕ → Packet → Sent
unfolding write_msg
send_msg_packet s addr p =
    if not (s.resolves addr) then ([], some resolve_failed) else write_msg s addr p

abbrev pub succeeded : Sent → List Datagram × Bool
succeeded (ds, none) = (ds, true)
succeeded (ds, some e) = (ds, false)

-- What follows `Package`: its error is not reported.
unfoldable pub after_package : Socket → List ℕ → Option PacketError × List ℕ → List Datagram × Bool
unfolding send_to
after_package s addr (none, raw) = succeeded (send_to s addr raw)
after_package s addr (some e, raw) = ([], true)

unfoldable pub send_formatted :
    Socket → List ℕ → Packet → Option PacketFormat → List Datagram × Bool
unfolding after_package
send_formatted s addr p none = ([], false)
send_formatted s addr p (some f) = after_package s addr (f.packager p)

-- `SendPacket` of a controller that has, or has not, begun to exit.
unfoldable pub send_packet :
    Bool → Option PacketFormat → FormatManager → Socket → List ℕ → Packet → List Datagram × Bool
unfolding get_type type_eq send_msg_packet choose_format send_formatted
send_packet exiting fmt m s addr p =
    if exiting
    then ([], false)
    else if type_eq (get_type p) PacketType.unix_msg
    then succeeded (send_msg_packet s addr p)
    else send_formatted s addr p (choose_format fmt m p)

-- The sender's address in a packet that has a place for it.
unfoldable pub with_from : List ℕ → Packet → Packet
with_from addr (binary b) = binary (record b { from = addr })
with_from addr (text t) = text (record t { from = addr })
with_from addr p = p

-- What `read` makes of the parser's result: the packet that a goroutine puts on the channel.
-- `GetType` of a nil packet panics.
unfoldable pub after_parse : List ℕ → Parsed → Run (Option UnixError × List Packet)
unfolding with_from
after_parse addr (none, some p, n) = returned (none, with_from addr p ∷ [])
after_parse addr (none, none, n) = panicked
after_parse addr (some e, p, n) = returned (some packet_format, [])

-- What a read of the socket gives: the bytes and the sender's address, or `none` for an error.
abbrev pub Incoming : Type 0
Incoming = Option (List ℕ × List ℕ)

-- `read` with a slice of `limit` bytes, into which a longer datagram is cut.
unfoldable pub read : ℕ → Option PacketFormat → Incoming → Run (Option UnixError × List Packet)
unfolding after_parse
read limit fmt none = returned (some read_failed, [])
read limit none (some (bytes, addr)) = returned (some packet_format, [])
read limit (some f) (some (bytes, addr)) =
    after_parse addr (f.parser.parse_from_bytes (take limit bytes))

-- A read with out-of-band data: the bytes, that data, and the sender's address.
abbrev pub IncomingMsg : Type 0
IncomingMsg = Option (List ℕ × List ℕ × List ℕ)

-- `readMsg`, with slices of 4 and of 1024 bytes.
unfoldable pub read_msg : IncomingMsg → Option UnixError × List Packet
read_msg none = (some read_failed, [])
read_msg (some (bytes, o, from_addr)) =
    (none, unix_msg (record { addr = from_addr; b = take 4 bytes; oob = take 1024 o }) ∷ [])
