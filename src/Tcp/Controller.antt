-- ===== src/Tcp/Controller.antt =====
-- tcp/controller.go: `Controller`, one connection with its flags, its buffers and its format.
pub mod Sending
pub mod Life
pub mod Keeping
pub mod Alive
pub mod Packets
pub mod Reading
use clove.Prelude.{
  ℕ, zero, suc, ◌+◌, ◌≡◌, Bool, true, false, not, ◌&&◌, Option, none, some, List, [], ◌∷◌, ◌++◌,
  length, take, drop, ltb, ◌==◌, if◌then◌else◌, bit_or,
}
use clove.Prelude.Run.{Run, returned, panicked, out_of_fuel}
use clove.Base.Buffer.{Buffer, next, write}
use clove.Base.Bit.{test_mask}
use clove.Network.Packet.{Packet, PacketError, ParsedAll}
use clove.Network.Format.{PacketFormat, PacketPreprocessor, FormatManager, determine_from_buffer}

abbrev pub flag_opened : ℕ
flag_opened = 0x1

abbrev flag_closing : ℕ
flag_closing = 0x2

abbrev flag_closed : ℕ
flag_closed = 0x4

abbrev pub flag_data_received : ℕ
flag_data_received = 0x8

abbrev pub flag_readyed : ℕ
flag_readyed = 0x10

-- `waiting` has the lengths that calls of `SendBytes` wait to put on `chSend`, `received` the
-- packets of each goroutine that puts packets on `chReceived`, in the order of their start, `closing`
-- the values for `chClosed`, `wire` the bytes written to the connection, and `leaves` counts the
-- calls of the manager's `ControllerLeave`.
pub record Controller : Type 0 where
  pub flag : ℕ
  pub alive_checking : Bool
  pub packet_fmt : Option PacketFormat
  pub packet_fmt_mgr : FormatManager
  pub buf_recv : Buffer
  pub buf_send : Buffer
  pub waiting : List ℕ
  pub received : List (List Packet)
  pub closing : List Bool
  pub wire : List ℕ
  pub is_open : Bool
  pub leaves : ℕ

-- `CreateController`, with the manager of formats that `parsePacket` would take.
unfoldable pub create_controller : FormatManager → Controller
create_controller m = record {
  flag = flag_opened;
  alive_checking = true;
  packet_fmt = none;
  packet_fmt_mgr = m;
  buf_recv = [];
  buf_send = [];
  waiting = [];
  received = [];
  closing = [];
  wire = [];
  is_open = true;
  leaves = 0;
}

abbrev pub is_opened : Controller → Bool
unfolding test_mask
is_opened c = test_mask c.flag flag_opened

unfoldable pub set_data_received_flag : Controller → Controller
unfolding test_mask is_opened
set_data_received_flag c =
    if is_opened c && not (test_mask c.flag flag_data_received)
    then record c { flag = bit_or c.flag flag_data_received }
    else c

unfoldable pub set_readyed_flag : Controller → Controller
unfolding test_mask is_opened
set_readyed_flag c =
    if is_opened c && not (test_mask c.flag flag_readyed)
    then record c { flag = bit_or c.flag flag_readyed; alive_checking = false }
    else c

-- Of a format that is not nil: the log of its tag would panic on nil.
unfoldable pub set_packet_format : PacketFormat → Controller → Controller
unfolding set_data_received_flag set_readyed_flag
set_packet_format f c = set_readyed_flag (set_data_received_flag (record c { packet_fmt = some f }))

abbrev farewell_of : Option PacketFormat → List ℕ
farewell_of none = []
farewell_of (some f) = elim f.preprocessor [ none ↦ [] | some p ↦ p.farewell ]

-- The farewell's write may fail in part; here a connection that is open takes it.
unfoldable pub force_close : Controller → Controller
force_close c = record c {
  wire = if c.is_open then c.wire ++ farewell_of c.packet_fmt else c.wire;
  is_open = false;
}

unfoldable pub exit : Controller → Controller
unfolding is_opened force_close
exit c = if is_opened c then force_close (record c { alive_checking = false }) else c

unfoldable pub exit_and_notify : Controller → Controller
unfolding is_opened force_close
exit_and_notify c =
    if is_opened c
    then force_close (record c { alive_checking = false; closing = c.closing ++ (true ∷ []) })
    else c

-- `Close`, which runs when the loop of `process` has ended.
unfoldable pub close : Controller → Controller
unfolding test_mask
close c =
    if test_mask c.flag flag_closing
    then record c {
      buf_recv = [];
      buf_send = [];
      waiting = [];
      received = [];
      closing = [];
      flag = flag_closed;
      leaves = c.leaves + 1;
    }
    else c

-- `SendBytes` up to its wait on the channel.
unfoldable pub send_bytes : List ℕ → Controller → Bool × Controller
unfolding is_opened write
send_bytes bytes c =
    if is_opened c
    then (
      true,
      record c {
        buf_send = (write bytes c.buf_send).1;
        waiting = c.waiting ++ (length bytes ∷ []);
      },
    )
    else (false, c)

-- The goroutine that `ReceivePackets` starts, which it does not for no packets.
abbrev pub goroutine_of : List Packet → List (List Packet)
goroutine_of [] = []
goroutine_of (p ∷ ps) = (p ∷ ps) ∷ []

-- `ReceivePackets`: the goroutines put their packets on the channel side by side.
unfoldable pub receive_packets : List Packet → Controller → Controller
receive_packets ps c = record c { received = c.received ++ goroutine_of ps }

abbrev pub Outcome : Type 0
Outcome = Option PacketError × Controller

-- `parsePacket` with a format: the parser's error leaves the packets before it behind.
abbrev pub after_buffer : Controller → ParsedAll → Outcome
unfolding receive_packets
after_buffer c (some e, ps, b) = (some e, record c { buf_recv = b })
after_buffer c (none, ps, b) = (none, receive_packets ps (record c { buf_recv = b }))

abbrev pub parse_with : PacketFormat → Controller → Outcome
unfolding after_buffer
parse_with f c = after_buffer c (f.parser.parse_from_buffer c.buf_recv)

abbrev pub after_ack : Controller → (Option PacketError × List ℕ) × Buffer → Outcome
unfolding send_bytes set_readyed_flag
after_ack c ((some e, ack), b) = (some e, record c { buf_recv = b })
after_ack c ((none, ack), b) =
    (none, set_readyed_flag (send_bytes ack (record c { buf_recv = b })).1)

-- The first use of the format that was determined, by its preprocessor.
abbrev pub start_format : Option PacketPreprocessor → PacketFormat → Controller → Outcome
unfolding after_ack parse_with set_readyed_flag
start_format none f c = parse_with f (set_readyed_flag c)
start_format (some p) f c = after_ack c (p.handshake_ack c.buf_recv)

abbrev pub start_determined : Option PacketFormat → Controller → Outcome
unfolding start_format
start_determined none c = (none, c)
start_determined (some f) c = start_format f.preprocessor f (record c { packet_fmt = some f })

abbrev pub parse_by : Option PacketFormat → Controller → Outcome
unfolding parse_with start_determined determine_from_buffer
parse_by (some f) c = parse_with f c
parse_by none c = start_determined (determine_from_buffer c.packet_fmt_mgr c.buf_recv) c

unfoldable pub parse_packet : Controller → Outcome
unfolding parse_by
parse_packet c = parse_by c.packet_fmt c

abbrev pub after_parse_packet : Outcome → Bool × Controller
unfolding exit_and_notify
after_parse_packet (some e, c) = (false, exit_and_notify c)
after_parse_packet (none, c) = (true, c)

-- One round of `processRead`: `none` is an error of the connection's `Read`. The Boolean is whether
-- the loop goes on.
unfoldable pub read_round : Option (List ℕ) → Controller → Bool × Controller
unfolding exit_and_notify after_parse_packet parse_packet set_data_received_flag write
read_round none c = (false, exit_and_notify c)
read_round (some []) c = (false, exit_and_notify c)
read_round (some (x ∷ bytes)) c = after_parse_packet (
    parse_packet
      (set_data_received_flag (record c { buf_recv = (write (x ∷ bytes) c.buf_recv).1 })))

-- The connection's `Write`, after `SetWriteDeadline`: the bytes written, or `none` for an error of
-- either, given the bytes written before and the bytes.
abbrev pub Conn : Type 0
Conn = List ℕ → List ℕ → Option ℕ

-- The loop that writes all of a slice: whether it did, and the wire.
unfoldable pub write_all : ℕ → Conn → List ℕ → List ℕ → Run (Bool × List ℕ)
write_all zero conn wire bytes = out_of_fuel
write_all (suc fuel) conn wire bytes = elim (conn wire bytes) [
  | none ↦ returned (false, wire)
  | some n ↦
      let more = write_all fuel conn (wire ++ take n bytes) (drop n bytes) in
      if ltb n (length bytes) then more else returned (true, wire ++ bytes)
]

abbrev pub after_write_all : Controller → Run (Bool × List ℕ) → Run Controller
unfolding exit
after_write_all c (returned (true, wire)) = returned (record c { wire = wire })
after_write_all c (returned (false, wire)) = returned (exit (record c { wire = wire }))
after_write_all c panicked = panicked
after_write_all c out_of_fuel = out_of_fuel

-- The branch of `process` on a length that came over `chSend`. A write that takes no byte without
-- an error repeats for ever; a write that takes some is one of at most `n`.
unfoldable pub process_send : Conn → ℕ → Controller → Run Controller
unfolding next exit after_write_all write_all
process_send conn n c =
    if n == 0
    then returned (exit c)
    else let ((bytes, m), rest) = next n c.buf_send in
      let c' : Controller = record c { buf_send = rest } in
      if not (m == n)
      then returned (exit c')
      else after_write_all c' (write_all n conn c.wire bytes)

-- The branch on `chClosed`.
unfoldable pub process_closed : Controller → Controller
process_closed c = record c { flag = flag_closing }

-- The branch on a packet: whether `ControllerPacketReceived` gave no error.
unfoldable pub process_received : Bool → Controller → Controller
unfolding exit
process_received true c = c
process_received false c = exit c
