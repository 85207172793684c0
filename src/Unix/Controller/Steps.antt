-- ===== src/Unix/Controller/Steps.antt =====
-- unix/controller.go: `processRead`, `process` and the goroutines that `read` starts, as steps in
-- any order. A controller is not modelled beyond what these goroutines share.
pub mod Accounted
use clove.Prelude.{
  ℕ, ◌≡◌, ◌<◌, Bool, true, false, Option, none, some, List, [], ◌∷◌, ◌++◌, length, if◌then◌else◌,
}
use clove.Prelude.Run.{Run, returned, panicked}
use clove.Network.Packet.{Packet, PacketType, type_eq}
use clove.Network.Format.{PacketFormat}
use clove.Unix.Controller.{Incoming, IncomingMsg, UnixError, read, read_msg}

-- The channel of received packets, with the stages of its `ChannelQueue.Close`: the loop that takes
-- the packets off it, the end of that loop, and the close itself.
pub data Channel : Type 0 where
  in_use draining drained shut : Channel

unfoldable pub is_shut : Channel → Bool
is_shut shut = true
is_shut _ = false

-- What one call of `read` or of `readMsg` gets from the socket.
pub data Input : Type 0 where
  for_read : Incoming → Input
  for_read_msg : IncomingMsg → Input

-- `pending` is the packet that `readMsg` has still to put on the channel, `waiting` are the packets
-- of the goroutines of `read` that have still to do so, `queue` is what is on the channel, and
-- `handed` the packets given to the callback; `inputs` are those that became a packet, the last
-- one first. `crashed` is a panic that nothing recovers.
pub record Endpoint : Type 0 where
  pub reading : Bool
  pub processing : Bool
  pub channel : Channel
  pub crashed : Bool
  pub pending : List Packet
  pub waiting : List Packet
  pub queue : List Packet
  pub handed : List Packet
  pub inputs : List Input

unfoldable pub process : Endpoint
process = record {
  reading = true;
  processing = true;
  channel = in_use;
  crashed = false;
  pending = [];
  waiting = [];
  queue = [];
  handed = [];
  inputs = [];
}

-- The branches of the loop of `processRead`, by the type of the format: with no format, to ask for
-- its type is a panic.
pub data Branch : Type 0 where
  by_read by_read_msg not_supported no_format : Branch

unfoldable pub read_branch : Option PacketFormat → Branch
unfolding type_eq
read_branch none = no_format
read_branch (some f) =
    if type_eq f.format_type PacketType.binary
    then by_read
    else if type_eq f.format_type PacketType.unix_msg
    then by_read_msg
    else not_supported

-- `read` of a datagram without an error: `go func() { c.chReceived <- pck }()`.
unfoldable pub hear_packet : Incoming → Packet → Endpoint → Endpoint
hear_packet i p c = record c { waiting = p ∷ c.waiting; inputs = for_read i ∷ c.inputs }

-- `readMsg` without an error puts the packet on the channel itself.
unfoldable pub hear_msg : IncomingMsg → Packet → Endpoint → Endpoint
hear_msg m p c = record c { pending = p ∷ []; inputs = for_read_msg m ∷ c.inputs }

-- The end of the loop of `processRead`, where `ChannelQueue.Close` begins.
unfoldable pub stop_reading : Endpoint → Endpoint
stop_reading c = record c { reading = false; channel = draining }

-- A panic is recovered behind the loop, and the channel is not closed.
unfoldable pub fail_reading : Endpoint → Endpoint
fail_reading c = record c { reading = false }

-- One round of `ChannelQueue.Close`.
unfoldable pub drain_packet : List Packet → Endpoint → Endpoint
drain_packet rest c = record c { queue = rest }

-- The round that finds the channel empty. A goroutine may put its packet on it before the close.
unfoldable pub end_drain : Endpoint → Endpoint
end_drain c = record c { channel = drained }

unfoldable pub close_channel : Endpoint → Endpoint
close_channel c = record c { channel = shut }

unfoldable pub put_packet : List Packet → Packet → Endpoint → Endpoint
put_packet others p c = record c { waiting = others; queue = c.queue ++ (p ∷ []) }

unfoldable pub put_pending : Packet → Endpoint → Endpoint
put_pending p c = record c { pending = []; queue = c.queue ++ (p ∷ []) }

-- A send on a closed channel panics.
unfoldable pub put_closed : List Packet → Endpoint → Endpoint
put_closed others c = record c { waiting = others; crashed = true }

-- The loop of `process` on a packet, with whether `PacketReceived` gave no error.
unfoldable pub handle_packet : Bool → Packet → List Packet → Endpoint → Endpoint
handle_packet go_on p rest c = record c {
  queue = rest;
  handed = c.handed ++ (p ∷ []);
  processing = go_on;
}

-- The loop of `process` when the channel is closed and empty.
unfoldable pub finish_processing : Endpoint → Endpoint
finish_processing c = record c { processing = false }

abbrev pub channel_size : ℕ
channel_size = 32

-- The loop of `processRead` is before its next round.
pub record IsReading (fmt : Option PacketFormat) (b : Branch) (c : Endpoint) : Type 0 where
  pub runs : c.crashed ≡ false
  pub reads : c.reading ≡ true
  pub idle : c.pending ≡ []
  pub branch : read_branch fmt ≡ b

-- What a run of the goroutines of a controller reaches, for a limit and a format.
pub data Runs (limit : ℕ) (fmt : Option PacketFormat) : Endpoint → Type 0 where
  started : Runs limit fmt process
  heard_datagram :
      (c : Endpoint) (i : Incoming) (p : Packet)
      → Runs limit fmt c
      → IsReading fmt by_read c
      → read limit fmt i ≡ returned (none, p ∷ [])
      → Runs limit fmt (hear_packet i p c)
  heard_msg :
      (c : Endpoint) (m : IncomingMsg) (p : Packet)
      → Runs limit fmt c
      → IsReading fmt by_read_msg c
      → read_msg m ≡ (none, p ∷ [])
      → Runs limit fmt (hear_msg m p c)
  stopped :
      (c : Endpoint) (i : Incoming) (e : UnixError) (ps : List Packet)
      → Runs limit fmt c
      → IsReading fmt by_read c
      → read limit fmt i ≡ returned (some e, ps)
      → Runs limit fmt (stop_reading c)
  stopped_msg :
      (c : Endpoint) (m : IncomingMsg) (e : UnixError) (ps : List Packet)
      → Runs limit fmt c
      → IsReading fmt by_read_msg c
      → read_msg m ≡ (some e, ps)
      → Runs limit fmt (stop_reading c)
  stopped_type :
      (c : Endpoint)
      → Runs limit fmt c
      → IsReading fmt not_supported c
      → Runs limit fmt (stop_reading c)
  failed :
      (c : Endpoint) (i : Incoming)
      → Runs limit fmt c
      → IsReading fmt by_read c
      → read limit fmt i ≡ panicked
      → Runs limit fmt (fail_reading c)
  failed_format :
      (c : Endpoint)
      → Runs limit fmt c
      → IsReading fmt no_format c
      → Runs limit fmt (fail_reading c)
  queue_drained :
      (c : Endpoint) (p : Packet) (rest : List Packet)
      → Runs limit fmt c
      → c.crashed ≡ false
      → c.channel ≡ draining
      → c.queue ≡ p ∷ rest
      → Runs limit fmt (drain_packet rest c)
  drain_ended :
      (c : Endpoint)
      → Runs limit fmt c
      → c.crashed ≡ false
      → c.channel ≡ draining
      → c.queue ≡ []
      → Runs limit fmt (end_drain c)
  channel_closed :
      (c : Endpoint)
      → Runs limit fmt c
      → c.crashed ≡ false
      → c.channel ≡ drained
      → Runs limit fmt (close_channel c)
  put :
      (c : Endpoint) (before : List Packet) (p : Packet) (after : List Packet)
      → Runs limit fmt c
      → c.crashed ≡ false
      → is_shut c.channel ≡ false
      → c.waiting ≡ before ++ (p ∷ after)
      → length c.queue < channel_size
      → Runs limit fmt (put_packet (before ++ after) p c)
  put_msg :
      (c : Endpoint) (p : Packet)
      → Runs limit fmt c
      → c.crashed ≡ false
      → c.pending ≡ p ∷ []
      → length c.queue < channel_size
      → Runs limit fmt (put_pending p c)
  put_late :
      (c : Endpoint) (before : List Packet) (p : Packet) (after : List Packet)
      → Runs limit fmt c
      → c.crashed ≡ false
      → c.channel ≡ shut
      → c.waiting ≡ before ++ (p ∷ after)
      → Runs limit fmt (put_closed (before ++ after) c)
  handled :
      (c : Endpoint) (go_on : Bool) (p : Packet) (rest : List Packet)
      → Runs limit fmt c
      → c.crashed ≡ false
      → c.processing ≡ true
      → c.queue ≡ p ∷ rest
      → Runs limit fmt (handle_packet go_on p rest c)
  finished :
      (c : Endpoint)
      → Runs limit fmt c
      → c.crashed ≡ false
      → c.processing ≡ true
      → c.channel ≡ shut
      → c.queue ≡ []
      → Runs limit fmt (finish_processing c)
