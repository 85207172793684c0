-- ===== src/Udp/Datagram/Loops.antt =====
-- udp/controller.go: the loops of `processRead`, `processWrite` and `process`, as steps in any
-- order, and `Close`. A panic in a loop is not modelled: none of their steps panics.
pub mod InOrder
pub mod Ordered
use clove.Prelude.{
  ℕ, ◌≡◌, ◌<◌, Bool, true, false, Option, none, some, List, [], ◌∷◌, ◌++◌, length, if◌then◌else◌,
}
use clove.Network.Packet.{Packet}
use clove.Udp.Pipeline.{PipelineError}
use clove.Udp.Datagram.Receiving.{Endpoint, receive}

-- `pending` are the packets that `read` has still to put on the channel of received packets,
-- `queue` is the channel, `handed` the packets given to the callback, and `heard` the datagrams
-- that were read, with their senders. `draining` is the loop of `ChannelQueue.Close`, and `allowing`
-- whether `chSend` is open.
pub record Controller : Type 0 where
  pub endpoint : Endpoint
  pub exiting : Bool
  pub reading : Bool
  pub allowing : Bool
  pub processing : Bool
  pub draining : Bool
  pub closed : Bool
  pub pending : List (Option Packet)
  pub queue : List (Option Packet)
  pub handed : List Packet
  pub heard : List (List ℕ × List ℕ)

-- `CreateControllerWithFragmentSize` when `bind` gave no error.
unfoldable pub create_controller : Endpoint → Controller
create_controller e = record {
  endpoint = e;
  exiting = false;
  reading = true;
  allowing = true;
  processing = true;
  draining = false;
  closed = false;
  pending = [];
  queue = [];
  handed = [];
  heard = [];
}

-- The part of `read` behind `ReadFromUDP`, before its packets are put on the channel.
unfoldable pub hear : List ℕ → List ℕ → Controller → Controller
unfolding receive
hear addr bytes c = record c {
  endpoint = (receive c.endpoint addr bytes).0;
  pending = (receive c.endpoint addr bytes).1;
  heard = c.heard ++ ((addr, bytes) ∷ []);
}

-- The end of the loop of `processRead` behind an error, where `ChannelQueue.Close` begins.
unfoldable pub stop_reading : Controller → Controller
stop_reading c = record c { reading = false; draining = true }

-- One round of `ChannelQueue.Close`: it takes a packet off the channel, for which it competes with
-- the loop of `process`.
unfoldable pub drain_packet : List (Option Packet) → Controller → Controller
drain_packet rest c = record c { queue = rest }

-- The end of `ChannelQueue.Close` when the channel is empty. The goroutine that closes the channel
-- is the one that puts on it, so nothing comes between the two.
unfoldable pub close_channel : Controller → Controller
close_channel c = record c { draining = false; closed = true }

-- An error of `Combine` drops the sender's pipeline and ends the loop.
unfoldable pub fail_combine : List ℕ → List ℕ → Controller → Controller
unfolding receive stop_reading
fail_combine addr bytes c = stop_reading (record c {
  endpoint = (receive c.endpoint addr bytes).0;
  heard = c.heard ++ ((addr, bytes) ∷ []);
})

unfoldable pub put_packet : Option Packet → List (Option Packet) → Controller → Controller
put_packet p rest c = record c { pending = rest; queue = c.queue ++ (p ∷ []) }

-- `Close`: the loops see `exiting` and the closed connection.
unfoldable pub close : Controller → Controller
close c = record c { exiting = true }

-- The loop of `process` on a packet, with whether `PacketReceived` gave no error; its end closes.
unfoldable pub handle_packet : Bool → Packet → List (Option Packet) → Controller → Controller
handle_packet go_on p rest c = record c {
  queue = rest;
  handed = c.handed ++ (p ∷ []);
  processing = go_on;
  exiting = if go_on then c.exiting else true;
}

-- The slot of a packet that is not binary is nil, which ends the loop.
unfoldable pub handle_nil : List (Option Packet) → Controller → Controller
unfolding close
handle_nil rest c = close (record c { queue = rest; processing = false })

unfoldable pub finish_processing : Controller → Controller
unfolding close
finish_processing c = close (record c { processing = false })

-- The end of `processWrite`: no goroutine of `SendPacket` is let through any more.
unfoldable pub stop_writing : Controller → Controller
stop_writing c = record c { allowing = false }

abbrev pub channel_size : ℕ
channel_size = 32

-- What the loops of a controller reach.
pub data Runs (start : Endpoint) : Controller → Type 0 where
  created : Runs start (create_controller start)
  heard_datagram :
      (c : Controller) (addr bytes : List ℕ)
      → Runs start c
      → c.reading ≡ true
      → c.pending ≡ []
      → (receive c.endpoint addr bytes).2 ≡ none
      → Runs start (hear addr bytes c)
  failed :
      (c : Controller) (addr bytes : List ℕ) (e : PipelineError)
      → Runs start c
      → c.reading ≡ true
      → c.pending ≡ []
      → (receive c.endpoint addr bytes).2 ≡ some e
      → Runs start (fail_combine addr bytes c)
  stopped :
      (c : Controller)
      → Runs start c
      → c.reading ≡ true
      → c.pending ≡ []
      → Runs start (stop_reading c)
  drained :
      (c : Controller) (p : Option Packet) (rest : List (Option Packet))
      → Runs start c
      → c.draining ≡ true
      → c.queue ≡ p ∷ rest
      → Runs start (drain_packet rest c)
  channel_closed :
      (c : Controller)
      → Runs start c
      → c.draining ≡ true
      → c.queue ≡ []
      → Runs start (close_channel c)
  put :
      (c : Controller) (p : Option Packet) (rest : List (Option Packet))
      → Runs start c
      → c.reading ≡ true
      → c.pending ≡ p ∷ rest
      → length c.queue < channel_size
      → Runs start (put_packet p rest c)
  handled :
      (c : Controller) (go_on : Bool) (p : Packet) (rest : List (Option Packet))
      → Runs start c
      → c.processing ≡ true
      → c.queue ≡ some p ∷ rest
      → Runs start (handle_packet go_on p rest c)
  handled_nil :
      (c : Controller) (rest : List (Option Packet))
      → Runs start c
      → c.processing ≡ true
      → c.queue ≡ none ∷ rest
      → Runs start (handle_nil rest c)
  finished :
      (c : Controller)
      → Runs start c
      → c.processing ≡ true
      → c.closed ≡ true
      → c.queue ≡ []
      → Runs start (finish_processing c)
  closed_by_caller : (c : Controller) → Runs start c → Runs start (close c)
  stopped_writing : (c : Controller) → Runs start c → c.exiting ≡ true → Runs start (stop_writing c)
