-- ===== src/Udp/Datagram/Receiving.antt =====
-- udp/controller.go: `read` and the pipelines of the senders it has heard from.
pub mod Reassembly
pub mod Several
pub mod Lost
use clove.Prelude.{
  ℕ, zero, suc, ◌+◌, ◌%◌, ◌^◌, ◌≡◌, Bool, ◌||◌, not, Option, none, some, drop, ◌*◌, List, [], ◌∷◌,
  ◌++◌, length, ltb, ◌==◌, if◌then◌else◌,
}
use clove.Prelude.Bytes.{big_endian, uint16}
use clove.Codec.Value.{str_eq}
use clove.Network.Packet.{Packet, binary, BinaryPacket}
use clove.Network.Format.{PacketFormat}
use clove.Udp.Pipeline.{
  Fragment, FragmentPipeline, PipelineError, not_enough, create_fragment_pipeline, add_fragment,
  combine,
}
use clove.Udp.Datagram.Sending.{header_size, header_prefix, header_suffix}
use clove.Prelude.{take}

-- The fragment in a datagram: `none` where `isFrag` stays false.
unfoldable pub parse_datagram : List ℕ → Option Fragment
parse_datagram (p ∷ i1 ∷ i0 ∷ c1 ∷ c0 ∷ l1 ∷ l0 ∷ s ∷ payload) =
    let size : ℕ = (l1 * 2 ^ 8 + l0 + header_size) % 2 ^ 16 in
    if not (p == header_prefix) || not (s == header_suffix)
    then none
    else if size == (length payload + header_size) % 2 ^ 16
    then some (record {
      length_field = l1 * 2 ^ 8 + l0;
      idx = i1 * 2 ^ 8 + i0;
      count = c1 * 2 ^ 8 + c0;
      payload = payload;
    })
    else none
parse_datagram _ = none

-- The controller's fragment size and format, and its map from a sender to the sender's pipeline.
pub record Endpoint : Type 0 where
  pub fragment_size : ℕ
  pub packet_fmt : Option PacketFormat
  pub pipelines : List (List ℕ × FragmentPipeline)

unfoldable pub find_pipeline : List ℕ → List (List ℕ × FragmentPipeline) → Option FragmentPipeline
unfolding str_eq
find_pipeline addr [] = none
find_pipeline addr ((a, p) ∷ m) = if str_eq a addr then some p else find_pipeline addr m

unfoldable pub put_pipeline :
    List ℕ → FragmentPipeline → List (List ℕ × FragmentPipeline) → List (List ℕ × FragmentPipeline)
unfolding str_eq
put_pipeline addr p [] = (addr, p) ∷ []
put_pipeline addr p ((a, q) ∷ m) =
    if str_eq a addr then (a, p) ∷ m else (a, q) ∷ put_pipeline addr p m

unfoldable del_pipeline :
    List ℕ → List (List ℕ × FragmentPipeline) → List (List ℕ × FragmentPipeline)
unfolding str_eq
del_pipeline addr [] = []
del_pipeline addr ((a, q) ∷ m) =
    if str_eq a addr then del_pipeline addr m else (a, q) ∷ del_pipeline addr m

-- `getPipeline`, without its store of a new pipeline: `read` changes that pipeline at once.
unfoldable pub get_pipeline : Endpoint → List ℕ → FragmentPipeline
unfolding find_pipeline create_fragment_pipeline
get_pipeline e addr = elim (find_pipeline addr e.pipelines) [
  | none ↦ create_fragment_pipeline addr e.packet_fmt
  | some p ↦ p
]

-- What `read` puts on the channel of received packets, and the error that ends the reading.
abbrev pub Received : Type 0
Received = Endpoint × List (Option Packet) × Option PipelineError

-- What follows `Combine`: an error other than a missing fragment drops the pipeline.
abbrev pub after_combine :
    Endpoint → List ℕ → List (Option Packet) × Option PipelineError → Received
unfolding del_pipeline
after_combine e addr (pcks, none) = (e, pcks, none)
after_combine e addr (pcks, some not_enough) = (e, [], none)
after_combine e addr (pcks, some err) =
    (record e { pipelines = del_pipeline addr e.pipelines }, [], some err)

abbrev pub take_fragment : Endpoint → List ℕ → Fragment → Received
unfolding put_pipeline get_pipeline add_fragment combine
take_fragment e addr f =
    let p = add_fragment (get_pipeline e addr) f in
    after_combine (record e { pipelines = put_pipeline addr p e.pipelines }) addr (combine p)

-- A datagram that is no fragment is a packet of its own.
abbrev pub raw_packet : List ℕ → List ℕ → Packet
raw_packet addr bytes = binary (record {
  from = addr;
  encrypted = Bool.false;
  compressed = Bool.false;
  protocol_type = 0;
  protocol_ver = 0;
  compress_support = Bool.false;
  raw = bytes;
})

-- What `read` does with the bytes that are in its slice.
unfoldable pub receive_cut : Endpoint → List ℕ → List ℕ → Received
unfolding parse_datagram take_fragment
receive_cut e addr bytes = elim (parse_datagram bytes) [
  | none ↦ (e, some (raw_packet addr bytes) ∷ [], none)
  | some f ↦ take_fragment e addr f
]

-- One `read` of a datagram: ReadFromUDP cuts it to the slice, a fragment with its header.
unfoldable pub receive : Endpoint → List ℕ → List ℕ → Received
unfolding receive_cut
receive e addr bytes = receive_cut e addr (take (e.fragment_size + header_size) bytes)
