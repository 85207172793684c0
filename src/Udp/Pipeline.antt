-- ===== src/Udp/Pipeline.antt =====
-- udp/udp.go: `FragmentPipeline`, which collects the fragments of a sender's data.
pub mod Delivery
use clove.Prelude.{
  ℕ, zero, suc, ◌+◌, ◌<◌, ◌≡◌, Bool, true, false, not, ◌&&◌, Option, none, some, List, [], ◌∷◌,
  ◌++◌, map, length, ltb, ◌==◌, if◌then◌else◌, refl,
}
use clove.Base.Buffer.{Buffer, write}
use clove.Network.Packet.{Packet, binary, BinaryPacket, PacketError, ParsedAll}
use clove.Network.Format.{PacketFormat}

pub record Fragment : Type 0 where
  pub length_field : ℕ
  pub idx : ℕ
  pub count : ℕ
  pub payload : List ℕ

pub data PipelineError : Type 0 where
  not_enough corrupted format_nil : PipelineError
  parse_error : PacketError → PipelineError

-- `fragments` is the map from an index to its fragment.
pub record FragmentPipeline : Type 0 where
  pub addr : List ℕ
  pub count : ℕ
  pub packet_fmt : Option PacketFormat
  pub fragments : List (ℕ × Fragment)

unfoldable pub create_fragment_pipeline : List ℕ → Option PacketFormat → FragmentPipeline
create_fragment_pipeline addr fmt = record {
  addr = addr;
  count = 0;
  packet_fmt = fmt;
  fragments = [];
}

unfoldable pub lookup : ℕ → List (ℕ × Fragment) → Option Fragment
lookup i [] = none
lookup i ((j, f) ∷ m) = if j == i then some f else lookup i m

unfoldable pub store : Fragment → List (ℕ × Fragment) → List (ℕ × Fragment)
store f [] = (f.idx, f) ∷ []
store f ((j, g) ∷ m) = if j == f.idx then (f.idx, f) ∷ m else (j, g) ∷ store f m

abbrev is_some {ℓ} : {A : Type ℓ} → Option A → Bool
is_some none = false
is_some (some a) = true

unfoldable pub add_fragment : FragmentPipeline → Fragment → FragmentPipeline
unfolding lookup store
add_fragment p f =
    let kept = if is_some (lookup f.idx p.fragments) then [] else p.fragments in
    if ltb 0 p.count && not (p.count == f.count)
    then record p { count = f.count; fragments = store f [] }
    else record p { fragments = store f kept }

-- The loop from fragment `i` on, with `left` rounds to go: `none` if a fragment is missing.
unfoldable pub join_fragments : ℕ → ℕ → List (ℕ × Fragment) → Buffer → Option Buffer
unfolding lookup write
join_fragments zero i m b = some b
join_fragments (suc left) i m b = elim (lookup i m) [
  | none ↦ none
  | some f ↦ join_fragments left (i + 1) m (write f.payload b).1
]

-- A binary packet is given the sender's address; the slot of any other packet stays nil.
abbrev set_from : List ℕ → Packet → Option Packet
set_from addr (binary p) = some (binary (record p { from = addr }))
set_from addr _ = none

abbrev Combined : Type 0
Combined = List (Option Packet) × Option PipelineError

abbrev pub combined : List ℕ → ParsedAll → Combined
combined addr (some e, pcks, b) = ([], some (parse_error e))
combined addr (none, pcks, b) = (map (set_from addr) pcks, none)

abbrev parse_joined : List ℕ → PacketFormat → Option Buffer → Combined
parse_joined addr fmt none = ([], some corrupted)
parse_joined addr fmt (some b) = combined addr (fmt.parser.parse_from_buffer b)

unfoldable pub combine : FragmentPipeline → Combined
unfolding join_fragments
combine p = if ltb (length p.fragments) p.count then ([], some not_enough) else elim p.packet_fmt [
  | none ↦ ([], some format_nil)
  | some fmt ↦ parse_joined p.addr fmt (join_fragments p.count 0 p.fragments [])
]
