-- ===== src/Udp/Pipeline/Delivery.antt =====
-- udp/udp.go: what a pipeline hands over, over every sequence of fragments.
use clove.Prelude.{
  ℕ, ◌+◌, ◌≤◌, ◌≡◌, false, Option, some, ltb, refl, List, [], ◌∷◌, ◌++◌, length, arith,
  append_assoc, append-nil,
}
use mathlib.Core.List.{flatten}
use clove.Base.Buffer.{Buffer, write}
use clove.Network.Format.{PacketFormat}
use clove.Udp.Pipeline.{
  Fragment, FragmentPipeline, create_fragment_pipeline, add_fragment, lookup, join_fragments,
  combine, combined,
}

-- The fragments of a sender, in the order of their arrival.
abbrev pub add_all : FragmentPipeline → List Fragment → FragmentPipeline
add_all p [] = p
add_all p (f ∷ fs) = add_all (add_fragment p f) fs

pub record IsIdle (addr : List ℕ) (fmt : Option PacketFormat) (p : FragmentPipeline) : Type 0 where
  pub same_addr : p.addr ≡ addr
  pub same_fmt : p.packet_fmt ≡ fmt
  pub no_count : p.count ≡ 0

pub add_fragment-IsIdle :
    (addr : List ℕ) (fmt : Option PacketFormat) (p : FragmentPipeline) (f : Fragment)
    → IsIdle addr fmt p
    → IsIdle addr fmt (add_fragment p f)
unfolding add_fragment
add_fragment-IsIdle addr fmt p f h = ground arith

add_all-IsIdle :
    (addr : List ℕ) (fmt : Option PacketFormat) (p : FragmentPipeline) (fs : List Fragment)
    → IsIdle addr fmt p
    → IsIdle addr fmt (add_all p fs)
add_all-IsIdle addr fmt p [] h = h
add_all-IsIdle addr fmt p (f ∷ fs) h =
    add_all-IsIdle addr fmt (add_fragment p f) fs (add_fragment-IsIdle addr fmt p f h)

pub combine-idle :
    (addr : List ℕ) (fmt : PacketFormat) (p : FragmentPipeline)
    → IsIdle addr (some fmt) p
    → combine p ≡ combined addr (fmt.parser.parse_from_buffer [])
unfolding combine join_fragments
combine-idle addr fmt p h =
    let enough : ltb (length p.fragments) 0 ≡ false = ground arith in
    rw (h.no_count, enough, h.same_fmt) (rw (h.no_count, join_fragments) (rw h.same_addr refl))

-- Whatever fragments a new pipeline is given, complete or not, its count stays 0, and `Combine`
-- shows the parser of its format no byte of them: it returns what the parser makes of an empty
-- buffer.
pub combine-add_all :
    (addr : List ℕ) (fmt : PacketFormat) (fs : List Fragment)
    → let p = add_all (create_fragment_pipeline addr (some fmt)) fs in
      (p.count ≡ 0) × (combine p ≡ combined addr (fmt.parser.parse_from_buffer []))
unfolding create_fragment_pipeline combine
combine-add_all addr fmt fs =
    let idle =
      add_all-IsIdle addr (some fmt) (create_fragment_pipeline addr (some fmt)) fs
        (record { same_addr = refl; same_fmt = refl; no_count = refl }) in
    (
      idle.no_count,
      combine-idle addr fmt (add_all (create_fragment_pipeline addr (some fmt)) fs) idle,
    )

-- Fragment `i + k` of the map holds chunk `k`.
abbrev HoldsChunks : ℕ → List (List ℕ) → List (ℕ × Fragment) → Type 0
HoldsChunks i [] m = Unit {0}
HoldsChunks i (c ∷ cs) m =
    ((f : Fragment) × (lookup i m ≡ some f) × (f.payload ≡ c)) × HoldsChunks (i + 1) cs m

join_fragments-flatten :
    (cs : List (List ℕ)) (i : ℕ) (m : List (ℕ × Fragment)) (b : Buffer)
    → HoldsChunks i cs m
    → join_fragments (length cs) i m b ≡ some (b ++ flatten cs)
unfolding join_fragments flatten write
join_fragments-flatten [] i m b h = rw append-nil refl
join_fragments-flatten (c ∷ cs) i m b ((f, e, ep), h) =
    rw (e, join_fragments)
      (rw ep (rw (join_fragments-flatten cs (i + 1) m (b ++ c) h) (rw append_assoc refl)))

-- A pipeline whose count is that of its chunks and no more than its fragments, with chunk k in
-- the fragment of index k, hands the parser of its format the chunks in their order, joined.
pub combine_complete :
    (p : FragmentPipeline) (fmt : PacketFormat) (cs : List (List ℕ))
    → p.packet_fmt ≡ some fmt
    → p.count ≡ length cs
    → p.count ≤ length p.fragments
    → HoldsChunks 0 cs p.fragments
    → combine p ≡ combined p.addr (fmt.parser.parse_from_buffer (flatten cs))
unfolding combine
combine_complete p fmt cs ef ec el h =
    let enough : ltb (length p.fragments) p.count ≡ false = ground arith in
    rw (enough, ef, ec, join_fragments-flatten cs 0 p.fragments [] h) refl
