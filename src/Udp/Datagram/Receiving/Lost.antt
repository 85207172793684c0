-- ===== src/Udp/Datagram/Receiving/Lost.antt =====
-- udp/controller.go with udp/udp.go: what becomes of the fragments of `sendTo` at a controller that
-- reads them.
use clove.Prelude.{
  if_intro, zero, suc, drop, length-take-le, ℕ, ◌+◌, ◌^◌, ◌≡◌, ◌<◌, ◌≤◌, none, some, Option, List,
  [], ◌∷◌, ◌++◌, length, All, refl, ap, ◌∙◌, arith, inl, inr, Option-cases,
}
use clove.Udp.Datagram.Receiving.{
  Received, Endpoint, receive, take_fragment, find_pipeline, put_pipeline, get_pipeline,
  after_combine,
}
use mathlib.Core.Path.{subst}
use clove.Prelude.Run.{returned}
use clove.Codec.Value.{str_eq}
use clove.Network.Formats.{clove_packet_format}
use clove.Network.CloveFormat.{parse_from_buffer}
use clove.Udp.Pipeline.{
  FragmentPipeline, Fragment, create_fragment_pipeline, add_fragment, combined,
}
use clove.Udp.Pipeline.Delivery.{IsIdle, add_fragment-IsIdle, combine-idle}
use clove.Udp.Datagram.Sending.{WriteTo, send_to, header_size}
use clove.Udp.Datagram.Sending.Chunks.{
  rounds, chunks, datagrams, send_to-datagrams, fragment_bytes, build_fragment-bytes,
}
use clove.Udp.Datagram.Receiving.Reassembly.{fragment_of, parse_datagram-build_fragment}
use clove.Udp.Datagram.Receiving.Several.{receive_all}
use clove.Udp.Datagram.Receiving.{receive_cut}
use clove.Prelude.{take_all, sym}

-- A pipeline for the Clove format that has never had a count.
abbrev IsUncounted : FragmentPipeline → Type 0
IsUncounted p = IsIdle p.addr (some clove_packet_format) p

abbrev IsEntryUncounted : List ℕ × FragmentPipeline → Type 0
IsEntryUncounted r = IsUncounted r.1

-- An endpoint with the Clove format whose pipelines have never had a count, as a new one.
abbrev IsCloveEndpoint : Endpoint → Type 0
IsCloveEndpoint e = (e.packet_fmt ≡ some clove_packet_format) × All IsEntryUncounted e.pipelines

abbrev IsFound : Option FragmentPipeline → Type 0
IsFound none = Unit {0}
IsFound (some p) = IsUncounted p

find-IsFound :
    (addr : List ℕ) (m : List (List ℕ × FragmentPipeline))
    → All IsEntryUncounted m
    → IsFound (find_pipeline addr m)
unfolding find_pipeline
find-IsFound addr [] h = tt
find-IsFound addr ((a, p) ∷ m) (hp, h) =
    if_intro IsFound (str_eq a addr) (some p) (find_pipeline addr m) (λ e. hp)
      (λ e. find-IsFound addr m h)

get-IsUncounted :
    (e : Endpoint) (addr : List ℕ) → IsCloveEndpoint e → IsUncounted (get_pipeline e addr)
unfolding get_pipeline create_fragment_pipeline
get-IsUncounted e addr (hf, h) = elim (Option-cases (find_pipeline addr e.pipelines)) [
  | inl n ↦ rw (n, get_pipeline) (record { same_addr = refl; same_fmt = hf; no_count = refl })
  | inr (p, s) ↦ rw (s, get_pipeline) (subst IsFound s (find-IsFound addr e.pipelines h))
]

put-All :
    (addr : List ℕ) (p : FragmentPipeline) (m : List (List ℕ × FragmentPipeline))
    → IsUncounted p
    → All IsEntryUncounted m
    → All IsEntryUncounted (put_pipeline addr p m)
unfolding put_pipeline
put-All addr p [] hp h = (hp, tt)
put-All addr p ((a, q) ∷ m) hp (hq, h) =
    if_intro (All IsEntryUncounted) (str_eq a addr) ((a, p) ∷ m) ((a, q) ∷ put_pipeline addr p m)
      (λ e. (hp, h)) (λ e. (hq, put-All addr p m hp h))

parse-empty : parse_from_buffer [] ≡ (none, [], [])
unfolding parse_from_buffer
parse-empty = refl

-- A fragment is kept and nothing comes of it.
take_fragment-lost :
    (e : Endpoint) (addr : List ℕ) (f : Fragment)
    → IsCloveEndpoint e
    → let p = add_fragment (get_pipeline e addr) f in
      take_fragment e addr f ≡ (record e { pipelines = put_pipeline addr p e.pipelines }, [], none)
unfolding clove_packet_format take_fragment after_combine
take_fragment-lost e addr f h =
    let p = add_fragment (get_pipeline e addr) f in
    let q = get_pipeline e addr in
    let idle =
      add_fragment-IsIdle q.addr (some clove_packet_format) q f (get-IsUncounted e addr h) in
    let none_made =
      combine-idle q.addr clove_packet_format p idle ∙ ap (combined q.addr) parse-empty in
    ap (after_combine (record e { pipelines = put_pipeline addr p e.pipelines }) addr) none_made

put-IsCloveEndpoint :
    (e : Endpoint) (addr : List ℕ) (f : Fragment)
    → IsCloveEndpoint e
    → let p = add_fragment (get_pipeline e addr) f in
      IsCloveEndpoint (record e { pipelines = put_pipeline addr p e.pipelines })
put-IsCloveEndpoint e addr f (hf, h) =
    let q = get_pipeline e addr in
    let p = add_fragment q f in
    let idle =
      add_fragment-IsIdle q.addr (some clove_packet_format) q f (get-IsUncounted e addr (hf, h)) in
    (
      hf,
      put-All addr p e.pipelines
          (record { same_addr = refl; same_fmt = idle.same_fmt; no_count = idle.no_count }) h,
    )

receive-fragment_bytes :
    (e : Endpoint) (addr : List ℕ) (i n : ℕ) (chunk : List ℕ)
    → i < 2 ^ 16
    → n < 2 ^ 16
    → length chunk + header_size < 2 ^ 16
    → length chunk ≤ e.fragment_size
    → receive e addr (fragment_bytes i n chunk) ≡ take_fragment e addr (fragment_of i n chunk)
unfolding receive receive_cut
receive-fragment_bytes e addr i n chunk hi hn hc hs =
    let uncut = take_all (e.fragment_size + header_size) (fragment_bytes i n chunk) (omega arith) in
    ap (λ (b : List ℕ). receive_cut e addr b) (uncut ∙ sym (build_fragment-bytes i n chunk))
    ∙ rw (parse_datagram-build_fragment i n chunk hi hn hc, receive_cut) refl

abbrev pub from : List ℕ → List (List ℕ) → List (List ℕ × List ℕ)
from addr [] = []
from addr (d ∷ ds) = (addr, d) ∷ from addr ds

abbrev Fits : ℕ → List ℕ → Type 0
Fits size c = (length c + header_size < 2 ^ 16) × (length c ≤ size)

datagrams-lost :
    (e : Endpoint) (addr : List ℕ) (idx count : ℕ) (cs : List (List ℕ))
    → IsCloveEndpoint e
    → idx + length cs ≤ count
    → count < 2 ^ 16
    → All (Fits e.fragment_size) cs
    → (receive_all e (from addr (datagrams idx count cs))).1 ≡ []
unfolding receive_all
datagrams-lost e addr idx count [] h hi hn hc = refl
datagrams-lost e addr idx count (c ∷ cs) h hi hn ((hc, hl), hcs) =
    let f = fragment_of idx count c in
    let p = add_fragment (get_pipeline e addr) f in
    let e' : Endpoint = record e { pipelines = put_pipeline addr p e.pipelines } in
    let first : receive e addr (fragment_bytes idx count c) ≡ (e', [], none) =
      receive-fragment_bytes e addr idx count c (omega arith) hn hc hl
      ∙ take_fragment-lost e addr f h in
    let rest =
      datagrams-lost e' addr (idx + 1) count cs (put-IsCloveEndpoint e addr f h) (omega arith) hn
        hcs in
    ap (λ (r : Received). r.1 ++ (receive_all r.0 (from addr (datagrams (idx + 1) count cs))).1)
      first
    ∙ rest

length-chunks : (k size : ℕ) (bytes : List ℕ) → length (chunks k size bytes) ≡ k
length-chunks zero size bytes = refl
length-chunks (suc k) size bytes = omega (arith, length-chunks k size (drop size bytes))

chunks-Fits :
    (k size room : ℕ) (bytes : List ℕ)
    → size + header_size < 2 ^ 16
    → size ≤ room
    → All (Fits room) (chunks k size bytes)
chunks-Fits zero size room bytes h hr = tt
chunks-Fits (suc k) size room bytes h hr =
    let short = length-take-le size bytes in
    ((omega arith, omega arith), chunks-Fits k size room (drop size bytes) h hr)

-- What a controller sends with `sendTo` as fewer than 2^16 fragments, of a size above 0 and with the
-- header shorter than 2^16 bytes, over a connection that writes whole datagrams, goes out without
-- an error; and another controller that has the Clove format and a fragment size that is no smaller,
-- and whose pipelines never had a count, reads these datagrams without handing over any packet.
pub receive_all-send_to :
    (size : ℕ) (write_to : WriteTo) (bytes addr : List ℕ) (e : Endpoint)
    → 0 < size
    → size + header_size < 2 ^ 16
    → size ≤ e.fragment_size
    → ((before : List (List ℕ)) (d : List ℕ) → write_to before d ≡ some (length d))
    → rounds size (length bytes) < 2 ^ 16
    → IsCloveEndpoint e
    → (sent : List (List ℕ)) × (send_to size write_to bytes ≡ returned (sent, none))
      × ((receive_all e (from addr sent)).1 ≡ [])
receive_all-send_to size write_to bytes addr e hs hf hl hw hr he =
    let k = rounds size (length bytes) in
    (
      datagrams 0 k (chunks k size bytes),
      (send_to-datagrams size write_to bytes hs hw hr).0,
      datagrams-lost e addr 0 k (chunks k size bytes) he (omega (arith, length-chunks k size bytes))
          hr (chunks-Fits k size e.fragment_size bytes hf hl),
    )
