-- ===== src/Udp/Datagram/Loops/Ordered.antt =====
-- udp/controller.go: what each step of the loops keeps of the order of the packets.
use clove.Prelude.{
  ◌<◌, ℕ, ◌≡◌, ◌≤◌, ◌⊎◌, inl, inr, Bool, true, false, Option, none, some, List, [], ◌∷◌, ◌++◌, map,
  length, arith, refl, sym, ap, ◌∙◌, append_assoc, append-nil, length-append,
}
use mathlib.Core.List.{map-append}
use clove.Network.Packet.{Packet}
use clove.Udp.Datagram.Receiving.{Endpoint, receive}
use clove.Udp.Datagram.Loops.{
  Controller, hear, stop_reading, fail_combine, put_packet, close, handle_packet, handle_nil,
  finish_processing, channel_size, drain_packet,
}
use mathlib.Core.Path.{subst}
use clove.Udp.Datagram.Receiving.Several.{receive_all, heard_more, receive-failed}
use clove.Prelude.{Subsequence, skip_last, keep_last}
use clove.Udp.Datagram.Loops.{PipelineError}

abbrev made : List Packet → List (Option Packet)
made ps = map some ps

-- `came` is what was taken off the channel, by the loop of `process` or by `ChannelQueue.Close`. As
-- long as the reading goes on, all of it was handed over, but for the nil that ends `process`.
pub record InOrder (start : Endpoint) (c : Controller) (came : List (Option Packet)) : Type 0 where
  pub same_endpoint : (receive_all start c.heard).0 ≡ c.endpoint
  pub received : (receive_all start c.heard).1 ≡ came ++ (c.queue ++ c.pending)
  pub handed_in : Subsequence (made c.handed) came
  pub whole :
      (c.reading ≡ false)
      ⊎ (came ≡ made c.handed)
      ⊎ ((c.processing ≡ false) × (came ≡ made c.handed ++ (none ∷ [])))
  pub drains : (c.draining ≡ false) ⊎ (c.reading ≡ false)
  pub fits : length c.queue ≤ channel_size

abbrev pub Ordered : Endpoint → Controller → Type 0
Ordered start c = (came : List (Option Packet)) × InOrder start c came

-- The first of the queue behind what has come.
came-snoc :
    (came queue left pending : List (Option Packet)) (p : Option Packet)
    → queue ≡ p ∷ left
    → came ++ (queue ++ pending) ≡ (came ++ (p ∷ [])) ++ (left ++ pending)
came-snoc came queue left pending p e =
    ap (λ (x : List (Option Packet)). came ++ (x ++ pending)) e
    ∙ sym (append_assoc came (p ∷ []) (left ++ pending))

made-snoc : (ps : List Packet) (p : Packet) → made ps ++ (some p ∷ []) ≡ made (ps ++ (p ∷ []))
made-snoc ps p = sym (map-append some ps (p ∷ []))

-- What a datagram adds behind the channel, which it finds without a packet on its way.
heard-behind :
    (start : Endpoint) (c : Controller) (addr bytes : List ℕ) (came : List (Option Packet))
    → c.pending ≡ []
    → InOrder start c came
    → ((receive_all start (c.heard ++ ((addr, bytes) ∷ []))).0 ≡ (receive c.endpoint addr bytes).0)
      × ((receive_all start (c.heard ++ ((addr, bytes) ∷ []))).1
          ≡ came ++ (c.queue ++ (receive c.endpoint addr bytes).1))
heard-behind start c addr bytes came idle h =
    let new = (receive c.endpoint addr bytes).1 in
    let (he, hr) =
      heard_more start c.endpoint c.heard addr bytes came (c.queue ++ c.pending) h.same_endpoint
        h.received in
    (
      he,
      hr
          ∙ ap (λ (x : List (Option Packet)). came ++ ((c.queue ++ x) ++ new)) idle
          ∙ ap (λ (x : List (Option Packet)). came ++ (x ++ new)) (append-nil c.queue),
    )

pub hear-Ordered :
    (start : Endpoint) (c : Controller) (addr bytes : List ℕ)
    → c.pending ≡ []
    → Ordered start c
    → Ordered start (hear addr bytes c)
unfolding hear
hear-Ordered start c addr bytes idle (came, h) =
    let (he, hr) = heard-behind start c addr bytes came idle h in
    (
      came,
      record {
        same_endpoint = he;
        received = hr;
        handed_in = h.handed_in;
        whole = h.whole;
        drains = h.drains;
        fits = h.fits;
      },
    )

pub stop_reading-Ordered :
    (start : Endpoint) (c : Controller) → Ordered start c → Ordered start (stop_reading c)
unfolding stop_reading
stop_reading-Ordered start c (came, h) = (
  came,
  record {
    same_endpoint = h.same_endpoint;
    received = h.received;
    handed_in = h.handed_in;
    whole = inl refl;
    drains = inr refl;
    fits = h.fits;
  },
)

pub fail_combine-Ordered :
    (start : Endpoint) (c : Controller) (addr bytes : List ℕ) (e : PipelineError)
    → c.pending ≡ []
    → (receive c.endpoint addr bytes).2 ≡ some e
    → Ordered start c
    → Ordered start (fail_combine addr bytes c)
unfolding fail_combine stop_reading
fail_combine-Ordered start c addr bytes e idle err (came, h) =
    let (he, hr) = heard-behind start c addr bytes came idle h in
    let nothing = receive-failed c.endpoint addr bytes e err in
    (
      came,
      record {
        same_endpoint = he;
        received =
            hr ∙ ap (λ (x : List (Option Packet)). came ++ (c.queue ++ x)) (nothing ∙ sym idle);
        handed_in = h.handed_in;
        whole = inl refl;
        drains = inr refl;
        fits = h.fits;
      },
    )

pub put_packet-Ordered :
    (start : Endpoint) (c : Controller) (p : Option Packet) (more : List (Option Packet))
    → c.pending ≡ p ∷ more
    → length c.queue < channel_size
    → Ordered start c
    → Ordered start (put_packet p more c)
unfolding put_packet
put_packet-Ordered start c p more e room (came, h) = (
  came,
  record {
    same_endpoint = h.same_endpoint;
    received =
        h.received
        ∙ ap (λ (x : List (Option Packet)). came ++ (c.queue ++ x)) e
        ∙ ap (λ (x : List (Option Packet)). came ++ x) (sym (append_assoc c.queue (p ∷ []) more));
    handed_in = h.handed_in;
    whole = h.whole;
    drains = h.drains;
    fits = omega (arith, length-append c.queue (p ∷ []));
  },
)

pub drain_packet-Ordered :
    (start : Endpoint) (c : Controller) (p : Option Packet) (left : List (Option Packet))
    → c.draining ≡ true
    → c.queue ≡ p ∷ left
    → Ordered start c
    → Ordered start (drain_packet left c)
unfolding drain_packet
drain_packet-Ordered start c p left busy e (came, h) = (
  came ++ (p ∷ []),
  record {
    same_endpoint = h.same_endpoint;
    received = h.received ∙ came-snoc came c.queue left c.pending p e;
    handed_in = skip_last p h.handed_in;
    whole = elim h.drains [ inl idle ↦ absurd (cc) | inr ended ↦ inl ended ];
    drains = h.drains;
    fits = omega (arith, h.fits, ap (λ (x : List (Option Packet)). length x) e);
  },
)

pub handle_packet-Ordered :
    (start : Endpoint) (c : Controller) (go_on : Bool) (p : Packet) (left : List (Option Packet))
    → c.processing ≡ true
    → c.queue ≡ some p ∷ left
    → Ordered start c
    → Ordered start (handle_packet go_on p left c)
unfolding handle_packet
handle_packet-Ordered start c go_on p left busy e (came, h) = (
  came ++ (some p ∷ []),
  record {
    same_endpoint = h.same_endpoint;
    received = h.received ∙ came-snoc came c.queue left c.pending (some p) e;
    handed_in =
        subst (λ (x : List (Option Packet)). Subsequence x (came ++ (some p ∷ [])))
          (made-snoc c.handed p) (keep_last (some p) h.handed_in);
    whole = elim h.whole [
      | inl ended ↦ inl ended
      | inr (inl all) ↦
          inr
            (inl (ap (λ (x : List (Option Packet)). x ++ (some p ∷ [])) all ∙ made-snoc c.handed p))
      | inr (inr (halted, all)) ↦ absurd (cc)
    ];
    drains = h.drains;
    fits = omega (arith, h.fits, ap (λ (x : List (Option Packet)). length x) e);
  },
)

pub handle_nil-Ordered :
    (start : Endpoint) (c : Controller) (left : List (Option Packet))
    → c.processing ≡ true
    → c.queue ≡ none ∷ left
    → Ordered start c
    → Ordered start (handle_nil left c)
unfolding handle_nil close
handle_nil-Ordered start c left busy e (came, h) = (
  came ++ (none ∷ []),
  record {
    same_endpoint = h.same_endpoint;
    received = h.received ∙ came-snoc came c.queue left c.pending none e;
    handed_in = skip_last none h.handed_in;
    whole = elim h.whole [
      | inl ended ↦ inl ended
      | inr (inl all) ↦ inr (inr (refl, ap (λ (x : List (Option Packet)). x ++ (none ∷ [])) all))
      | inr (inr (halted, all)) ↦ absurd (cc)
    ];
    drains = h.drains;
    fits = omega (arith, h.fits, ap (λ (x : List (Option Packet)). length x) e);
  },
)

pub finish-Ordered :
    (start : Endpoint) (c : Controller)
    → c.processing ≡ true
    → Ordered start c
    → Ordered start (finish_processing c)
unfolding finish_processing close
finish-Ordered start c busy (came, h) = (
  came,
  record {
    same_endpoint = h.same_endpoint;
    received = h.received;
    handed_in = h.handed_in;
    whole = elim h.whole [
      | inl ended ↦ inl ended
      | inr (inl all) ↦ inr (inl all)
      | inr (inr (halted, all)) ↦ absurd (cc)
    ];
    drains = h.drains;
    fits = h.fits;
  },
)

pub same-Ordered :
    (start : Endpoint) (c d : Controller)
    → d ≡ record c {
      exiting = d.exiting;
      allowing = d.allowing;
      closed = d.closed;
      draining = d.draining;
    }
    → (d.draining ≡ false) ⊎ (d.draining ≡ c.draining)
    → Ordered start c
    → Ordered start d
same-Ordered start c d e l (came, h) = subst (Ordered start) (sym e) (
  came,
  record {
    same_endpoint = h.same_endpoint;
    received = h.received;
    handed_in = h.handed_in;
    whole = h.whole;
    drains = elim l [
      | inl ended ↦ inl ended
      | inr same ↦ elim h.drains [ inl idle ↦ inl (same ∙ idle) | inr ended ↦ inr ended ]
    ];
    fits = h.fits;
  },
)
