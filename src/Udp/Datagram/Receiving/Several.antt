-- ===== src/Udp/Datagram/Receiving/Several.antt =====
-- udp/controller.go: `read` of several datagrams.
use clove.Prelude.{
  refl, none, some, ◌+◌, take, ◌≡◌, Option, ℕ, List, [], ◌∷◌, ◌++◌, sym, ap, ◌∙◌, append_assoc,
  append-nil, some, take,
}
use clove.Network.Packet.{Packet}
use clove.Udp.Datagram.Receiving.{
  Endpoint, receive, Received, after_combine, Fragment, receive_cut, add_fragment, get_pipeline,
}
use clove.Udp.Pipeline.{PipelineError, not_enough, corrupted, format_nil, parse_error}
use clove.Udp.Datagram.Receiving.{
  raw_packet, put_pipeline, header_size, take_fragment, parse_datagram, combine,
}

-- What `read` makes of datagrams one after the other.
unfoldable pub receive_all : Endpoint → List (List ℕ × List ℕ) → Endpoint × List (Option Packet)
receive_all e [] = (e, [])
receive_all e ((addr, bytes) ∷ ds) =
    let (e', ps) = receive_all (receive e addr bytes).0 ds in (e', (receive e addr bytes).1 ++ ps)

receive_all-snoc :
    (e : Endpoint) (ds : List (List ℕ × List ℕ)) (addr bytes : List ℕ)
    → let (e', ps) = receive_all e ds in
      receive_all e (ds ++ ((addr, bytes) ∷ []))
      ≡ ((receive e' addr bytes).0, ps ++ (receive e' addr bytes).1)
unfolding receive_all
receive_all-snoc e [] addr bytes =
    ap (λ (ps : List (Option Packet)). ((receive e addr bytes).0, ps))
      (append-nil (receive e addr bytes).1)
receive_all-snoc e ((a, b) ∷ ds) addr bytes =
    let (e', ps) = receive_all (receive e a b).0 ds in
    ap (λ (r : Endpoint × List (Option Packet)). (r.0, (receive e a b).1 ++ r.1))
      (receive_all-snoc (receive e a b).0 ds addr bytes)
    ∙ ap (λ (x : List (Option Packet)). ((receive e' addr bytes).0, x))
        (sym (append_assoc (receive e a b).1 ps (receive e' addr bytes).1))

pub heard_more :
    (start e : Endpoint) (ds : List (List ℕ × List ℕ)) (addr bytes : List ℕ)
    (before rest : List (Option Packet))
    → (receive_all start ds).0 ≡ e
    → (receive_all start ds).1 ≡ before ++ rest
    → ((receive_all start (ds ++ ((addr, bytes) ∷ []))).0 ≡ (receive e addr bytes).0)
      × ((receive_all start (ds ++ ((addr, bytes) ∷ []))).1
          ≡ before ++ (rest ++ (receive e addr bytes).1))
heard_more start e ds addr bytes before rest he hr =
    let all = receive_all-snoc start ds addr bytes in
    let same = ap (λ (e : Endpoint). receive e addr bytes) he in
    (
      ap (λ (x : Endpoint × List (Option Packet)). x.0) all ∙ ap (λ (x : Received). x.0) same,
      ap (λ (x : Endpoint × List (Option Packet)). x.1) all
          ∙ ap (λ (x : Received). (receive_all start ds).1 ++ x.1) same
          ∙ ap (λ (x : List (Option Packet)). x ++ (receive e addr bytes).1) hr
          ∙ append_assoc before rest (receive e addr bytes).1,
    )

after_combine-failed :
    (e : Endpoint) (addr : List ℕ) (r : List (Option Packet) × Option PipelineError)
    (err : PipelineError)
    → (after_combine e addr r).2 ≡ some err
    → (after_combine e addr r).1 ≡ []
unfolding after_combine
after_combine-failed e addr (pcks, none) err h = absurd (cc)
after_combine-failed e addr (pcks, some not_enough) err h = refl
after_combine-failed e addr (pcks, some corrupted) err h = refl
after_combine-failed e addr (pcks, some format_nil) err h = refl
after_combine-failed e addr (pcks, some (parse_error x)) err h = refl

abbrev received_as : Endpoint → List ℕ → List ℕ → Option Fragment → Received
received_as e addr bytes o = elim o [
  | none ↦ (e, some (raw_packet addr bytes) ∷ [], none)
  | some f ↦ take_fragment e addr f
]

received_as-failed :
    (e : Endpoint) (addr bytes : List ℕ) (o : Option Fragment) (err : PipelineError)
    → (received_as e addr bytes o).2 ≡ some err
    → (received_as e addr bytes o).1 ≡ []
unfolding after_combine take_fragment
received_as-failed e addr bytes none err h = absurd (cc)
received_as-failed e addr bytes (some f) err h =
    let p = add_fragment (get_pipeline e addr) f in
    after_combine-failed (record e { pipelines = put_pipeline addr p e.pipelines }) addr (combine p)
      err h

-- A datagram whose reading fails gives no packet.
pub receive-failed :
    (e : Endpoint) (addr bytes : List ℕ) (err : PipelineError)
    → (receive e addr bytes).2 ≡ some err
    → (receive e addr bytes).1 ≡ []
unfolding receive receive_cut
receive-failed e addr bytes err h =
    let cut = take (e.fragment_size + header_size) bytes in
    received_as-failed e addr cut (parse_datagram cut) err h
