-- ===== src/Tcp/Controller/Packets/Determined.antt =====
-- tcp/controller.go with network/packet.go: the choice of a format when the Clove format is the only
-- one, and one round of the loop of `processRead` with it.
use clove.Prelude.{
  ℕ, ◌≡◌, false, Option, none, some, List, [], ◌∷◌, ◌++◌, true, sym, ◌==◌, leb, if_intro, refl, ◌∙◌,
  ap, arith, not, ◌&&◌, append-nil,
}
use clove.Base.Bit.{test_mask}
use clove.Tcp.Controller.{
  flag_data_received, flag_readyed, read_round, after_parse_packet, Controller, parse_packet,
  parse_by, start_determined, set_data_received_flag, set_readyed_flag, is_opened, after_buffer,
}
use mathlib.Core.Path.{subst}
use mathlib.Core.List.{flatten}
use clove.Prelude.{append_assoc}
use clove.Tcp.Controller.{goroutine_of}
use clove.Base.Buffer.{write, Buffer}
use clove.Network.Packet.{Packet, type_eq}
use clove.Network.CloveFormat.{test_match_score, parse_from_buffer}
use clove.Network.CloveFormat.Score.{IsLow}
use clove.Network.Format.{
  FormatManager, PacketFormat, determine_from_buffer, determine_loop, score_gt,
}
use clove.Network.Formats.{clove_packet_format}

determine_by-low :
    (b : Buffer) (o : Option ℕ)
    → test_match_score b ≡ o
    → IsLow o
    → determine_loop b (clove_packet_format ∷ []) none none none ≡ none
unfolding determine_loop clove_packet_format score_gt type_eq
determine_by-low b none e l = rw e refl
determine_by-low b (some s) e l =
    let other : (s == 100) ≡ false = ground arith in
    let low : leb 90 s ≡ false = ground arith in rw e (rw (other, low) refl)

determine-low :
    (m : FormatManager) (b : Buffer)
    → m.sorted_formats ≡ clove_packet_format ∷ []
    → IsLow (test_match_score b)
    → determine_from_buffer m b ≡ none
unfolding determine_from_buffer
determine-low m b em l = rw em (determine_by-low b (test_match_score b) refl l)

determine-whole :
    (m : FormatManager) (b : Buffer)
    → m.sorted_formats ≡ clove_packet_format ∷ []
    → test_match_score b ≡ some 99
    → determine_from_buffer m b ≡ some clove_packet_format
unfolding determine_from_buffer determine_loop clove_packet_format score_gt type_eq
determine-whole m b em e = rw em (rw e refl)

abbrev pub IsDetermined : Controller → Type 0
IsDetermined c = c.packet_fmt ≡ some clove_packet_format

-- No format yet, and a manager that knows the Clove format only.
abbrev pub IsUndetermined : Controller → Type 0
IsUndetermined c =
    (c.packet_fmt ≡ none) × (c.packet_fmt_mgr.sorted_formats ≡ clove_packet_format ∷ [])

flatten-append {ℓ} :
    {A : Type ℓ} (xs ys : List (List A)) → flatten (xs ++ ys) ≡ flatten xs ++ flatten ys
unfolding flatten
flatten-append [] ys = refl
flatten-append (x ∷ xs) ys =
    ap (λ z. x ++ z) (flatten-append xs ys) ∙ sym (append_assoc x (flatten xs) (flatten ys))

goroutine_of-flatten : (qs : List Packet) → flatten (goroutine_of qs) ≡ qs
unfolding flatten
goroutine_of-flatten [] = refl
goroutine_of-flatten (q ∷ qs) = append-nil (q ∷ qs)

flatten-goroutine :
    (bs cs : List (List Packet)) (qs : List Packet)
    → bs ≡ cs
    → flatten (bs ++ goroutine_of qs) ≡ flatten cs ++ qs
flatten-goroutine bs cs qs e =
    flatten-append bs (goroutine_of qs)
    ∙ ap (λ (z : List Packet). flatten bs ++ z) (goroutine_of-flatten qs)
    ∙ ap (λ (z : List (List Packet)). flatten z ++ qs) e

-- What a read leaves of a controller: the packets of the goroutine that it started, the buffer, and the rest.
pub record HasRead (c d : Controller) (qs : List Packet) (b : Buffer) : Type 0 where
  pub received : flatten d.received ≡ flatten c.received ++ qs
  pub buffered : d.buf_recv ≡ b
  pub still_open : d.is_open ≡ c.is_open

abbrev OnlyFlags : Controller → Controller → Type 0
OnlyFlags c d =
    (d.received ≡ c.received)
    × (d.buf_recv ≡ c.buf_recv)
    × (d.is_open ≡ c.is_open)
    × (d.packet_fmt ≡ c.packet_fmt)
    × (d.packet_fmt_mgr ≡ c.packet_fmt_mgr)

set_data-OnlyFlags : (c : Controller) → OnlyFlags c (set_data_received_flag c)
unfolding set_data_received_flag
set_data-OnlyFlags c =
    if_intro (OnlyFlags c) (is_opened c && not (test_mask c.flag flag_data_received)) _ _
      (λ e. (refl, refl, refl, refl, refl)) (λ e. (refl, refl, refl, refl, refl))

set_readyed-OnlyFlags : (c : Controller) → OnlyFlags c (set_readyed_flag c)
unfolding set_readyed_flag
set_readyed-OnlyFlags c =
    if_intro (OnlyFlags c) (is_opened c && not (test_mask c.flag flag_readyed)) _ _
      (λ e. (refl, refl, refl, refl, refl)) (λ e. (refl, refl, refl, refl, refl))

parse-found :
    (d : Controller) (qs : List Packet) (t : Buffer)
    → IsDetermined d
    → parse_from_buffer d.buf_recv ≡ (none, qs, t)
    → parse_packet d ≡ (none, record d { received = d.received ++ goroutine_of qs; buf_recv = t })
unfolding parse_packet clove_packet_format
parse-found d qs t e h = ap (λ (o : Option PacketFormat). parse_by o d) e ∙ ap (after_buffer d) h

parse-not_found :
    (d : Controller)
    → IsUndetermined d
    → IsLow (test_match_score d.buf_recv)
    → parse_packet d ≡ (none, d)
unfolding parse_packet
parse-not_found d (e, em) l =
    ap (λ (o : Option PacketFormat). parse_by o d) e
    ∙ ap (λ (o : Option PacketFormat). start_determined o d)
        (determine-low d.packet_fmt_mgr d.buf_recv em l)

parse-finding :
    (d : Controller) (qs : List Packet) (t : Buffer)
    → IsUndetermined d
    → test_match_score d.buf_recv ≡ some 99
    → parse_from_buffer d.buf_recv ≡ (none, qs, t)
    → let d' = set_readyed_flag (record d { packet_fmt = some clove_packet_format }) in
      parse_packet d ≡ (none, record d' { received = d'.received ++ goroutine_of qs; buf_recv = t })
unfolding parse_packet clove_packet_format
parse-finding d qs t (e, em) s h =
    let d' = set_readyed_flag (record d { packet_fmt = some clove_packet_format }) in
    let same = (set_readyed-OnlyFlags (record d { packet_fmt = some clove_packet_format })).1 in
    ap (λ (o : Option PacketFormat). parse_by o d) e
    ∙ ap (λ (o : Option PacketFormat). start_determined o d)
        (determine-whole d.packet_fmt_mgr d.buf_recv em s)
    ∙ ap (λ (b : Buffer). after_buffer d' (parse_from_buffer b)) same
    ∙ ap (after_buffer d') h

module _ (c : Controller) (y : ℕ) (ys : List ℕ) where
  -- The controller when a read has come, before it is parsed.
  abbrev heard : Controller
  heard = set_data_received_flag (record c { buf_recv = c.buf_recv ++ (y ∷ ys) })

  heard-OnlyFlags : OnlyFlags (record c { buf_recv = c.buf_recv ++ (y ∷ ys) }) heard
  heard-OnlyFlags = set_data-OnlyFlags (record c { buf_recv = c.buf_recv ++ (y ∷ ys) })

  pub round-found :
      (qs : List Packet) (t : Buffer)
      → IsDetermined c
      → parse_from_buffer (c.buf_recv ++ (y ∷ ys)) ≡ (none, qs, t)
      → (d : Controller) × (read_round (some (y ∷ ys)) c ≡ (true, d))
        × HasRead c d qs t
        × IsDetermined d
  unfolding read_round write
  round-found qs t hd hp =
      let (fr, fb, fo, ff, fm) = heard-OnlyFlags in
      (
        record heard { received = heard.received ++ goroutine_of qs; buf_recv = t },
        ap after_parse_packet (parse-found heard qs t (ff ∙ hd) (ap parse_from_buffer fb ∙ hp)),
        record {
          received = flatten-goroutine heard.received c.received qs fr;
          buffered = refl;
          still_open = fo;
        },
        ff ∙ hd,
      )

  pub round-not_found :
      IsUndetermined c
      → IsLow (test_match_score (c.buf_recv ++ (y ∷ ys)))
      → (d : Controller) × (read_round (some (y ∷ ys)) c ≡ (true, d))
        × HasRead c d [] (c.buf_recv ++ (y ∷ ys))
        × IsUndetermined d
  unfolding read_round write
  round-not_found (hn, hm) l =
      let (fr, fb, fo, ff, fm) = heard-OnlyFlags in
      let low = subst (λ (b : Buffer). IsLow (test_match_score b)) (sym fb) l in
      let hm' = ap (λ (m : FormatManager). m.sorted_formats) fm ∙ hm in
      (
        heard,
        ap after_parse_packet (parse-not_found heard (ff ∙ hn, hm') low),
        record {
          received = ap flatten fr ∙ sym (append-nil (flatten c.received));
          buffered = fb;
          still_open = fo;
        },
        (ff ∙ hn, hm'),
      )

  pub round-finding :
      (qs : List Packet) (t : Buffer)
      → IsUndetermined c
      → test_match_score (c.buf_recv ++ (y ∷ ys)) ≡ some 99
      → parse_from_buffer (c.buf_recv ++ (y ∷ ys)) ≡ (none, qs, t)
      → (d : Controller) × (read_round (some (y ∷ ys)) c ≡ (true, d))
        × HasRead c d qs t
        × IsDetermined d
  unfolding read_round write
  round-finding qs t (hn, hm) hs hp =
      let (fr, fb, fo, ff, fm) = heard-OnlyFlags in
      let hm' = ap (λ (m : FormatManager). m.sorted_formats) fm ∙ hm in
      let d' : Controller =
        set_readyed_flag (record heard { packet_fmt = some clove_packet_format }) in
      let (gr, gb, go, gf, gm) =
        set_readyed-OnlyFlags (record heard { packet_fmt = some clove_packet_format }) in
      (
        record d' { received = d'.received ++ goroutine_of qs; buf_recv = t },
        ap after_parse_packet (
            parse-finding heard qs t (ff ∙ hn, hm') (ap test_match_score fb ∙ hs)
              (ap parse_from_buffer fb ∙ hp)),
        record {
          received = flatten-goroutine d'.received c.received qs (gr ∙ fr);
          buffered = refl;
          still_open = go ∙ fo;
        },
        gf,
      )
