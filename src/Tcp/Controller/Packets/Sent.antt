-- ===== src/Tcp/Controller/Packets/Sent.antt =====
-- tcp/controller.go: the packets of many goroutines of `SendPackets` with the sends of `process`.
use clove.Prelude.{
  ℕ, ◌≡◌, true, some, none, sym, Option, append-nil, List, [], ◌∷◌, ◌++◌, refl, ap, ◌∙◌,
  append_assoc, if_intro, Bool,
}
use clove.Prelude.Run.{returned}
use clove.Base.Bit.{test_mask}
use clove.Network.Packet.{BinaryPacket, binary}
use clove.Network.CloveFormat.{package_packet}
use clove.Network.CloveFormat.Stream.{frame, frames}
use clove.Network.Format.{FormatManager, PacketFormat}
use clove.Network.Formats.{clove_packet_format, choose_format}
use clove.Tcp.Controller.{
  Controller, Conn, send_bytes, process_send, flag_opened, is_opened, exit, force_close,
}
use clove.Tcp.Controller.Sending
use clove.Tcp.Controller.Sending.{Sends}
use mathlib.Core.Path.{subst}
use clove.Tcp.Controller.Keeping.{process_send-keeps}
use clove.Tcp.Controller.Packets.{send_packet, send_packaged}

-- The runs of a controller `start` in which goroutines of `SendPackets` have sent the packets of
-- the index, in the order of their calls of `SendBytes`, and the loop of `process` has taken
-- lengths over `chSend`, of which it may take any that waits.
pub data Packs (conn : Conn) (all : FormatManager) (start : Controller)
    : Controller → List BinaryPacket → Type 0 where
  created : Packs conn all start start []
  packaged :
      (c : Controller) (ps : List BinaryPacket) (p : BinaryPacket)
      → Packs conn all start c ps
      → test_mask c.flag flag_opened ≡ true
      → Packs conn all start (send_packet all (binary p) c) (ps ++ (p ∷ []))
  sent :
      (c c' : Controller) (ps : List BinaryPacket) (before after : List ℕ) (n : ℕ)
      → Packs conn all start c ps
      → c.waiting ≡ before ++ (n ∷ after)
      → process_send conn n (record c { waiting = before ++ after }) ≡ returned c'
      → Packs conn all start c' ps

frames-append : (ps qs : List BinaryPacket) → frames (ps ++ qs) ≡ frames ps ++ frames qs
frames-append [] qs = refl
frames-append (p ∷ ps) qs =
    ap (λ (x : List ℕ). frame p ++ x) (frames-append ps qs)
    ∙ sym (append_assoc (frame p) (frames ps) (frames qs))

-- With the Clove format a packet is its frame.
send_packet-clove :
    (all : FormatManager) (p : BinaryPacket) (c : Controller)
    → c.packet_fmt ≡ some clove_packet_format
    → send_packet all (binary p) c ≡ (send_bytes (frame p) c).1
unfolding send_packet choose_format send_packaged clove_packet_format package_packet
send_packet-clove all p c e =
    ap
      (λ (o : Option PacketFormat). elim (choose_format o all (binary p)) [
        | none ↦ c
        | some f ↦ send_packaged (f.packager (binary p)) c
      ])
      e

-- A controller that has the Clove format.
abbrev HasFormat : Controller → Type 0
HasFormat c = c.packet_fmt ≡ some clove_packet_format

send_frame-HasFormat :
    (p : BinaryPacket) (c : Controller) → HasFormat c → HasFormat (send_bytes (frame p) c).1
unfolding send_bytes
send_frame-HasFormat p c h =
    if_intro (λ (r : Bool × Controller). HasFormat r.1) (is_opened c) _ _ (λ e. h) (λ e. h)

exit-HasFormat : (c : Controller) → HasFormat c → HasFormat (exit c)
unfolding exit force_close
exit-HasFormat c h = if_intro HasFormat (is_opened c) _ _ (λ e. h) (λ e. h)

process_send-HasFormat :
    (conn : Conn) (n : ℕ) (c d : Controller)
    → HasFormat c
    → process_send conn n c ≡ returned d
    → HasFormat d
process_send-HasFormat = process_send-keeps HasFormat (λ c b h. h) (λ c wire h. h) exit-HasFormat

frames-snoc :
    (ps : List BinaryPacket) (p : BinaryPacket) → frames ps ++ frame p ≡ frames (ps ++ (p ∷ []))
frames-snoc ps p =
    sym (frames-append ps (p ∷ []) ∙ ap (λ (x : List ℕ). frames ps ++ x) (append-nil (frame p)))

-- The runs of packets are runs of their frames.
pub Packs-Sends :
    (conn : Conn) (all : FormatManager) (start c : Controller) (ps : List BinaryPacket)
    → HasFormat start
    → Packs conn all start c ps
    → Sends conn start c (frames ps) × HasFormat c
Packs-Sends conn all start _ _ ef created = (Sending.created, ef)
Packs-Sends conn all start _ _ ef (packaged c ps p run o) =
    let (sends, h) = Packs-Sends conn all start c ps ef run in
    rw (send_packet-clove all p c h) (
      subst (λ (w : List ℕ). Sends conn start (send_bytes (frame p) c).1 w) (frames-snoc ps p)
          (Sending.written c (frames ps) (frame p) sends o),
      send_frame-HasFormat p c h,
    )
Packs-Sends conn all start c' _ ef (sent c _ ps before after n run e r) =
    let (sends, h) = Packs-Sends conn all start c ps ef run in
    (
      Sending.sent c c' (frames ps) before after n sends e r,
      process_send-HasFormat conn n (record c { waiting = before ++ after }) c' h r,
    )
