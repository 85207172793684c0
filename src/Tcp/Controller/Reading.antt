-- ===== src/Tcp/Controller/Reading.antt =====
-- tcp/controller.go: the flags over what a controller reads, sends and is told, in any order.
use clove.Prelude.{
  ℕ, ◌≡◌, Bool, true, false, Option, none, some, inl, inr, List, [], ◌∷◌, refl, Bool-cases,
}
use clove.Prelude.Run.{returned}
use clove.Base.Buffer.{Buffer, write}
use clove.Base.Bit.{test_mask}
use clove.Network.Packet.{PacketError, ParsedAll}
use clove.Network.Format.{PacketFormat, FormatManager, determine_from_buffer, PacketPreprocessor}
use clove.Tcp.Controller.{
  Controller, create_controller, set_packet_format, set_readyed_flag, close, send_bytes, is_opened,
  process_closed, after_buffer, parse_with, parse_by, start_determined, after_ack, start_format,
  parse_packet, after_parse_packet, read_round, Conn, process_send, process_received,
  receive_packets, Outcome, set_data_received_flag,
}
use clove.Tcp.Controller.Life.{
  IsAlive, Inv, set_data-Inv, set_readyed-Inv, exit-Inv, close-Inv, exit_and_notify-Inv,
}
use clove.Tcp.Controller.Keeping.{process_send-keeps}
use clove.Tcp.Controller.Alive.{alive_check}
use clove.Tcp.Controller.Alive.Rounds.{alive_check-Inv}

send_bytes-Inv : (bytes : List ℕ) (c : Controller) → Inv c → Inv (send_bytes bytes c).1
unfolding send_bytes
send_bytes-Inv bytes c h = elim (Bool-cases (is_opened c)) [ inl e ↦ rw e h | inr e ↦ rw e h ]

after_buffer-Inv : (c : Controller) (r : ParsedAll) → Inv c → Inv (after_buffer c r).1
unfolding after_buffer receive_packets
after_buffer-Inv c (some e, ps, b) h = h
after_buffer-Inv c (none, ps, b) h = h

after_ack-Inv :
    (c : Controller) (r : (Option PacketError × List ℕ) × Buffer) → Inv c → Inv (after_ack c r).1
unfolding after_ack
after_ack-Inv c ((some e, ack), b) h = h
after_ack-Inv c ((none, ack), b) h =
    set_readyed-Inv (send_bytes ack (record c { buf_recv = b })).1
      (send_bytes-Inv ack (record c { buf_recv = b }) h)

start_format-Inv :
    (o : Option PacketPreprocessor) (f : PacketFormat) (c : Controller)
    → Inv c
    → Inv (start_format o f c).1
unfolding start_format parse_with
start_format-Inv none f c h =
    after_buffer-Inv (set_readyed_flag c) (f.parser.parse_from_buffer (set_readyed_flag c).buf_recv)
      (set_readyed-Inv c h)
start_format-Inv (some p) f c h = after_ack-Inv c (p.handshake_ack c.buf_recv) h

start_determined-Inv :
    (o : Option PacketFormat) (c : Controller) → Inv c → Inv (start_determined o c).1
unfolding start_determined
start_determined-Inv none c h = h
start_determined-Inv (some f) c h =
    start_format-Inv f.preprocessor f (record c { packet_fmt = some f }) h

parse_by-Inv : (o : Option PacketFormat) (c : Controller) → Inv c → Inv (parse_by o c).1
unfolding parse_by parse_with
parse_by-Inv (some f) c h = after_buffer-Inv c (f.parser.parse_from_buffer c.buf_recv) h
parse_by-Inv none c h = start_determined-Inv (determine_from_buffer c.packet_fmt_mgr c.buf_recv) c h

after_parse-Inv : (r : Outcome) → Inv r.1 → Inv (after_parse_packet r).1
unfolding after_parse_packet
after_parse-Inv (some e, c) h = exit_and_notify-Inv c h
after_parse-Inv (none, c) h = h

read_round-Inv : (r : Option (List ℕ)) (c : Controller) → Inv c → Inv (read_round r c).1
unfolding read_round parse_packet
read_round-Inv none c h = exit_and_notify-Inv c h
read_round-Inv (some []) c h = exit_and_notify-Inv c h
read_round-Inv (some (x ∷ bytes)) c h =
    let d : Controller = record c { buf_recv = (write (x ∷ bytes) c.buf_recv).1 } in
    after_parse-Inv _ (
      parse_by-Inv (set_data_received_flag d).packet_fmt (set_data_received_flag d)
        (set_data-Inv d h))

process_closed-Inv : (c : Controller) → Inv c → is_opened c ≡ true → Inv (process_closed c)
unfolding process_closed test_mask
process_closed-Inv c (inl (f, l)) e = inr (inl (refl, l))
process_closed-Inv c (inr (inl (f, l))) e = inr (inl (refl, l))
process_closed-Inv c (inr (inr (f, l))) e = let shut : false ≡ true = rw f at e in cc

process_received-Inv : (b : Bool) (c : Controller) → Inv c → Inv (process_received b c)
unfolding process_received
process_received-Inv true c h = h
process_received-Inv false c h = exit-Inv c h

-- The states of a controller over any sequence of what happens to it: reads, calls of `SendBytes`,
-- lengths taken over `chSend`, packets handled, rounds of `tryAlive` at any age, the notice on
-- `chClosed`, and `Close`.
pub data Life (m : FormatManager) : Controller → Type 0 where
  created : Life m (create_controller m)
  formatted : (f : PacketFormat) (c : Controller) → Life m c → Life m (set_packet_format f c)
  read : (r : Option (List ℕ)) (c : Controller) → Life m c → Life m (read_round r c).1
  written : (bytes : List ℕ) (c : Controller) → Life m c → Life m (send_bytes bytes c).1
  sent :
      (conn : Conn) (n : ℕ) (ns : List ℕ) (c d : Controller)
      → Life m c
      → process_send conn n (record c { waiting = ns }) ≡ returned d
      → Life m d
  handled : (b : Bool) (c : Controller) → Life m c → Life m (process_received b c)
  notified : (c : Controller) → Life m c → is_opened c ≡ true → Life m (process_closed c)
  checked : (age : ℕ) (c : Controller) → Life m c → Life m (alive_check age c).1
  closed : (c : Controller) → Life m c → Life m (close c)

-- Whatever happens to a controller and in whatever order, its flag is opened with its data and
-- ready bits, closing or closed; an open controller that is ready no longer waits for a format; one
-- that is not ready waits for a format or has its connection shut; and the manager is told that it
-- left once when it is closed, and not before.
pub Life-IsAlive :
    (m : FormatManager) (c : Controller)
    → Life m c
    → IsAlive c.flag c.alive_checking c.is_open c.leaves
unfolding create_controller set_packet_format
Life-IsAlive m _ created = inl (inl (refl, inl refl), refl)
Life-IsAlive m _ (formatted f c h) =
    let d : Controller = record c { packet_fmt = some f } in
    set_readyed-Inv (set_data_received_flag d) (set_data-Inv d (Life-IsAlive m c h))
Life-IsAlive m _ (read r c h) = read_round-Inv r c (Life-IsAlive m c h)
Life-IsAlive m _ (written bytes c h) = send_bytes-Inv bytes c (Life-IsAlive m c h)
Life-IsAlive m d (sent conn n ns c _ h e) =
    process_send-keeps Inv (λ c b h. h) (λ c wire h. h) exit-Inv conn n (record c { waiting = ns })
      d (Life-IsAlive m c h) e
Life-IsAlive m _ (handled b c h) = process_received-Inv b c (Life-IsAlive m c h)
Life-IsAlive m _ (notified c h e) = process_closed-Inv c (Life-IsAlive m c h) e
Life-IsAlive m _ (checked age c h) = alive_check-Inv age c (Life-IsAlive m c h)
Life-IsAlive m _ (closed c h) = close-Inv c (Life-IsAlive m c h)
