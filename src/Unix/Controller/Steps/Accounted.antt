-- ===== src/Unix/Controller/Steps/Accounted.antt =====
-- unix/controller.go: where the packets are that a controller has parsed.
use clove.Prelude.{
  ℕ, ◌+◌, ◌≡◌, ◌≤◌, true, Option, none, some, List, [], ◌∷◌, ◌++◌, length, length-append, arith,
  refl, ap, Bool, count_of, count_of-append, count_of-middle, ◌∙◌,
}
use clove.Prelude.Run.{Run, returned}
use clove.Network.Packet.{Packet}
use clove.Network.Format.{PacketFormat}
use clove.Unix.Controller.{Incoming, UnixError, read, read_msg}
use clove.Unix.Controller.Steps.{
  Endpoint, Input, for_read, for_read_msg, process, hear_packet, hear_msg, stop_reading,
  fail_reading, drain_packet, end_drain, close_channel, put_packet, put_pending, put_closed,
  handle_packet, finish_processing, channel_size, Runs, started, heard_datagram, heard_msg, stopped,
  stopped_msg, stopped_type, failed, failed_format, queue_drained, drain_ended, channel_closed, put,
  put_msg, put_late, handled, finished, read_branch, by_read,
}

abbrev packets_read : Run (Option UnixError × List Packet) → List Packet
packets_read (returned (none, ps)) = ps
packets_read _ = []

-- What `read` or `readMsg` makes of an input.
abbrev packets_of : ℕ → Option PacketFormat → List Input → List Packet
packets_of limit fmt [] = []
packets_of limit fmt (for_read i ∷ is) = packets_read (read limit fmt i) ++ packets_of limit fmt is
packets_of limit fmt (for_read_msg m ∷ is) = (read_msg m).1 ++ packets_of limit fmt is

-- The packets that pass a test: those that wait, are on the channel or were handed over are no more
-- than `read` and `readMsg` have made of the inputs. The channel holds no more than its size.
pub record IsAccounted (limit : ℕ) (fmt : Option PacketFormat) (t : Packet → Bool) (c : Endpoint)
    : Type 0 where
  pub counted :
      (count_of t c.handed + count_of t c.queue) + (count_of t c.waiting + count_of t c.pending)
      ≤ count_of t (packets_of limit fmt c.inputs)
  queue_fits : length c.queue ≤ channel_size

packets_of-read :
    (limit : ℕ) (fmt : Option PacketFormat) (i : Incoming) (p : Packet) (is : List Input)
    → read limit fmt i ≡ returned (none, p ∷ [])
    → packets_of limit fmt (for_read i ∷ is) ≡ p ∷ packets_of limit fmt is
packets_of-read limit fmt i p is e =
    ap (λ (r : Run (Option UnixError × List Packet)). packets_read r ++ packets_of limit fmt is) e

-- In every run of a controller, whatever the order of its goroutines, and for any test of packets:
-- of the packets that pass it, those given to the callback, with those on the channel and those on
-- their way to it, are no more than `read` and `readMsg` have made of what came from the socket. So
-- every packet given to the callback was made of an input, and none is given more often than it was
-- made. The channel never holds more than 32 packets.
pub Runs-IsAccounted :
    (limit : ℕ) (fmt : Option PacketFormat) (t : Packet → Bool) (c : Endpoint)
    → Runs limit fmt c
    → IsAccounted limit fmt t c
unfolding process hear_packet hear_msg stop_reading fail_reading drain_packet end_drain
    close_channel put_packet put_pending put_closed handle_packet finish_processing
Runs-IsAccounted limit fmt t _ started = record { counted = omega arith; queue_fits = omega arith }
Runs-IsAccounted limit fmt t _ (heard_datagram c i p run ok e) =
    let h = Runs-IsAccounted limit fmt t c run in
    let new = ap (count_of t) (packets_of-read limit fmt i p c.inputs e) in
    record { counted = omega (arith, h.counted, new); queue_fits = h.queue_fits }
Runs-IsAccounted limit fmt t _ (heard_msg c m p run ok e) =
    let h = Runs-IsAccounted limit fmt t c run in
    let new =
      ap (λ (r : Option UnixError × List Packet). count_of t (r.1 ++ packets_of limit fmt c.inputs))
        e in
    let none_waits = ap (count_of t) ok.idle in
    record { counted = omega (arith, h.counted, new, none_waits); queue_fits = h.queue_fits }
Runs-IsAccounted limit fmt t _ (stopped c i e ps run ok r) =
    let h = Runs-IsAccounted limit fmt t c run in
    record { counted = h.counted; queue_fits = h.queue_fits }
Runs-IsAccounted limit fmt t _ (stopped_msg c m e ps run ok r) =
    let h = Runs-IsAccounted limit fmt t c run in
    record { counted = h.counted; queue_fits = h.queue_fits }
Runs-IsAccounted limit fmt t _ (stopped_type c run ok) =
    let h = Runs-IsAccounted limit fmt t c run in
    record { counted = h.counted; queue_fits = h.queue_fits }
Runs-IsAccounted limit fmt t _ (failed c i run ok r) =
    let h = Runs-IsAccounted limit fmt t c run in
    record { counted = h.counted; queue_fits = h.queue_fits }
Runs-IsAccounted limit fmt t _ (failed_format c run ok) =
    let h = Runs-IsAccounted limit fmt t c run in
    record { counted = h.counted; queue_fits = h.queue_fits }
Runs-IsAccounted limit fmt t _ (queue_drained c p rest run ok busy e) =
    let h = Runs-IsAccounted limit fmt t c run in
    record {
      counted = omega (arith, h.counted, ap (count_of t) e);
      queue_fits = omega (arith, h.queue_fits, ap (λ (ps : List Packet). length ps) e);
    }
Runs-IsAccounted limit fmt t _ (drain_ended c run ok busy e) =
    let h = Runs-IsAccounted limit fmt t c run in
    record { counted = h.counted; queue_fits = h.queue_fits }
Runs-IsAccounted limit fmt t _ (channel_closed c run ok busy) =
    let h = Runs-IsAccounted limit fmt t c run in
    record { counted = h.counted; queue_fits = h.queue_fits }
Runs-IsAccounted limit fmt t _ (put c before p after run ok is_open e room) =
    let h = Runs-IsAccounted limit fmt t c run in
    let moved = ap (count_of t) e ∙ count_of-middle t before p after in
    record {
      counted = omega (arith, h.counted, moved, count_of-append t c.queue (p ∷ []));
      queue_fits = omega (arith, length-append c.queue (p ∷ []));
    }
Runs-IsAccounted limit fmt t _ (put_msg c p run ok e room) =
    let h = Runs-IsAccounted limit fmt t c run in
    record {
      counted = omega (arith, h.counted, ap (count_of t) e, count_of-append t c.queue (p ∷ []));
      queue_fits = omega (arith, length-append c.queue (p ∷ []));
    }
Runs-IsAccounted limit fmt t _ (put_late c before p after run ok is_closed e) =
    let h = Runs-IsAccounted limit fmt t c run in
    let moved = ap (count_of t) e ∙ count_of-middle t before p after in
    record { counted = omega (arith, h.counted, moved); queue_fits = h.queue_fits }
Runs-IsAccounted limit fmt t _ (handled c go_on p rest run ok busy e) =
    let h = Runs-IsAccounted limit fmt t c run in
    record {
      counted = omega (arith, h.counted, ap (count_of t) e, count_of-append t c.handed (p ∷ []));
      queue_fits = omega (arith, h.queue_fits, ap (λ (ps : List Packet). length ps) e);
    }
Runs-IsAccounted limit fmt t _ (finished c run ok busy is_closed e) =
    let h = Runs-IsAccounted limit fmt t c run in
    record { counted = h.counted; queue_fits = h.queue_fits }

-- With a format of binary packets: when a datagram is parsed and the next read ends the reading
-- before the goroutine of the packet has put it on the channel, there is a run in which the
-- controller crashes: that goroutine sends on the closed channel.
pub crash-reachable :
    (limit : ℕ) (fmt : Option PacketFormat) (first next : Incoming) (p : Packet) (e : UnixError)
    (ps : List Packet)
    → read_branch fmt ≡ by_read
    → read limit fmt first ≡ returned (none, p ∷ [])
    → read limit fmt next ≡ returned (some e, ps)
    → (c : Endpoint) × Runs limit fmt c × (c.crashed ≡ true) × (c.handed ≡ [])
unfolding process hear_packet stop_reading end_drain close_channel put_closed
crash-reachable limit fmt first next p e ps b r1 r2 =
    let c1 = hear_packet first p process in
    let c2 = stop_reading c1 in
    let run1 : Runs limit fmt c1 =
      heard_datagram process first p started
        (record { runs = refl; reads = refl; idle = refl; branch = b }) r1 in
    let run2 : Runs limit fmt c2 =
      stopped c1 next e ps run1 (record { runs = refl; reads = refl; idle = refl; branch = b })
        r2 in
    let run3 : Runs limit fmt (close_channel (end_drain c2)) =
      channel_closed (end_drain c2) (drain_ended c2 run2 refl refl refl) refl refl in
    (
      put_closed [] (close_channel (end_drain c2)),
      put_late (close_channel (end_drain c2)) [] p [] run3 refl refl refl,
      refl,
      refl,
    )
