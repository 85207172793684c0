-- ===== src/Udp/Datagram/Loops/InOrder.antt =====
-- udp/controller.go: the packets that the loops hand to the callback are those that `read` makes of
-- the datagrams, in order.
use clove.Prelude.{
  ◌∷◌, none, false, ◌≡◌, ◌≤◌, ◌⊎◌, inr, false, Option, some, List, [], ◌++◌, map, length, arith,
  refl,
}
use clove.Network.Packet.{Packet}
use clove.Udp.Datagram.Receiving.{Endpoint}
use clove.Udp.Datagram.Loops.{
  Controller, Runs, create_controller, close, stop_writing, channel_size, created, heard_datagram,
  failed, stopped, put, handled, handled_nil, finished, closed_by_caller, stopped_writing, drained,
  channel_closed, close_channel,
}
use clove.Udp.Datagram.Receiving.Several.{receive_all}
use clove.Udp.Datagram.Loops.Ordered.{
  Ordered, hear-Ordered, fail_combine-Ordered, stop_reading-Ordered, put_packet-Ordered,
  handle_packet-Ordered, handle_nil-Ordered, finish-Ordered, same-Ordered,
}
use clove.Prelude.{empty, Subsequence, inl, none}
use clove.Udp.Datagram.Loops.Ordered.{drain_packet-Ordered}

Runs-Ordered : (start : Endpoint) (c : Controller) → Runs start c → Ordered start c
unfolding create_controller close stop_writing close_channel receive_all
Runs-Ordered start _ created = (
  [],
  record {
    same_endpoint = refl;
    received = refl;
    handed_in = empty;
    whole = inr (inl refl);
    drains = inl refl;
    fits = omega arith;
  },
)
Runs-Ordered start _ (heard_datagram c addr bytes run reads idle ok) =
    hear-Ordered start c addr bytes idle (Runs-Ordered start c run)
Runs-Ordered start _ (failed c addr bytes e run reads idle err) =
    fail_combine-Ordered start c addr bytes e idle err (Runs-Ordered start c run)
Runs-Ordered start _ (stopped c run reads idle) =
    stop_reading-Ordered start c (Runs-Ordered start c run)
Runs-Ordered start _ (drained c p left run busy e) =
    drain_packet-Ordered start c p left busy e (Runs-Ordered start c run)
Runs-Ordered start _ (channel_closed c run busy e) =
    same-Ordered start c (close_channel c) refl (inl refl) (Runs-Ordered start c run)
Runs-Ordered start _ (put c p more run reads e room) =
    put_packet-Ordered start c p more e room (Runs-Ordered start c run)
Runs-Ordered start _ (handled c go_on p left run busy e) =
    handle_packet-Ordered start c go_on p left busy e (Runs-Ordered start c run)
Runs-Ordered start _ (handled_nil c left run busy e) =
    handle_nil-Ordered start c left busy e (Runs-Ordered start c run)
Runs-Ordered start _ (finished c run busy shut e) =
    finish-Ordered start c busy (Runs-Ordered start c run)
Runs-Ordered start _ (closed_by_caller c run) =
    same-Ordered start c (close c) refl (inr refl) (Runs-Ordered start c run)
Runs-Ordered start _ (stopped_writing c run e) =
    same-Ordered start c (stop_writing c) refl (inr refl) (Runs-Ordered start c run)

-- Whatever the order of the steps of a controller's loops: the packets given to the callback are
-- among those that `read` made of the datagrams, in the order of the datagrams and once each. What
-- `read` made was taken off the channel or, behind that, is on it or on its way to it; and until the
-- reading ends, where `ChannelQueue.Close` begins to drop packets, all that was taken was given to
-- the callback, but for one nil at the end, which ends the loop of `process`. The channel holds no
-- more than 32.
pub Runs-in_order :
    (start : Endpoint) (c : Controller)
    → Runs start c
    → (came : List (Option Packet)) × ((receive_all start c.heard).1
        ≡ came ++ (c.queue ++ c.pending))
      × Subsequence (map some c.handed) came
      × ((c.reading ≡ false)
          ⊎ (came ≡ map some c.handed)
          ⊎ ((c.processing ≡ false) × (came ≡ map some c.handed ++ (none ∷ []))))
      × (length c.queue ≤ channel_size)
Runs-in_order start c run =
    let (came, h) = Runs-Ordered start c run in (came, h.received, h.handed_in, h.whole, h.fits)
