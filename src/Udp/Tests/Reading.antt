-- ===== src/Udp/Tests/Reading.antt =====
-- The theorems of the loops and of the reading of datagrams at concrete runs.
use clove.Prelude.{
  ℕ, ◌≡◌, ◌⊎◌, ◌≤◌, ◌++◌, true, false, some, none, Option, List, [], ◌∷◌, map, length, refl, arith,
}
use clove.Prelude.Run.{returned}
use clove.Network.Packet.{Packet}
use clove.Network.Formats.{clove_packet_format}
use clove.Udp.Datagram.Sending.{WriteTo, send_to}
use clove.Udp.Datagram.Sending.Chunks.{rounds}
use clove.Udp.Datagram.Receiving.{Endpoint, raw_packet}
use clove.Udp.Datagram.Receiving.Several.{receive_all}
use clove.Udp.Datagram.Receiving.Lost.{receive_all-send_to, from}
use clove.Udp.Datagram.Loops
use clove.Udp.Datagram.Loops.{
  Controller, Runs, create_controller, hear, put_packet, handle_packet, channel_size,
}
use clove.Udp.Datagram.Loops.InOrder.{Runs-in_order}
use clove.Prelude.{Subsequence}

abbrev whole_write : WriteTo
whole_write before d = some (length d)

abbrev fresh : Endpoint
fresh = record { fragment_size = 4; packet_fmt = some clove_packet_format; pipelines = [] }

receive_all-send_to_example :
    (sent : List (List ℕ)) × (send_to 4 whole_write (1 ∷ 2 ∷ 3 ∷ 4 ∷ 5 ∷ [])
      ≡ returned (sent, none))
    × ((receive_all fresh (from (9 ∷ []) sent)).1 ≡ [])
unfolding rounds
receive_all-send_to_example =
    receive_all-send_to 4 whole_write (1 ∷ 2 ∷ 3 ∷ 4 ∷ 5 ∷ []) (9 ∷ []) fresh (omega arith)
      (omega arith) (omega arith) (λ before d. refl) (omega arith) (refl, tt)

-- A datagram that is no fragment is heard, put on the channel and handled.
abbrev heard : Controller
heard = hear (9 ∷ []) (1 ∷ 2 ∷ []) (create_controller fresh)

abbrev queued : Controller
queued = put_packet (some (raw_packet (9 ∷ []) (1 ∷ 2 ∷ []))) [] heard

abbrev handled_one : Controller
handled_one = handle_packet true (raw_packet (9 ∷ []) (1 ∷ 2 ∷ [])) [] queued

handled_one-Runs : Runs fresh handled_one
unfolding create_controller hear put_packet
handled_one-Runs =
    Loops.handled queued true (raw_packet (9 ∷ []) (1 ∷ 2 ∷ [])) []
      (Loops.put heard (some (raw_packet (9 ∷ []) (1 ∷ 2 ∷ []))) []
        (Loops.heard_datagram (create_controller fresh) (9 ∷ []) (1 ∷ 2 ∷ []) Loops.created refl
          refl refl)
        refl refl (omega arith))
      refl refl

Runs-in_order_example :
    (came : List (Option Packet)) × ((receive_all fresh handled_one.heard).1
      ≡ came ++ (handled_one.queue ++ handled_one.pending))
    × Subsequence (map some handled_one.handed) came
    × ((handled_one.reading ≡ false)
        ⊎ (came ≡ map some handled_one.handed)
        ⊎ ((handled_one.processing ≡ false) × (came ≡ map some handled_one.handed ++ (none ∷ []))))
    × (length handled_one.queue ≤ channel_size)
Runs-in_order_example = Runs-in_order fresh handled_one handled_one-Runs
