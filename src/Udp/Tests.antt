-- ===== src/Udp/Tests.antt =====
-- The theorems of the datagram endpoint at concrete data.
mod Reading
use clove.Prelude.{
  ℕ, List, take, length, ◌++◌, ◌≤◌, arith, ◌≡◌, zero, suc, ◌^◌, ◌<◌, ◌%◌, refl, none, some, [], ◌∷◌,
  false,
}
use clove.Udp.Datagram.Sharing.{Call, begin_call, read_chunk, write_chunk}
use clove.Udp.Datagram.Sharing.Race.{write_chunk-read_chunk}
use clove.Udp.Datagram.Sending.{build_fragment, WriteTo, Sent, send_to, calculation_error}
use clove.Prelude.Run.{returned}
use mathlib.Core.List.{flatten}
use clove.Network.Packet.{binary}
use clove.Network.Format.{PacketFormat}
use clove.Network.Packet
use clove.Network.CloveFormat
use clove.Udp.Pipeline.{
  Fragment, FragmentPipeline, create_fragment_pipeline, combine, combined, lookup,
}
use clove.Udp.Pipeline.Delivery.{add_all, combine-add_all, combine_complete}
use clove.Udp.Datagram.Sending.Chunks.{rounds, chunks, datagrams, send_to-datagrams}
use clove.Udp.Datagram.Sending.Overflow.{send_to-overflow, send_to-returns}
use clove.Udp.Datagram.Receiving.{parse_datagram}
use clove.Udp.Datagram.Receiving.Reassembly.{fragment_of, parse_datagram-build_fragment}

abbrev whole_write : WriteTo
whole_write before d = some (length d)

abbrev five : List ℕ
five = 1 ∷ 2 ∷ 3 ∷ 4 ∷ 5 ∷ []

five_rounds : rounds 2 5 < 2 ^ 16
unfolding rounds
five_rounds = omega arith

send_to-datagrams_example :
    (send_to 2 whole_write five
      ≡ returned (datagrams 0 (rounds 2 5) (chunks (rounds 2 5) 2 five), none))
    × (flatten (chunks (rounds 2 5) 2 five) ≡ five)
send_to-datagrams_example =
    send_to-datagrams 2 whole_write five (omega arith) (λ before d. refl) five_rounds

-- `n` zero bytes.
zeros : ℕ → List ℕ
zeros zero = []
zeros (suc n) = 0 ∷ zeros n

length-zeros : (n : ℕ) → length (zeros n) ≡ n
unfolding zeros
length-zeros zero = refl
length-zeros (suc n) = omega (arith, length-zeros n)

zeros-rounds : 2 ^ 16 ≤ rounds 1 (length (zeros (2 ^ 16)))
unfolding rounds
zeros-rounds = rw (length-zeros (2 ^ 16)) (omega arith)

send_to-overflow_example :
    let k = rounds 1 (length (zeros (2 ^ 16))) % 2 ^ 16 in
    send_to 1 whole_write (zeros (2 ^ 16))
    ≡ returned (datagrams 0 k (chunks k 1 (zeros (2 ^ 16))), some calculation_error)
send_to-overflow_example =
    send_to-overflow 1 whole_write (zeros (2 ^ 16)) (omega arith) (λ before d. refl) zeros-rounds

abbrev first_call : Call
first_call = begin_call 4 (1 ∷ 2 ∷ [])

abbrev second_call : Call
second_call = begin_call 4 (7 ∷ 8 ∷ 9 ∷ [])

write_chunk-read_chunk_example :
    ((write_chunk (read_chunk first_call (zeros 4)).0 (read_chunk first_call (zeros 4)).1).written
      ≡ first_call.written
        ++ (build_fragment first_call.idx first_call.count
              (take (length (zeros 4)) first_call.data_left)
            ∷ []))
    × ((write_chunk
          (read_chunk first_call (zeros 4)).0
          (read_chunk second_call (read_chunk first_call (zeros 4)).1).1).written
        ≡ first_call.written
          ++ (build_fragment first_call.idx first_call.count
                (take (read_chunk first_call (zeros 4)).0.chunk second_call.data_left)
              ∷ []))
unfolding begin_call
write_chunk-read_chunk_example =
    write_chunk-read_chunk first_call second_call (zeros 4) (omega arith)

-- A connection whose second write fails.
abbrev failing_write : WriteTo
failing_write [] d = some (length d)
failing_write (x ∷ before) d = none

send_to-returns_example : (r : Sent) × (send_to 2 failing_write five ≡ returned r)
send_to-returns_example = send_to-returns 2 failing_write five (omega arith)
