-- ===== src/Unix/Tests.antt =====
-- The theorems of the unix package at concrete values.
use clove.Prelude.{◌≡◌, true, false, none, some, [], ◌∷◌, refl, arith, length, List, ℕ}
use clove.Prelude.Run.{returned}
use clove.Network.Packet.{BinaryPacket, Packet, text, binary}
use clove.Network.Formats.{choose_format, clove_packet_format, text_packet_format, package_text}
use clove.Network.Format.{new_format_manager}
use clove.Network.CloveFormat.{package_packet}
use clove.Unix.Controller.{
  Socket, send_packet, read, datagram, read_failed, after_package, send_formatted, send_to,
  after_write,
}
use clove.Unix.Controller.Sending.{send_packet-IsSent, IsSent}
use clove.Unix.Controller.Receiving.{read-send_packet}
use clove.Unix.Controller.{Incoming}
use clove.Network.Packet.{PacketType, get_type, type_eq}
use clove.Unix.Controller.Steps.{
  Endpoint, Runs, process, hear_packet, heard_datagram, started, read_branch, by_read,
  handle_packet, put_packet, put, handled,
}
use clove.Unix.Controller.Steps.Accounted.{IsAccounted, Runs-IsAccounted, crash-reachable}
use clove.Unix.Controller.Steps.{is_shut}

abbrev whole_socket : Socket
whole_socket = record {
  resolves = λ addr. true;
  sets_deadline = true;
  write_to_unix = λ bytes addr. some (length bytes);
  write_msg_unix = λ bytes oob addr. some (length bytes, length oob);
}

abbrev sample : BinaryPacket
sample = record {
  from = [];
  encrypted = false;
  compressed = true;
  protocol_type = 1;
  protocol_ver = 2;
  compress_support = true;
  raw = 7 ∷ 8 ∷ [];
}

abbrev greeting : List ℕ
greeting = (b'h' ∷ b'i' ∷ [])

abbrev greeting_packet : Packet
greeting_packet = text (record { from = []; text = greeting })

greeting_sent :
    (send_packet false
      (some text_packet_format)
      new_format_manager
      whole_socket
      (b'b' ∷ [])
      greeting_packet).1
    ≡ true
unfolding send_packet send_formatted choose_format text_packet_format package_text after_package
    send_to after_write
greeting_sent = refl

send_packet-IsSent_example :
    (false ≡ false)
    × IsSent
        (some text_packet_format)
        new_format_manager
        (b'b' ∷ [])
        greeting_packet
        (send_packet false
          (some text_packet_format)
          new_format_manager
          whole_socket
          (b'b' ∷ [])
          greeting_packet).0
send_packet-IsSent_example =
    send_packet-IsSent false (some text_packet_format) new_format_manager whole_socket (b'b' ∷ [])
      greeting_packet greeting_sent

read-send_packet_example :
    (send_packet false
        (some clove_packet_format)
        new_format_manager
        whole_socket
        (b'b' ∷ [])
        (binary sample)
      ≡ (datagram (b'b' ∷ []) (package_packet (binary sample)).1 [] ∷ [], true))
    × (read 0xffff
          (some clove_packet_format)
          (some ((package_packet (binary sample)).1, (b'a' ∷ [])))
        ≡ returned (none, binary (record sample { from = (b'a' ∷ []) }) ∷ []))
read-send_packet_example =
    read-send_packet new_format_manager whole_socket (b'b' ∷ []) (b'a' ∷ []) 0xffff sample
      (omega arith, omega arith, omega arith) (omega arith) refl refl refl

abbrev clove_input : Incoming
clove_input = some ((package_packet (binary sample)).1, (b'a' ∷ []))

abbrev sample_from : Packet
sample_from = binary (record sample { from = (b'a' ∷ []) })

sample_arrives :
    read 0xffff (some clove_packet_format) clove_input ≡ returned (none, sample_from ∷ [])
sample_arrives = read-send_packet_example.1

clove_branch : read_branch (some clove_packet_format) ≡ by_read
unfolding read_branch clove_packet_format
clove_branch = refl

abbrev one_heard : Endpoint
one_heard = hear_packet clove_input sample_from process

abbrev one_handed : Endpoint
one_handed = handle_packet true sample_from [] (put_packet [] sample_from one_heard)

-- A datagram is read, put on the channel by its goroutine, and handed over.
one_handed-Runs : Runs 0xffff (some clove_packet_format) one_handed
unfolding process hear_packet put_packet is_shut
one_handed-Runs =
    let run1 : Runs 0xffff (some clove_packet_format) one_heard =
      heard_datagram process clove_input sample_from started
        (record { runs = refl; reads = refl; idle = refl; branch = clove_branch }) sample_arrives in
    let run2 = put one_heard [] sample_from [] run1 refl refl refl (omega arith) in
    handled (put_packet [] sample_from one_heard) true sample_from [] run2 refl refl refl

Runs-IsAccounted_example :
    IsAccounted 0xffff
      (some clove_packet_format)
      (λ p. type_eq (get_type p) PacketType.binary)
      one_handed
Runs-IsAccounted_example =
    Runs-IsAccounted 0xffff (some clove_packet_format) (λ p. type_eq (get_type p) PacketType.binary)
      one_handed one_handed-Runs

error_arrives : read 0xffff (some clove_packet_format) none ≡ returned (some read_failed, [])
unfolding read
error_arrives = refl

crash-reachable_example :
    (c : Endpoint) × Runs 0xffff (some clove_packet_format) c × (c.crashed ≡ true) × (c.handed ≡ [])
crash-reachable_example =
    crash-reachable 0xffff (some clove_packet_format) clove_input none sample_from read_failed []
      clove_branch sample_arrives error_arrives
