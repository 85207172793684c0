-- ===== src/Udp/Datagram/Sharing.antt =====
-- udp/controller.go: `SendPacket`, and the slice `fragmentData` that the calls of `sendTo` in
-- several goroutines share. `processWrite` hands out a permission again as soon as it was taken.
pub mod Race
use clove.Prelude.{
  ℕ, ◌+◌, ◌%◌, ◌^◌, Bool, true, Option, none, some, List, [], ◌∷◌, ◌++◌, length, take, drop, ltb,
  if◌then◌else◌,
}
use clove.Network.Packet.{Packet, Packaged}
use clove.Network.Format.{PacketFormat, FormatManager}
use clove.Network.Formats.{choose_format}
use clove.Udp.Datagram.Sending.{build_fragment, fragment_count}

-- The goroutine of `SendPacket`: the bytes that it waits to send, if the packet has a format that
-- takes it.
unfoldable packaged_bytes : Packaged → Option (List ℕ)
packaged_bytes (none, raw) = some raw
packaged_bytes (some e, raw) = none

unfoldable bytes_to_send : Packet → Option PacketFormat → Option (List ℕ)
unfolding packaged_bytes
bytes_to_send p none = none
bytes_to_send p (some f) = packaged_bytes (f.packager p)

-- `SendPacket` returns true before that goroutine has done anything.
unfoldable pub send_packet : Option PacketFormat → FormatManager → Packet → Bool × Option (List ℕ)
unfolding bytes_to_send choose_format
send_packet fmt m p = (true, bytes_to_send p (choose_format fmt m p))

-- A call of `sendTo`: the data that its reader has left, its counters, the number of bytes that it
-- has just read into `fragmentData`, and the datagrams that it has written.
pub record Call : Type 0 where
  pub data_left : List ℕ
  pub idx : ℕ
  pub count : ℕ
  pub chunk : ℕ
  pub written : List (List ℕ)

unfoldable pub begin_call : ℕ → List ℕ → Call
unfolding fragment_count
begin_call size bytes = record {
  data_left = bytes;
  idx = 0;
  count = fragment_count size (length bytes);
  chunk = 0;
  written = [];
}

-- `buf.Read(c.fragmentData)`: the call and the slice after it.
unfoldable pub read_chunk : Call → List ℕ → Call × List ℕ
read_chunk c shared =
    let n =
      if ltb (length c.data_left) (length shared) then length c.data_left else length shared in
    (record c { chunk = n; data_left = drop n c.data_left }, take n c.data_left ++ drop n shared)

-- The rest of a round: the datagram is built from the slice as it is by now.
unfoldable pub write_chunk : Call → List ℕ → Call
unfolding build_fragment
write_chunk c shared = record c {
  written = c.written ++ (build_fragment c.idx c.count (take c.chunk shared) ∷ []);
  idx = (c.idx + 1) % 2 ^ 16;
}
