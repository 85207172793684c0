-- ===== src/Udp/Datagram/Receiving/Reassembly.antt =====
-- udp/controller.go: `read` takes back the fragments that `sendTo` builds.
use clove.Prelude.{ℕ, ◌+◌, ◌^◌, ◌<◌, ◌≡◌, List, length, arith, some}
use clove.Prelude.Bytes.{put_uint16}
use clove.Udp.Pipeline.{Fragment}
use clove.Udp.Datagram.Sending.{build_fragment, header_size}
use clove.Udp.Datagram.Receiving.{parse_datagram}

abbrev pub fragment_of : ℕ → ℕ → List ℕ → Fragment
fragment_of i n chunk = record { length_field = length chunk; idx = i; count = n; payload = chunk }

-- A fragment that `sendTo` builds is read back: its index, its count and its chunk, where the index
-- and the count fit 16 bits and the chunk leaves room for the header in a datagram of 2^16 bytes.
pub parse_datagram-build_fragment :
    (i n : ℕ) (chunk : List ℕ)
    → i < 2 ^ 16
    → n < 2 ^ 16
    → length chunk + header_size < 2 ^ 16
    → parse_datagram (build_fragment i n chunk) ≡ some (fragment_of i n chunk)
unfolding parse_datagram build_fragment put_uint16
parse_datagram-build_fragment i n chunk hi hn hc = ground arith
