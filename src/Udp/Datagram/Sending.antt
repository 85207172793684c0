-- ===== src/Udp/Datagram/Sending.antt =====
-- udp/controller.go: `sendTo`. The reader over the data is the data that is left.
pub mod Chunks
pub mod Overflow
use clove.Prelude.{
  ℕ, zero, suc, ◌+◌, ◌*◌, ◌/◌, ◌%◌, ◌^◌, ◌≡◌, Bool, Option, none, some, List, [], ◌∷◌, ◌++◌, length,
  take, drop, ltb, leb, ◌==◌, if◌then◌else◌,
}
use clove.Prelude.Bytes.{big_endian, put_uint16}
use clove.Prelude.Run.{Run, returned, panicked, out_of_fuel}

pub data SendError : Type 0 where
  resolve_failed write_failed calculation_error incomplete : SendError

-- `SetWriteDeadline` and `WriteTo` of the connection: the bytes written, or `none` for an error
-- of either, given the datagrams before and the datagram.
abbrev pub WriteTo : Type 0
WriteTo = List (List ℕ) → List ℕ → Option ℕ

-- The datagrams written, and the error that `sendTo` returns.
abbrev pub Sent : Type 0
Sent = List (List ℕ) × Option SendError

abbrev pub header_size : ℕ
header_size = 8

abbrev pub header_prefix : ℕ
header_prefix = 129

abbrev pub header_suffix : ℕ
header_suffix = 128

-- `idxCount`, a uint16.
unfoldable pub fragment_count : ℕ → ℕ → ℕ
fragment_count size n =
    let count : ℕ = n / size % 2 ^ 16 in if ltb 0 (n % size) then (count + 1) % 2 ^ 16 else count

unfoldable pub build_fragment : ℕ → ℕ → List ℕ → List ℕ
unfolding put_uint16
build_fragment idx count chunk =
    header_prefix
    ∷ (put_uint16 big_endian idx
        ++ (put_uint16 big_endian count
            ++ (put_uint16 big_endian (length chunk % 2 ^ 16) ++ (header_suffix ∷ chunk))))

-- What follows a `WriteTo`, with `more` the rest of the loop.
abbrev pub after_write : List (List ℕ) → List ℕ → Option ℕ → Run Sent → Run Sent
after_write sent build none more = returned (sent, some write_failed)
after_write sent build (some n) more =
    if n == length build then more else returned (sent ++ (build ∷ []), some incomplete)

-- The loop: each round reads at most `size` bytes.
unfoldable pub send_loop : ℕ → ℕ → WriteTo → ℕ → ℕ → List ℕ → List (List ℕ) → Run Sent
unfolding build_fragment
send_loop fuel size write_to idx count [] sent = returned (sent, none)
send_loop zero size write_to idx count (x ∷ data_left) sent = out_of_fuel
send_loop (suc fuel) size write_to idx count (x ∷ data_left) sent =
    let build = build_fragment idx count (take size (x ∷ data_left)) in
    let more =
      send_loop fuel size write_to ((idx + 1) % 2 ^ 16) count (drop size (x ∷ data_left))
        (sent ++ (build ∷ [])) in
    if leb count idx
    then returned (sent, some calculation_error)
    else after_write sent build (write_to sent build) more

-- Behind the resolving of the address. A fragment size of 0 divides by zero.
unfoldable pub send_to : ℕ → WriteTo → List ℕ → Run Sent
unfolding send_loop fragment_count
send_to size write_to bytes =
    if size == 0
    then panicked
    else send_loop (length bytes) size write_to 0 (fragment_count size (length bytes)) bytes []

-- `sendTo` with whether `ResolveUDPAddr` takes the address.
unfoldable send_to_address : Bool → ℕ → WriteTo → List ℕ → Run Sent
unfolding send_to
send_to_address resolves size write_to bytes =
    if resolves then send_to size write_to bytes else returned ([], some resolve_failed)
