-- ===== src/Udp/Datagram/Sending/Overflow.antt =====
-- udp/controller.go: `sendTo` with any connection, and with data of 2^16 chunks and more.
use clove.Prelude.{
  ℕ, zero, suc, ◌+◌, ◌%◌, ◌^◌, ◌≤◌, ◌<◌, ◌≡◌, refl, false, true, Option, Bool, List, [], ◌∷◌, ◌++◌,
  length, take, drop, leb, ◌==◌, arith, if◌then◌else◌, none, some, length-drop, append_assoc,
  append-nil,
}
use clove.Prelude.Run.{returned, Run}
use clove.Udp.Datagram.Sending.{
  WriteTo, Sent, fragment_count, build_fragment, send_loop, send_to, after_write, calculation_error,
}
use clove.Udp.Datagram.Sending.Chunks.{
  rounds, rounds-suc, rounds-zero, chunks, datagrams, fragment_bytes, build_fragment-bytes,
}

abbrev Returns : Run Sent → Type 0
Returns m = (r : Sent) × (m ≡ returned r)

if-Returns : (b : Bool) (m n : Run Sent) → Returns m → Returns n → Returns (if b then m else n)
if-Returns true m n hm hn = hm
if-Returns false m n hm hn = hn

after_write-Returns :
    (sent : List (List ℕ)) (build : List ℕ) (o : Option ℕ) (more : Run Sent)
    → Returns more
    → Returns (after_write sent build o more)
after_write-Returns sent build none more h = (_, refl)
after_write-Returns sent build (some n) more h = if-Returns (n == length build) more _ h (_, refl)

-- The loop of `sendTo` ends: each round takes a byte or more.
send_loop-Returns :
    (size : ℕ) (write_to : WriteTo) (fuel idx count : ℕ) (bytes : List ℕ) (sent : List (List ℕ))
    → 0 < size
    → length bytes ≤ fuel
    → Returns (send_loop fuel size write_to idx count bytes sent)
unfolding send_loop
send_loop-Returns size write_to fuel idx count [] sent hs hf = (_, refl)
send_loop-Returns size write_to zero idx count (x ∷ bytes) sent hs hf = absurd (omega arith)
send_loop-Returns size write_to (suc fuel) idx count (x ∷ bytes) sent hs hf =
    let build : List ℕ = build_fragment idx count (take size (x ∷ bytes)) in
    let short = length-drop size (x ∷ bytes) in
    let more =
      send_loop-Returns size write_to fuel ((idx + 1) % 2 ^ 16) count (drop size (x ∷ bytes))
        (sent ++ (build ∷ [])) hs (omega arith) in
    if-Returns (leb count idx) _ _ (_, refl)
      (after_write-Returns sent build (write_to sent build) _ more)

fragment_count-mod : (size n : ℕ) → fragment_count size n ≡ rounds size n % 2 ^ 16
unfolding fragment_count rounds
fragment_count-mod size n = ground arith

module _ (size : ℕ) (hs : 0 < size) (write_to : WriteTo) where
  send_loop-overflow :
      (fuel k idx count : ℕ) (bytes : List ℕ) (sent : List (List ℕ))
      → ((before : List (List ℕ)) (d : List ℕ) → write_to before d ≡ some (length d))
      → length bytes ≤ fuel
      → k < rounds size (length bytes)
      → idx + k ≡ count
      → count < 2 ^ 16
      → send_loop fuel size write_to idx count bytes sent
        ≡ returned (sent ++ datagrams idx count (chunks k size bytes), some calculation_error)
  unfolding send_loop
  send_loop-overflow fuel k idx count [] sent hw hf hr hc hl =
      absurd (omega (arith, rounds-zero size hs))
  send_loop-overflow zero k idx count (x ∷ bytes) sent hw hf hr hc hl = absurd (omega arith)
  send_loop-overflow (suc fuel) zero idx count (x ∷ bytes) sent hw hf hr hc hl =
      let refused : leb count idx ≡ true = ground arith in rw (refused, append-nil) refl
  send_loop-overflow (suc fuel) (suc k) idx count (x ∷ bytes) sent hw hf hr hc hl =
      let step = rounds-suc size (length (x ∷ bytes)) hs (omega arith) in
      let size_left = length-drop size (x ∷ bytes) in
      let left : k < rounds size (length (drop size (x ∷ bytes))) = rw size_left (omega arith) in
      let build : List ℕ = fragment_bytes idx count (take size (x ∷ bytes)) in
      let more =
        send_loop-overflow fuel k (idx + 1) count (drop size (x ∷ bytes)) (sent ++ (build ∷ [])) hw
          (omega arith) left (omega arith) hl in
      let allowed : leb count idx ≡ false = ground arith in
      let next_idx : (idx + 1) % 2 ^ 16 ≡ idx + 1 = omega arith in
      let whole : (length build == length build) ≡ true = ground arith in
      rw (build_fragment-bytes, allowed, next_idx, more, hw sent build, whole)
        (rw append_assoc refl)

-- Data of 2^16 chunks or more, over a connection that writes whole datagrams: the count wraps, so
-- `sendTo` sends as many chunks as the number of chunks has beyond a multiple of 2^16 and then
-- returns its calculation error.
pub send_to-overflow :
    (size : ℕ) (write_to : WriteTo) (bytes : List ℕ)
    → 0 < size
    → ((before : List (List ℕ)) (d : List ℕ) → write_to before d ≡ some (length d))
    → 2 ^ 16 ≤ rounds size (length bytes)
    → let k = rounds size (length bytes) % 2 ^ 16 in
      send_to size write_to bytes
      ≡ returned (datagrams 0 k (chunks k size bytes), some calculation_error)
unfolding send_to
send_to-overflow size write_to bytes hs hw h =
    let some_size : (size == 0) ≡ false = ground arith in
    let k : ℕ = rounds size (length bytes) % 2 ^ 16 in
    let loop =
      send_loop-overflow size hs write_to (length bytes) k 0 k bytes [] hw (omega arith)
        (omega arith) (omega arith) (omega arith) in
    rw (some_size, fragment_count-mod size (length bytes)) loop

-- With a fragment size above 0, to an address that resolves and whatever the writes of the
-- connection do, failures and parts of a datagram included, `sendTo` returns.
pub send_to-returns :
    (size : ℕ) (write_to : WriteTo) (bytes : List ℕ)
    → 0 < size
    → (r : Sent) × (send_to size write_to bytes ≡ returned r)
unfolding send_to
send_to-returns size write_to bytes hs =
    let some_size : (size == 0) ≡ false = ground arith in
    rw some_size (send_loop-Returns size write_to (length bytes) 0 _ bytes [] hs (omega arith))
