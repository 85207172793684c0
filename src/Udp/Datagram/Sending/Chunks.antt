-- ===== src/Udp/Datagram/Sending/Chunks.antt =====
-- udp/controller.go: the datagrams of `sendTo` are the chunks of the data, counted and in order.
use clove.Prelude.{
  ℕ, zero, suc, ◌+◌, ◌-◌, ◌/◌, ◌%◌, ◌^◌, ◌≤◌, ◌<◌, ◌≡◌, refl, List, [], ◌∷◌, ◌++◌, length, take,
  drop, ltb, leb, ◌==◌, if◌then◌else◌, arith, none, some, length-drop, take-append-drop,
  append_assoc, append-nil, inl, inr, Bool-cases, true, false,
}
use clove.Prelude.Bytes.{put_uint16}
use clove.Prelude.Run.{returned}
use mathlib.Core.List.{flatten}
use native.Mathlib.Nat.{div-eq-sub-div, mod-eq-sub-mod, div-eq_of_lt, mod-eq_of_lt}
use clove.Udp.Datagram.Sending.{
  WriteTo, fragment_count, build_fragment, send_loop, send_to, put_uint16,
}

-- The number of fragments of `n` bytes, which `fragment_count` keeps in 16 bits.
unfoldable pub rounds : ℕ → ℕ → ℕ
rounds size n = n / size + (if ltb 0 (n % size) then 1 else 0)

abbrev pub chunks : ℕ → ℕ → List ℕ → List (List ℕ)
chunks zero size bytes = []
chunks (suc k) size bytes = take size bytes ∷ chunks k size (drop size bytes)

-- The bytes of a fragment: the prefix, the index, the count and the length of the chunk, each with
-- its high byte first, the suffix, and the chunk.
abbrev pub fragment_bytes : ℕ → ℕ → List ℕ → List ℕ
fragment_bytes idx count chunk =
    let n : ℕ = length chunk % 2 ^ 16 in
    0x81
    ∷ idx / 2 ^ 8 % 2 ^ 8
    ∷ idx % 2 ^ 8
    ∷ count / 2 ^ 8 % 2 ^ 8
    ∷ count % 2 ^ 8
    ∷ n / 2 ^ 8 % 2 ^ 8
    ∷ n % 2 ^ 8
    ∷ 0x80
    ∷ chunk

abbrev pub datagrams : ℕ → ℕ → List (List ℕ) → List (List ℕ)
datagrams idx count [] = []
datagrams idx count (c ∷ cs) = fragment_bytes idx count c ∷ datagrams (idx + 1) count cs

pub build_fragment-bytes :
    (idx count : ℕ) (chunk : List ℕ)
    → build_fragment idx count chunk ≡ fragment_bytes idx count chunk
unfolding build_fragment put_uint16
build_fragment-bytes idx count chunk = refl

pub rounds-suc : (size n : ℕ) → 0 < size → 0 < n → rounds size n ≡ suc (rounds size (n - size))
unfolding rounds
rounds-suc size n hs hn = elim (Bool-cases (ltb n size)) [
  | inr e ↦
      let h : size ≤ n = ground arith in rw (div-eq-sub-div hs h, mod-eq-sub-mod h) (ground arith)
  | inl t ↦
      let h : n < size = ground arith in
      let e : n - size ≡ 0 = omega arith in
      rw (e, div-eq_of_lt h, mod-eq_of_lt h, div-eq_of_lt hs, mod-eq_of_lt hs) (ground arith)
]

pub rounds-zero : (size : ℕ) → 0 < size → rounds size 0 ≡ 0
unfolding rounds
rounds-zero size hs = rw (div-eq_of_lt hs, mod-eq_of_lt hs) refl

fragment_count-rounds :
    (size n : ℕ) → rounds size n < 2 ^ 16 → fragment_count size n ≡ rounds size n
unfolding fragment_count rounds
fragment_count-rounds size n h = ground arith

flatten-chunks :
    (k size : ℕ) (bytes : List ℕ)
    → 0 < size
    → rounds size (length bytes) ≡ k
    → flatten (chunks k size bytes) ≡ bytes
unfolding flatten
flatten-chunks zero size [] hs h = refl
flatten-chunks zero size (x ∷ bytes) hs h =
    absurd (omega (arith, rounds-suc size (length (x ∷ bytes)) hs (omega arith)))
flatten-chunks (suc k) size [] hs h = absurd (omega (arith, rounds-zero size hs))
flatten-chunks (suc k) size (x ∷ bytes) hs h =
    let step = rounds-suc size (length (x ∷ bytes)) hs (omega arith) in
    let left : rounds size (length (drop size (x ∷ bytes))) ≡ k =
      rw (length-drop size (x ∷ bytes)) (omega arith) in
    rw (flatten-chunks k size (drop size (x ∷ bytes)) hs left) (take-append-drop size (x ∷ bytes))

module _ (size : ℕ) (hs : 0 < size) (write_to : WriteTo) where
  send_loop-datagrams :
      (fuel k idx count : ℕ) (bytes : List ℕ) (sent : List (List ℕ))
      → ((before : List (List ℕ)) (d : List ℕ) → write_to before d ≡ some (length d))
      → length bytes ≤ fuel
      → rounds size (length bytes) ≡ k
      → idx + k ≡ count
      → count < 2 ^ 16
      → send_loop fuel size write_to idx count bytes sent
        ≡ returned (sent ++ datagrams idx count (chunks k size bytes), none)
  unfolding send_loop
  send_loop-datagrams fuel zero idx count [] sent hw hf hr hc hl = rw append-nil refl
  send_loop-datagrams fuel (suc k) idx count [] sent hw hf hr hc hl =
      absurd (omega (arith, rounds-zero size hs))
  send_loop-datagrams zero k idx count (x ∷ bytes) sent hw hf hr hc hl = absurd (omega arith)
  send_loop-datagrams (suc fuel) zero idx count (x ∷ bytes) sent hw hf hr hc hl =
      absurd (omega (arith, rounds-suc size (length (x ∷ bytes)) hs (omega arith)))
  send_loop-datagrams (suc fuel) (suc k) idx count (x ∷ bytes) sent hw hf hr hc hl =
      let step = rounds-suc size (length (x ∷ bytes)) hs (omega arith) in
      let size_left = length-drop size (x ∷ bytes) in
      let left : rounds size (length (drop size (x ∷ bytes))) ≡ k = rw size_left (omega arith) in
      let build : List ℕ = fragment_bytes idx count (take size (x ∷ bytes)) in
      let more =
        send_loop-datagrams fuel k (idx + 1) count (drop size (x ∷ bytes)) (sent ++ (build ∷ [])) hw
          (omega arith) left (omega arith) hl in
      let allowed : leb count idx ≡ false = ground arith in
      let next_idx : (idx + 1) % 2 ^ 16 ≡ idx + 1 = omega arith in
      let whole : (length build == length build) ≡ true = ground arith in
      rw (build_fragment-bytes, allowed, next_idx, more, hw sent build, whole)
        (rw append_assoc refl)

-- Over a connection that writes whole datagrams, data of fewer than 2^16 chunks, of a size above 0,
-- goes out without an error as one datagram per chunk: the byte 0x81, the number of the chunk from 0
-- on, the number of chunks, the length of the chunk, each in two bytes with the high one first, the
-- byte 0x80, and the chunk. The chunks joined are the data.
pub send_to-datagrams :
    (size : ℕ) (write_to : WriteTo) (bytes : List ℕ)
    → 0 < size
    → ((before : List (List ℕ)) (d : List ℕ) → write_to before d ≡ some (length d))
    → rounds size (length bytes) < 2 ^ 16
    → let k = rounds size (length bytes) in
      (send_to size write_to bytes ≡ returned (datagrams 0 k (chunks k size bytes), none))
      × (flatten (chunks k size bytes) ≡ bytes)
unfolding send_to
send_to-datagrams size write_to bytes hs hw h =
    let k : ℕ = rounds size (length bytes) in
    let some_size : (size == 0) ≡ false = ground arith in
    let loop =
      send_loop-datagrams size hs write_to (length bytes) k 0 k bytes [] hw (omega arith) refl
        (omega arith) h in
    (
      rw (some_size, fragment_count-rounds size (length bytes) h) loop,
      flatten-chunks k size bytes hs refl,
    )
