-- ===== src/Udp/Datagram/Sharing/Race.antt =====
-- udp/controller.go: a round of `sendTo` by itself, and with another goroutine in between.
use clove.Prelude.{
  ℕ, zero, suc, ◌≡◌, ◌≤◌, List, [], ◌∷◌, ◌++◌, length, take, drop, ltb, if◌then◌else◌, refl, arith,
  ap, ◌∙◌, Bool-cases, inl, inr, length-append, length-drop, length-take_le,
}
use clove.Udp.Datagram.Sending.{build_fragment}
use clove.Udp.Datagram.Sharing.{Call, read_chunk, write_chunk}

take-take_append :
    {A : Type 0} (n m : ℕ) (xs ys : List A)
    → n ≤ m
    → m ≤ length xs
    → take n (take m xs ++ ys) ≡ take n xs
take-take_append zero m xs ys h l = refl
take-take_append (suc n) zero xs ys h l = absurd (omega arith)
take-take_append (suc n) (suc m) [] ys h l = absurd (omega arith)
take-take_append (suc n) (suc m) (x ∷ xs) ys h l =
    ap (λ zs. x ∷ zs) (take-take_append n m xs ys (omega arith) (omega arith))

take_all : {A : Type 0} (n : ℕ) (xs : List A) → length xs ≤ n → take (length xs) xs ≡ take n xs
take_all zero [] h = refl
take_all (suc n) [] h = refl
take_all zero (x ∷ xs) h = absurd (omega arith)
take_all (suc n) (x ∷ xs) h = ap (λ zs. x ∷ zs) (take_all n xs (omega arith))

abbrev chunk_size : List ℕ → List ℕ → ℕ
chunk_size left shared = if ltb (length left) (length shared) then length left else length shared

chunk_size_bounds :
    (left shared : List ℕ)
    → (chunk_size left shared ≤ length left) × (chunk_size left shared ≤ length shared)
chunk_size_bounds left shared = (ground arith, ground arith)

take-chunk_size :
    (left shared : List ℕ) → take (chunk_size left shared) left ≡ take (length shared) left
take-chunk_size left shared = elim (Bool-cases (ltb (length left) (length shared))) [
  | inl e ↦ rw e (take_all (length shared) left (ground arith))
  | inr e ↦ rw e refl
]

length-read_chunk : (c : Call) (shared : List ℕ) → length (read_chunk c shared).1 ≡ length shared
unfolding read_chunk
length-read_chunk c shared =
    let n = chunk_size c.data_left shared in
    let (fits_left, fits) = chunk_size_bounds c.data_left shared in
    omega (
      arith,
      length-append (take n c.data_left) (drop n shared),
      length-take_le n c.data_left fits_left,
      length-drop n shared,
      fits,
    )

chunk_size_mono :
    (l m s t : List ℕ) → length l ≤ length m → length t ≡ length s → chunk_size l s ≤ chunk_size m t
chunk_size_mono l m s t h e = ground arith

-- A round of `sendTo` that nothing comes between writes the next bytes of its own data, as many as
-- the shared slice holds. When between its read and its write another call, with at least as much
-- data left, reads into the slice, the datagram of the first has its own counters and the bytes of
-- the other.
pub write_chunk-read_chunk :
    (a b : Call) (shared : List ℕ)
    → length a.data_left ≤ length b.data_left
    → let first = read_chunk a shared in
      ((write_chunk first.0 first.1).written
        ≡ a.written ++ (build_fragment a.idx a.count (take (length shared) a.data_left) ∷ []))
      × ((write_chunk first.0 (read_chunk b first.1).1).written
          ≡ a.written ++ (build_fragment a.idx a.count (take first.0.chunk b.data_left) ∷ []))
unfolding write_chunk read_chunk
write_chunk-read_chunk a b shared h =
    let n = chunk_size a.data_left shared in
    let s = (read_chunk a shared).1 in
    let (left_a, _) = chunk_size_bounds a.data_left shared in
    let (left_b, _) = chunk_size_bounds b.data_left s in
    let own = take-take_append n n a.data_left (drop n shared) (omega arith) left_a in
    let other =
      take-take_append n (chunk_size b.data_left s) b.data_left (drop (chunk_size b.data_left s) s)
        (chunk_size_mono a.data_left b.data_left shared s h (length-read_chunk a shared)) left_b in
    (
      ap (λ (t : List ℕ). a.written ++ (build_fragment a.idx a.count t ∷ []))
          (own ∙ take-chunk_size a.data_left shared),
      ap (λ (t : List ℕ). a.written ++ (build_fragment a.idx a.count t ∷ [])) other,
    )
