-- ===== src/Base/Mask/RoundTrip.antt =====
-- base/bit.go: bytes that are masked and unmasked again.
use clove.Prelude.{
  ℕ, suc, ◌+◌, ◌-◌, ◌*◌, ◌%◌, ◌^◌, ◌≤◌, ◌<◌, ◌≡◌, refl, ap, ◌∙◌, bit_or, length, List, [], ◌∷◌,
  arith, true, false, Bool, ltb, All,
}
use clove.Prelude.Run.{returned}
use clove.Prelude.Bits.{bit_or_sum}
use clove.Prelude.Xor.{bit_xor_again, bit_or_comm}
use clove.Base.Mask.{
  toggle, shift_in, unmask_loop, mask_loop, mask_bytes, un_mask_bytes, is_inner, last_byte, mask_of,
  shl, shr, resv_size,
}
use clove.Base.Mask.Joins.{
  join, arithmetic, positive, byte_fits, remain_join, mask_fits, join-parts, sum-or, shift_in-sum,
}

toggle_again : (b : Bool) (mask v : ℕ) → toggle b mask (toggle b mask v) ≡ v
unfolding toggle
toggle_again true mask v = bit_xor_again v mask
toggle_again false mask v = refl

-- The middle is the same on both sides.
toggle_inner :
    (n i mask v : ℕ) → toggle (is_inner (suc n - 1) i) mask (toggle (is_inner n i) mask v) ≡ v
toggle_inner n i mask v =
    ap (λ (k : ℕ). toggle (is_inner k i) mask (toggle (is_inner n i) mask v)) (omega arith)
    ∙ toggle_again (is_inner n i) mask v

-- The last byte.
end-sum :
    (bits p mask : ℕ)
    → bits ≤ 7
    → mask < 256
    → bit_or (shl p (resv_size bits)) (shr (shl mask bits) bits)
      ≡ join bits (p % 2 ^ bits) (mask % 2 ^ resv_size bits)
end-sum bits p mask hb hm =
    let low = (arithmetic bits hb mask mask 0 hm (positive bits)).4 in
    bit_or_comm (shl p (resv_size bits)) (shr (shl mask bits) bits)
    ∙ ap (λ (x : ℕ). bit_or x (shl p (resv_size bits))) low
    ∙ ap (bit_or (mask % 2 ^ resv_size bits)) (remain_join bits p hb)
    ∙ sum-or bits (p % 2 ^ bits) (mask % 2 ^ resv_size bits) (mask_fits bits mask hb hm)

length-mask_loop :
    (n bits mask i remain : ℕ) (raw : List ℕ)
    → length (mask_loop n bits mask i remain raw) ≡ suc (length raw)
unfolding mask_loop
length-mask_loop n bits mask i remain [] = refl
length-mask_loop n bits mask i remain (v ∷ raw) =
    ap suc (length-mask_loop n bits mask (suc i) (shl v (resv_size bits)) raw)

-- A byte whose two halves are put together again.
halves-or : (bits p : ℕ) → bits ≤ 7 → p < 256 → bit_or (shr p bits * 2 ^ bits) (p % 2 ^ bits) ≡ p
halves-or bits p hb hp =
    let a = arithmetic bits hb p p 0 hp (positive bits) in
    bit_or_comm (shr p bits * 2 ^ bits) (p % 2 ^ bits)
    ∙ bit_or_sum bits (shr p bits) (p % 2 ^ bits) a.5
    ∙ a.6

abbrev AreBytes : List ℕ → Type 0
AreBytes = All (λ (v : ℕ). v < 256)

-- The last byte is not in the middle.
outer-toggle : (n i mask v : ℕ) → i ≡ n → toggle (is_inner n i) mask v ≡ v
unfolding is_inner toggle
outer-toggle n i mask v h = let outer : is_inner n i ≡ false = ground arith in rw outer refl

-- From byte `i` on, behind a byte `p`.
unmask_loop-mask_loop :
    (n bits mask i p : ℕ) (raw : List ℕ)
    → bits ≤ 7
    → mask < 256
    → p < 256
    → AreBytes raw
    → length raw + suc i ≡ n
    → unmask_loop
        (suc n)
        bits
        mask
        (suc i)
        (shr p bits * 2 ^ bits)
        (mask_loop n bits mask (suc i) (shl p (resv_size bits)) raw)
      ≡ p ∷ raw
unfolding mask_loop unmask_loop
unmask_loop-mask_loop n bits mask i p [] hb hm hp hs len =
    let (_, low, _) =
      join-parts bits (p % 2 ^ bits) (mask % 2 ^ resv_size bits) hb (mask_fits bits mask hb hm) in
    rw
      (
        outer-toggle (suc n - 1) (suc i) mask _ (omega arith),
        end-sum bits p mask hb hm,
        low,
        halves-or bits p hb hp,
      )
      refl
unmask_loop-mask_loop n bits mask i p (v ∷ raw) hb hm hp (hv, hs) len =
    let (high, low, _) = join-parts bits (p % 2 ^ bits) (shr v bits) hb (byte_fits bits v hb hv) in
    rw
      (
        toggle_inner n (suc i) mask (shift_in bits (shl p (resv_size bits)) v),
        shift_in-sum bits p v hb hv,
        low,
        high,
        halves-or bits p hb hp,
        unmask_loop-mask_loop n bits mask (suc i) v raw hb hm hv hs (omega arith),
      )
      refl

-- The low bits of the last byte are those of the mask.
last_byte-mask_loop :
    (n bits mask i p d : ℕ) (raw : List ℕ)
    → bits ≤ 7
    → mask < 256
    → shr (shl (last_byte d (mask_loop n bits mask i (shl p (resv_size bits)) raw)) bits) bits
      ≡ mask % 2 ^ resv_size bits
unfolding mask_loop
last_byte-mask_loop n bits mask i p d [] hb hm =
    let (_, _, kept) =
      join-parts bits (p % 2 ^ bits) (mask % 2 ^ resv_size bits) hb (mask_fits bits mask hb hm) in
    rw (end-sum bits p mask hb hm) kept
last_byte-mask_loop n bits mask i p d (v ∷ raw) hb hm =
    last_byte-mask_loop n bits mask (suc i) v _ raw hb hm

-- The first byte has the high bits of the mask and the last byte the low ones.
mask-whole :
    (bits mask x f l : ℕ)
    → bits ≤ 7
    → mask < 256
    → x < 2 ^ resv_size bits
    → f ≡ join bits (shr mask (resv_size bits) % 2 ^ bits) x
    → shr (shl l bits) bits ≡ mask % 2 ^ resv_size bits
    → bit_or (shl (shr f (resv_size bits)) (resv_size bits)) (shr (shl l bits) bits) ≡ mask
mask-whole bits mask x f l hb hm hx ef el =
    let q = shr mask (resv_size bits) % 2 ^ bits in
    let (_, high, _) = join-parts bits q x hb hx in
    rw (ef, high, el)
      (bit_or_comm (shl q (resv_size bits)) (mask % 2 ^ resv_size bits)
        ∙ ap (bit_or (mask % 2 ^ resv_size bits)) (remain_join bits q hb)
        ∙ sum-or bits (q % 2 ^ bits) (mask % 2 ^ resv_size bits) (mask_fits bits mask hb hm)
        ∙ (arithmetic bits hb 0 mask 0 hm (positive bits)).9)

-- Bytes of any number, none included, that are masked with a byte of up to seven bits shifted in
-- are unmasked to themselves and to that mask.
pub un_mask_bytes-mask_bytes :
    (raw : List ℕ) (mask bits : ℕ)
    → bits ≤ 7
    → mask < 256
    → AreBytes raw
    → un_mask_bytes (mask_bytes raw mask bits) bits ≡ returned (mask, raw)
unfolding mask_bytes un_mask_bytes mask_loop unmask_loop mask_of
un_mask_bytes-mask_bytes [] mask bits hb hm hs =
    let small : ltb 7 bits ≡ false = ground arith in
    let e = end-sum bits (shr mask (resv_size bits)) mask hb hm in
    let (_, _, kept) =
      join-parts bits (shr mask (resv_size bits) % 2 ^ bits) (mask % 2 ^ resv_size bits) hb
        (mask_fits bits mask hb hm) in
    let whole =
      mask-whole bits mask (mask % 2 ^ resv_size bits) _ _ hb hm (mask_fits bits mask hb hm) e
        (rw e kept) in
    rw small (ap (λ (t : ℕ). returned (t, [])) whole)
un_mask_bytes-mask_bytes (v ∷ raw) mask bits hb hm (hv, hs) =
    let n = length (v ∷ raw) in
    let small : ltb 7 bits ≡ false = ground arith in
    let fits = byte_fits bits v hb hv in
    let e = shift_in-sum bits (shr mask (resv_size bits)) v hb hv in
    let (high, _, _) =
      join-parts bits (shr mask (resv_size bits) % 2 ^ bits) (shr v bits) hb fits in
    let whole = mask-whole bits mask (shr v bits) _ _ hb hm fits e (
      last_byte-mask_loop n bits mask 1 v
        (shift_in bits (shl (shr mask (resv_size bits)) (resv_size bits)) v) raw hb hm) in
    rw
      (
        small,
        whole,
        length-mask_loop n bits mask 1 (shl v (resv_size bits)) raw,
        e,
        high,
        unmask_loop-mask_loop n bits mask 0 v raw hb hm hv hs (omega arith),
      )
      refl
