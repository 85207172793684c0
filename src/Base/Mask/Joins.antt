-- ===== src/Base/Mask/Joins.antt =====
-- base/bit.go: a byte that is cut in two parts and joined again, as the masks do it.
use clove.Prelude.{
  ℕ, zero, suc, ◌+◌, ◌*◌, ◌/◌, ◌%◌, ◌^◌, ◌≤◌, ◌<◌, ◌≡◌, ap, ◌∙◌, bit_or, arith, Bool-cases, inl,
  inr, ltb,
}
use clove.Prelude.Bits.{bit_or_sum}
use clove.Base.Mask.{shift_in, shl, shr, resv_size}
use native.Mathlib.Nat.{one-le-pow}

-- The two parts of a byte that is cut below its top `bits` bits.
abbrev pub join : ℕ → ℕ → ℕ → ℕ
join bits q x = q * 2 ^ resv_size bits + x

abbrev Arithmetic : ℕ → Type 0
Arithmetic bits =
    (p v x : ℕ)
    → v < 256
    → x < 2 ^ resv_size bits
    → (shr v bits < 2 ^ resv_size bits)
      × (shl p (resv_size bits) ≡ join bits (p % 2 ^ bits) 0)
      × (shl (join bits p x) bits ≡ x * 2 ^ bits)
      × (shr (join bits p x) (resv_size bits) ≡ p)
      × (shr (shl p bits) bits ≡ p % 2 ^ resv_size bits)
      × (v % 2 ^ bits < 2 ^ bits)
      × (v / 2 ^ bits * 2 ^ bits + v % 2 ^ bits ≡ v)
      × (shr (shl (join bits p x) bits) bits ≡ x)
      × (v % 2 ^ resv_size bits < 2 ^ resv_size bits)
      × (join bits (shr v (resv_size bits) % 2 ^ bits % 2 ^ bits) (v % 2 ^ resv_size bits) ≡ v)

by_size :
    (P : ℕ → Type 0)
    → P 0 × P 1 × P 2 × P 3 × P 4 × P 5 × P 6 × P 7
    → (bits : ℕ) → bits ≤ 7
    → P bits
by_size P ps zero h = ps.0
by_size P ps (suc zero) h = ps.1
by_size P ps (suc (suc zero)) h = ps.2
by_size P ps (suc (suc (suc zero))) h = ps.3
by_size P ps (suc (suc (suc (suc zero)))) h = ps.4
by_size P ps (suc (suc (suc (suc (suc zero))))) h = ps.5
by_size P ps (suc (suc (suc (suc (suc (suc zero)))))) h = ps.6
by_size P ps (suc (suc (suc (suc (suc (suc (suc zero))))))) h = ps.7
by_size P ps (suc (suc (suc (suc (suc (suc (suc (suc bits)))))))) h = absurd (omega arith)

pub arithmetic : (bits : ℕ) → bits ≤ 7 → Arithmetic bits
arithmetic = by_size Arithmetic (
  (λ p v x hv hx. ground arith),
  (λ p v x hv hx. ground arith),
  (λ p v x hv hx. ground arith),
  (λ p v x hv hx. ground arith),
  (λ p v x hv hx. ground arith),
  (λ p v x hv hx. ground arith),
  (λ p v x hv hx. ground arith),
  (λ p v x hv hx. ground arith),
)

pub positive : (bits : ℕ) → 0 < 2 ^ resv_size bits
positive bits = one-le-pow (resv_size bits) 2 (omega arith)

pub byte_fits : (bits v : ℕ) → bits ≤ 7 → v < 256 → shr v bits < 2 ^ resv_size bits
byte_fits bits v hb hv = (arithmetic bits hb 0 v 0 hv (positive bits)).0

pub remain_join : (bits p : ℕ) → bits ≤ 7 → shl p (resv_size bits) ≡ join bits (p % 2 ^ bits) 0
remain_join bits p hb = (arithmetic bits hb p 0 0 (omega arith) (positive bits)).1

pub mask_fits :
    (bits mask : ℕ) → bits ≤ 7 → mask < 256 → mask % 2 ^ resv_size bits < 2 ^ resv_size bits
mask_fits bits mask hb hm = (arithmetic bits hb 0 mask 0 hm (positive bits)).8

pub join-parts :
    (bits q x : ℕ)
    → bits ≤ 7
    → x < 2 ^ resv_size bits
    → (shl (join bits q x) bits ≡ x * 2 ^ bits)
      × (shr (join bits q x) (resv_size bits) ≡ q)
      × (shr (shl (join bits q x) bits) bits ≡ x)
join-parts bits q x hb hx = let a = arithmetic bits hb q 0 x (omega arith) hx in (a.2, a.3, a.7)

pub sum-or : (bits q x : ℕ) → x < 2 ^ resv_size bits → bit_or x (join bits q 0) ≡ join bits q x
sum-or bits q x h = ap (bit_or x) (omega arith) ∙ bit_or_sum (resv_size bits) q x h

pub shift_in-sum :
    (bits p v : ℕ)
    → bits ≤ 7
    → v < 256
    → shift_in bits (shl p (resv_size bits)) v ≡ join bits (p % 2 ^ bits) (shr v bits)
unfolding shift_in
shift_in-sum bits p v hb hv =
    let shifted = remain_join bits p hb in
    elim (Bool-cases (ltb 0 (shl p (resv_size bits)))) [
      | inl e ↦ rw e (
          ap (bit_or (shr v bits)) shifted
          ∙ sum-or bits (p % 2 ^ bits) (shr v bits) (byte_fits bits v hb hv))
      | inr e ↦
          let none_left : shl p (resv_size bits) ≡ 0 = ground arith in rw e (omega (arith, shifted))
    ]
