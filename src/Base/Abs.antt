-- ===== src/Base/Abs.antt =====
-- base/bit.go: `AbsForInt64` and `AbsForInt32`, on the 64-bit patterns of their arguments.
use clove.Prelude.{
  ℕ, ◌+◌, ◌-◌, ◌/◌, ◌%◌, ◌^◌, ◌≡◌, ◌<◌, ◌≤◌, ◌⊎◌, inl, inr, arith, ◌∙◌, bit_xor, ltb, if◌then◌else◌,
}
use clove.Prelude.Xor.{bit_xor_ones, bit_xor_none}
use clove.Prelude.Int.{ℤ, pos, negsuc, to_signed}

-- `n >> k` of a signed word keeps its sign.
unfoldable shift_right : ℕ → ℕ → ℕ
shift_right n k = if ltb n (2 ^ 63) then n / 2 ^ k else 2 ^ 64 - 1 - (2 ^ 64 - 1 - n) / 2 ^ k

unfoldable pub abs_for_int64 : ℕ → ℕ
unfolding shift_right
abs_for_int64 n = (bit_xor n (shift_right n 63) + 2 ^ 64 - shift_right n 63) % 2 ^ 64

-- Of an int, which has 64 bits.
unfoldable abs_for_int32 : ℕ → ℕ
unfolding shift_right
abs_for_int32 n = (bit_xor n (shift_right n 32) + 2 ^ 64 - shift_right n 32) % 2 ^ 64

abs_by :
    (n s : ℕ)
    → ((s ≡ 0) × (n < 2 ^ 63)) ⊎ ((s ≡ 2 ^ 64 - 1) × (2 ^ 63 ≤ n) × (n < 2 ^ 64))
    → (bit_xor n s + 2 ^ 64 - s) % 2 ^ 64 ≡ (if ltb n (2 ^ 63) then n else 2 ^ 64 - n)
abs_by n s (inl (e, h)) = rw e (rw (bit_xor_none n) (ground arith))
abs_by n s (inr (e, l, h)) = rw e (rw (bit_xor_ones 64 n h) (ground arith))

abbrev magnitude : ℤ → ℕ
magnitude (pos n) = n
magnitude (negsuc n) = n + 1

abs_by-magnitude :
    (n s : ℕ)
    → ((s ≡ 0) × (n < 2 ^ 63)) ⊎ ((s ≡ 2 ^ 64 - 1) × (2 ^ 63 ≤ n) × (n < 2 ^ 64))
    → (bit_xor n s + 2 ^ 64 - s) % 2 ^ 64 ≡ magnitude (to_signed (2 ^ 63) (2 ^ 64) n)
abs_by-magnitude n s h = abs_by n s h ∙ ground arith

-- `AbsForInt64` of every int64 is its magnitude, as a 64-bit pattern: that of -2^63 stands for
-- -2^63 again.
abs_for_int64-magnitude :
    (n : ℕ) → n < 2 ^ 64 → abs_for_int64 n ≡ magnitude (to_signed (2 ^ 63) (2 ^ 64) n)
unfolding abs_for_int64 shift_right
abs_for_int64-magnitude n h = abs_by-magnitude n (shift_right n 63) (ground arith)

-- `AbsForInt32` of an int between -2^32 and 2^32 - 1 is its magnitude.
abs_for_int32-magnitude :
    (n : ℕ)
    → (n < 2 ^ 32) ⊎ ((2 ^ 64 - 2 ^ 32 ≤ n) × (n < 2 ^ 64))
    → abs_for_int32 n ≡ magnitude (to_signed (2 ^ 63) (2 ^ 64) n)
unfolding abs_for_int32 shift_right
abs_for_int32-magnitude n h = abs_by-magnitude n (shift_right n 32) (ground arith)
