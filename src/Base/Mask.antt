-- ===== src/Base/Mask.antt =====
-- base/bit.go: `MaskBytes` and `UnMaskBytes`, which shift a mask into the bits of the data.
pub mod RoundTrip
pub mod Joins
use clove.Prelude.{
  ℕ, suc, ◌-◌, ◌*◌, ◌/◌, ◌%◌, ◌^◌, ◌+◌, List, [], ◌∷◌, ◌&&◌, ltb, if◌then◌else◌, bit_or, bit_xor,
  length, Bool,
}
use clove.Prelude.Run.{Run, returned, panicked}

-- `v << k` and `v >> k` of a byte.
abbrev pub shl : ℕ → ℕ → ℕ
shl v k = v * 2 ^ k % 256

abbrev pub shr : ℕ → ℕ → ℕ
shr v k = v / 2 ^ k

-- `8 - bitSize` of a byte.
abbrev pub resv_size : ℕ → ℕ
resv_size bits = (264 - bits) % 256

-- The bytes in the middle, of `n` in all, are also masked by an exclusive or.
unfoldable pub is_inner : ℕ → ℕ → Bool
is_inner n i = ltb 1 i && ltb i (n - 1)

-- `v ^= mask` under a test.
unfoldable pub toggle : Bool → ℕ → ℕ → ℕ
toggle b mask v = if b then bit_xor v mask else v

unfoldable pub shift_in : ℕ → ℕ → ℕ → ℕ
shift_in bits remain v = if ltb 0 remain then bit_or (shr v bits) remain else shr v bits

-- The loop of `MaskBytes` from byte `i` on, and the last byte behind it.
unfoldable pub mask_loop : ℕ → ℕ → ℕ → ℕ → ℕ → List ℕ → List ℕ
unfolding is_inner toggle shift_in
mask_loop n bits mask i remain [] = bit_or remain (shr (shl mask bits) bits) ∷ []
mask_loop n bits mask i remain (v ∷ raw) =
    toggle (is_inner n i) mask (shift_in bits remain v)
    ∷ mask_loop n bits mask (suc i) (shl v (resv_size bits)) raw

unfoldable pub mask_bytes : List ℕ → ℕ → ℕ → List ℕ
unfolding mask_loop
mask_bytes raw mask bits =
    if ltb 7 bits
    then raw
    else mask_loop (length raw) bits mask 0 (shl (shr mask (resv_size bits)) (resv_size bits)) raw

abbrev pub last_byte : ℕ → List ℕ → ℕ
last_byte v [] = v
last_byte v (w ∷ raw) = last_byte w raw

unfoldable pub mask_of : List ℕ → ℕ → ℕ
mask_of [] bits = 0
mask_of (v ∷ raw) bits =
    bit_or (shl (shr v (resv_size bits)) (resv_size bits)) (shr (shl (last_byte v raw) bits) bits)

-- The loop of `UnMaskBytes` from byte `i` above 0 on: `half` is what byte `i - 1` has left in the
-- result. `n` is the number of bytes that are unmasked; the last of them only completes a byte.
unfoldable pub unmask_loop : ℕ → ℕ → ℕ → ℕ → ℕ → List ℕ → List ℕ
unfolding is_inner toggle
unmask_loop n bits mask i half [] = []
unmask_loop n bits mask i half (v ∷ raw) =
    let w = toggle (is_inner (n - 1) i) mask v in
    bit_or half (shr w (resv_size bits)) ∷ unmask_loop n bits mask (suc i) (shl w bits) raw

-- A slice of length -1 cannot be made for no bytes. The first byte is never in the middle.
unfoldable pub un_mask_bytes : List ℕ → ℕ → Run (ℕ × List ℕ)
unfolding mask_of unmask_loop
un_mask_bytes [] bits = panicked
un_mask_bytes (v ∷ raw) bits =
    let mask = mask_of (v ∷ raw) bits in
    returned (mask, unmask_loop (suc (length raw)) bits mask 1 (shl v bits) raw)
