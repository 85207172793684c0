-- ===== src/Base/Bit.antt =====
-- base/bit.go: flag tests, ASCII peeking and the bit-shift mask.
use clove.Prelude.{ℕ, ◌/◌, ◌^◌, Bool, bit_and, ◌==◌, if◌then◌else◌, List, [], ◌∷◌}

-- `(n & mask) == mask`
unfoldable pub test_mask : ℕ → ℕ → Bool
test_mask n mask = bit_and n mask == mask

unfoldable pub read_ascii_code : List ℕ → ℕ
read_ascii_code [] = 0
read_ascii_code (b ∷ raw) = if b / 2 ^ 7 == 0 then b else 0
