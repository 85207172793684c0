-- ===== src/Prelude/Bits.antt =====
-- Facts about `bit_and` and `bit_or` at variables, and checks of every value below a bound.
use Prim.Native.Nat.{
  ℕ, zero, suc, ◌+◌, ◌-◌, ◌*◌, ◌/◌, ◌^◌, ◌≤◌, ◌<◌, min, max, digits, bit_and, bit_or,
  bit_and-bitwise, bit_or-bitwise,
}
use mathlib.Core.Path.{◌≡◌, refl, ap}
use mathlib.Core.Bool.{Bool, true, ◌&&◌}
use native.Mathlib.Nat.{pow-suc, one-le-pow, le_refl}
use native.Mathlib.Omega.{arith}

unfoldable pub holds_below : ℕ → (ℕ → Bool) → Bool
holds_below zero test = true
holds_below (suc n) test = holds_below n test && test n

pub holds_below_at : (n v : ℕ) (test : ℕ → Bool) → v < n → holds_below n test ≡ true → test v ≡ true
unfolding holds_below
holds_below_at zero v test lt h = absurd (omega arith)
holds_below_at (suc n) v test lt h = ground (arith, holds_below_at n v test)

twice_field : (k q : ℕ) → q * 2 ^ suc k ≡ 2 * (q * 2 ^ k)
twice_field k q = omega (arith, ap (λ (t : ℕ). q * t) (pow-suc 2 k))

-- The recursion on digits, on any fuel for its first number.
or_digits :
    (n k hi lo : ℕ) → lo ≤ n → lo < 2 ^ k → digits (λ b. b) max n lo (hi * 2 ^ k) ≡ hi * 2 ^ k + lo
or_digits zero k hi zero h l = omega arith
or_digits zero k hi (suc lo) h l = absurd (omega arith)
or_digits (suc n) k hi zero h l = omega arith
or_digits (suc n) zero hi (suc lo) h l = absurd (omega arith)
or_digits (suc n) (suc k) hi (suc lo) h l =
    rw
      (
        twice_field k hi,
        half,
        or_digits n k hi (suc lo / 2) (omega arith) (omega (arith, pow-suc 2 k)),
      )
      (omega arith)
  where
    half : 2 * (hi * 2 ^ k) / 2 ≡ hi * 2 ^ k
    half = omega arith

-- `lo | (hi << k)` is a sum when `lo` fits `k` bits.
pub bit_or_sum : (k hi lo : ℕ) → lo < 2 ^ k → bit_or lo (hi * 2 ^ k) ≡ hi * 2 ^ k + lo
bit_or_sum k hi lo h = simp bit_or-bitwise (or_digits lo k hi lo (le_refl lo) h)

and_zero : (n a : ℕ) → digits (λ b. 0) min n a 0 ≡ 0
and_zero zero a = refl
and_zero (suc n) zero = refl
and_zero (suc n) (suc a) = omega (arith, and_zero n (suc a / 2))

and_digits :
    (n k q r a : ℕ)
    → a ≡ q * 2 ^ k + r
    → a ≤ n
    → r < 2 ^ k
    → digits (λ b. 0) min n a (2 ^ k - 1) ≡ r
and_digits n zero q r a e h l = omega (arith, and_zero n a)
and_digits zero (suc k) q r zero e h l = omega arith
and_digits zero (suc k) q r (suc a) e h l = absurd (omega arith)
and_digits (suc n) (suc k) q r zero e h l = omega arith
and_digits (suc n) (suc k) q r (suc a) e h l =
    rw
      (
        half,
        and_digits n k q (r / 2) (suc a / 2) (omega (arith, twice_field k q)) (omega arith)
            (omega (arith, pow-suc 2 k)),
      )
      (omega (arith, twice_field k q, pow-suc 2 k, one-le-pow k 2))
  where
    half : (2 ^ suc k - 1) / 2 ≡ 2 ^ k - 1
    half = omega (arith, pow-suc 2 k, one-le-pow k 2)

-- `a & (2 ^ k - 1)` drops the digits from `k` on.
pub bit_and_low : (k q r : ℕ) → r < 2 ^ k → bit_and (q * 2 ^ k + r) (2 ^ k - 1) ≡ r
bit_and_low k q r h = simp bit_and-bitwise (and_digits _ k q r (q * 2 ^ k + r) refl (le_refl _) h)
