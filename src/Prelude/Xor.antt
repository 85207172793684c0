-- ===== src/Prelude/Xor.antt =====
-- Facts about `bit_xor` and `bit_or` at variables.
use Prim.Native.Nat.{
  ℕ, zero, suc, ◌/◌, ◌%◌, ◌≤◌, bit_xor, ◌*◌, bit_xor-bitwise, ◌+◌, digits, differ, ◌^◌, ◌-◌, ◌<◌,
  max, bit_or, bit_or-bitwise,
}
use mathlib.Core.Path.{◌≡◌, refl, sym, ◌∙◌}
use mathlib.Core.Logic.{◌⊎◌, inl, inr}
use native.Mathlib.Nat.{le_refl, pow-suc, one-le-pow}
use native.Mathlib.Omega.{arith}

abbrev xor_fuel : ℕ → ℕ → ℕ → ℕ
xor_fuel n a b = digits (λ b. b) differ n a b

digit-cases : (a : ℕ) → (a % 2 ≡ 0) ⊎ (a % 2 ≡ 1)
digit-cases a = ground arith

differ_zero : (a b : ℕ) → differ (a % 2) (b % 2) ≡ 0 → a % 2 ≡ b % 2
differ_zero a b h = elim (digit-cases a) [
  | inl e ↦ elim (digit-cases b) [
    | inl f ↦ e ∙ sym f
    | inr f ↦ absurd (omega (arith, rw (e, f) at h))
  ]
  | inr e ↦ elim (digit-cases b) [
    | inl f ↦ absurd (omega (arith, rw (e, f) at h))
    | inr f ↦ e ∙ sym f
  ]
]

differ_again : (a b : ℕ) → differ (differ (a % 2) (b % 2)) (b % 2) ≡ a % 2
differ_again a b = elim (digit-cases a) [
  | inl e ↦ elim (digit-cases b) [ inl f ↦ rw (e, f) refl | inr f ↦ rw (e, f) refl ]
  | inr e ↦ elim (digit-cases b) [ inl f ↦ rw (e, f) refl | inr f ↦ rw (e, f) refl ]
]

differ_digit : (a b : ℕ) → differ (a % 2) (b % 2) ≤ 1
differ_digit a b = elim (digit-cases a) [
  | inl e ↦ elim (digit-cases b) [
    | inl f ↦ rw (e, f) (omega arith)
    | inr f ↦ rw (e, f) (omega arith)
  ]
  | inr e ↦ elim (digit-cases b) [
    | inl f ↦ rw (e, f) (omega arith)
    | inr f ↦ rw (e, f) (omega arith)
  ]
]

xor_fuel-zero : (n a b : ℕ) → a ≤ n → xor_fuel n a b ≡ 0 → a ≡ b
xor_fuel-zero zero zero b le h = sym h
xor_fuel-zero zero (suc a) b le h = absurd (omega arith)
xor_fuel-zero (suc n) zero b le h = sym h
xor_fuel-zero (suc n) (suc a) b le h =
    let high = xor_fuel-zero n (suc a / 2) (b / 2) (omega arith) (omega arith) in
    let low = differ_zero (suc a) b (omega arith) in omega (arith, high, low)

xor_fuel-same : (n b : ℕ) → b ≤ n → xor_fuel n b b ≡ 0
xor_fuel-same zero zero le = refl
xor_fuel-same zero (suc b) le = absurd (omega arith)
xor_fuel-same (suc n) zero le = refl
xor_fuel-same (suc n) (suc b) le =
    let high = xor_fuel-same n (suc b / 2) (omega arith) in
    elim (digit-cases (suc b)) [ inl e ↦ rw (high, e) refl | inr e ↦ rw (high, e) refl ]

xor_fuel-nil : (k b : ℕ) → xor_fuel k 0 b ≡ b
xor_fuel-nil zero b = refl
xor_fuel-nil (suc k) b = refl

xor_fuel-digit :
    (k c b : ℕ) → xor_fuel (suc k) c b ≡ xor_fuel k (c / 2) (b / 2) * 2 + differ (c % 2) (b % 2)
xor_fuel-digit k zero b = omega (arith, xor_fuel-nil k (b / 2))
xor_fuel-digit k (suc c) b = refl

halves : (x d : ℕ) → d ≤ 1 → ((x * 2 + d) / 2 ≡ x) × ((x * 2 + d) % 2 ≡ d)
halves x d h = (omega arith, omega arith)

xor_fuel-again : (n k a b : ℕ) → a ≤ n → xor_fuel n a b ≤ k → xor_fuel k (xor_fuel n a b) b ≡ a
xor_fuel-again zero k zero b le h = xor_fuel-same k b h
xor_fuel-again zero k (suc a) b le h = absurd (omega arith)
xor_fuel-again (suc n) k zero b le h = xor_fuel-same k b h
xor_fuel-again (suc n) zero (suc a) b le h =
    sym (xor_fuel-zero (suc n) (suc a) b le (omega (arith, h)))
xor_fuel-again (suc n) (suc k) (suc a) b le h =
    let (high, low) =
      halves (xor_fuel n (suc a / 2) (b / 2)) (differ (suc a % 2) (b % 2))
        (differ_digit (suc a) b) in
    xor_fuel-digit k (xor_fuel (suc n) (suc a) b) b
    ∙ rw
        (
          high,
          low,
          xor_fuel-again n k (suc a / 2) (b / 2) (omega arith) (omega arith),
          differ_again (suc a) b,
        )
        (omega arith)

-- A second exclusive or with the same mask takes the first one back.
pub bit_xor_again : (a b : ℕ) → bit_xor (bit_xor a b) b ≡ a
bit_xor_again a b =
    simp bit_xor-bitwise (xor_fuel-again a (xor_fuel a a b) a b (le_refl a) (le_refl _))

abbrev or_fuel : ℕ → ℕ → ℕ → ℕ
or_fuel n a b = digits (λ b. b) max n a b

or_fuel-nil : (n a : ℕ) → a ≤ n → or_fuel n a 0 ≡ a
or_fuel-nil zero a le = omega arith
or_fuel-nil (suc n) zero le = refl
or_fuel-nil (suc n) (suc a) le = omega (arith, or_fuel-nil n (suc a / 2) (omega arith))

or_fuel_comm : (n m a b : ℕ) → a ≤ n → b ≤ m → or_fuel n a b ≡ or_fuel m b a
or_fuel_comm zero m zero b la lb = sym (or_fuel-nil m b lb)
or_fuel_comm zero m (suc a) b la lb = absurd (omega arith)
or_fuel_comm (suc n) m zero b la lb = sym (or_fuel-nil m b lb)
or_fuel_comm (suc n) zero (suc a) zero la lb = or_fuel-nil (suc n) (suc a) la
or_fuel_comm (suc n) zero (suc a) (suc b) la lb = absurd (omega arith)
or_fuel_comm (suc n) (suc m) (suc a) zero la lb = or_fuel-nil (suc n) (suc a) la
or_fuel_comm (suc n) (suc m) (suc a) (suc b) la lb =
    omega (arith, or_fuel_comm n m (suc a / 2) (suc b / 2) (omega arith) (omega arith))

pub bit_or_comm : (a b : ℕ) → bit_or a b ≡ bit_or b a
bit_or_comm a b = simp bit_or-bitwise (or_fuel_comm a b a b (le_refl a) (le_refl b))

differ_one : (a : ℕ) → differ (a % 2) 1 ≡ 1 - a % 2
differ_one a = elim (digit-cases a) [ inl e ↦ rw e refl | inr e ↦ rw e refl ]

xor_fuel-ones : (n k a : ℕ) → a ≤ n → a < 2 ^ k → xor_fuel n a (2 ^ k - 1) ≡ 2 ^ k - 1 - a
xor_fuel-ones zero k zero le lt = omega arith
xor_fuel-ones zero k (suc a) le lt = absurd (omega arith)
xor_fuel-ones (suc n) k zero le lt = omega arith
xor_fuel-ones (suc n) zero (suc a) le lt = absurd (omega arith)
xor_fuel-ones (suc n) (suc k) (suc a) le lt =
    let twice = pow-suc 2 k in
    let some_bits = one-le-pow k 2 in
    let half : (2 ^ suc k - 1) / 2 ≡ 2 ^ k - 1 = omega arith in
    let odd : (2 ^ suc k - 1) % 2 ≡ 1 = omega arith in
    rw (half, odd, xor_fuel-ones n k (suc a / 2) (omega arith) (omega arith), differ_one (suc a))
      (omega arith)

-- Against all ones, `^` is the complement.
pub bit_xor_ones : (k a : ℕ) → a < 2 ^ k → bit_xor a (2 ^ k - 1) ≡ 2 ^ k - 1 - a
bit_xor_ones k a h = simp bit_xor-bitwise (xor_fuel-ones a k a (le_refl a) h)

xor_fuel-none : (n a : ℕ) → a ≤ n → xor_fuel n a 0 ≡ a
xor_fuel-none zero zero le = refl
xor_fuel-none zero (suc a) le = absurd (omega arith)
xor_fuel-none (suc n) zero le = refl
xor_fuel-none (suc n) (suc a) le = elim (digit-cases (suc a)) [
  | inl e ↦ rw (xor_fuel-none n (suc a / 2) (omega arith), e) (omega arith)
  | inr e ↦ rw (xor_fuel-none n (suc a / 2) (omega arith), e) (omega arith)
]

pub bit_xor_none : (a : ℕ) → bit_xor a 0 ≡ a
bit_xor_none a = simp bit_xor-bitwise (xor_fuel-none a a (le_refl a))
