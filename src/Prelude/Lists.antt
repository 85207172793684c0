-- ===== src/Prelude/Lists.antt =====
-- Lists measured and indexed by native numbers, under the library's names.
use Prim.Native.Nat.{ℕ, zero, suc, ◌+◌, ◌-◌, ◌≤◌}
use mathlib.Core.Path.{ap, ◌≡◌, refl}
use mathlib.Core.List.{List, [], ◌∷◌, ◌++◌}
use mathlib.Core.Bool.{Bool}
use clove.Prelude.Logic.{if◌then◌else◌}
use mathlib.Core.Option.{Option, none, some}
use native.Mathlib.Omega.{arith}

module _ {ℓ} {A : Type ℓ} where
  abbrev pub length : List A → ℕ
  length [] = 0
  length (x ∷ xs) = suc (length xs)

  abbrev pub get_elem? : List A → ℕ → Option A
  get_elem? [] i = none
  get_elem? (x ∷ xs) zero = some x
  get_elem? (x ∷ xs) (suc i) = get_elem? xs i

  abbrev pub take : ℕ → List A → List A
  take zero xs = []
  take (suc n) [] = []
  take (suc n) (x ∷ xs) = x ∷ take n xs

  abbrev pub drop : ℕ → List A → List A
  drop zero xs = xs
  drop (suc n) [] = []
  drop (suc n) (x ∷ xs) = drop n xs

  abbrev pub All {κ} : (A → Type κ) → List A → Type κ
  All P [] = Unit {κ}
  All P (x ∷ xs) = P x × All P xs

  pub length-append : (xs ys : List A) → length (xs ++ ys) ≡ length xs + length ys
  length-append [] ys = omega arith
  length-append (x ∷ xs) ys = omega (arith, length-append xs ys)

  pub length-drop : (n : ℕ) (xs : List A) → length (drop n xs) ≡ length xs - n
  length-drop zero xs = omega arith
  length-drop (suc n) [] = omega arith
  length-drop (suc n) (x ∷ xs) = omega (arith, length-drop n xs)

  pub take_all : (n : ℕ) (xs : List A) → length xs ≤ n → take n xs ≡ xs
  take_all zero [] h = refl
  take_all zero (x ∷ xs) h = absurd (omega arith)
  take_all (suc n) [] h = refl
  take_all (suc n) (x ∷ xs) h = ap (◌∷◌ x) (take_all n xs (omega arith))

  pub length-take-le : (n : ℕ) (xs : List A) → length (take n xs) ≤ n
  length-take-le zero xs = omega arith
  length-take-le (suc n) [] = omega arith
  length-take-le (suc n) (x ∷ xs) = omega (arith, length-take-le n xs)

  pub length-take_le : (n : ℕ) (xs : List A) → n ≤ length xs → length (take n xs) ≡ n
  length-take_le zero xs h = omega arith
  length-take_le (suc n) [] h = absurd (omega arith)
  length-take_le (suc n) (x ∷ xs) h = omega (arith, length-take_le n xs (omega arith))

  pub take-append-drop : (n : ℕ) (xs : List A) → take n xs ++ drop n xs ≡ xs
  take-append-drop zero xs = refl
  take-append-drop (suc n) [] = refl
  take-append-drop (suc n) (x ∷ xs) = rw (take-append-drop n xs)

  pub take-append_self : (xs ys : List A) → take (length xs) (xs ++ ys) ≡ xs
  take-append_self [] ys = refl
  take-append_self (x ∷ xs) ys = rw (take-append_self xs ys)

  pub drop-append_self : (xs ys : List A) → drop (length xs) (xs ++ ys) ≡ ys
  drop-append_self [] ys = refl
  drop-append_self (x ∷ xs) ys = drop-append_self xs ys

  pub All-append {κ} : (P : A → Type κ) (xs ys : List A) → All P xs → All P ys → All P (xs ++ ys)
  All-append P [] ys hx hy = hy
  All-append P (x ∷ xs) ys (h, hx) hy = (h, All-append P xs ys hx hy)

  pub All-split {κ} :
      (P : A → Type κ) (xs : List A) (y : A) (ys : List A)
      → All P (xs ++ (y ∷ ys))
      → P y × All P (xs ++ ys)
  All-split P [] y ys h = h
  All-split P (x ∷ xs) y ys (h, hs) = let (hy, hr) = All-split P xs y ys hs in (hy, (h, hr))

-- The first list is the second one with some elements left out.
pub data Subsequence {ℓ} {A : Type ℓ} : List A → List A → Type ℓ where
  empty : Subsequence [] []
  keep : (x : A) (xs ys : List A) → Subsequence xs ys → Subsequence (x ∷ xs) (x ∷ ys)
  skip : (y : A) (xs ys : List A) → Subsequence xs ys → Subsequence xs (y ∷ ys)

pub keep_last {ℓ} :
    {A : Type ℓ} {xs ys : List A} (z : A)
    → Subsequence xs ys
    → Subsequence (xs ++ (z ∷ [])) (ys ++ (z ∷ []))
keep_last z empty = keep z [] [] empty
keep_last z (keep x xs ys s) = keep x (xs ++ (z ∷ [])) (ys ++ (z ∷ [])) (keep_last z s)
keep_last z (skip y xs ys s) = skip y (xs ++ (z ∷ [])) (ys ++ (z ∷ [])) (keep_last z s)

pub skip_last {ℓ} :
    {A : Type ℓ} {xs ys : List A} (z : A) → Subsequence xs ys → Subsequence xs (ys ++ (z ∷ []))
skip_last z empty = skip z [] [] empty
skip_last z (keep x xs ys s) = keep x xs (ys ++ (z ∷ [])) (skip_last z s)
skip_last z (skip y xs ys s) = skip y xs (ys ++ (z ∷ [])) (skip_last z s)

-- How many elements pass a test.
abbrev pub count_of {ℓ} : {A : Type ℓ} → (A → Bool) → List A → ℕ
count_of t [] = 0
count_of t (x ∷ xs) = (if t x then 1 else 0) + count_of t xs

pub count_of-append {ℓ} :
    {A : Type ℓ} (t : A → Bool) (xs ys : List A)
    → count_of t (xs ++ ys) ≡ count_of t xs + count_of t ys
count_of-append t [] ys = omega arith
count_of-append t (x ∷ xs) ys = omega (arith, count_of-append t xs ys)

pub count_of-middle {ℓ} :
    {A : Type ℓ} (t : A → Bool) (before : List A) (x : A) (after : List A)
    → count_of t (before ++ (x ∷ after)) ≡ count_of t (x ∷ (before ++ after))
count_of-middle t [] x after = refl
count_of-middle t (b ∷ before) x after = omega (arith, count_of-middle t before x after)
