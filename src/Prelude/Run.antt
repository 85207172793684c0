-- ===== src/Prelude/Run.antt =====
-- The outcome of a Go call: a return, a panic, or (in the model only) fuel that ran out.
pub data Run {ℓ} (A : Type ℓ) : Type ℓ where
  returned : A → Run A
  panicked out_of_fuel : Run A

infixl 5 ◌>>=◌
abbrev pub ◌>>=◌ {ℓ κ} : {A : Type ℓ} {B : Type κ} → Run A → (A → Run B) → Run B
returned a >>= f = f a
panicked >>= f = panicked
out_of_fuel >>= f = out_of_fuel

-- `defer func() { base.LogPanic(recover()) }()`: a panic becomes a return of the zero values.
abbrev pub recover {ℓ} : {A : Type ℓ} → A → Run A → Run A
recover z (returned a) = returned a
recover z panicked = returned z
recover z out_of_fuel = out_of_fuel
