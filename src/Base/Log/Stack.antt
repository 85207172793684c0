-- ===== src/Base/Log/Stack.antt =====
-- base/log.go: the stack trace of `LogPanic`.
use clove.Prelude.{
  ℕ, zero, suc, ◌+◌, ◌-◌, ◌*◌, ◌<◌, ◌≤◌, ◌≡◌, true, false, some, inl, inr, List, ◌++◌, ◌∙◌, length,
  ltb, ◌==◌, Bool-cases, take_all, arith, refl,
}
use clove.Base.Log.{stack_text, zeros}

stack_text_fits :
    (fuel size : ℕ) (trace : List ℕ)
    → length trace < size
    → stack_text (suc fuel) size trace ≡ some (trace ++ zeros (size - length trace))
unfolding stack_text
stack_text_fits fuel size trace h =
    let short : ltb (length trace) size ≡ true = ground arith in
    let apart : (length trace == size) ≡ false = ground arith in
    rw short (rw apart (rw (take_all size trace (omega arith)) refl))

stack_text_more :
    (fuel size : ℕ) (trace : List ℕ)
    → size ≤ length trace
    → stack_text (suc fuel) size trace ≡ stack_text fuel (size * 2) trace
unfolding stack_text
stack_text_more fuel size trace h =
    let long : ltb (length trace) size ≡ false = ground arith in
    let same : (size == size) ≡ true = ground arith in rw long (rw same refl)

stack_text_fuel :
    (fuel size : ℕ) (trace : List ℕ)
    → 0 < size
    → length trace < size + fuel
    → (k : ℕ) × (stack_text (suc fuel) size trace ≡ some (trace ++ zeros k))
stack_text_fuel zero size trace hs h =
    (size - length trace, stack_text_fits zero size trace (omega arith))
stack_text_fuel (suc fuel) size trace hs h = elim (Bool-cases (ltb (length trace) size)) [
  | inl e ↦ (size - length trace, stack_text_fits (suc fuel) size trace (ground arith))
  | inr e ↦
      let (k, r) = stack_text_fuel fuel (size * 2) trace (omega arith) (ground arith) in
      (k, stack_text_more (suc fuel) size trace (ground arith) ∙ r)
]

-- The loop that starts with 512 bytes ends, within one round more than the trace has bytes, and its
-- text is the whole trace; behind it stand the zeros of the buffer that the trace did not fill.
pub stack_text-whole :
    (trace : List ℕ)
    → (k : ℕ) × (stack_text (suc (length trace)) 512 trace ≡ some (trace ++ zeros k))
stack_text-whole trace = stack_text_fuel (length trace) 512 trace (omega arith) (omega arith)
