-- ===== src/Tcp/Controller/Sending/Drained.antt =====
-- tcp/controller.go: the bytes of `SendBytes` that are still waiting for the loop of `process`.
use clove.Prelude.{ℕ, ◌≡◌, List, [], ◌∷◌, ◌++◌, length, arith, refl}
use clove.Prelude.Run.{returned}
use clove.Tcp.Controller.{Controller, Conn, process_send}

pub length_zero {ℓ} : {A : Type ℓ} (xs : List A) → length xs ≡ 0 → xs ≡ []
length_zero [] h = refl
length_zero (x ∷ xs) h = absurd (omega arith)

-- What the loop of `process` makes of a controller with the lengths that wait, of which it takes
-- any one in each step, while nothing else happens to it.
pub data Drains (conn : Conn) (c : Controller) : Controller → Type 0 where
  drained_none : Drains conn c c
  drained_one :
      (d e : Controller) (before after : List ℕ) (n : ℕ)
      → Drains conn c d
      → d.waiting ≡ before ++ (n ∷ after)
      → process_send conn n (record d { waiting = before ++ after }) ≡ returned e
      → Drains conn c e
