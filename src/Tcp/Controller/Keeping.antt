-- ===== src/Tcp/Controller/Keeping.antt =====
-- tcp/controller.go: what holds of a controller through a send of `process`.
use clove.Prelude.{ℕ, ◌≡◌, Bool, true, false, List, inl, inr, Bool-cases, ◌==◌}
use clove.Prelude.Run.{Run, returned, panicked, out_of_fuel}
use clove.Base.Buffer.{Buffer, next}
use mathlib.Core.Path.{subst}
use clove.Prelude.{ap}
use clove.Tcp.Controller.{Controller, Conn, exit, process_send, write_all, after_write_all}

from_returned : Controller → Run Controller → Controller
from_returned c (returned d) = d
from_returned c _ = c

pub returned_injective : {c d : Controller} → Run.returned c ≡ returned d → c ≡ d
unfolding from_returned
returned_injective {c} e = ap (from_returned c) e

-- A predicate that the send buffer, the wire and an exit leave alone.
module _ (P : Controller → Type 0)
    (on_buffer : (c : Controller) (b : Buffer) → P c → P (record c { buf_send = b }))
    (on_wire : (c : Controller) (wire : List ℕ) → P c → P (record c { wire = wire }))
    (on_exit : (c : Controller) → P c → P (exit c)) where
  after_write_all-keeps :
      (c d : Controller) (r : Run (Bool × List ℕ)) → P c → after_write_all c r ≡ returned d → P d
  unfolding after_write_all
  after_write_all-keeps c d (returned (true, wire)) h e =
      subst P (returned_injective e) (on_wire c wire h)
  after_write_all-keeps c d (returned (false, wire)) h e =
      subst P (returned_injective e) (on_exit (record c { wire = wire }) (on_wire c wire h))
  after_write_all-keeps c d panicked h e = cc
  after_write_all-keeps c d out_of_fuel h e = cc

  pub process_send-keeps :
      (conn : Conn) (n : ℕ) (c d : Controller) → P c → process_send conn n c ≡ returned d → P d
  unfolding process_send
  process_send-keeps conn n c d h e =
      let c' : Controller = record c { buf_send = (next n c.buf_send).1 } in
      let h' = on_buffer c (next n c.buf_send).1 h in
      elim (Bool-cases (n == 0)) [
        | inl z ↦ subst P (returned_injective (rw z at e)) (on_exit c h)
        | inr z ↦ elim (Bool-cases ((next n c.buf_send).0.1 == n)) [
          | inl s ↦
              after_write_all-keeps c' d (write_all n conn c.wire (next n c.buf_send).0.0) h'
                (rw (z, s) at e)
          | inr s ↦ subst P (returned_injective (rw (z, s) at e)) (on_exit c' h')
        ]
      ]
