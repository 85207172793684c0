-- ===== src/Tcp/Controller/Sending.antt =====
-- tcp/controller.go: `SendBytes` of many goroutines with the sends of `process`, in any order.
pub mod Drained
use clove.Prelude.{
  ◌⊎◌, false, ℕ, zero, suc, ◌+◌, ◌≡◌, ◌<◌, ◌≤◌, true, false, some, List, [], ◌∷◌, ◌++◌, length,
  take, drop, arith, refl, ltb, ◌==◌,
}
use clove.Prelude.Run.{Run, returned}
use clove.Base.Buffer.{next}
use clove.Base.Bit.{test_mask}
use clove.Tcp.Controller.{Controller, Conn, send_bytes, process_send, write_all, flag_opened}

abbrev pub sum : List ℕ → ℕ
sum [] = 0
sum (n ∷ ns) = n + sum ns

-- The runs of a controller `start` in which calls of `SendBytes` have written the bytes of the
-- index, in the order of their writes, and the loop of `process` has taken lengths over `chSend`.
-- The channel hands them over in any order: `waiting` loses any one of them. A length of 0 exits.
pub data Sends (conn : Conn) (start : Controller) : Controller → List ℕ → Type 0 where
  created : Sends conn start start []
  written :
      (c : Controller) (w bytes : List ℕ)
      → Sends conn start c w
      → test_mask c.flag flag_opened ≡ true
      → Sends conn start (send_bytes bytes c).1 (w ++ bytes)
  sent :
      (c c' : Controller) (w before after : List ℕ) (n : ℕ)
      → Sends conn start c w
      → c.waiting ≡ before ++ (n ∷ after)
      → process_send conn n (record c { waiting = before ++ after }) ≡ returned c'
      → Sends conn start c' w

record IsInOrder (c : Controller) (w : List ℕ) : Type 0 where
  in_order : c.wire ++ c.buf_send ≡ w
  all_waiting : sum c.waiting ≡ length c.buf_send

write_all-whole :
    (conn : Conn) (n : ℕ) (wire bytes : List ℕ)
    → ((wire bytes : List ℕ) → conn wire bytes ≡ some (length bytes))
    → write_all (suc n) conn wire bytes ≡ returned (true, wire ++ bytes)
unfolding write_all
write_all-whole conn n wire bytes hw =
    let whole : ltb (length bytes) (length bytes) ≡ false = ground arith in
    rw (hw wire bytes, write_all) (rw whole refl)

pub process_send-whole :
    (conn : Conn) (c : Controller) (n : ℕ)
    → ((wire bytes : List ℕ) → conn wire bytes ≡ some (length bytes))
    → 0 < n
    → n ≤ length c.buf_send
    → process_send conn n c
      ≡ returned (record c { buf_send = drop n c.buf_send; wire = c.wire ++ take n c.buf_send })
unfolding process_send next
process_send-whole conn c zero hw hn hl = absurd (omega arith)
process_send-whole conn c (suc n) hw hn hl =
    let fits : ltb (length c.buf_send) (suc n) ≡ false = ground arith in
    let same : (suc n == suc n) ≡ true = ground arith in
    let some_sent : (suc n == 0) ≡ false = ground arith in
    rw (some_sent, fits, same)
      (rw (write_all-whole conn n c.wire (take (suc n) c.buf_send) hw) refl)

abbrev IsKept : Controller → List ℕ → Type 0
IsKept c w = (c.is_open ≡ false) ⊎ IsInOrder c w
