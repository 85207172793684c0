-- ===== src/Tcp/Tests.antt =====
-- The theorems of the stream endpoint at concrete runs.
mod Packets
use clove.Prelude.{
  true, false, none, ℕ, ◌^◌, ◌-◌, ◌≡◌, ◌≢◌, ◌%◌, refl, some, [], ◌∷◌, Bool, length, arith, ◌≤◌, ◌⊎◌,
  ◌*◌,
}
use clove.Tcp.Connecting.{Maker, Net, connect, resolve_failed, dial_failed}
use clove.Tcp.Connecting.Kept.{IsKept, connect-IsKept}
use clove.Prelude.Int.{pos}
use clove.Network.Format.{new_format_manager}
use clove.Tcp.Controller.{Controller, Conn, create_controller, send_bytes, read_round, exit}
use clove.Tcp.Controller.Sending.{created}
use clove.Tcp.Controller.Alive.{alive_check, try_alive, timeout_determine_packet_format}
use clove.Tcp.Controller.Alive.Settled.{IsSettled, IsLate, alive_check-IsSettled}
use clove.Tcp.Controller.Life.{IsAlive}
use clove.Tcp.Controller.Reading.{Life, Life-IsAlive}
use clove.Tcp.Controller.Reading
use clove.Tcp.Pool.{
  StandardPool, create_pool_with_limit, add_connection, added, get_controller, controller_leave,
  check_limit,
}
use clove.Tcp.Pool.Limit
use clove.Tcp.Pool.Limit.{Serves, check_limit-Serves}
use clove.Tcp.Pool.Registry.{get_controller-add_leave}
use clove.Tcp.Pool.{controller_enter}
use clove.Prelude.{Option}

abbrev whole_write : Conn
whole_write wire bytes = some (length bytes)

abbrev fresh : Controller
fresh = create_controller new_format_manager

abbrev once : Controller
once = (send_bytes (1 ∷ 2 ∷ []) fresh).1

abbrev after_read : Controller
after_read = (read_round (some (5 ∷ [])) fresh).1

after_read-Life : Life new_format_manager after_read
after_read-Life = Reading.read (some (5 ∷ [])) fresh Reading.created

Life-IsAlive_example :
    IsAlive after_read.flag after_read.alive_checking after_read.is_open after_read.leaves
Life-IsAlive_example = Life-IsAlive new_format_manager after_read after_read-Life

alive_check-IsSettled_example :
    ((11 * 10 ^ 9 ≤ timeout_determine_packet_format)
      ⊎ IsSettled (alive_check (11 * 10 ^ 9) after_read).1)
    × (((alive_check (11 * 10 ^ 9) after_read).1 ≡ after_read)
        ⊎ (((alive_check (11 * 10 ^ 9) after_read).1 ≡ exit after_read)
            × IsLate (11 * 10 ^ 9) after_read))
alive_check-IsSettled_example =
    alive_check-IsSettled new_format_manager (11 * 10 ^ 9) after_read after_read-Life

-- A connection that sends nothing is exited in the first round behind five seconds.
silent_exited :
    (try_alive ((0, λ c. c) ∷ (5 * 10 ^ 9, λ c. c) ∷ (6 * 10 ^ 9, λ c. c) ∷ []) fresh).is_open
    ≡ false
unfolding try_alive create_controller
silent_exited = refl

abbrev small_pool : StandardPool ℕ
small_pool = create_pool_with_limit (pos 1)

abbrev accept : Option (ℕ × ℕ → Bool)
accept = some (λ x. true)

abbrev one_in : StandardPool ℕ
one_in = (add_connection (some (7, 70)) accept small_pool).1

-- Two connections in a pool whose limit is one.
abbrev two_in : StandardPool ℕ
two_in = (add_connection (some (8, 80)) accept one_in).1

two_in-Serves : Serves small_pool two_in 0
two_in-Serves =
    Limit.connected (some (8, 80)) accept one_in 0
      (Limit.connected (some (7, 70)) accept small_pool 0 Limit.created)

check_limit-Serves_example : (two_in.curr ≡ (2 ^ 32 - 0) % 2 ^ 32) × (check_limit two_in ≡ true)
check_limit-Serves_example =
    check_limit-Serves 1 0 two_in (omega arith) (omega arith) (omega arith) two_in-Serves

seven_is_added : (add_connection (some (7, 70)) accept small_pool).0 ≡ added
unfolding add_connection create_pool_with_limit controller_enter
seven_is_added = refl

get_controller-add_leave_example :
    (get_controller 7 one_in ≡ some 70)
    × (get_controller 7 (controller_leave 7 one_in) ≡ none)
    × ((k : ℕ)
        → k ≢ 7
        → (get_controller k one_in ≡ get_controller k small_pool)
          × (get_controller k (controller_leave 7 one_in) ≡ get_controller k small_pool))
get_controller-add_leave_example = get_controller-add_leave 7 70 accept small_pool seven_is_added

abbrev every_connection : Maker ℕ
every_connection = record { create = λ conn. some (conn, 7); enter = none }

abbrev empty_net : Net ℕ
empty_net = record { pool = small_pool; opened = [] }

connect-IsKept_example :
    (connect every_connection false (some 3) empty_net ≡ (some resolve_failed, empty_net))
    × (connect every_connection true none empty_net ≡ (some dial_failed, empty_net))
    × IsKept every_connection 3 empty_net (connect every_connection true (some 3) empty_net)
connect-IsKept_example = connect-IsKept every_connection 3 (some 3) empty_net
