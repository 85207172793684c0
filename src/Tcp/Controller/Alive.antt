-- ===== src/Tcp/Controller/Alive.antt =====
-- tcp/controller.go: `tryAlive`, which exits a connection that sends nothing or sends nothing that
-- a format knows.
pub mod Rounds
pub mod Settled
use clove.Prelude.{ℕ, ◌*◌, ◌^◌, Bool, true, false, not, Option, List, [], ◌∷◌, ltb, if◌then◌else◌}
use clove.Base.Bit.{test_mask}
use clove.Tcp.Controller.{Controller, flag_data_received, flag_readyed, exit}

-- In nanoseconds, as time.Duration counts them.
abbrev pub timeout_received : ℕ
timeout_received = 5 * 10 ^ 9

abbrev pub timeout_determine_packet_format : ℕ
timeout_determine_packet_format = 10 * 10 ^ 9

-- The body of the loop when the controller is that old: whether the loop sleeps and goes on.
unfoldable pub alive_round : ℕ → Controller → Bool × Controller
unfolding test_mask exit
alive_round age c =
    if not (test_mask c.flag flag_data_received)
    then (if ltb timeout_received age then (false, exit c) else (true, c))
    else if not (test_mask c.flag flag_readyed)
    then (if ltb timeout_determine_packet_format age then (false, exit c) else (true, c))
    else (false, c)

-- With the test of the loop before it.
unfoldable pub alive_check : ℕ → Controller → Bool × Controller
unfolding alive_round
alive_check age c = if c.alive_checking then alive_round age c else (false, c)

-- The loop: the age at each round, and what the other goroutines do to the controller while it
-- sleeps. The list is the rounds that there is time for.
unfoldable pub try_alive : List (ℕ × (Controller → Controller)) → Controller → Controller
unfolding alive_check
try_alive [] c = c
try_alive ((age, others) ∷ rounds) c =
    let (more, c') = alive_check age c in
    let later = try_alive rounds (others c') in if more then later else c'
