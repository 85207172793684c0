-- ===== src/Tcp/Controller/Alive/Rounds.antt =====
-- tcp/controller.go: what a round of `tryAlive` does to a controller.
use clove.Prelude.{ℕ, Bool, true, false, ltb, not, if_intro, if◌then◌else◌}
use clove.Base.Bit.{test_mask}
use clove.Tcp.Controller.{Controller, flag_data_received, flag_readyed, exit}
use clove.Tcp.Controller.Alive.{
  alive_round, alive_check, timeout_received, timeout_determine_packet_format,
}
use clove.Tcp.Controller.Life.{Inv, exit-Inv}

abbrev KeepsInv : Bool × Controller → Type 0
KeepsInv r = Inv r.1

late-Inv : (b : Bool) (c : Controller) → Inv c → KeepsInv (if b then (false, exit c) else (true, c))
late-Inv b c h = if_intro KeepsInv b (false, exit c) (true, c) (λ e. exit-Inv c h) (λ e. h)

alive_round-Inv : (age : ℕ) (c : Controller) → Inv c → Inv (alive_round age c).1
unfolding alive_round
alive_round-Inv age c h =
    if_intro KeepsInv (not (test_mask c.flag flag_data_received)) _ _
      (λ e. late-Inv (ltb timeout_received age) c h)
      (λ e.
        if_intro KeepsInv (not (test_mask c.flag flag_readyed)) _ _
          (λ e'. late-Inv (ltb timeout_determine_packet_format age) c h) (λ e'. h))

pub alive_check-Inv : (age : ℕ) (c : Controller) → Inv c → Inv (alive_check age c).1
unfolding alive_check
alive_check-Inv age c h =
    if_intro KeepsInv c.alive_checking (alive_round age c) (false, c) (λ e. alive_round-Inv age c h)
      (λ e. h)
