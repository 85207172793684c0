-- ===== src/Tcp/Controller/Alive/Settled.antt =====
-- tcp/controller.go: when `tryAlive` exits a connection, over any history of the controller.
use native.Mathlib.Decide.{dec_lt}
use clove.Prelude.{
  ◌≤◌, ℕ, ◌≡◌, ◌<◌, ◌⊎◌, Bool, true, false, inl, inr, arith, refl, ltb, Bool-cases, if_intro,
}
use clove.Base.Bit.{test_mask}
use clove.Network.Format.{FormatManager}
use clove.Tcp.Controller.{
  Controller, flag_data_received, flag_readyed, exit, force_close, is_opened,
}
use clove.Tcp.Controller.Alive.{alive_check, timeout_received, timeout_determine_packet_format}
use clove.Tcp.Controller.Life.{Inv, IsWatched}
use clove.Tcp.Controller.Reading.{Life, Life-IsAlive}

-- Ready, with its connection shut, or with its flag not opened.
abbrev pub IsSettled : Controller → Type 0
IsSettled c = (test_mask c.flag flag_readyed ≡ true) ⊎ (c.is_open ≡ false) ⊎ (is_opened c ≡ false)

-- Why a round exits a controller of some age.
abbrev pub IsLate : ℕ → Controller → Type 0
IsLate age c =
    (test_mask c.flag flag_readyed ≡ false)
    × (timeout_received < age)
    × ((test_mask c.flag flag_data_received ≡ false) ⊎ (timeout_determine_packet_format < age))

abbrev IsChecked : ℕ → Controller → Controller → Type 0
IsChecked age c d =
    (timeout_determine_packet_format < age → IsSettled d)
    × ((d ≡ c) ⊎ ((d ≡ exit c) × IsLate age c))

-- A loop that has ended changes nothing.
ended : (age : ℕ) (c : Controller) → c.alive_checking ≡ false → (alive_check age c).1 ≡ c
unfolding alive_check
ended age c a =
    if_intro (λ (r : Bool × Controller). r.1 ≡ c) c.alive_checking _ _ (λ e. cc) (λ e. refl)

ended-IsChecked :
    (age : ℕ) (c : Controller)
    → IsSettled c
    → c.alive_checking ≡ false
    → IsChecked age c (alive_check age c).1
ended-IsChecked age c s a = rw (ended age c a) (λ late. s, inl refl)

-- An open controller that is not ready: without data it has five seconds, with data ten.
waiting-IsChecked :
    (age : ℕ) (c : Controller)
    → (c.flag ≡ 0x1) ⊎ (c.flag ≡ 0x9)
    → c.alive_checking ≡ true
    → IsChecked age c (alive_check age c).1
unfolding alive_check test_mask force_close
waiting-IsChecked age c (inl e) w = elim (Bool-cases (ltb timeout_received age)) [
  | inl b ↦
      rw (w, alive_check)
        (rw (e, b) (λ late. inr (inl refl), inr (refl, (refl, ground arith, inl refl))))
  | inr b ↦ rw (w, alive_check) (rw (e, b) (λ late. absurd (ground arith), inl refl))
]
waiting-IsChecked age c (inr e) w = elim (Bool-cases (ltb timeout_determine_packet_format age)) [
  | inl b ↦
      rw (w, alive_check)
        (rw (e, b) (λ late. inr (inl refl), inr (refl, (refl, ground arith, inr (ground arith)))))
  | inr b ↦ rw (w, alive_check) (rw (e, b) (λ late. absurd (ground arith), inl refl))
]

-- A controller whose flag is not opened: an exit of it changes nothing.
shut-IsChecked :
    (age : ℕ) (c : Controller)
    → (c.flag ≡ 0x2) ⊎ (c.flag ≡ 0x4)
    → IsChecked age c (alive_check age c).1
unfolding alive_check test_mask
shut-IsChecked age c (inl e) = elim (Bool-cases c.alive_checking) [
  | inl w ↦ elim (Bool-cases (ltb timeout_received age)) [
    | inl b ↦ rw (w, alive_check) (rw (e, b) (λ late. inr (inr refl), inl refl))
    | inr b ↦ rw (w, alive_check) (rw (e, b) (λ late. inr (inr refl), inl refl))
  ]
  | inr w ↦ ended-IsChecked age c (inr (inr (rw e refl))) w
]
shut-IsChecked age c (inr e) = elim (Bool-cases c.alive_checking) [
  | inl w ↦ elim (Bool-cases (ltb timeout_received age)) [
    | inl b ↦ rw (w, alive_check) (rw (e, b) (λ late. inr (inr refl), inl refl))
    | inr b ↦ rw (w, alive_check) (rw (e, b) (λ late. inr (inr refl), inl refl))
  ]
  | inr w ↦ ended-IsChecked age c (inr (inr (rw e refl))) w
]

watched-IsChecked :
    (age : ℕ) (c : Controller)
    → (c.flag ≡ 0x1) ⊎ (c.flag ≡ 0x9)
    → IsWatched c.alive_checking c.is_open
    → IsChecked age c (alive_check age c).1
watched-IsChecked age c e (inl w) = waiting-IsChecked age c e w
watched-IsChecked age c e (inr o) = elim (Bool-cases c.alive_checking) [
  | inl w ↦ waiting-IsChecked age c e w
  | inr w ↦ ended-IsChecked age c (inr (inl o)) w
]

check-IsChecked : (age : ℕ) (c : Controller) → Inv c → IsChecked age c (alive_check age c).1
unfolding test_mask
check-IsChecked age c (inl (inl (e, w), l)) = watched-IsChecked age c (inl e) w
check-IsChecked age c (inl (inr (inl (e, w)), l)) = watched-IsChecked age c (inr e) w
check-IsChecked age c (inl (inr (inr (inl (e, a))), l)) = ended-IsChecked age c (inl (rw e refl)) a
check-IsChecked age c (inl (inr (inr (inr (e, a))), l)) = ended-IsChecked age c (inl (rw e refl)) a
check-IsChecked age c (inr (inl (e, l))) = shut-IsChecked age c (inl e)
check-IsChecked age c (inr (inr (e, l))) = shut-IsChecked age c (inr e)

-- Over any history of a controller: behind a round of `tryAlive` it is not older than ten seconds,
-- or it is ready, its connection is shut, or its flag is not opened any more. A round leaves the
-- controller as it is, or else exits it, and then it is not ready, is older than five seconds, and
-- has had no data or is older than ten.
pub alive_check-IsSettled :
    (m : FormatManager) (age : ℕ) (c : Controller)
    → Life m c
    → ((age ≤ timeout_determine_packet_format) ⊎ IsSettled (alive_check age c).1)
      × (((alive_check age c).1 ≡ c) ⊎ (((alive_check age c).1 ≡ exit c) × IsLate age c))
alive_check-IsSettled m age c h =
    let (settled, why) = check-IsChecked age c (Life-IsAlive m c h) in
    (
      elim (dec_lt timeout_determine_packet_format age) [
        | yes late ↦ inr (settled late)
        | no early ↦ inl (omega arith)
      ],
      why,
    )
