-- ===== src/Tcp/Controller/Life.antt =====
-- tcp/controller.go: the flags of a controller over its life.
use clove.Prelude.{ℕ, ◌≡◌, Bool, true, false, ◌⊎◌, inl, inr, arith, refl}
use clove.Base.Bit.{test_mask}
use clove.Tcp.Controller.{
  Controller, set_data_received_flag, set_readyed_flag, force_close, exit, exit_and_notify, close,
}

-- Waiting for a format, or with its connection shut.
abbrev pub IsWatched : Bool → Bool → Type 0
IsWatched alive open_conn = (alive ≡ true) ⊎ (open_conn ≡ false)

abbrev IsOpenFlag : ℕ → Bool → Bool → Type 0
IsOpenFlag f alive open_conn =
    ((f ≡ 0x1) × IsWatched alive open_conn)
    ⊎ ((f ≡ 0x9) × IsWatched alive open_conn)
    ⊎ ((f ≡ 0x11) × (alive ≡ false))
    ⊎ ((f ≡ 0x19) × (alive ≡ false))

-- Open with its data and ready bits: not ready, and then it waits for a format or its connection is
-- shut, or ready, and then it does not wait; closing; or closed, with the manager told once.
abbrev pub IsAlive : ℕ → Bool → Bool → ℕ → Type 0
IsAlive f alive open_conn leaves =
    (IsOpenFlag f alive open_conn × (leaves ≡ 0))
    ⊎ ((f ≡ 0x2) × (leaves ≡ 0))
    ⊎ ((f ≡ 0x4) × (leaves ≡ 1))

abbrev pub Inv : Controller → Type 0
Inv c = IsAlive c.flag c.alive_checking c.is_open c.leaves

pub set_data-Inv : (c : Controller) → Inv c → Inv (set_data_received_flag c)
unfolding set_data_received_flag test_mask
set_data-Inv c (inl (inl (e, w), l)) = rw e (inl (inr (inl (refl, w)), l))
set_data-Inv c (inl (inr (inl (e, w)), l)) = rw e (inl (inr (inl (refl, w)), l))
set_data-Inv c (inl (inr (inr (inl (e, a))), l)) = rw e (inl (inr (inr (inr (refl, a))), l))
set_data-Inv c (inl (inr (inr (inr (e, a))), l)) = rw e (inl (inr (inr (inr (refl, a))), l))
set_data-Inv c (inr (inl (e, l))) = rw e (inr (inl (refl, l)))
set_data-Inv c (inr (inr (e, l))) = rw e (inr (inr (refl, l)))

pub set_readyed-Inv : (c : Controller) → Inv c → Inv (set_readyed_flag c)
unfolding set_readyed_flag test_mask
set_readyed-Inv c (inl (inl (e, w), l)) = rw e (inl (inr (inr (inl (refl, refl))), l))
set_readyed-Inv c (inl (inr (inl (e, w)), l)) = rw e (inl (inr (inr (inr (refl, refl))), l))
set_readyed-Inv c (inl (inr (inr (inl (e, a))), l)) = rw e (inl (inr (inr (inl (refl, a))), l))
set_readyed-Inv c (inl (inr (inr (inr (e, a))), l)) = rw e (inl (inr (inr (inr (refl, a))), l))
set_readyed-Inv c (inr (inl (e, l))) = rw e (inr (inl (refl, l)))
set_readyed-Inv c (inr (inr (e, l))) = rw e (inr (inr (refl, l)))

pub exit-Inv : (c : Controller) → Inv c → Inv (exit c)
unfolding exit force_close test_mask
exit-Inv c (inl (inl (e, w), l)) = rw e (inl (inl (refl, inr refl), l))
exit-Inv c (inl (inr (inl (e, w)), l)) = rw e (inl (inr (inl (refl, inr refl)), l))
exit-Inv c (inl (inr (inr (inl (e, a))), l)) = rw e (inl (inr (inr (inl (refl, refl))), l))
exit-Inv c (inl (inr (inr (inr (e, a))), l)) = rw e (inl (inr (inr (inr (refl, refl))), l))
exit-Inv c (inr (inl (e, l))) = rw e (inr (inl (refl, l)))
exit-Inv c (inr (inr (e, l))) = rw e (inr (inr (refl, l)))

pub exit_and_notify-Inv : (c : Controller) → Inv c → Inv (exit_and_notify c)
unfolding exit_and_notify force_close test_mask
exit_and_notify-Inv c (inl (inl (e, w), l)) = rw e (inl (inl (refl, inr refl), l))
exit_and_notify-Inv c (inl (inr (inl (e, w)), l)) = rw e (inl (inr (inl (refl, inr refl)), l))
exit_and_notify-Inv c (inl (inr (inr (inl (e, a))), l)) =
    rw e (inl (inr (inr (inl (refl, refl))), l))
exit_and_notify-Inv c (inl (inr (inr (inr (e, a))), l)) =
    rw e (inl (inr (inr (inr (refl, refl))), l))
exit_and_notify-Inv c (inr (inl (e, l))) = rw e (inr (inl (refl, l)))
exit_and_notify-Inv c (inr (inr (e, l))) = rw e (inr (inr (refl, l)))

pub close-Inv : (c : Controller) → Inv c → Inv (close c)
unfolding close test_mask
close-Inv c (inl (inl (e, w), l)) = rw e (inl (inl (refl, w), l))
close-Inv c (inl (inr (inl (e, w)), l)) = rw e (inl (inr (inl (refl, w)), l))
close-Inv c (inl (inr (inr (inl (e, a))), l)) = rw e (inl (inr (inr (inl (refl, a))), l))
close-Inv c (inl (inr (inr (inr (e, a))), l)) = rw e (inl (inr (inr (inr (refl, a))), l))
close-Inv c (inr (inl (e, l))) = rw e (inr (inr (refl, omega arith)))
close-Inv c (inr (inr (e, l))) = rw e (inr (inr (refl, l)))
