-- ===== src/Tcp/Connecting/Kept.antt =====
-- tcp/connector.go, tcp/listener.go and tcp/pool.go: a connection is closed or in the pool.
use clove.Prelude.{
  ℕ, ◌≡◌, true, false, ◌⊎◌, inl, inr, Option, none, some, [], ◌∷◌, refl, Bool-cases,
}
use clove.Tcp.Pool.{
  AddResult, limited, create_failed, refused, add_connection, add_created, stored, check_limit,
  get_controller,
}
use clove.Tcp.Pool.Registry.{load-store}
use clove.Tcp.Connecting.{
  Net, Maker, ConnectError, resolve_failed, dial_failed, not_added, after_add, enter_connection,
  connect_with_timeout, connect, start, started, stop, create_listener,
}
use clove.Tcp.Pool.{controller_enter}

module _ {C : Type 0} where
  -- The connection is in the pool and open, or it is closed and the pool has the controllers that
  -- it had.
  abbrev pub IsKept : Maker C → ℕ → Net C → Option ConnectError × Net C → Type 0
  IsKept m conn net (e, after) =
      ((e ≡ none)
        × ((id : ℕ) × (c : C) × (m.create conn ≡ some (id, c))
            × (get_controller id after.pool ≡ some c))
        × (after.opened ≡ conn ∷ net.opened))
      ⊎ (((r : AddResult) × (e ≡ some (not_added r)))
          × (after.pool.controllers ≡ net.pool.controllers)
          × (after.opened ≡ net.opened))

  created-IsKept :
      (m : Maker C) (conn : ℕ) (net : Net C) (o : Option (ℕ × C))
      → m.create conn ≡ o
      → IsKept m conn net (after_add conn net.opened (add_created o m.enter net.pool))
  unfolding after_add add_created stored get_controller
  created-IsKept m conn net none e = inr ((create_failed, refl), refl, refl)
  created-IsKept m conn net (some (id, c)) e =
      elim (Bool-cases (controller_enter m.enter (id, c))) [
        | inl t ↦ rw t (inl (refl, (id, c, e, load-store id c net.pool.controllers), refl))
        | inr f ↦ rw f (inr ((refused, refl), refl, refl))
      ]

  enter_connection-IsKept :
      (m : Maker C) (conn : ℕ) (net : Net C) → IsKept m conn net (enter_connection m conn net)
  unfolding enter_connection add_connection after_add
  enter_connection-IsKept m conn net = elim (Bool-cases (check_limit net.pool)) [
    | inl t ↦ rw t (created-IsKept m conn net (m.create conn) refl)
    | inr f ↦ rw f (inr ((limited, refl), refl, refl))
  ]

  -- `Connect` to an address that does not resolve or cannot be dialled changes nothing and returns
  -- that error. A connection that was dialled is, when `Connect` returns no error, open and in the
  -- pool under the id of its controller, and otherwise closed, with the pool's controllers and the
  -- open connections as they were.
  pub connect-IsKept :
      (m : Maker C) (conn : ℕ) (dialled : Option ℕ) (net : Net C)
      → (connect m false dialled net ≡ (some resolve_failed, net))
        × (connect m true none net ≡ (some dial_failed, net))
        × IsKept m conn net (connect m true (some conn) net)
  unfolding connect connect_with_timeout
  connect-IsKept m conn dialled net = (refl, refl, enter_connection-IsKept m conn net)

-- A listener that was started goes on listening after `Stop`.
stop-start :
    (s : ℕ)
    → stop (start create_listener true (some s)).1 (start create_listener true (some s)).2 ≡ s ∷ []
unfolding start started stop
stop-start s = refl
