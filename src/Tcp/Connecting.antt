-- ===== src/Tcp/Connecting.antt =====
-- tcp/connector.go and tcp/listener.go: where the connections of a pool come from. A connection is
-- a number that package net gives it, and `opened` lists those that are not closed.
pub mod Kept
use clove.Prelude.{
  ℕ, Bool, true, false, not, Option, none, some, List, [], ◌∷◌, ◌==◌, if◌then◌else◌,
}
use clove.Tcp.Pool.{StandardPool, AddResult, added, limited, create_failed, refused, add_connection}

pub data ConnectError : Type 0 where
  resolve_failed dial_failed listen_failed : ConnectError
  not_added : AddResult → ConnectError

-- A `ConnectionProcessor` that is a pool, and the connections.
pub record Net {ℓ} (C : Type ℓ) : Type ℓ where
  pub pool : StandardPool C
  pub opened : List ℕ

-- What `CreateController` makes of a connection, and `OnControllerEnter`, where `true` is no error.
pub record Maker {ℓ} (C : Type ℓ) : Type ℓ where
  pub create : ℕ → Option (ℕ × C)
  pub enter : Option (ℕ × C → Bool)

module _ {ℓ} {C : Type ℓ} where
  -- `conn.Close()` after an error of `AddConnection`.
  unfoldable pub after_add : ℕ → List ℕ → AddResult × StandardPool C → Option ConnectError × Net C
  after_add conn others (added, p) = (none, record { pool = p; opened = conn ∷ others })
  after_add conn others (r, p) = (some (not_added r), record { pool = p; opened = others })

  unfoldable pub enter_connection : Maker C → ℕ → Net C → Option ConnectError × Net C
  unfolding add_connection after_add
  enter_connection m conn net =
      after_add conn net.opened (add_connection (m.create conn) m.enter net.pool)

  -- `ConnectWithTimeout`, with what `DialTimeout` gives.
  unfoldable pub connect_with_timeout : Maker C → Option ℕ → Net C → Option ConnectError × Net C
  unfolding enter_connection
  connect_with_timeout m none net = (some dial_failed, net)
  connect_with_timeout m (some conn) net = enter_connection m conn net

  -- `Connect`, with whether the address resolves and what `Dial` gives.
  unfoldable pub connect : Maker C → Bool → Option ℕ → Net C → Option ConnectError × Net C
  unfolding connect_with_timeout
  connect m resolves dialled net =
      if resolves then connect_with_timeout m dialled net else (some resolve_failed, net)

  -- The loop of `Start` over the results of `Accept`, errors included, which are only logged.
  unfoldable accept_all : Maker C → List (Option ℕ) → Net C → Net C
  unfolding enter_connection
  accept_all m [] net = net
  accept_all m (none ∷ rs) net = accept_all m rs net
  accept_all m (some conn ∷ rs) net = accept_all m rs (enter_connection m conn net).1

-- `l` is the socket that listens.
pub record Listener : Type 0 where
  pub addr : List ℕ
  pub l : Option ℕ

abbrev pub create_listener : Listener
create_listener = record { addr = []; l = none }

unfoldable pub started : Listener → Option ℕ → Option ConnectError × Listener × List ℕ
started listener none = (some listen_failed, listener, [])
started listener (some s) = (none, listener, s ∷ [])

-- `Start`: its error, the listener of the caller and the sockets that listen. The method has a
-- value receiver: it stores the address and the socket in a copy.
unfoldable pub start : Listener → Bool → Option ℕ → Option ConnectError × Listener × List ℕ
unfolding started
start listener resolves listened =
    if resolves then started listener listened else (some resolve_failed, listener, [])

abbrev remove_socket : ℕ → List ℕ → List ℕ
remove_socket s [] = []
remove_socket s (t ∷ ts) = if s == t then remove_socket s ts else t ∷ remove_socket s ts

-- `Stop`: the sockets that still listen.
unfoldable pub stop : Listener → List ℕ → List ℕ
stop listener sockets = elim listener.l [ none ↦ sockets | some s ↦ remove_socket s sockets ]
