-- ===== src/Tcp/Pool/Limit.antt =====
-- tcp/pool.go: the limit of a pool over the connections that come and go. Nothing counts up.
use clove.Prelude.{
  ℕ, suc, ◌-◌, ◌%◌, ◌^◌, ◌≡◌, ◌<◌, ◌≤◌, Bool, true, Option, none, some, List, [], ◌∷◌, arith, refl,
  Bool-cases, inl, inr,
}
use clove.Prelude.Int.{pos}
use clove.Network.Packet.{Packet}
use clove.Tcp.Pool.{
  StandardPool, create_pool, create_pool_with_limit, add_connection, stored, get_controller,
  controller_leave, add_curr_num, check_limit, multicast, broadcast, close_pool, update_found,
  add_created, update_controller, close_controller,
}
use clove.Tcp.Pool.{controller_enter}

-- The pools that `start` becomes over connections, packets and closes; the index counts the calls
-- of `ControllerLeave`.
pub data Serves {C : Type 0} (start : StandardPool C) : StandardPool C → ℕ → Type 0 where
  created : Serves start start 0
  connected :
      (o : Option (ℕ × C)) (enter : Option (ℕ × C → Bool)) (p : StandardPool C) (k : ℕ)
      → Serves start p k
      → Serves start (add_connection o enter p).1 k
  left :
      (id : ℕ) (p : StandardPool C) (k : ℕ)
      → Serves start p k
      → Serves start (controller_leave id p) (suc k)
  exited :
      (f : C → C) (id : ℕ) (p : StandardPool C) (k : ℕ)
      → Serves start p k
      → Serves start (close_controller f id p) k
  told :
      (f : Packet → C → C) (pck : Packet) (ids : List ℕ) (p : StandardPool C) (k : ℕ)
      → Serves start p k
      → Serves start (multicast f pck ids p) k
  told_all :
      (f : Packet → C → C) (pck : Packet) (p : StandardPool C) (k : ℕ)
      → Serves start p k
      → Serves start (broadcast f pck p) k
  closed : (p : StandardPool C) (k : ℕ) → Serves start p k → Serves start (close_pool p) k

module _ {C : Type 0} where
  record HasCounts (n k : ℕ) (p : StandardPool C) : Type 0 where
    same_limit : p.limit ≡ pos n
    counted_down : p.curr ≡ (2 ^ 32 - k % 2 ^ 32) % 2 ^ 32

  counts-created :
      (n k : ℕ) (o : Option (ℕ × C)) (enter : Option (ℕ × C → Bool)) (p : StandardPool C)
      → HasCounts n k p
      → HasCounts n k (add_created o enter p).1
  unfolding add_created stored
  counts-created n k none enter p h = h
  counts-created n k (some (id, c)) enter p h = elim (Bool-cases (controller_enter enter (id, c))) [
    | inl e ↦ rw (e, stored) (record { same_limit = h.same_limit; counted_down = h.counted_down })
    | inr e ↦ rw (e, stored) h
  ]

  counts-add :
      (n k : ℕ) (o : Option (ℕ × C)) (enter : Option (ℕ × C → Bool)) (p : StandardPool C)
      → HasCounts n k p
      → HasCounts n k (add_connection o enter p).1
  unfolding add_connection
  counts-add n k o enter p h = elim (Bool-cases (check_limit p)) [
    | inl e ↦ rw e (counts-created n k o enter p h)
    | inr e ↦ rw e h
  ]

  counts-found :
      (n k id : ℕ) (f : C → C) (o : Option C) (p : StandardPool C)
      → HasCounts n k p
      → HasCounts n k (update_found f id o p)
  unfolding update_found
  counts-found n k id f none p h = h
  counts-found n k id f (some c) p h = record {
    same_limit = h.same_limit;
    counted_down = h.counted_down;
  }

  counts-update :
      (n k id : ℕ) (f : C → C) (p : StandardPool C)
      → HasCounts n k p
      → HasCounts n k (update_controller f id p)
  unfolding update_controller
  counts-update n k id f p h = counts-found n k id f (get_controller id p) p h

  counts-leave :
      (n k id : ℕ) (p : StandardPool C)
      → HasCounts n k p
      → HasCounts n (suc k) (controller_leave id p)
  unfolding controller_leave add_curr_num
  counts-leave n k id p h = record {
    same_limit = h.same_limit;
    counted_down = omega (arith, h.counted_down);
  }

  counts-multicast :
      (n k : ℕ) (f : Packet → C → C) (pck : Packet) (ids : List ℕ) (p : StandardPool C)
      → HasCounts n k p
      → HasCounts n k (multicast f pck ids p)
  unfolding multicast
  counts-multicast n k f pck [] p h = h
  counts-multicast n k f pck (id ∷ ids) p h =
      counts-multicast n k f pck ids (update_controller (f pck) id p)
        (counts-update n k id (f pck) p h)

  Serves-HasCounts :
      (n k : ℕ) (p : StandardPool C) → Serves (create_pool_with_limit (pos n)) p k → HasCounts n k p
  unfolding create_pool_with_limit create_pool close_controller broadcast close_pool
  Serves-HasCounts n _ _ created = record { same_limit = refl; counted_down = refl }
  Serves-HasCounts n k _ (connected o enter p _ h) =
      counts-add n k o enter p (Serves-HasCounts n k p h)
  Serves-HasCounts n _ _ (left id p k h) = counts-leave n k id p (Serves-HasCounts n k p h)
  Serves-HasCounts n k _ (exited f id p _ h) = counts-update n k id f p (Serves-HasCounts n k p h)
  Serves-HasCounts n k _ (told f pck ids p _ h) =
      counts-multicast n k f pck ids p (Serves-HasCounts n k p h)
  Serves-HasCounts n k _ (told_all f pck p _ h) =
      let c = Serves-HasCounts n k p h in
      record { same_limit = c.same_limit; counted_down = c.counted_down }
  Serves-HasCounts n k _ (closed p _ h) =
      let c = Serves-HasCounts n k p h in
      record { same_limit = c.same_limit; counted_down = c.counted_down }

  below_limit :
      (n k : ℕ) (p : StandardPool C)
      → 0 < n
      → n < 2 ^ 31
      → k ≤ 2 ^ 31
      → HasCounts n k p
      → check_limit p ≡ true
  unfolding check_limit
  below_limit n k p hn hb hk h = let e = h.counted_down in rw h.same_limit (ground arith)

  -- A pool with a limit n above 0 that fits an int32 never reaches it: over any sequence of
  -- connections, packets, exits and at most 2^31 leaves, however many connections are in it, its
  -- count is minus the number of leaves and `checkLimit` lets the next connection in.
  pub check_limit-Serves :
      (n k : ℕ) (p : StandardPool C)
      → 0 < n
      → n < 2 ^ 31
      → k ≤ 2 ^ 31
      → Serves (create_pool_with_limit (pos n)) p k
      → (p.curr ≡ (2 ^ 32 - k) % 2 ^ 32) × (check_limit p ≡ true)
  unfolding check_limit
  check_limit-Serves n k p hn hb hk run =
      let h = Serves-HasCounts n k p run in
      (omega (arith, h.counted_down), below_limit n k p hn hb hk h)
