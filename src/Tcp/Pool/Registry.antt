-- ===== src/Tcp/Pool/Registry.antt =====
-- tcp/pool.go: the controllers by their ids, over what enters and leaves.
use clove.Prelude.{
  ℕ, ◌≡◌, ◌≢◌, Bool, none, some, List, [], ◌∷◌, arith, refl, Bool-cases, inl, inr, ◌∙◌,
}
use clove.Tcp.Pool.{
  StandardPool, store, load, remove, get_controller, controller_leave, check_limit, refused,
  limited, add_connection, add_created, stored, added, add_curr_num,
}
use clove.Prelude.{Option}
use clove.Tcp.Pool.{controller_enter}

module _ {C : Type 0} where
  pub load-store : (id : ℕ) (c : C) (m : List (ℕ × C)) → load id (store id c m) ≡ some c
  unfolding load store
  load-store id c [] = ground arith
  load-store id c ((j, d) ∷ m) = ground (arith, load-store id c m)

  load-store_other :
      (id k : ℕ) (c : C) (m : List (ℕ × C)) → k ≢ id → load k (store id c m) ≡ load k m
  unfolding load store
  load-store_other id k c [] h = ground arith
  load-store_other id k c ((j, d) ∷ m) h = ground (arith, load-store_other id k c m h)

  load-remove : (id : ℕ) (m : List (ℕ × C)) → load id (remove id m) ≡ none
  unfolding load remove
  load-remove id [] = refl
  load-remove id ((j, d) ∷ m) = ground (arith, load-remove id m)

  load-remove_other : (id k : ℕ) (m : List (ℕ × C)) → k ≢ id → load k (remove id m) ≡ load k m
  unfolding load remove
  load-remove_other id k [] h = refl
  load-remove_other id k ((j, d) ∷ m) h = ground (arith, load-remove_other id k m h)

  controllers-add :
      (id : ℕ) (c : C) (enter : Option (ℕ × C → Bool)) (p : StandardPool C)
      → (add_connection (some (id, c)) enter p).0 ≡ added
      → (add_connection (some (id, c)) enter p).1.controllers ≡ store id c p.controllers
  unfolding add_connection add_created
  controllers-add id c enter p h = elim (Bool-cases (check_limit p)) [
    | inl e ↦ elim (Bool-cases (controller_enter enter (id, c))) [
      | inl a ↦ rw (e, a, stored) refl
      | inr a ↦ let other : refused ≡ added = rw (e, a, stored) at h in cc
    ]
    | inr e ↦ let other : limited ≡ added = rw e at h in cc
  ]

  -- A connection that was added is found under its id, after its leave nothing is, and every other
  -- id keeps its controller over both.
  pub get_controller-add_leave :
      (id : ℕ) (c : C) (enter : Option (ℕ × C → Bool)) (p : StandardPool C)
      → (add_connection (some (id, c)) enter p).0 ≡ added
      → let q = (add_connection (some (id, c)) enter p).1 in
        (get_controller id q ≡ some c)
        × (get_controller id (controller_leave id q) ≡ none)
        × ((k : ℕ)
            → k ≢ id
            → (get_controller k q ≡ get_controller k p)
              × (get_controller k (controller_leave id q) ≡ get_controller k p))
  unfolding get_controller controller_leave add_curr_num
  get_controller-add_leave id c enter p h =
      let e = controllers-add id c enter p h in
      let m = p.controllers in
      (
        rw e (load-store id c m),
        rw e (load-remove id (store id c m)),
        λ k hk. (
          rw e (load-store_other id k c m hk),
          rw e (load-remove_other id k (store id c m) hk ∙ load-store_other id k c m hk),
        ),
      )
