-- ===== src/Base/Id/Collect/Order.antt =====
-- base/id.go: the hash of the machine does not depend on the order in which the operating system
-- lists its parts.
use mathlib.Core.List.{Permᴰ}
use mathlib.Core.Path.{subst}
use clove.Prelude.{
  ℕ, ◌≡◌, Bool, some, List, [], ◌∷◌, refl, sym, Bool-cases, inl, inr, if◌then◌else◌, length, ltb,
}
use clove.Base.Id.{get_hash}
use clove.Base.Id.Machine.{get_hash-perm}
use clove.Base.Id.Collect.{IpLib, Interface, get_machine_id, collect_addrs, collect_cpus, is_usable}

perm_refl {ℓ} : {A : Type ℓ} (l : List A) → Permᴰ l l
perm_refl [] = Permᴰ.nil
perm_refl (x ∷ l) = Permᴰ.cons refl (perm_refl l)

module _ {A B : Type 0} (f : A → Bool) (g : A → B) where
  abbrev kept : List A → List B
  kept [] = []
  kept (x ∷ xs) = if f x then g x ∷ kept xs else kept xs

  kept-cons : (x : A) (l m : List A) → Permᴰ (kept l) (kept m) → Permᴰ (kept (x ∷ l)) (kept (x ∷ m))
  kept-cons x l m h = elim (Bool-cases (f x)) [ inl e ↦ rw e (Permᴰ.cons refl h) | inr e ↦ rw e h ]

  kept-swap : (x y : A) (l : List A) → Permᴰ (kept (x ∷ y ∷ l)) (kept (y ∷ x ∷ l))
  kept-swap x y l = elim (Bool-cases (f x)) [
    | inl e ↦ elim (Bool-cases (f y)) [
      | inl d ↦ rw (e, d) (Permᴰ.swap refl refl)
      | inr d ↦ rw (e, d) (perm_refl (g x ∷ kept l))
    ]
    | inr e ↦ elim (Bool-cases (f y)) [
      | inl d ↦ rw (e, d) (perm_refl (g y ∷ kept l))
      | inr d ↦ rw (e, d) (perm_refl (kept l))
    ]
  ]

  kept-perm : (l m : List A) → Permᴰ l m → Permᴰ (kept l) (kept m)
  kept-perm _ _ Permᴰ.nil = Permᴰ.nil
  kept-perm _ _ (Permᴰ.cons {a = x} {b = y} {l₁ = l} {l₂ = m} e d) =
      subst (λ (z : A). Permᴰ (kept (x ∷ l)) (kept (z ∷ m))) e (kept-cons x l m (kept-perm l m d))
  kept-perm _ _ (Permᴰ.swap {a = x} {b = y} {a' = y'} {l = l} e d) =
      subst (λ (z : A). Permᴰ (kept (x ∷ y ∷ l)) (kept (y' ∷ z ∷ l))) e
        (subst (λ (z : A). Permᴰ (kept (x ∷ y ∷ l)) (kept (z ∷ x ∷ l))) d (kept-swap x y l))
  kept-perm l n (Permᴰ.trans {l₂ = m} d e) = Permᴰ.trans (kept-perm l m d) (kept-perm m n e)

collect_cpus-kept :
    (ps : List (List ℕ)) → kept (λ (p : List ℕ). ltb 0 (length p)) (λ p. p) ps ≡ collect_cpus ps
unfolding collect_cpus
collect_cpus-kept [] = refl
collect_cpus-kept (p ∷ ps) = rw (collect_cpus-kept ps) refl

collect_addrs-kept :
    (lib : IpLib) (is : List Interface)
    → kept (is_usable lib) (λ (i : Interface). i.hardware_addr) is ≡ collect_addrs lib is
unfolding collect_addrs
collect_addrs-kept lib [] = refl
collect_addrs-kept lib (i ∷ is) = rw (collect_addrs-kept lib is) refl

-- When the operating system lists the processors and the network interfaces without an error, the
-- hash of the machine id is the same in whatever order it lists them.
pub get_machine_id-hash :
    (lib : IpLib) (sha1 : List ℕ → List ℕ) (cpus cpus' : List (List ℕ))
    (nets nets' : List Interface)
    → Permᴰ cpus cpus'
    → Permᴰ nets nets'
    → get_hash sha1 (get_machine_id lib (some cpus) (some nets))
      ≡ get_hash sha1 (get_machine_id lib (some cpus') (some nets'))
unfolding get_machine_id
get_machine_id-hash lib sha1 cpus cpus' nets nets' hc hn =
    get_hash-perm sha1 (get_machine_id lib (some cpus) (some nets))
      (get_machine_id lib (some cpus') (some nets'))
      (rw (sym (collect_cpus-kept cpus), sym (collect_cpus-kept cpus'))
        (kept-perm (λ (p : List ℕ). ltb 0 (length p)) (λ p. p) cpus cpus' hc))
      (rw (sym (collect_addrs-kept lib nets), sym (collect_addrs-kept lib nets'))
        (kept-perm (is_usable lib) (λ (i : Interface). i.hardware_addr) nets nets' hn))
