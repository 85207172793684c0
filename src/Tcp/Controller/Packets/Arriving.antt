-- ===== src/Tcp/Controller/Packets/Arriving.antt =====
-- tcp/controller.go: the goroutines that `ReceivePackets` starts, which put their packets on
-- `chReceived` side by side.
use clove.Prelude.{
  ◌≡◌, List, [], ◌∷◌, ◌++◌, All, All-split, refl, sym, Subsequence, empty, keep, skip,
}
use mathlib.Core.List.{flatten, Perm, perm_middle}
use mathlib.Core.List.Perm
use mathlib.Core.Path.{subst}
use clove.Network.Packet.{Packet}

-- The orders in which the packets of goroutines can come over the channel: any goroutine that has
-- one left may be the next, with its first one.
pub data Puts : List (List Packet) → List Packet → Type 0 where
  all_put : (bs : List (List Packet)) → All (λ (b : List Packet). b ≡ []) bs → Puts bs []
  next_put :
      (bs before : List (List Packet)) (p : Packet) (ps : List Packet) (after : List (List Packet))
      (xs : List Packet)
      → bs ≡ before ++ ((p ∷ ps) ∷ after)
      → Puts (before ++ (ps ∷ after)) xs
      → Puts bs (p ∷ xs)

All-map :
    {P Q : List Packet → Type 0} (bs : List (List Packet))
    → ((b : List Packet) → P b → Q b)
    → All P bs
    → All Q bs
All-map [] f h = tt
All-map (b ∷ bs) f (hb, h) = (f b hb, All-map bs f h)

All-insert :
    (P : List Packet → Type 0) (before : List (List Packet)) (b : List Packet)
    (after : List (List Packet))
    → P b
    → All P (before ++ after)
    → All P (before ++ (b ∷ after))
All-insert P [] b after h r = (h, r)
All-insert P (c ∷ before) b after h (hc, r) = (hc, All-insert P before b after h r)

flatten-none : (bs : List (List Packet)) → All (λ (b : List Packet). b ≡ []) bs → flatten bs ≡ []
unfolding flatten
flatten-none [] h = refl
flatten-none (b ∷ bs) (hb, h) = rw (hb, flatten-none bs h) refl

perm-behind : (b : List Packet) {xs ys : List Packet} → Perm xs ys → Perm (b ++ xs) (b ++ ys)
perm-behind [] h = h
perm-behind (x ∷ b) h = Perm.cons x (perm-behind b h)

perm-next :
    (before : List (List Packet)) (p : Packet) (ps : List Packet) (after : List (List Packet))
    → Perm (p ∷ flatten (before ++ (ps ∷ after))) (flatten (before ++ ((p ∷ ps) ∷ after)))
unfolding flatten
perm-next [] p ps after = Perm.refl (p ∷ (ps ++ flatten after))
perm-next (b ∷ before) p ps after =
    Perm.trans (Perm.symm (perm_middle b (flatten (before ++ (ps ∷ after)))))
      (perm-behind b (perm-next before p ps after))

-- What comes over the channel is a permutation of what the goroutines have.
pub Puts-perm : (bs : List (List Packet)) (xs : List Packet) → Puts bs xs → Perm xs (flatten bs)
Puts-perm bs _ (all_put _ h) = subst (Perm []) (sym (flatten-none bs h)) (Perm.refl [])
Puts-perm bs _ (next_put _ before p ps after xs e more) =
    Perm.trans (Perm.cons p (Puts-perm (before ++ (ps ∷ after)) xs more)) (
      subst (λ (b : List (List Packet)). Perm (p ∷ flatten (before ++ (ps ∷ after))) (flatten b))
        (sym e) (perm-next before p ps after))

-- The packets of one goroutine come in their order.
pub Puts-in_order :
    (bs : List (List Packet)) (xs : List Packet)
    → Puts bs xs
    → All (λ (b : List Packet). Subsequence b xs) bs
Puts-in_order bs _ (all_put _ h) =
    All-map bs (λ b e. subst (λ (b : List Packet). Subsequence b []) (sym e) empty) h
Puts-in_order bs _ (next_put _ before p ps after xs e more) =
    let (first, others) =
      All-split (λ (b : List Packet). Subsequence b xs) before ps after
        (Puts-in_order (before ++ (ps ∷ after)) xs more) in
    subst (All (λ (b : List Packet). Subsequence b (p ∷ xs))) (sym e) (
      All-insert (λ (b : List Packet). Subsequence b (p ∷ xs)) before (p ∷ ps) after
        (keep p ps xs first) (All-map (before ++ after) (λ b s. skip p b xs s) others))
