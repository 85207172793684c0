-- ===== src/Tcp/Controller/Packets/Received.antt =====
-- tcp/controller.go with network/clove.go and network/packet.go: the loop of `processRead` on a
-- stream of frames.
use clove.Prelude.{
  if◌then◌else◌, Bool, inl, inr, ◌⊎◌, ◌^◌, length-append, ℕ, ◌≡◌, ◌<◌, ◌≤◌, true, none, some, List,
  [], ◌∷◌, ◌++◌, map, length, All, refl, sym, ◌∙◌, ap, arith, append_assoc, append-nil,
}
use clove.Network.CloveFormat.{test_match_score, parse_from_buffer}
use clove.Network.CloveFormat.Stream.{
  frame, frames, packets, IsIncomplete, parse_from_buffer-frames,
}
use clove.Network.CloveFormat.Score.{IsScored, incomplete-IsLow, whole-score, length-IsIncomplete}
use clove.Tcp.Controller.Packets.Determined.{
  IsUndetermined, round-not_found, round-finding, HasRead, IsDetermined, round-found,
}
use mathlib.Core.Path.{subst}
use mathlib.Core.List.{flatten}
use clove.Network.Packet.{BinaryPacket, Packet}
use clove.Network.CloveFormat.Frame.{IsFramable}
use clove.Network.CloveFormat.Chunks.{Cut, cut, packets-append}
use clove.Tcp.Controller.{Controller, read_round}
use clove.Tcp.Controller.Packets.{process_read}

-- A controller `d` that `c` becomes by reading a stream of the frames of `ps` of which `unread` is
-- not read yet: it has received some of the packets and has the start of the next frame buffered.
pub record Progress (c d : Controller) (ps : List BinaryPacket) (unread : List ℕ) : Type 0 where
  pub done : List BinaryPacket
  pub todo : List BinaryPacket
  pub all : ps ≡ done ++ todo
  pub received : flatten d.received ≡ flatten c.received ++ packets done
  pub rest : d.buf_recv ++ unread ≡ frames todo
  pub incomplete : IsIncomplete d.buf_recv
  pub framable_todo : All IsFramable todo
  pub still_open : d.is_open ≡ c.is_open

Progress-after :
    (c d e : Controller) (qs ps todo : List BinaryPacket) (t unread : List ℕ)
    → HasRead c d (packets qs) t
    → ps ≡ qs ++ todo
    → Progress d e todo unread
    → Progress c e ps unread
Progress-after c d e qs ps todo t unread h all p = record {
  done = qs ++ p.done;
  todo = p.todo;
  all = all ∙ ap (λ (x : List BinaryPacket). qs ++ x) p.all ∙ sym (append_assoc qs p.done p.todo);
  received =
      p.received
      ∙ ap (λ (x : List Packet). x ++ packets p.done) h.received
      ∙ append_assoc (flatten c.received) (packets qs) (packets p.done)
      ∙ ap (λ (x : List Packet). flatten c.received ++ x) (sym (packets-append qs p.done));
  rest = p.rest;
  incomplete = p.incomplete;
  framable_todo = p.framable_todo;
  still_open = p.still_open ∙ h.still_open;
}

Progress-start :
    (c : Controller) (ps : List BinaryPacket) (unread : List ℕ)
    → All IsFramable ps
    → IsIncomplete c.buf_recv
    → c.buf_recv ++ unread ≡ frames ps
    → Progress c c ps unread
Progress-start c ps unread h i e = record {
  done = [];
  todo = ps;
  all = refl;
  received = sym (append-nil (flatten c.received));
  rest = e;
  incomplete = i;
  framable_todo = h;
  still_open = refl;
}

process_read-round :
    (x : List ℕ) (xs : List (List ℕ)) (c d : Controller)
    → read_round (some x) c ≡ (true, d)
    → process_read (some x ∷ map some xs) c ≡ process_read (map some xs) d
unfolding process_read
process_read-round x xs c d e =
    ap (λ (r : Bool × Controller). if r.0 then process_read (map some xs) r.1 else r.1) e

-- A read: at least one byte and no more than the slice of `processRead` has.
abbrev pub IsRead : List ℕ → Type 0
IsRead x = (0 < length x) × (length x ≤ 512)

read_parted :
    (c : Controller) (x unread : List ℕ) (xs : List (List ℕ)) (ps : List BinaryPacket)
    → All IsFramable ps
    → c.buf_recv ++ ((x ++ flatten xs) ++ unread) ≡ frames ps
    → Cut ps (c.buf_recv ++ x) (flatten xs ++ unread)
read_parted c x unread xs ps h e = cut ps (c.buf_recv ++ x) (flatten xs ++ unread) h (
    sym e
    ∙ ap (λ (z : List ℕ). c.buf_recv ++ z) (append_assoc x (flatten xs) unread)
    ∙ sym (append_assoc c.buf_recv x (flatten xs ++ unread)))

Cut-parse :
    (ps : List BinaryPacket) (b unread : List ℕ) (k : Cut ps b unread)
    → parse_from_buffer b ≡ (none, packets k.done, k.tail)
Cut-parse ps b unread k =
    ap parse_from_buffer k.before
    ∙ parse_from_buffer-frames k.done k.tail k.framable_done k.incomplete

pub process_read-found :
    (xs : List (List ℕ)) (c : Controller) (ps : List BinaryPacket) (unread : List ℕ)
    → IsDetermined c
    → All IsFramable ps
    → All IsRead xs
    → IsIncomplete c.buf_recv
    → c.buf_recv ++ (flatten xs ++ unread) ≡ frames ps
    → Progress c (process_read (map some xs) c) ps unread
unfolding flatten process_read
process_read-found [] c ps unread hd h hx i e = Progress-start c ps unread h i e
process_read-found ([] ∷ xs) c ps unread hd h (hx, hxs) i e = absurd (omega arith)
process_read-found ((y ∷ ys) ∷ xs) c ps unread hd h (hx, hxs) i e =
    let k = read_parted c (y ∷ ys) unread xs ps h e in
    let (d, er, hr, hd') =
      round-found c y ys (packets k.done) k.tail hd
        (Cut-parse ps (c.buf_recv ++ (y ∷ ys)) (flatten xs ++ unread) k) in
    let later =
      process_read-found xs d k.todo unread hd' k.framable_todo hxs
        (subst IsIncomplete (sym hr.buffered) k.incomplete)
        (ap (λ (b : List ℕ). b ++ (flatten xs ++ unread)) hr.buffered ∙ k.after) in
    rw (process_read-round (y ∷ ys) xs c d er)
      (Progress-after c d _ k.done ps k.todo k.tail unread hr k.all later)

list_cases {ℓ} : {A : Type ℓ} (xs : List A) → (xs ≡ []) ⊎ ((y : A) × (ys : List A) × (xs ≡ y ∷ ys))
list_cases [] = inl refl
list_cases (y ∷ ys) = inr (y, ys, refl)

-- A first frame that is whole scores 99.
Cut-score :
    (ps : List BinaryPacket) (b unread : List ℕ) (k : Cut ps b unread) (p : BinaryPacket)
    (qs : List BinaryPacket)
    → k.done ≡ p ∷ qs
    → All IsScored ps
    → length b < 2 ^ 32
    → test_match_score b ≡ some 99
Cut-score ps b unread k p qs e hs l =
    let whole : b ≡ frame p ++ (frames qs ++ k.tail) =
      k.before
      ∙ ap (λ (x : List BinaryPacket). frames x ++ k.tail) e
      ∙ append_assoc (frame p) (frames qs) k.tail in
    let first = (subst (All IsFramable) e k.framable_done).0 in
    let scored =
      (subst (All IsScored) (k.all ∙ ap (λ (x : List BinaryPacket). x ++ k.todo) e) hs).0 in
    ap test_match_score whole
    ∙ whole-score p (frames qs ++ k.tail) first scored
        (subst (λ (x : List ℕ). length x < 2 ^ 32) whole l)

pub process_read-not_found :
    (xs : List (List ℕ)) (c : Controller) (ps : List BinaryPacket) (unread : List ℕ)
    → IsUndetermined c
    → All IsFramable ps
    → All IsScored ps
    → All IsRead xs
    → IsIncomplete c.buf_recv
    → c.buf_recv ++ (flatten xs ++ unread) ≡ frames ps
    → Progress c (process_read (map some xs) c) ps unread
unfolding flatten process_read
process_read-not_found [] c ps unread hu h hs hx i e = Progress-start c ps unread h i e
process_read-not_found ([] ∷ xs) c ps unread hu h hs (hx, hxs) i e = absurd (omega arith)
process_read-not_found ((y ∷ ys) ∷ xs) c ps unread hu h hs ((hx, hn), hxs) i e =
    let k = read_parted c (y ∷ ys) unread xs ps h e in
    let b : List ℕ = c.buf_recv ++ (y ∷ ys) in
    let short : length b < 2 ^ 32 =
      omega (arith, length-append c.buf_recv (y ∷ ys), length-IsIncomplete c.buf_recv i) in
    elim (list_cases k.done) [
      | inl none_done ↦
          let all : ps ≡ k.todo = k.all ∙ ap (λ (x : List BinaryPacket). x ++ k.todo) none_done in
          let part : b ≡ k.tail =
            k.before ∙ ap (λ (x : List BinaryPacket). frames x ++ k.tail) none_done in
          let cut_short : IsIncomplete b = subst IsIncomplete (sym part) k.incomplete in
          let (d, er, hr, hu') = round-not_found c y ys hu (incomplete-IsLow b cut_short) in
          let later =
            process_read-not_found xs d ps unread hu' h hs hxs
              (subst IsIncomplete (sym hr.buffered) cut_short)
              (ap (λ (z : List ℕ). z ++ (flatten xs ++ unread)) (hr.buffered ∙ part)
                ∙ k.after
                ∙ ap frames (sym all)) in
          rw (process_read-round (y ∷ ys) xs c d er)
            (Progress-after c d _ [] ps ps b unread hr refl later)
      | inr (p, qs, some_done) ↦
          let score = Cut-score ps b (flatten xs ++ unread) k p qs some_done hs short in
          let (d, er, hr, hd) =
            round-finding c y ys (packets k.done) k.tail hu score
              (Cut-parse ps b (flatten xs ++ unread) k) in
          let later =
            process_read-found xs d k.todo unread hd k.framable_todo hxs
              (subst IsIncomplete (sym hr.buffered) k.incomplete)
              (ap (λ (z : List ℕ). z ++ (flatten xs ++ unread)) hr.buffered ∙ k.after) in
          rw (process_read-round (y ∷ ys) xs c d er)
            (Progress-after c d _ k.done ps k.todo k.tail unread hr k.all later)
    ]
