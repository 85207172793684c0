-- ===== src/Network/CloveFormat/Chunks.antt =====
-- network/clove.go with tcp/controller.go: a stream of frames that arrives in reads of any size.
-- Each round of `processRead` writes what it read to the buffer and parses the buffer.
use clove.Prelude.{
  ℕ, ◌<◌, ◌≤◌, inl, inr, Option-cases, ◌≡◌, refl, sym, ◌∙◌, ap, none, some, List, [], ◌∷◌, ◌++◌,
  length, arith, append_assoc, append-nil, length-append, All,
}
use mathlib.Core.List.{flatten}
use mathlib.Core.Path.{subst}
use native.Mathlib.Decide.{dec_lt}
use clove.Base.Buffer.{Buffer, write}
use clove.Network.Packet.{BinaryPacket, binary, ParsedAll}
use clove.Network.CloveFormat.{package_word, header_word, parse_from_buffer}
use clove.Network.CloveFormat.Frame.{without_from, IsFramable}
use clove.Network.CloveFormat.Stream.{
  frame, frames, packets, IsIncomplete, frame-header, parse_from_buffer-frames,
}

-- A round that ends without an error goes on with the buffer that it left.
abbrev after_chunk : ParsedAll → (Buffer → ParsedAll) → ParsedAll
after_chunk (some e, ps, b) go = (some e, ps, b)
after_chunk (none, ps, b) go = let (e, qs, b') = go b in (e, ps ++ qs, b')

-- The packets of a sequence of reads; the loop ends with the first error.
pub read_chunks : List (List ℕ) → Buffer → ParsedAll
unfolding write
read_chunks [] b = (none, [], b)
read_chunks (c ∷ cs) b = after_chunk (parse_from_buffer (write c b).1) (λ b'. read_chunks cs b')

append_split :
    {A : Type 0} (x y b c : List A)
    → x ++ y ≡ b ++ c
    → length x ≤ length b
    → (b' : List A) × (b ≡ x ++ b') × (y ≡ b' ++ c)
append_split [] y b c e h = (b, refl, e)
append_split (a ∷ x) y [] c e h = absurd (omega arith)
append_split (a ∷ x) y (d ∷ b) c e h =
    let (b', p, q) = append_split x y b c (cc) (omega arith) in (b', cc, q)

header_word-append :
    (b c : List ℕ) (w : ℕ × ℕ) → header_word b ≡ some w → header_word (b ++ c) ≡ some w
header_word-append [] c w e = cc
header_word-append (a ∷ []) c w e = cc
header_word-append (a ∷ b ∷ []) c w e = cc
header_word-append (a ∷ b ∷ d ∷ []) c w e = cc
header_word-append (a ∷ b ∷ d ∷ f ∷ []) c w e = cc
header_word-append (a ∷ b ∷ d ∷ f ∷ g ∷ r) c w e = e

-- Where a cut of a stream of frames falls: behind some whole frames, in an incomplete one.
pub record Cut (ps : List BinaryPacket) (b c : List ℕ) : Type 0 where
  pub done : List BinaryPacket
  pub todo : List BinaryPacket
  pub tail : List ℕ
  pub all : ps ≡ done ++ todo
  pub before : b ≡ frames done ++ tail
  pub after : tail ++ c ≡ frames todo
  pub incomplete : IsIncomplete tail
  pub framable_done : All IsFramable done
  pub framable_todo : All IsFramable todo

IsIncomplete-of_short :
    (p : BinaryPacket) (ps : List BinaryPacket) (b c : List ℕ)
    → IsFramable p
    → frames (p ∷ ps) ≡ b ++ c
    → length b < length (frame p)
    → IsIncomplete b
IsIncomplete-of_short p ps b c h e l = elim (Option-cases (header_word b)) [
  | inl n ↦ inl n
  | inr ((op, w), s) ↦
      let (op', eh, el) = frame-header p (frames ps) h in
      let same : some (op, w) ≡ some (op', package_word p) =
        sym (header_word-append b c (op, w) s) ∙ rw (sym e) eh in
      inr (op, w, s, ground arith)
]

pub cut :
    (ps : List BinaryPacket) (b c : List ℕ) → All IsFramable ps → frames ps ≡ b ++ c → Cut ps b c
cut [] [] c h e = record {
  done = [];
  todo = [];
  tail = [];
  all = refl;
  before = refl;
  after = sym e;
  incomplete = inl refl;
  framable_done = tt;
  framable_todo = tt;
}
cut [] (x ∷ b) c h e = cc
cut (p ∷ ps) b c (hp, h) e = elim (dec_lt (length b) (length (frame p))) [
  | yes l ↦ record {
    done = [];
    todo = p ∷ ps;
    tail = b;
    all = refl;
    before = refl;
    after = sym e;
    incomplete = IsIncomplete-of_short p ps b c hp e l;
    framable_done = tt;
    framable_todo = (hp, h);
  }
  | no l ↦
      let (b', eb, ec) = append_split (frame p) (frames ps) b c e (omega arith) in
      let r = cut ps b' c h ec in
      record {
        done = p ∷ r.done;
        todo = r.todo;
        tail = r.tail;
        all = ap (◌∷◌ p) r.all;
        before = eb ∙ rw r.before (sym (append_assoc (frame p) (frames r.done) r.tail));
        after = r.after;
        incomplete = r.incomplete;
        framable_done = (hp, r.framable_done);
        framable_todo = r.framable_todo;
      }
]

pub packets-append : (ps qs : List BinaryPacket) → packets (ps ++ qs) ≡ packets ps ++ packets qs
packets-append [] qs = refl
packets-append (p ∷ ps) qs = ap (◌∷◌ (binary (without_from p))) (packets-append ps qs)

-- A whole frame is no incomplete one.
not-IsIncomplete :
    (p : BinaryPacket) (rest : List ℕ) → IsFramable p → ¬ IsIncomplete (frame p ++ rest)
not-IsIncomplete p rest h (inl n) = let (op, eh, el) = frame-header p rest h in cc (n, eh)
not-IsIncomplete p rest h (inr (op', w, s, l)) =
    let (op, eh, el) = frame-header p rest h in ground (arith, length-append (frame p) rest)

pub frames_incomplete :
    (ps : List BinaryPacket) (b : List ℕ)
    → All IsFramable ps
    → IsIncomplete b
    → b ≡ frames ps
    → ps ≡ []
frames_incomplete [] b h t e = refl
frames_incomplete (p ∷ ps) b (hp, h) t e =
    absurd (not-IsIncomplete p (frames ps) hp (subst IsIncomplete e t))

read_chunks-loop :
    (cs : List (List ℕ)) (b : List ℕ) (ps : List BinaryPacket)
    → All IsFramable ps
    → IsIncomplete b
    → b ++ flatten cs ≡ frames ps
    → read_chunks cs b ≡ (none, packets ps, [])
unfolding read_chunks flatten
read_chunks-loop [] b ps h t e =
    let whole : b ≡ frames ps = sym (append-nil b) ∙ e in
    rw (whole, frames_incomplete ps b h t whole) refl
read_chunks-loop (c ∷ cs) b ps h t e =
    let k = cut ps (b ++ c) (flatten cs) h (sym e ∙ sym (append_assoc b c (flatten cs))) in
    let first : parse_from_buffer (b ++ c) ≡ (none, packets k.done, k.tail) =
      ap parse_from_buffer k.before
      ∙ parse_from_buffer-frames k.done k.tail k.framable_done k.incomplete in
    let others : read_chunks cs k.tail ≡ (none, packets k.todo, []) =
      read_chunks-loop cs k.tail k.todo k.framable_todo k.incomplete k.after in
    rw first (rw others (rw (ap packets k.all ∙ packets-append k.done k.todo) refl))

-- However a stream of frames, of packets that each fit a frame, is cut into reads, the rounds of the
-- read loop report no error, hand over its packets in order and once each, and leave the buffer
-- empty.
pub read_chunks-frames :
    (cs : List (List ℕ)) (ps : List BinaryPacket)
    → All IsFramable ps
    → flatten cs ≡ frames ps
    → read_chunks cs [] ≡ (none, packets ps, [])
read_chunks-frames cs ps h e = read_chunks-loop cs [] ps h (inl refl) e
