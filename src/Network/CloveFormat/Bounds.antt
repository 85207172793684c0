-- ===== src/Network/CloveFormat/Bounds.antt =====
-- network/clove.go: what `ParseFromBytes` can return, and the end of the loop of `ParseFromBuffer`.
use clove.Prelude.{
  ℕ, zero, suc, ◌+◌, ◌<◌, ◌≤◌, not, inl, inr, ◌≡◌, refl, sym, ◌∙◌, Option, none, some, List, [],
  ◌∷◌, ◌++◌, length, bit_and, take, drop, ltb, ◌==◌, if◌then◌else◌, arith, Option-cases,
  length-drop, length-take_le,
}
use clove.Prelude.{Bool, true, false}
use clove.Prelude.Run.{Run, returned}
use clove.Base.Buffer.{Buffer, next, peek, len, available}
use clove.Network.Packet.{
  BinaryPacket, Packet, binary, packet_max_length, not_ready, is_damage, Parsed, ParsedAll,
}
use clove.Network.CloveFormat.Frame.{parse_from_bytes-of, parse_from_bytes-none}
use clove.Network.CloveFormat.{
  header_word, header_length, parse_frame, parse_from_bytes, parse_loop, frame_packet, after_parse,
}

-- The packet is the one of the frame that takes the first `n` bytes: it fits the input, its raw
-- bytes are the frame's behind the header, and its protocol fits two half bytes.
pub record IsParsed (input : List ℕ) (p : Packet) (n : ℕ) : Type 0 where
  pub packet : BinaryPacket
  pub is_binary : p ≡ binary packet
  pub at_least : 5 ≤ n
  pub fits : n ≤ length input
  pub bounded : n ≤ packet_max_length
  pub raw_length : length packet.raw + 5 ≡ n

raw_of_frame :
    (input : List ℕ) (n : ℕ)
    → 5 ≤ n
    → n ≤ length input
    → length (drop header_length (take n input)) + 5 ≡ n
raw_of_frame input n h l = rw (length-drop 5 (take n input), length-take_le n input l) (omega arith)

parse_frame-IsParsed :
    (input : List ℕ) (op word : ℕ) (p : Packet) (n : ℕ)
    → parse_frame input op word ≡ (none, some p, n)
    → IsParsed input p n
unfolding parse_frame
parse_frame-IsParsed input op word p n e =
    let lo : 5 ≤ n = ground arith in
    let hi : n ≤ length input = ground arith in
    let en : bit_and word packet_max_length ≡ n = ground arith in
    record {
      packet = frame_packet input op word;
      is_binary = ground arith;
      at_least = lo;
      fits = hi;
      bounded = ground arith;
      raw_length = rw en (raw_of_frame input n lo hi);
    }

-- When `ParseFromBytes` returns a packet without an error, the frame takes at least a header and at
-- most the input and the largest length, and the packet is a binary one whose raw bytes are as many
-- as the frame has behind the header.
pub parse_from_bytes-IsParsed :
    (input : List ℕ) (p : Packet) (n : ℕ)
    → parse_from_bytes input ≡ (none, some p, n)
    → IsParsed input p n
unfolding parse_from_bytes
parse_from_bytes-IsParsed input p n e = go (header_word input) refl
  where
    go : (w : Option (ℕ × ℕ)) → header_word input ≡ w → IsParsed input p n
    go none h = cc (parse_from_bytes-none input h, e)
    go (some (op, word)) h =
        parse_frame-IsParsed input op word p n (sym (parse_from_bytes-of input op word h) ∙ e)

-- The two end, with the same result.
abbrev Both : Run ParsedAll → Run ParsedAll → Type 0
Both x y = (r : ParsedAll) × (x ≡ returned r) × (y ≡ returned r)

after_parse-Both :
    (x : Parsed) (b : Buffer) (acc : List Packet) (go go' : Packet → Run ParsedAll)
    → ((p : Packet) (n : ℕ) → x ≡ (none, some p, n) → Both (go p) (go' p))
    → Both (after_parse x b acc go) (after_parse x b acc go')
after_parse-Both (some not_ready, p, k) b acc go go' h = (_, refl, refl)
after_parse-Both (some e, p, k) b acc go go' h = (_, refl, refl)
after_parse-Both (none, none, k) b acc go go' h = (_, refl, refl)
after_parse-Both (none, some p, k) b acc go go' h = h p k refl

if-Both :
    (b : Bool) (r : ParsedAll) (x y : Run ParsedAll)
    → Both x y
    → Both (if b then returned r else x) (if b then returned r else y)
if-Both true r x y h = (r, refl, refl)
if-Both false r x y h = h

rest_shorter :
    (k : ℕ) (b : Buffer) (p : Packet) (n : ℕ)
    → k ≤ length b
    → parse_from_bytes (take k b) ≡ (none, some p, n)
    → length (drop k b) < length b
rest_shorter k b p n h e =
    let parsed = parse_from_bytes-IsParsed (take k b) p n e in
    omega (arith, length-drop k b, length-take_le k b h, parsed.at_least, parsed.fits)

available_le : (m : ℕ) (b : Buffer) → available m b ≤ length b
available_le m b = ground arith

-- The loop ends within its fuel: on any two amounts above the number of bytes in the buffer it
-- returns, and it returns the same.
pub parse_loop-fuel :
    (f g : ℕ) (b : Buffer) (acc : List Packet)
    → length b < f
    → length b < g
    → (r : ParsedAll) × (parse_loop f b acc ≡ returned r) × (parse_loop g b acc ≡ returned r)
unfolding parse_loop next
parse_loop-fuel zero g b acc hf hg = absurd (omega arith)
parse_loop-fuel (suc f) zero b acc hf hg = absurd (omega arith)
parse_loop-fuel (suc f) (suc g) b acc hf hg =
    elim (Option-cases (header_word (peek header_length b).0)) [
      | inl e ↦ rw (e, parse_loop) ((none, acc, b), refl, refl)
      | inr ((op, w), e) ↦
          let m = bit_and w packet_max_length in
          let k = available m b in
          rw (e, parse_loop)
            (if-Both (ltb (len b) m) (none, acc, b) _ _
              (if-Both (not (k == m)) (some is_damage, acc, drop k b) _ _
                (after_parse-Both (parse_from_bytes (take k b)) (drop k b) acc
                  (λ p. parse_loop f (drop k b) (acc ++ (p ∷ [])))
                  (λ p. parse_loop g (drop k b) (acc ++ (p ∷ [])))
                  λ p n ep.
                    let less = rest_shorter k b p n (available_le m b) ep in
                    parse_loop-fuel f g (drop k b) (acc ++ (p ∷ [])) (omega arith) (omega arith))))
    ]
