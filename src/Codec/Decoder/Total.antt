-- ===== src/Codec/Decoder/Total.antt =====
-- codec/clove.go: `Decode` ends on every input.
use clove.Prelude.{
  ℕ, zero, suc, ◌/◌, ◌^◌, ◌<◌, ◌≤◌, Bool, true, false, ◌≡◌, refl, Option, none, some, List, [], ◌∷◌,
  length, length-drop, drop, arith, if◌then◌else◌, ◌==◌, bit_and,
}
use clove.Prelude.Int.{pos}
use clove.Prelude.Bytes.{ByteOrder}
use clove.Prelude.Run.{Run, returned, panicked, out_of_fuel, recover, ◌>>=◌}
use clove.Codec.Value.{
  Value, nil_value, signed, int, Entries, Items, no_items, no_entries, is_hashable, assign,
}
use clove.Codec.Encoder.{CodecError, dhl_short}
use clove.Codec.Decoder.{
  Decoded, then_drop, on_value, read_count, decode_number, decode_items, decode_entries,
  decode_element, decode_counted, decode_body, decode_fuel, decode, list_result, map_result,
}

-- The call returns a result with `P`, or panics.
abbrev Ends {ℓ} : {A : Type ℓ} → (A → Type 0) → Run A → Type 0
Ends P (returned a) = P a
Ends P panicked = Unit {0}
Ends P out_of_fuel = ⊥

Ends-if {ℓ} :
    {A : Type ℓ} (P : A → Type 0) (b : Bool) (x y : Run A)
    → Ends P x
    → Ends P y
    → Ends P (if b then x else y)
Ends-if P true x y hx hy = hx
Ends-if P false x y hx hy = hy

Ends-bind {ℓ κ} :
    {A : Type ℓ} {B : Type κ} (P : A → Type 0) (Q : B → Type 0) (r : Run A) (f : A → Run B)
    → Ends P r
    → ((a : A) → P a → Ends Q (f a))
    → Ends Q (r >>= f)
Ends-bind P Q (returned a) f h k = k a h
Ends-bind P Q panicked f h k = tt
Ends-bind P Q out_of_fuel f h k = absurd h

-- What remains is no longer than `n`.
abbrev Leaves : ℕ → Decoded → Type 0
Leaves n d = length d.2 ≤ n

then_drop-Leaves {ℓ} :
    {A : Type ℓ} (count : ℕ) (rest : List ℕ) (g : A → Value) (x : Option A) (n : ℕ)
    → length rest ≤ n
    → Ends (Leaves n) (then_drop count rest g x)
then_drop-Leaves count rest g none n h = tt
then_drop-Leaves count rest g (some a) n h = omega (arith, length-drop count rest)

decode_number-Leaves :
    (o : ByteOrder) (tp count : ℕ) (rest : List ℕ) (n : ℕ)
    → length rest ≤ n
    → Ends (Leaves n) (decode_number o tp count rest)
unfolding decode_number
decode_number-Leaves o tp count rest n h = search (Ends-if, then_drop-Leaves) depth 40

-- Nested calls on at most `m` bytes end, and leave no more than they were given.
abbrev EndsUpTo : ℕ → (List ℕ → Run Decoded) → Type 0
EndsUpTo m dec = (b : List ℕ) → length b ≤ m → Ends (Leaves (length b)) (dec b)

-- A postcondition that a longer bound weakens.
Ends-weaken {ℓ} :
    {A : Type ℓ} (P Q : A → Type 0) (r : Run A) → ((a : A) → P a → Q a) → Ends P r → Ends Q r
Ends-weaken P Q (returned a) k h = k a h
Ends-weaken P Q panicked k h = tt
Ends-weaken P Q out_of_fuel k h = h

Ends-recover :
    (n : ℕ) (r : Run Decoded)
    → Ends (Leaves n) r
    → (d : Decoded) × (recover (none, nil_value, []) r ≡ returned d) × Leaves n d
Ends-recover n (returned d) h = (d, refl, h)
Ends-recover n panicked h = ((none, nil_value, []), refl, omega arith)
Ends-recover n out_of_fuel h = absurd h

-- What remains behind a loop, of lists or of entries, is no longer than `n`.
abbrev LoopLeaves {ℓ} : {A : Type ℓ} → ℕ → Option CodecError × A × List ℕ → Type 0
LoopLeaves n r = length r.2 ≤ n

Ends-on_value :
    {A : Type 0} (z : A) (n : ℕ) (r : Run Decoded)
    (k : Value → List ℕ → Run (Option CodecError × A × List ℕ))
    → Ends (Leaves n) r
    → ((v : Value) (remain : List ℕ) → length remain ≤ n → Ends (LoopLeaves n) (k v remain))
    → Ends (LoopLeaves n) (on_value z r k)
Ends-on_value z n (returned (none, v, remain)) k h next = next v remain h
Ends-on_value z n (returned (some e, v, remain)) k h next = omega arith
Ends-on_value z n panicked k h next = tt
Ends-on_value z n out_of_fuel k h next = h

module _ (dec : List ℕ → Run Decoded) (m : ℕ) (ends : EndsUpTo m dec) where
  decode_items-Leaves :
      (n : ℕ) (rest : List ℕ) (l : ℕ)
      → length rest ≤ l
      → l ≤ m
      → Ends (LoopLeaves l) (decode_items dec n rest)
  unfolding decode_items
  decode_items-Leaves zero rest l h hl = omega arith
  decode_items-Leaves (suc n) rest l h hl =
      Ends-on_value no_items l (dec rest) _
        (Ends-weaken (Leaves (length rest)) (Leaves l) (dec rest) (λ d k. omega arith)
          (ends rest (omega arith)))
        λ v remain short.
          Ends-bind (LoopLeaves l) (LoopLeaves l) (decode_items dec n remain) _
            (decode_items-Leaves n remain l short hl) (λ r k. k)

  decode_entries-Leaves :
      (n : ℕ) (rest : List ℕ) (acc : Entries) (l : ℕ)
      → length rest ≤ l
      → l ≤ m
      → Ends (LoopLeaves l) (decode_entries dec n rest acc)
  unfolding decode_entries
  decode_entries-Leaves zero rest acc l h hl = omega arith
  decode_entries-Leaves (suc n) rest acc l h hl =
      Ends-on_value no_entries l (dec rest) _
        (Ends-weaken (Leaves (length rest)) (Leaves l) (dec rest) (λ d k. omega arith)
          (ends rest (omega arith)))
        λ k remain short.
          Ends-on_value no_entries l (dec remain) _
            (Ends-weaken (Leaves (length remain)) (Leaves l) (dec remain) (λ d k. omega arith)
              (ends remain (omega arith)))
            λ v remain' short'.
              Ends-if (LoopLeaves l) (is_hashable k) _ panicked
                (decode_entries-Leaves n remain' (assign acc k v) l short' hl) tt

list_result-Leaves :
    (n : ℕ) (r : Option CodecError × Items × List ℕ) → LoopLeaves n r → Leaves n (list_result r)
list_result-Leaves n (none, xs, rest) h = h
list_result-Leaves n (some e, xs, rest) h = omega arith

map_result-Leaves :
    (n : ℕ) (r : Option CodecError × Entries × List ℕ) → LoopLeaves n r → Leaves n (map_result r)
map_result-Leaves n (none, xs, rest) h = h
map_result-Leaves n (some e, xs, rest) h = omega arith

drop-Leaves : (count : ℕ) (rest : List ℕ) (n : ℕ) → length rest ≤ n → length (drop count rest) ≤ n
drop-Leaves count rest n h = omega (arith, length-drop count rest)

read_count-shorter :
    (o : ByteOrder) (c tp b : ℕ) (raw rest : List ℕ) (n : ℕ)
    → read_count o c tp (b ∷ raw) ≡ some (rest, n)
    → length rest ≤ length raw
unfolding read_count
read_count-shorter o c tp b raw rest n h =
    ground (arith, length-drop 1 raw, length-drop 2 raw, length-drop 4 raw)

decode_element-Leaves :
    (o : ByteOrder) (dec : List ℕ → Run Decoded) (raw rest : List ℕ) (tp count n : ℕ)
    → length rest ≤ n
    → length raw ≤ n
    → EndsUpTo (length rest) dec
    → Ends (Leaves n) (decode_element o dec raw tp count rest)
unfolding decode_element
decode_element-Leaves o dec raw rest tp count n h hr hd =
    search (Ends-if, decode_number-Leaves o tp count rest n h, drop-Leaves, list_loop, map_loop)
      depth 30
  where
    list_loop : Ends (Leaves n) (decode_items dec count rest >>= λ r. returned (list_result r))
    list_loop =
        Ends-bind (LoopLeaves (length rest)) (Leaves n) (decode_items dec count rest) _
          (decode_items-Leaves dec (length rest) hd count rest (length rest) (omega arith)
            (omega arith))
          λ r k. list_result-Leaves n r (omega arith)

    map_loop :
        Ends (Leaves n) (decode_entries dec count rest no_entries >>= λ r. returned (map_result r))
    map_loop =
        Ends-bind (LoopLeaves (length rest)) (Leaves n) (decode_entries dec count rest no_entries) _
          (decode_entries-Leaves dec (length rest) hd count rest no_entries (length rest)
            (omega arith) (omega arith))
          λ r k. map_result-Leaves n r (omega arith)

decode_counted-Leaves :
    (o : ByteOrder) (dec : List ℕ → Run Decoded) (raw : List ℕ) (tp : ℕ) (c : Option (List ℕ × ℕ))
    → ((b : List ℕ) → length b < length raw → Ends (Leaves (length b)) (dec b))
    → ((rest : List ℕ) (n : ℕ) → c ≡ some (rest, n) → length rest < length raw)
    → Ends (Leaves (length raw)) (decode_counted o dec raw tp c)
unfolding decode_counted
decode_counted-Leaves o dec raw tp none hd hc = omega arith
decode_counted-Leaves o dec raw tp (some (rest, n)) hd hc =
    let shorter : length rest < length raw = hc rest n refl in
    Ends-if (Leaves (length raw)) _ (returned (some dhl_short, nil_value, [])) _ z (
      decode_element-Leaves o dec raw rest tp n (length raw) (omega arith) (omega arith)
        λ d k. hd d (omega arith))
  where
    z : 0 ≤ length raw
    z = omega arith

decode_body-Leaves :
    (o : ByteOrder) (dec : List ℕ → Run Decoded) (raw : List ℕ)
    → ((b : List ℕ) → length b < length raw → Ends (Leaves (length b)) (dec b))
    → Ends (Leaves (length raw)) (decode_body o dec raw)
unfolding decode_body
decode_body-Leaves o dec [] hd = omega arith
decode_body-Leaves o dec (b ∷ raw) hd =
    Ends-if (Leaves (suc (length raw))) (b / 2 ^ 7 == 0) (returned (none, signed int (pos b), raw))
      _ (omega arith)
      (decode_counted-Leaves o dec (b ∷ raw) (bit_and b 0x1f)
        (read_count o (bit_and (b / 2 ^ 5) 0x3) (bit_and b 0x1f) (b ∷ raw)) hd
        λ rest n e.
          omega
            (arith, read_count-shorter o (bit_and (b / 2 ^ 5) 0x3) (bit_and b 0x1f) b raw rest n e))

decode_fuel-Leaves :
    (f : ℕ) (o : ByteOrder) (raw : List ℕ)
    → length raw < f
    → (d : Decoded) × (decode_fuel f o raw ≡ returned d) × Leaves (length raw) d
unfolding decode_fuel
decode_fuel-Leaves zero o raw h = absurd (omega arith)
decode_fuel-Leaves (suc f) o raw h =
    Ends-recover (length raw) (decode_body o (decode_fuel f o) raw) (
      decode_body-Leaves o (decode_fuel f o) raw
        λ b k. let (d, e, l) = decode_fuel-Leaves f o b (omega arith) in rw e l)

-- On every input, of whatever bytes, `Decode` returns: its recursion ends within the fuel of the
-- model, a panic is recovered, and the bytes that it hands back are no more than it was given.
pub decode-total :
    (o : ByteOrder) (raw : List ℕ)
    → (d : Decoded) × (decode o raw ≡ returned d) × (length d.2 ≤ length raw)
unfolding decode
decode-total o raw = decode_fuel-Leaves (suc (length raw)) o raw (omega arith)
