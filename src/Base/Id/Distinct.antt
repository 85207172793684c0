-- ===== src/Base/Id/Distinct.antt =====
-- base/id.go: ids that differ.
use clove.Prelude.{
  some-injective, ℕ, ◌+◌, ◌*◌, ◌/◌, ◌%◌, ◌^◌, ◌<◌, ◌≡◌, bit_and, bit_or, some, arith, ap, ◌∙◌, sym,
  append-nil,
}
use clove.Prelude.Bits.{bit_or_sum, bit_and_low}
use clove.Prelude.Xor.{bit_or_comm}
use clove.Prelude.Bytes.{ByteOrder, uint64, put_uint64, uint64-put_uint64}
use clove.Base.Id.{CloveId, integer, data_with_byte_order, make_id, next_id_with_seed}

abbrev IsField : ℕ → Type 0
IsField n = n < 2 ^ 16

or_high : (k hi lo : ℕ) → lo < 2 ^ k → bit_or (hi * 2 ^ k) lo ≡ hi * 2 ^ k + lo
or_high k hi lo h = bit_or_comm (hi * 2 ^ k) lo ∙ bit_or_sum k hi lo h

integer-sum :
    (id : CloveId)
    → IsField id.a
    → IsField id.b
    → IsField id.c
    → integer id ≡ ((id.d * 2 ^ 16 + id.c) * 2 ^ 16 + id.a) * 2 ^ 16 + id.b
unfolding integer
integer-sum id ha hb hc =
    let first : bit_or (id.d * 2 ^ 48) (id.c * 2 ^ 32) ≡ (id.d * 2 ^ 16 + id.c) * 2 ^ 32 =
      or_high 48 id.d (id.c * 2 ^ 32) (omega arith) ∙ omega arith in
    let second : bit_or ((id.d * 2 ^ 16 + id.c) * 2 ^ 32) (id.a * 2 ^ 16)
        ≡ ((id.d * 2 ^ 16 + id.c) * 2 ^ 16 + id.a) * 2 ^ 16 =
      or_high 32 (id.d * 2 ^ 16 + id.c) (id.a * 2 ^ 16) (omega arith) ∙ omega arith in
    rw (first, second) (or_high 16 ((id.d * 2 ^ 16 + id.c) * 2 ^ 16 + id.a) id.b hb)

make_id-integer :
    (pid seed : ℕ)
    → pid < 2 ^ 32
    → seed < 2 ^ 32
    → integer (make_id pid seed) ≡ seed * 2 ^ 32 + (pid % 2 ^ 16 * 2 ^ 16 + pid / 2 ^ 16)
unfolding make_id
make_id-integer pid seed hp hs =
    let low_pid : bit_and pid 0xffff ≡ pid % 2 ^ 16 =
      ap (λ (n : ℕ). bit_and n 0xffff) (omega arith)
      ∙ bit_and_low 16 (pid / 2 ^ 16) (pid % 2 ^ 16) (omega arith) in
    let low_seed : bit_and seed 0xffff ≡ seed % 2 ^ 16 =
      ap (λ (n : ℕ). bit_and n 0xffff) (omega arith)
      ∙ bit_and_low 16 (seed / 2 ^ 16) (seed % 2 ^ 16) (omega arith) in
    integer-sum (make_id pid seed) (rw low_pid (omega arith)) (omega arith)
      (rw low_seed (omega arith))
    ∙ rw (low_pid, low_seed) (omega arith)

-- What is read back from the bytes of an id.
data-integer :
    (o : ByteOrder) (id : CloveId)
    → integer id < 2 ^ 64
    → uint64 o (data_with_byte_order o id) ≡ some (integer id)
unfolding data_with_byte_order
data-integer o id h =
    ap (uint64 o) (sym (append-nil (put_uint64 o (integer id))))
    ∙ uint64-put_uint64 o (integer id) _ h

-- Ids that `NextIdWithSeed` makes for process ids and seeds of 32 bits have different bytes, in
-- either byte order, unless both the process and the seed are the same.
pub next_id_with_seed-distinct :
    (o : ByteOrder) (pid pid' seed seed' : ℕ)
    → pid < 2 ^ 32
    → pid' < 2 ^ 32
    → seed < 2 ^ 32
    → seed' < 2 ^ 32
    → data_with_byte_order o (next_id_with_seed pid seed)
      ≡ data_with_byte_order o (next_id_with_seed pid' seed')
    → (pid ≡ pid') × (seed ≡ seed')
unfolding next_id_with_seed
next_id_with_seed-distinct o pid pid' seed seed' hp hp' hs hs' e =
    let i = make_id-integer pid seed hp hs in
    let i' = make_id-integer pid' seed' hp' hs' in
    let read = data-integer o (make_id pid seed) (omega (arith, i)) in
    let read' = data-integer o (make_id pid' seed') (omega (arith, i')) in
    let same : integer (make_id pid seed) ≡ integer (make_id pid' seed') =
      some-injective (sym read ∙ ap (uint64 o) e ∙ read') in
    (omega (arith, i, i', same), omega (arith, i, i', same))
