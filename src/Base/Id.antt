-- ===== src/Base/Id.antt =====
-- base/id.go: the layout of `CloveId`, the ids of a generator, and the hash of a machine id.
pub mod Distinct
pub mod Machine
pub mod Collect
use clove.Prelude.{
  ℕ, ◌+◌, ◌*◌, ◌/◌, ◌%◌, ◌^◌, bit_and, bit_or, List, [], ◌∷◌, ◌++◌, Bool, true, false, ltb, ◌==◌,
  if◌then◌else◌,
}
use clove.Prelude.Bytes.{ByteOrder, big_endian, put_uint64}

-- Four fields of 16 bits.
pub record CloveId : Type 0 where
  pub a : ℕ
  pub b : ℕ
  pub c : ℕ
  pub d : ℕ

unfoldable pub integer : CloveId → ℕ
integer id = bit_or (bit_or (bit_or (id.d * 2 ^ 48) (id.c * 2 ^ 32)) (id.a * 2 ^ 16)) id.b

unfoldable pub data_with_byte_order : ByteOrder → CloveId → List ℕ
unfolding integer put_uint64
data_with_byte_order o id = put_uint64 o (integer id)

abbrev id_data : CloveId → List ℕ
unfolding data_with_byte_order
id_data id = data_with_byte_order big_endian id

-- The id of a process and a number, which both `NextId` and `NextIdWithSeed` make.
unfoldable pub make_id : ℕ → ℕ → CloveId
make_id pid next = record {
  a = bit_and pid 0xffff;
  b = pid / 2 ^ 16 % 2 ^ 16;
  c = bit_and next 0xffff;
  d = next / 2 ^ 16 % 2 ^ 16;
}

unfoldable pub next_id_with_seed : ℕ → ℕ → CloveId
unfolding make_id
next_id_with_seed pid seed = make_id pid seed

-- `NextId` of a generator with this seed: the id, and the seed that it leaves, which no line of it
-- changes.
unfoldable next_id : ℕ → ℕ → CloveId × ℕ
unfolding make_id
next_id pid seed = (make_id pid ((seed + 1) % 2 ^ 64), seed)

-- `<` on strings, as a test that the first is not above the second.
unfoldable pub str_leb : List ℕ → List ℕ → Bool
str_leb [] t = true
str_leb (x ∷ s) [] = false
str_leb (x ∷ s) (y ∷ t) = if ltb x y then true else if x == y then str_leb s t else false

unfoldable pub insert : List ℕ → List (List ℕ) → List (List ℕ)
unfolding str_leb
insert s [] = s ∷ []
insert s (t ∷ ts) = if str_leb s t then s ∷ t ∷ ts else t ∷ insert s ts

-- `sort.Slice`: equal strings are the same, so that the sorted slice is one.
unfoldable pub sort : List (List ℕ) → List (List ℕ)
unfolding insert
sort [] = []
sort (s ∷ ss) = insert s (sort ss)

pub record MachineId : Type 0 where
  pub cpu_id : List (List ℕ)
  pub hw_addr : List (List ℕ)

unfoldable write_all_with : ℕ → List (List ℕ) → List ℕ
write_all_with mark [] = []
write_all_with mark (s ∷ ss) = s ++ (mark ∷ write_all_with mark ss)

unfoldable pub hash_input : MachineId → List ℕ
unfolding sort write_all_with
hash_input id = write_all_with b'|' (sort id.cpu_id) ++ write_all_with b'+' (sort id.hw_addr)

-- No address, no hash.
abbrev pub hash_or_empty : List (List ℕ) → List ℕ → List ℕ
hash_or_empty [] h = []
hash_or_empty (s ∷ ss) h = h

-- `GetHash`, with crypto/sha1 as a parameter, and `GetHashString`, with encoding/hex as another.
unfoldable pub get_hash : (List ℕ → List ℕ) → MachineId → List ℕ
unfolding hash_input
get_hash sha1 id = hash_or_empty id.hw_addr (sha1 (hash_input id))

unfoldable get_hash_string : (List ℕ → List ℕ) → (List ℕ → List ℕ) → MachineId → List ℕ
unfolding get_hash
get_hash_string hex sha1 id = hex (get_hash sha1 id)
