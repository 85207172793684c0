-- ===== src/Base/Id/Machine.antt =====
-- base/id.go: the hash of a machine does not depend on the order of its parts.
use mathlib.Core.List.{Permᴰ}
use clove.Prelude.{
  sym, ℕ, ◌≡◌, true, false, List, [], ◌∷◌, refl, arith, ap, ◌∙◌, Bool-cases, inl, inr,
}
use clove.Base.Id.{str_leb, hash_or_empty, get_hash, sort, insert, hash_input, MachineId}

str_leb_total : (s t : List ℕ) → str_leb s t ≡ false → str_leb t s ≡ true
unfolding str_leb
str_leb_total [] t h = absurd (cc)
str_leb_total (x ∷ s) [] h = refl
str_leb_total (x ∷ s) (y ∷ t) h = ground (arith, str_leb_total s t)

str_leb_antisym : (s t : List ℕ) → str_leb s t ≡ true → str_leb t s ≡ true → s ≡ t
unfolding str_leb
str_leb_antisym [] [] h g = refl
str_leb_antisym [] (y ∷ t) h g = absurd (cc)
str_leb_antisym (x ∷ s) [] h g = absurd (cc)
str_leb_antisym (x ∷ s) (y ∷ t) h g = ground (arith, str_leb_antisym s t)

str_leb_trans : (r s t : List ℕ) → str_leb r s ≡ true → str_leb s t ≡ true → str_leb r t ≡ true
unfolding str_leb
str_leb_trans [] s t h g = refl
str_leb_trans (x ∷ r) [] t h g = absurd (cc)
str_leb_trans (x ∷ r) (y ∷ s) [] h g = absurd (cc)
str_leb_trans (x ∷ r) (y ∷ s) (z ∷ t) h g = ground (arith, str_leb_trans r s t)

insert_same :
    (a b : List ℕ) (l : List (List ℕ)) → a ≡ b → insert a (insert b l) ≡ insert b (insert a l)
insert_same a b l e =
    ap (λ (c : List ℕ). insert c (insert b l)) e
    ∙ ap (λ (c : List ℕ). insert b (insert c l)) (sym e)

insert_comm : (a b : List ℕ) (l : List (List ℕ)) → insert a (insert b l) ≡ insert b (insert a l)
unfolding insert
insert_comm a b [] = elim (Bool-cases (str_leb a b)) [
  | inl t ↦ elim (Bool-cases (str_leb b a)) [
    | inl u ↦ rw (str_leb_antisym a b t u) refl
    | inr u ↦ rw (t, u) refl
  ]
  | inr t ↦ rw (t, str_leb_total a b t) refl
]
insert_comm a b (y ∷ l) = elim (Bool-cases (str_leb a y)) [
  | inl ay ↦ elim (Bool-cases (str_leb b y)) [
    | inl b_y ↦ elim (Bool-cases (str_leb a b)) [
      | inl t ↦ elim (Bool-cases (str_leb b a)) [
        | inl u ↦ insert_same a b (y ∷ l) (str_leb_antisym a b t u)
        | inr u ↦ rw (ay, b_y, t, u) refl
      ]
      | inr t ↦ rw (ay, b_y, t, str_leb_total a b t) (rw ay refl)
    ]
    | inr b_y ↦
        let apart : str_leb b a ≡ false = elim (Bool-cases (str_leb b a)) [
          | inl t ↦ absurd (cc (str_leb_trans b a y t ay))
          | inr t ↦ t
        ] in
        rw (ay, b_y, apart) (rw ay refl)
  ]
  | inr ay ↦ elim (Bool-cases (str_leb b y)) [
    | inl b_y ↦
        let apart : str_leb a b ≡ false = elim (Bool-cases (str_leb a b)) [
          | inl t ↦ absurd (cc (str_leb_trans a b y t b_y))
          | inr t ↦ t
        ] in
        rw (ay, b_y, apart) (rw ay refl)
    | inr b_y ↦ rw (ay, b_y) (rw (ay, insert_comm a b l) refl)
  ]
]

sort-perm : (l m : List (List ℕ)) → Permᴰ l m → sort l ≡ sort m
unfolding sort
sort-perm _ _ Permᴰ.nil = refl
sort-perm _ _ (Permᴰ.cons {l₁ = l} {l₂ = m} e d) = rw (e, sort-perm l m d) refl
sort-perm _ _ (Permᴰ.swap {a' = c} {b' = d} {l = l} e f) = rw (e, f) (insert_comm d c (sort l))
sort-perm l n (Permᴰ.trans {l₂ = m} d e) = sort-perm l m d ∙ sort-perm m n e

hash_or_empty-perm :
    (l m : List (List ℕ)) (h : List ℕ) → Permᴰ l m → hash_or_empty l h ≡ hash_or_empty m h
hash_or_empty-perm _ _ h Permᴰ.nil = refl
hash_or_empty-perm _ _ h (Permᴰ.cons e d) = refl
hash_or_empty-perm _ _ h (Permᴰ.swap e f) = refl
hash_or_empty-perm l n h (Permᴰ.trans {l₂ = m} d e) =
    hash_or_empty-perm l m h d ∙ hash_or_empty-perm m n h e

-- The hash of a machine id is the same in whatever order the processors and the network addresses
-- are listed.
pub get_hash-perm :
    (sha1 : List ℕ → List ℕ) (m n : MachineId)
    → Permᴰ m.cpu_id n.cpu_id
    → Permᴰ m.hw_addr n.hw_addr
    → get_hash sha1 m ≡ get_hash sha1 n
unfolding get_hash hash_input
get_hash-perm sha1 m n cpus addrs =
    rw (sort-perm m.cpu_id n.cpu_id cpus, sort-perm m.hw_addr n.hw_addr addrs)
      (hash_or_empty-perm m.hw_addr n.hw_addr _ addrs)
