-- ===== src/Network/HttpFormat/Fuel.antt =====
-- network/http.go: the loop of `ParseFromBuffer` ends, and what it leaves and returns.
use clove.Prelude.{
  ℕ, zero, suc, ◌<◌, ◌≡◌, Option, none, some, List, [], ◌∷◌, ◌++◌, length, drop, ltb, refl, arith,
  Bool-cases, inl, inr, length-drop,
}
use clove.Prelude.Int.{ℤ, pos, negsuc, ltb_ℤ}
use clove.Base.Buffer.{Buffer, next, len}
use clove.Base.Bit.{read_ascii_code}
use clove.Network.Packet.{
  unsupported, not_ready, not_match, is_damage, req_disconnect, library_error, Packet, Parsed,
}
use clove.Network.HttpFormat.{
  HttpLib, Request, Round, kept, refused, again, after_take, take_request, with_request,
  with_header, round, after_round, parse_http_loop, total_length, http_header_min_length, is_method,
  http_max_length_supported, header_end,
}

-- A round that goes on has taken bytes.
abbrev IsShorter : Buffer → Round → Type 0
IsShorter b (kept rest) = Unit {0}
IsShorter b (refused e rest) = Unit {0}
IsShorter b (again p rest) = length rest < length b

module _ (lib : HttpLib) where
  after_take-IsShorter :
      (b rest : Buffer) (p : Parsed) → length rest < length b → IsShorter b (after_take p rest)
  unfolding after_take
  after_take-IsShorter b rest (some not_ready, p, n) h = tt
  after_take-IsShorter b rest (some unsupported, p, n) h = tt
  after_take-IsShorter b rest (some not_match, p, n) h = tt
  after_take-IsShorter b rest (some is_damage, p, n) h = tt
  after_take-IsShorter b rest (some req_disconnect, p, n) h = tt
  after_take-IsShorter b rest (some library_error, p, n) h = tt
  after_take-IsShorter b rest (none, none, n) h = tt
  after_take-IsShorter b rest (none, some p, n) h = h

  take_request-IsShorter :
      (b : Buffer) (total : ℕ) → 0 < total → IsShorter b (take_request lib b total)
  unfolding take_request next len
  take_request-IsShorter b total h = elim (Bool-cases (ltb (length b) total)) [
    | inl e ↦ rw e tt
    | inr e ↦ rw e (after_take-IsShorter b (drop total b) _ (ground (arith, length-drop total b)))
  ]

  total_length_positive : (i : ℕ) (n : ℤ) → 0 < total_length i n
  unfolding total_length
  total_length_positive i (pos n) = omega arith
  total_length_positive i (negsuc n) = omega arith

  with_request-IsShorter :
      (b : Buffer) (i : ℕ) (o : Option Request) → IsShorter b (with_request lib b i o)
  unfolding with_request len
  with_request-IsShorter b i none = tt
  with_request-IsShorter b i (some r) =
      elim (Bool-cases (ltb_ℤ (pos (length b)) r.content_length)) [
        | inl e ↦ rw e tt
        | inr e ↦ elim (Bool-cases (ltb_ℤ (pos http_max_length_supported) r.content_length)) [
          | inl f ↦ rw (e, f) tt
          | inr f ↦
              rw (e, f)
                (take_request-IsShorter b (total_length i r.content_length)
                  (total_length_positive i r.content_length))
        ]
      ]

  with_header-IsShorter : (b : Buffer) (o : Option ℕ) → IsShorter b (with_header lib b o)
  unfolding with_header
  with_header-IsShorter b none = tt
  with_header-IsShorter b (some i) = with_request-IsShorter b i (lib.read_request b)

  round-IsShorter : (b : Buffer) → IsShorter b (round lib b)
  unfolding round len
  round-IsShorter b = elim (Bool-cases (ltb (length b) http_header_min_length)) [
    | inl e ↦ rw e tt
    | inr e ↦ elim (Bool-cases (is_method (read_ascii_code b))) [
      | inl f ↦ rw (e, f) (with_header-IsShorter b (header_end b))
      | inr f ↦ rw (e, f) tt
    ]
  ]

  -- The loop on two amounts of fuel, behind a round.
  rounds_same :
      (f g : ℕ) (b : Buffer) (pcks : List Packet) (r : Round)
      → IsShorter b r
      → ((rest : Buffer) (more : List Packet)
          → length rest < length b
          → parse_http_loop lib f rest more ≡ parse_http_loop lib g rest more)
      → after_round pcks r (λ p rest. parse_http_loop lib f rest (pcks ++ (p ∷ [])))
        ≡ after_round pcks r (λ p rest. parse_http_loop lib g rest (pcks ++ (p ∷ [])))
  rounds_same f g b pcks (kept rest) h same = refl
  rounds_same f g b pcks (refused e rest) h same = refl
  rounds_same f g b pcks (again p rest) h same = same rest (pcks ++ (p ∷ [])) h

  -- The loop of `ParseFromBuffer` ends whatever package net/http makes of the bytes: every fuel
  -- above the length of the buffer gives the same result.
  parse_http_loop-fuel :
      (f g : ℕ) (b : Buffer) (pcks : List Packet)
      → length b < f
      → length b < g
      → parse_http_loop lib f b pcks ≡ parse_http_loop lib g b pcks
  unfolding parse_http_loop
  parse_http_loop-fuel zero g b pcks hf hg = absurd (omega arith)
  parse_http_loop-fuel (suc f) zero b pcks hf hg = absurd (omega arith)
  parse_http_loop-fuel (suc f) (suc g) b pcks hf hg =
      rounds_same f g b pcks (round lib b) (round-IsShorter b)
        (λ rest more h. parse_http_loop-fuel f g rest more (omega arith) (omega arith))
