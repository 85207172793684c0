-- ===== src/Network/CloveFormat/Score.antt =====
-- network/clove.go: `TestMatchScore` on a stream of frames, and what the manager of formats makes of
-- it when the Clove format is the only one.
use clove.Prelude.{
  [], ◌∷◌, ℕ, ◌+◌, ◌*◌, ◌/◌, ◌%◌, ◌^◌, ◌<◌, ◌≡◌, inl, inr, true, false, refl, arith, Bool, Option,
  none, some, List, ◌++◌, length, ltb, ◌==◌, bit_and, not, sym, ◌∙◌, length-append, if◌then◌else◌,
  ◌||◌,
}
use mathlib.Core.Path.{subst}
use clove.Prelude.Bits.{bit_and_low}
use clove.Network.CloveFormat.Stream.{
  length-frame, frame, IsIncomplete, header_word-frame, header_word-peek,
}
use clove.Base.Buffer.{len}
use clove.Network.Packet.{BinaryPacket, packet_max_length}
use clove.Network.CloveFormat.{
  test_match_score, header_word, header_length, mask_feature, ◌∷◌, package_word,
}
use clove.Network.CloveFormat.Frame.{
  IsFramable, package_word-fields, flag_byte, flag_byte_fields, word_fields,
}

-- A protocol that scores.
abbrev pub IsScored : BinaryPacket → Type 0
IsScored p = (0 < p.protocol_type) × (0 < p.protocol_ver)

-- A score that `DetermineFromBuffer` does not take when it is the only one.
abbrev pub IsLow : Option ℕ → Type 0
IsLow none = Unit {0}
IsLow (some s) = s < 90

-- The tests of `TestMatchScore` on the header and on the length of the buffer.
abbrev no_protocol : ℕ → Bool
no_protocol word = bit_and (word / 2 ^ 28) 0xf == 0 || bit_and (word / 2 ^ 24) 0xf == 0

abbrev bad_length : ℕ → Bool
bad_length n = ltb packet_max_length n || ltb n header_length

abbrev bad_feature : ℕ → Bool
bad_feature op = not (bit_and op mask_feature == mask_feature)

abbrev is_partial : List ℕ → ℕ → Bool
is_partial b n = ltb (length b % 2 ^ 32) n

abbrev score_by : (a b c d : Bool) → Option ℕ
score_by a b c d =
    if a then some 0 else if b then some 0 else if c then some 0 else if d then some 50 else some 99

score_by-IsLow : (a b c d : Bool) → d ≡ true → IsLow (score_by a b c d)
score_by-IsLow true b c d e = omega arith
score_by-IsLow false true c d e = omega arith
score_by-IsLow false false true d e = omega arith
score_by-IsLow false false false true e = omega arith
score_by-IsLow false false false false e = absurd (cc)

score_by-whole :
    (a b c d : Bool) → a ≡ false → b ≡ false → c ≡ false → d ≡ false → score_by a b c d ≡ some 99
score_by-whole a b c d ea eb ec ed = rw (ea, eb, ec, ed) refl

header_score :
    (b : List ℕ) (op word : ℕ)
    → header_word b ≡ some (op, word)
    → test_match_score b
      ≡ score_by
          (no_protocol word)
          (bad_length (bit_and word packet_max_length))
          (bad_feature op)
          (is_partial b (bit_and word packet_max_length))
unfolding test_match_score len
header_score b op word e = rw (header_word-peek b ∙ e, test_match_score) refl

max_length-lt : (word : ℕ) → bit_and word packet_max_length < 2 ^ 24
max_length-lt word =
    let split : word ≡ word / 2 ^ 24 * 2 ^ 24 + word % 2 ^ 24 = omega arith in
    let low : bit_and (word / 2 ^ 24 * 2 ^ 24 + word % 2 ^ 24) packet_max_length ≡ word % 2 ^ 24 =
      bit_and_low 24 (word / 2 ^ 24) (word % 2 ^ 24) (omega arith) in
    let same : bit_and word packet_max_length ≡ word % 2 ^ 24 =
      subst (λ (w : ℕ). bit_and w packet_max_length ≡ word % 2 ^ 24) (sym split) low in
    omega arith

header_word-lt : (b : List ℕ) → header_word b ≡ none → length b < 5
header_word-lt [] e = omega arith
header_word-lt (a ∷ []) e = omega arith
header_word-lt (a ∷ b ∷ []) e = omega arith
header_word-lt (a ∷ b ∷ c ∷ []) e = omega arith
header_word-lt (a ∷ b ∷ c ∷ d ∷ []) e = omega arith
header_word-lt (a ∷ b ∷ c ∷ d ∷ f ∷ r) e = absurd (cc)

pub length-IsIncomplete : (b : List ℕ) → IsIncomplete b → length b < 2 ^ 24
length-IsIncomplete b (inl e) = omega (arith, header_word-lt b e)
length-IsIncomplete b (inr (op, word, e, l)) = omega (arith, max_length-lt word)

pub incomplete-IsLow : (b : List ℕ) → IsIncomplete b → IsLow (test_match_score b)
unfolding test_match_score
incomplete-IsLow b (inl e) = rw (header_word-peek b ∙ e, test_match_score) tt
incomplete-IsLow b (inr (op, word, e, l)) =
    let n : ℕ = bit_and word packet_max_length in
    rw (header_score b op word e) (
      score_by-IsLow (no_protocol word) (bad_length n) (bad_feature op) (is_partial b n)
        (ground (arith, max_length-lt word)))

pub whole-score :
    (p : BinaryPacket) (rest : List ℕ)
    → IsFramable p
    → IsScored p
    → length (frame p ++ rest) < 2 ^ 32
    → test_match_score (frame p ++ rest) ≡ some 99
whole-score p rest (ht, hv, hl) (st, sv) l =
    let op : ℕ = flag_byte p.encrypted p.compress_support p.compressed in
    let n : ℕ = bit_and (package_word p) packet_max_length in
    let (wl, wt, wv) =
      word_fields p.protocol_type p.protocol_ver (length p.raw + 5) ht hv (omega arith) in
    let (fm, fe, fs, fc) = flag_byte_fields p.encrypted p.compress_support p.compressed in
    let w = package_word-fields p (ht, hv, hl) in
    header_score (frame p ++ rest) op (package_word p) (header_word-frame p rest (ht, hv, hl))
    ∙ score_by-whole (no_protocol (package_word p)) (bad_length n) (bad_feature op)
        (is_partial (frame p ++ rest) n) (rw (w, wt, wv) (ground arith)) (rw (w, wl) (ground arith))
        (rw fm refl) (rw (w, wl) (ground (arith, length-append (frame p) rest, length-frame p)))
