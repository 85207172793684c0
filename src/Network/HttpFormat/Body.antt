-- ===== src/Network/HttpFormat/Body.antt =====
-- network/http.go: where the first blank line of a text is.
use clove.Prelude.{
  length-append, ℕ, zero, suc, ◌+◌, ◌≡◌, ◌≢◌, false, Option, none, some, List, [], ◌∷◌, ◌++◌,
  length, drop, All, refl, arith, ap, ◌∙◌, sym, append_assoc,
}
use clove.Network.HttpFormat.{starts_blank, next_index, header_end, join_with, crlf}

abbrev pub IsPlain : List ℕ → Type 0
IsPlain = All (λ (c : ℕ). c ≢ 13)

abbrev pub shift : ℕ → Option ℕ → Option ℕ
shift n none = none
shift n (some i) = some (n + i)

starts_blank-plain : (c : ℕ) (s : List ℕ) → c ≢ 13 → starts_blank (c ∷ s) ≡ false
unfolding starts_blank
starts_blank-plain c [] h = refl
starts_blank-plain c (x ∷ []) h = refl
starts_blank-plain c (x ∷ y ∷ []) h = refl
starts_blank-plain c (x ∷ y ∷ z ∷ s) h = ground arith

shift_next : (n : ℕ) (o : Option ℕ) → next_index (shift n o) ≡ shift (suc n) o
shift_next n none = refl
shift_next n (some i) = ap some (omega arith)

shift_zero : (o : Option ℕ) → shift 0 o ≡ o
shift_zero none = refl
shift_zero (some i) = ap some (omega arith)

header_end-step : (c : ℕ) (s : List ℕ) → c ≢ 13 → header_end (c ∷ s) ≡ next_index (header_end s)
unfolding header_end
header_end-step c s h = rw (starts_blank-plain c s h) refl

-- No blank line starts in text without a carriage return.
pub header_end-plain :
    (s t : List ℕ) → IsPlain s → header_end (s ++ t) ≡ shift (length s) (header_end t)
header_end-plain [] t h = sym (shift_zero (header_end t))
header_end-plain (c ∷ s) t (hc, hs) =
    header_end-step c (s ++ t) hc
    ∙ ap next_index (header_end-plain s t hs)
    ∙ shift_next (length s) (header_end t)

starts_blank-line : (c : ℕ) (s : List ℕ) → c ≢ 13 → starts_blank (crlf ++ (c ∷ s)) ≡ false
unfolding starts_blank
starts_blank-line c [] h = refl
starts_blank-line c (d ∷ s) h = ground arith

next_twice : (o : Option ℕ) → next_index (next_index o) ≡ shift 2 o
next_twice none = refl
next_twice (some i) = ap some (omega arith)

-- Nor at the end of a line that another line follows.
pub header_end-line :
    (c : ℕ) (s t : List ℕ) → c ≢ 13 → t ≡ c ∷ s → header_end (crlf ++ t) ≡ shift 2 (header_end t)
unfolding header_end
header_end-line c s t h e = rw e (
    rw (starts_blank-line c s h) (ap next_index (header_end-step 10 (c ∷ s) (omega arith)))
    ∙ next_twice (header_end (c ∷ s)))

abbrev pub IsLine : List ℕ → Type 0
IsLine [] = ⊥
IsLine (c ∷ s) = IsPlain (c ∷ s)

-- The text of lines starts with the first of them.
pub join_with-first :
    (c : ℕ) (s : List ℕ) (ls : List (List ℕ)) (t : List ℕ)
    → (r : List ℕ) × (join_with crlf ((c ∷ s) ∷ ls) ++ t ≡ c ∷ r)
unfolding join_with
join_with-first c s [] t = (s ++ t, refl)
join_with-first c s (l ∷ ls) t = ((s ++ (crlf ++ join_with crlf (l ∷ ls))) ++ t, refl)

-- Behind lines the first blank line is the one after the last of them.
pub header_end-lines :
    (l : List ℕ) (ls : List (List ℕ)) (body : List ℕ)
    → IsLine l
    → All IsLine ls
    → header_end (join_with crlf (l ∷ ls) ++ (crlf ++ (crlf ++ body)))
      ≡ some (length (join_with crlf (l ∷ ls)))
unfolding join_with header_end starts_blank
header_end-lines [] ls body h hs = absurd h
header_end-lines (c ∷ s) [] body h hs =
    header_end-plain (c ∷ s) (crlf ++ (crlf ++ body)) h ∙ ap some (omega arith)
header_end-lines (c ∷ s) ([] ∷ ls) body h (none_here, hs) = absurd none_here
header_end-lines (c ∷ s) ((d ∷ m) ∷ ls) body h ((hd, hm), hs) =
    let rest = join_with crlf ((d ∷ m) ∷ ls) in
    let blank = crlf ++ (crlf ++ body) in
    let (r, first) = join_with-first d m ls blank in
    ap header_end (append_assoc (c ∷ s) (crlf ++ rest) blank)
    ∙ header_end-plain (c ∷ s) (crlf ++ (rest ++ blank)) h
    ∙ ap (shift (length (c ∷ s))) (
        header_end-line d r (rest ++ blank) hd first
        ∙ ap (shift 2) (header_end-lines (d ∷ m) ls body (hd, hm) hs))
    ∙ ap some (omega (arith, length-append (c ∷ s) (crlf ++ rest)))

-- Four bytes behind the position of a blank line is what follows it.
pub drop-blank : (n : ℕ) (s t : List ℕ) → n ≡ length s + 4 → drop n (s ++ (crlf ++ (crlf ++ t))) ≡ t
drop-blank n [] t e = ap (λ (k : ℕ). drop k (crlf ++ (crlf ++ t))) (e ∙ four)
  where
    four : 0 + 4 ≡ 4
    four = omega arith
drop-blank zero (c ∷ s) t e = absurd (omega arith)
drop-blank (suc n) (c ∷ s) t e = drop-blank n s t (omega arith)
