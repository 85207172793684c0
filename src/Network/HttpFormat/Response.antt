-- ===== src/Network/HttpFormat/Response.antt =====
-- network/http.go: the parts of a packaged response.
use clove.Prelude.Decimal.{show_nat, show_digits}
use mathlib.Core.Path.{subst}
use clove.Prelude.{
  length, drop, sym, ℕ, zero, suc, ◌+◌, ◌/◌, ◌%◌, ◌≡◌, ◌≢◌, Bool, true, false, none, some, List, [],
  ◌∷◌, ◌++◌, All, ltb, ◌==◌, refl, arith, ap, ◌∙◌, Bool-cases, inl, inr, append_assoc, All-append,
  length-append, if◌then◌else◌,
}
use clove.Codec.Value.{str_eq}
use clove.Network.Packet.{http, HttpPacket}
use clove.Network.HttpFormat.Body.{
  shift, header_end-plain, header_end-line, join_with-first, header_end-lines, drop-blank, IsPlain,
  IsLine,
}
use clove.Network.HttpFormat.{
  package_http, response, response_lines, header_end, join_with, status_line, set_header,
  header_lines, crlf, content_length_name,
}

has_no_return : List ℕ → Bool
has_no_return [] = true
has_no_return (c ∷ s) = if c == 13 then false else has_no_return s

-- Of a text that is written out.
literal-IsPlain : (s : List ℕ) → has_no_return s ≡ true → IsPlain s
unfolding has_no_return
literal-IsPlain [] h = tt
literal-IsPlain (c ∷ s) h = elim (Bool-cases (c == 13)) [
  | inl e ↦ absurd (cc (rw e at h))
  | inr e ↦ ((λ f. absurd (ground arith)), literal-IsPlain s (rw e at h))
]

show_digits-IsPlain : (fuel n : ℕ) (s : List ℕ) → IsPlain s → IsPlain (show_digits fuel n s)
unfolding show_digits
show_digits-IsPlain zero n s h = h
show_digits-IsPlain (suc fuel) n s h = elim (Bool-cases (ltb n 10)) [
  | inl e ↦ rw e ((λ f. omega arith), h)
  | inr e ↦ rw e (show_digits-IsPlain fuel (n / 10) ((n % 10 + b'0') ∷ s) ((λ f. omega arith), h))
]

show_nat-IsPlain : (n : ℕ) → IsPlain (show_nat n)
unfolding show_nat
show_nat-IsPlain n = show_digits-IsPlain (suc n) n [] tt

append-IsPlain : (s t : List ℕ) → IsPlain s → IsPlain t → IsPlain (s ++ t)
append-IsPlain s t hs ht = All-append (λ (c : ℕ). c ≢ 13) s t hs ht

join_with-IsPlain :
    (sep : List ℕ) (ss : List (List ℕ)) → IsPlain sep → All IsPlain ss → IsPlain (join_with sep ss)
unfolding join_with
join_with-IsPlain sep [] h hs = tt
join_with-IsPlain sep (s ∷ []) h (hs, _) = hs
join_with-IsPlain sep (s ∷ t ∷ ss) h (hs, ht) =
    append-IsPlain s (sep ++ join_with sep (t ∷ ss)) hs
      (append-IsPlain sep (join_with sep (t ∷ ss)) h (join_with-IsPlain sep (t ∷ ss) h ht))

-- Names and values without a carriage return.
abbrev ArePlain : List (List ℕ × List (List ℕ)) → Type 0
ArePlain = All (λ (h : List ℕ × List (List ℕ)). IsPlain h.0 × All IsPlain h.1)

set_header-ArePlain :
    (k : List ℕ) (v : List (List ℕ)) (hs : List (List ℕ × List (List ℕ)))
    → IsPlain k
    → All IsPlain v
    → ArePlain hs
    → ArePlain (set_header k v hs)
unfolding set_header
set_header-ArePlain k v [] hk hv h = ((hk, hv), tt)
set_header-ArePlain k v ((j, w) ∷ hs) hk hv (hj, h) = elim (Bool-cases (str_eq j k)) [
  | inl e ↦ rw e ((hk, hv), h)
  | inr e ↦ rw e (hj, set_header-ArePlain k v hs hk hv h)
]

append-IsLine : (k t : List ℕ) (c : ℕ) → IsPlain k → c ≢ 13 → IsPlain t → IsLine (k ++ (c ∷ t))
append-IsLine [] t c hk hc ht = (hc, ht)
append-IsLine (d ∷ k) t c (hd, hk) hc ht = (hd, append-IsPlain k (c ∷ t) hk (hc, ht))

header_lines-IsLine :
    (hs : List (List ℕ × List (List ℕ))) → ArePlain hs → All IsLine (header_lines hs)
unfolding header_lines
header_lines-IsLine [] h = tt
header_lines-IsLine ((k, v) ∷ hs) ((hk, hv), h) = (
  append-IsLine k (32 ∷ join_with (b';' ∷ []) v) b':' hk (λ f. omega arith)
      ((λ f. omega arith), join_with-IsPlain (b';' ∷ []) v ((λ f. omega arith), tt) hv),
  header_lines-IsLine hs h,
)

set_header-some :
    (k : List ℕ) (v : List (List ℕ)) (hs : List (List ℕ × List (List ℕ)))
    → (l : List ℕ) × (ls : List (List ℕ)) × (header_lines (set_header k v hs) ≡ l ∷ ls)
unfolding set_header header_lines
set_header-some k v [] = (_, _, refl)
set_header-some k v ((j, w) ∷ hs) = elim (Bool-cases (str_eq j k)) [
  | inl e ↦ rw e (_, _, refl)
  | inr e ↦ rw e (_, _, refl)
]

status_line-IsPlain :
    (p : HttpPacket) → IsPlain p.http_ver → IsPlain p.status_text → IsPlain (status_line p)
unfolding status_line
status_line-IsPlain p hv ht =
    append-IsPlain (b'H' ∷ b'T' ∷ b'T' ∷ b'P' ∷ b'/' ∷ []) _
      (literal-IsPlain (b'H' ∷ b'T' ∷ b'T' ∷ b'P' ∷ b'/' ∷ []) (unfold has_no_return in refl))
      (append-IsPlain p.http_ver _ hv (
        (λ f. omega arith),
        append-IsPlain (show_nat p.status_code) (32 ∷ p.status_text)
            (show_nat-IsPlain p.status_code) ((λ f. omega arith), ht),
      ))

-- A start, its lines, and the body behind the blank line.
abbrev with_body : List ℕ → List (List ℕ) → List ℕ → List ℕ
with_body start lines body = start ++ (crlf ++ (join_with crlf lines ++ (crlf ++ (crlf ++ body))))

abbrev HasBody : List ℕ → List ℕ → Type 0
HasBody text body = (i : ℕ) × (header_end text ≡ some i) × (drop (i + 4) text ≡ body)

with_body-HasBody :
    (start l : List ℕ) (ls : List (List ℕ)) (body : List ℕ)
    → IsPlain start
    → IsLine l
    → All IsLine ls
    → HasBody (with_body start (l ∷ ls) body) body
with_body-HasBody start [] ls body plain h hs = absurd h
with_body-HasBody start (c ∷ s) ls body plain (hc, h) hs =
    let lines = join_with crlf ((c ∷ s) ∷ ls) in
    let blank = crlf ++ (crlf ++ body) in
    let (r, first) = join_with-first c s ls blank in
    let head = start ++ (crlf ++ lines) in
    (
      length head,
      header_end-plain start (crlf ++ (lines ++ blank)) plain
          ∙ ap (shift (length start)) (
              header_end-line c r (lines ++ blank) hc first
              ∙ ap (shift 2) (header_end-lines (c ∷ s) ls body (hc, h) hs))
          ∙ ap some (omega (arith, length-append start (crlf ++ lines))),
      ap (drop (length head + 4)) (sym (append_assoc start (crlf ++ lines) blank))
          ∙ drop-blank (length head + 4) head body refl,
    )

response_lines-IsLine :
    (p : HttpPacket) → ArePlain p.response_header → All IsLine (response_lines p)
unfolding response_lines
response_lines-IsLine p h = header_lines-IsLine _ (
    set_header-ArePlain content_length_name (show_nat (length p.body) ∷ []) p.response_header
      (literal-IsPlain content_length_name (unfold has_no_return in refl))
      (show_nat-IsPlain (length p.body), tt) h)

lines-HasBody :
    (start : List ℕ) (lines : List (List ℕ)) (l : List ℕ) (ls : List (List ℕ)) (body : List ℕ)
    → IsPlain start
    → lines ≡ l ∷ ls
    → All IsLine lines
    → HasBody (with_body start lines body) body
lines-HasBody start lines l ls body plain e h =
    let (hl, hs) = subst (All IsLine) e h in
    subst (λ (ms : List (List ℕ)). HasBody (with_body start ms body) body) (sym e)
      (with_body-HasBody start l ls body plain hl hs)

-- When no part of a response's head holds a carriage return, that is its version, its status text
-- and the names and values of its headers, then it is packaged without an error, and behind the
-- first blank line of the bytes, where `ParseFromBuffer` looks for it, is the body and nothing
-- else, whatever the body holds.
pub package_http-body :
    (p : HttpPacket)
    → IsPlain p.http_ver
    → IsPlain p.status_text
    → ArePlain p.response_header
    → ((package_http (http p)).0 ≡ none)
      × ((i : ℕ) × (header_end (package_http (http p)).1 ≡ some i)
          × (drop (i + 4) (package_http (http p)).1 ≡ p.body))
unfolding package_http response response_lines
package_http-body p hv ht hh =
    let (l, ls, e) =
      set_header-some content_length_name (show_nat (length p.body) ∷ []) p.response_header in
    (
      refl,
      lines-HasBody (status_line p) (response_lines p) l ls p.body (status_line-IsPlain p hv ht) e
          (response_lines-IsLine p hh),
    )
