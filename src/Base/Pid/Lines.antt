-- ===== src/Base/Pid/Lines.antt =====
-- base/pid.go: the file of process ids that processes have written, line by line.
use clove.Prelude.{
  ℕ, zero, suc, ◌+◌, ◌*◌, ◌/◌, ◌%◌, ◌^◌, ◌≡◌, ◌≢◌, ◌≤◌, ◌<◌, true, false, some, inl, inr, List, [],
  ◌∷◌, ◌++◌, map, length, All, refl, sym, ap, ◌∙◌, arith, length-append, append_assoc, append-nil,
  Bool-cases, ltb, ◌==◌, if◌then◌else◌, take_all,
}
use mathlib.Core.Option
use clove.Prelude.Int.{ℤ, pos}
use clove.Prelude.Decimal.{parse_int, parse_natural, parse_digits, show_nat, show_digits}
use clove.Base.Pid.{
  pid_line, generate_pid, split_lines, parse_pids, read_pids, read_size, other_lines, remove_pid,
}

abbrev IsDigit : ℕ → Type 0
IsDigit c = (48 ≤ c) × (c ≤ 57)

show_digits-All : (fuel n : ℕ) (s : List ℕ) → All IsDigit s → All IsDigit (show_digits fuel n s)
unfolding show_digits
show_digits-All zero n s h = h
show_digits-All (suc fuel) n s h = elim (Bool-cases (ltb n 10)) [
  | inl e ↦ rw e ((omega arith, ground arith), h)
  | inr e ↦
      rw e (show_digits-All fuel (n / 10) ((n % 10 + b'0') ∷ s) ((omega arith, omega arith), h))
]

parse_digit :
    (acc c : ℕ) (s : List ℕ)
    → c ≤ 9
    → parse_digits acc ((c + b'0') ∷ s) ≡ parse_digits (acc * 10 + c) s
unfolding parse_digits
parse_digit acc c s h = ground arith

-- Digits put in front make the number that the rest goes on from.
parse_digits-show :
    (fuel n : ℕ) (s : List ℕ) → n < fuel → parse_digits 0 (show_digits fuel n s) ≡ parse_digits n s
unfolding show_digits
parse_digits-show zero n s h = absurd (omega arith)
parse_digits-show (suc fuel) n s h = elim (Bool-cases (ltb n 10)) [
  | inl e ↦ rw e (parse_digit 0 n s (ground arith) ∙ ap (λ (m : ℕ). parse_digits m s) (omega arith))
  | inr e ↦ rw e (
      parse_digits-show fuel (n / 10) ((n % 10 + b'0') ∷ s) (ground arith)
      ∙ parse_digit (n / 10) (n % 10) s (omega arith)
      ∙ ap (λ (m : ℕ). parse_digits m s) (omega arith))
]

head_of_shown :
    (fuel n : ℕ) (s : List ℕ)
    → n < fuel
    → (c : ℕ) × (t : List ℕ) × (show_digits fuel n s ≡ c ∷ t) × IsDigit c
unfolding show_digits
head_of_shown zero n s h = absurd (omega arith)
head_of_shown (suc fuel) n s h = elim (Bool-cases (ltb n 10)) [
  | inl e ↦ rw e (n + b'0', s, refl, (omega arith, ground arith))
  | inr e ↦ rw e (head_of_shown fuel (n / 10) ((n % 10 + b'0') ∷ s) (ground arith))
]

parse_int-digit :
    (c n : ℕ) (t : List ℕ)
    → IsDigit c
    → n < 2 ^ 63
    → parse_digits 0 (c ∷ t) ≡ some n
    → parse_int (c ∷ t) ≡ some (pos n)
unfolding parse_int Option.bind
parse_int-digit c n t (hl, hu) hn e =
    let minus : (c == b'-') ≡ false = ground arith in
    let plus : (c == b'+') ≡ false = ground arith in
    let small : ltb n (2 ^ 63) ≡ true = ground arith in
    rw (minus, plus) (rw (e, parse_natural) (rw small refl))

-- strconv.Atoi of what fmt writes.
parse_int-show_nat : (n : ℕ) → n < 2 ^ 63 → parse_int (show_nat n) ≡ some (pos n)
unfolding show_nat parse_digits
parse_int-show_nat n h =
    let (c, t, e, d) = head_of_shown (suc n) n [] (omega arith) in
    rw e (
      parse_int-digit c n t d h
        (ap (parse_digits 0) (sym e) ∙ parse_digits-show (suc n) n [] (omega arith)))

abbrev NoBreak : List ℕ → Type 0
NoBreak s = All (λ (c : ℕ). c ≢ 10) s

digits-NoBreak : (s : List ℕ) → All IsDigit s → NoBreak s
digits-NoBreak [] h = tt
digits-NoBreak (c ∷ s) ((hl, hu), h) = ((λ e. omega arith), digits-NoBreak s h)

split_line :
    (word s rest : List ℕ)
    → NoBreak s
    → split_lines word (s ++ (10 ∷ rest)) ≡ (word ++ s) ∷ split_lines [] rest
unfolding split_lines
split_line word [] rest h = ap (λ (w : List ℕ). w ∷ split_lines [] rest) (sym (append-nil word))
split_line word (c ∷ s) rest (hc, h) = elim (Bool-cases (c == 10)) [
  | inl e ↦ absurd (ground arith)
  | inr e ↦ rw e (
      split_line (word ++ (c ∷ [])) s rest h
      ∙ ap (λ (w : List ℕ). w ∷ split_lines [] rest) (append_assoc word (c ∷ []) s))
]

-- The file that processes with these ids have written.
abbrev pub pid_lines : List ℕ → List ℕ
pid_lines [] = []
pid_lines (n ∷ ns) = pid_line (pos n) ++ pid_lines ns

abbrev pub pids : List ℕ → List ℤ
pids ns = map pos ns

abbrev IsPid : ℕ → Type 0
IsPid n = n < 2 ^ 63

parse_pids-empty : parse_pids (split_lines [] []) ≡ []
unfolding parse_pids split_lines
parse_pids-empty = refl

parse_pids-lines :
    (ns : List ℕ) → All IsPid ns → parse_pids (split_lines [] (pid_lines ns)) ≡ pids ns
unfolding parse_pids pid_line
parse_pids-lines [] h = parse_pids-empty
parse_pids-lines (n ∷ ns) (hn, h) =
    let line =
      split_line [] (show_nat n) (pid_lines ns)
        (digits-NoBreak (show_nat n) (unfold show_nat in show_digits-All (suc n) n [] tt)) in
    rw (append_assoc (show_nat n) (10 ∷ []) (pid_lines ns)) (
      rw line (rw (parse_int-show_nat n hn, parse_pids) (ap (◌∷◌ (pos n)) (parse_pids-lines ns h))))

abbrev pub without : ℕ → List ℕ → List ℕ
without own [] = []
without own (n ∷ ns) = if n == own then without own ns else n ∷ without own ns

other_lines-without :
    (own : ℕ) (ns : List ℕ) → other_lines (pos own) (pids ns) ≡ pid_lines (without own ns)
unfolding other_lines
other_lines-without own [] = refl
other_lines-without own (n ∷ ns) = elim (Bool-cases (n == own)) [
  | inl e ↦ rw e (other_lines-without own ns)
  | inr e ↦ rw e (ap (λ (s : List ℕ). pid_line (pos n) ++ s) (other_lines-without own ns))
]

generate_pid-snoc :
    (n : ℕ) (ns : List ℕ) → pid_lines ns ++ pid_line (pos n) ≡ pid_lines (ns ++ (n ∷ []))
generate_pid-snoc n [] = sym (append-nil (pid_line (pos n)))
generate_pid-snoc n (m ∷ ns) =
    append_assoc (pid_line (pos m)) (pid_lines ns) (pid_line (pos n))
    ∙ ap (λ (s : List ℕ). pid_line (pos m) ++ s) (generate_pid-snoc n ns)

some_bytes :
    (file : List ℕ)
    → 0 < length file
    → length file ≤ read_size
    → read_pids true (some file) ≡ some (parse_pids (split_lines [] file))
unfolding read_pids
some_bytes [] h l = absurd (omega arith)
some_bytes (c ∷ s) h l =
    ap (λ (x : List ℕ). some (parse_pids (split_lines [] x))) (take_all read_size (c ∷ s) l)

length-pid_line : (n : ℕ) → 0 < length (pid_line (pos n))
unfolding pid_line
length-pid_line n = omega (arith, length-append (show_nat n) (10 ∷ []))

read_pids-lines :
    (n : ℕ) (ns : List ℕ)
    → All IsPid (n ∷ ns)
    → length (pid_lines (n ∷ ns)) ≤ read_size
    → read_pids true (some (pid_lines (n ∷ ns))) ≡ some (pids (n ∷ ns))
read_pids-lines n ns h l =
    some_bytes (pid_lines (n ∷ ns))
      (omega (arith, length-append (pid_line (pos n)) (pid_lines ns), length-pid_line n)) l
    ∙ ap some (parse_pids-lines (n ∷ ns) h)

-- In a file that processes have written, with one id at least, in 10240 bytes at most, and that can
-- be opened: `ReadPIDs` returns their ids in the order in which they were written, `GeneratePID`
-- adds the id of its process behind them, and `RemovePID` leaves the lines of the other processes
-- in their order.
pub read_pids-remove_pid :
    (n own : ℕ) (ns : List ℕ)
    → All IsPid (n ∷ ns)
    → length (pid_lines (n ∷ ns)) ≤ read_size
    → let file = some (pid_lines (n ∷ ns)) in
      (read_pids true file ≡ some (pids (n ∷ ns)))
      × (generate_pid true (pos own) file ≡ some (pid_lines ((n ∷ ns) ++ (own ∷ []))))
      × (remove_pid true true (pos own) file ≡ some (pid_lines (without own (n ∷ ns))))
unfolding generate_pid remove_pid
read_pids-remove_pid n own ns h l = (
  read_pids-lines n ns h l,
  ap some (generate_pid-snoc own (n ∷ ns)),
  rw (read_pids-lines n ns h l, remove_pid) (ap some (other_lines-without own (n ∷ ns))),
)
