-- ===== src/Base/Pid.antt =====
-- base/pid.go: the file of process ids. A file is its bytes; `none` is one that does not exist. The
-- writes to a file that was opened take all their bytes.
pub mod Lines
use clove.Prelude.{
  ℕ, suc, ◌+◌, Bool, true, false, Option, none, some, List, [], ◌∷◌, ◌++◌, take, ◌==◌,
  if◌then◌else◌,
}
use clove.Prelude.Int.{ℤ, pos, negsuc}
use clove.Prelude.Decimal.{parse_int, show_nat}

-- `fmt.Sprintf("%d\n", pid)`
unfoldable pub pid_line : ℤ → List ℕ
unfolding show_nat
pid_line (pos n) = show_nat n ++ (10 ∷ [])
pid_line (negsuc n) = b'-' ∷ (show_nat (n + 1) ++ (10 ∷ []))

abbrev contents : Option (List ℕ) → List ℕ
contents none = []
contents (some bytes) = bytes

-- `GeneratePID`: the file, and whether it can be opened for writing.
unfoldable pub generate_pid : Bool → ℤ → Option (List ℕ) → Option (List ℕ)
unfolding pid_line
generate_pid false pid file = file
generate_pid true pid file = some (contents file ++ pid_line pid)

-- `strings.Split(ctx, "\n")`, of which `word` is the start of the first part.
unfoldable pub split_lines : List ℕ → List ℕ → List (List ℕ)
split_lines word [] = word ∷ []
split_lines word (c ∷ s) =
    let next = split_lines [] s in
    let same = split_lines (word ++ (c ∷ [])) s in if c == 10 then word ∷ next else same

-- The loop over the parts: one that strconv.Atoi does not take is left out.
unfoldable pub parse_pids : List (List ℕ) → List ℤ
unfolding parse_int
parse_pids [] = []
parse_pids (s ∷ ss) = elim (parse_int s) [ none ↦ parse_pids ss | some pid ↦ pid ∷ parse_pids ss ]

abbrev pub read_size : ℕ
read_size = 10240

-- `ReadPIDs`: an error for a file that cannot be opened, and for an empty one, whose `Read` gives
-- io.EOF.
unfoldable pub read_pids : Bool → Option (List ℕ) → Option (List ℤ)
unfolding split_lines parse_pids
read_pids readable none = none
read_pids readable (some []) = none
read_pids readable (some (c ∷ s)) =
    if readable then some (parse_pids (split_lines [] (take read_size (c ∷ s)))) else none

abbrev same_pid : ℤ → ℤ → Bool
same_pid (pos m) (pos n) = m == n
same_pid (negsuc m) (negsuc n) = m == n
same_pid _ _ = false

-- The loop of `RemovePID` that writes the file again.
unfoldable pub other_lines : ℤ → List ℤ → List ℕ
unfolding pid_line
other_lines own [] = []
other_lines own (pid ∷ pids) =
    (if same_pid pid own then [] else pid_line pid) ++ other_lines own pids

-- `RemovePID` of the process `own`, with whether the file can be opened for reading and for writing.
unfoldable pub remove_pid : Bool → Bool → ℤ → Option (List ℕ) → Option (List ℕ)
unfolding read_pids other_lines
remove_pid readable writable own file = elim (read_pids readable file) [
  | none ↦ file
  | some pids ↦ if writable then some (other_lines own pids) else file
]
