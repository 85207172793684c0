-- ===== src/Base/Log.antt =====
-- base/log.go: the levels, the files and the lines of the log. The process has one logger, which is
-- the state here; the text that fmt.Sprintf makes is an argument.
pub mod Files
pub mod Stack
use clove.Prelude.{
  ℕ, zero, suc, ◌+◌, ◌*◌, ◌-◌, Bool, true, false, Option, none, some, List, [], ◌∷◌, ◌++◌, length,
  take, ltb, ◌==◌, if◌then◌else◌, get_elem?,
}
use clove.Prelude.Decimal.{show_nat}
use clove.Codec.Value.{str_eq}

abbrev level_verbose : ℕ
level_verbose = 0

abbrev level_info : ℕ
level_info = 1

abbrev level_warn : ℕ
level_warn = 2

abbrev level_error : ℕ
level_error = 3

-- Files by their names.
abbrev pub Files : Type 0
Files = List ℕ → Option (List ℕ)

-- The kinds of error that a call of the os package can return.
pub data OsError : Type 0 where
  exist not_exist denied : OsError

abbrev pub is_exist : Option OsError → Bool
is_exist (some exist) = true
is_exist _ = false

-- What the operating system lets the process do with a file, and the time.
pub record System : Type 0 where
  pub stat : Files → List ℕ → Option OsError
  pub can_write : List ℕ → Bool
  pub date : List ℕ
  pub stamp : List ℕ

-- `log_prefix` is empty for a log on the console.
pub record Logger : Type 0 where
  pub log_level : ℕ
  pub log_prefix : List ℕ
  pub files : Files
  pub console : List ℕ

unfoldable pub set_file : List ℕ → Option (List ℕ) → Files → Files
unfolding str_eq
set_file name content files other = if str_eq other name then content else files other

-- `os.Rename`, whose error is dropped.
unfoldable rename : List ℕ → List ℕ → Files → Files
unfolding set_file
rename old new files = elim (files old) [
  | none ↦ files
  | some content ↦ set_file old none (set_file new (some content) files)
]

-- `fmt.Sprintf("%s-%s.log", logPrefix, dt)`
unfoldable pub log_name : List ℕ → List ℕ → List ℕ
log_name log_prefix date = log_prefix ++ (b'-' ∷ (date ++ (b'.' ∷ b'l' ∷ b'o' ∷ b'g' ∷ [])))

abbrev pub bytes_of : Option (List ℕ) → List ℕ
bytes_of none = []
bytes_of (some content) = content

-- `[V]` and so on.
abbrev pub level_tag : ℕ → List ℕ
level_tag level =
    b'['
    ∷ ((if level == 0 then b'V' else if level == 1 then b'I' else if level == 2 then b'W' else b'E')
        ∷ (b']' ∷ []))

module _ (sys : System) where
  -- The loop of `LogInit` from `j` on, over `left` numbers.
  unfoldable pub rotate : ℕ → ℕ → List ℕ → Files → Files
  unfolding rename show_nat
  rotate zero j name files = files
  rotate (suc left) j name files =
      let new = name ++ (b'.' ∷ show_nat j) in
      rotate left (j + 1) name
        (if is_exist (sys.stat files new) then files else rename name new files)

  abbrev pub rotated : List ℕ → Files → Files
  unfolding rotate
  rotated name files = if is_exist (sys.stat files name) then rotate 99 1 name files else files

  -- `os.Create` truncates; its error is the result.
  unfoldable pub create : List ℕ → Files → Bool × Files
  unfolding set_file
  create name files =
      if sys.can_write name then (true, set_file name (some []) files) else (false, files)

  -- `LogInit`: whether it returns no error.
  unfoldable pub log_init : ℕ → List ℕ → Logger → Bool × Logger
  unfolding rotated create log_name
  log_init level [] l = (true, record l { log_level = level; log_prefix = [] })
  log_init level (c ∷ s) l =
      let name = log_name (c ∷ s) sys.date in
      let (ok, files) = create name (rotated name l.files) in
      (ok, record l { log_level = level; log_prefix = c ∷ s; files = files })

  abbrev pub print_by : List ℕ → List ℕ → Logger → Logger
  unfolding set_file log_name
  print_by [] line l = record l { console = l.console ++ (line ++ (10 ∷ [])) }
  print_by (c ∷ s) line l =
      let name = log_name (c ∷ s) sys.date in
      if sys.can_write name
      then record l {
        files = set_file name (some (bytes_of (l.files name) ++ (line ++ (10 ∷ [])))) l.files;
      }
      else l

  -- A line to the end of the file of today, or to the console.
  unfoldable pub print_line : List ℕ → Logger → Logger
  unfolding print_by
  print_line line l = print_by l.log_prefix line l

  unfoldable pub log_and_level : ℕ → List ℕ → Logger → Logger
  unfolding print_line
  log_and_level level text l =
      if ltb level l.log_level then l else print_line (level_tag level ++ (sys.stamp ++ text)) l

  -- Without a tag and a time; on the console the standard logger adds those that it was last set to.
  unfoldable log_raw : List ℕ → List ℕ → Logger → Logger
  unfolding print_line
  log_raw header text l = elim l.log_prefix [
    | [] ↦ print_line (header ++ text) l
    | c ∷ s ↦ print_line text l
  ]

  unfoldable log_verbose : List ℕ → Logger → Logger
  unfolding log_and_level
  log_verbose text l = log_and_level level_verbose text l

  unfoldable log_info : List ℕ → Logger → Logger
  unfolding log_and_level
  log_info text l = log_and_level level_info text l

  unfoldable log_warn : List ℕ → Logger → Logger
  unfolding log_and_level
  log_warn text l = log_and_level level_warn text l

  unfoldable log_error : List ℕ → Logger → Logger
  unfolding log_and_level
  log_error text l = log_and_level level_error text l

-- The loop of `LogPanic` that doubles its buffer of `size` bytes until runtime.Stack, which writes
-- as much of the trace as fits, does not fill it: the buffer, zeros behind the trace included.
unfoldable pub zeros : ℕ → List ℕ
zeros zero = []
zeros (suc n) = 0 ∷ zeros n

unfoldable pub stack_text : ℕ → ℕ → List ℕ → Option (List ℕ)
unfolding zeros
stack_text zero size trace = none
stack_text (suc fuel) size trace =
    let written = if ltb (length trace) size then length trace else size in
    let more = stack_text fuel (size * 2) trace in
    if written == size then more else some (take size trace ++ zeros (size - length trace))

-- What recover returned: nil, a value that is no error, or an error.
data Recovered : Type 0 where
  nil_value other_value error_value : Recovered

-- `LogPanic`: `text` is the message with the error and the text of the stack.
unfoldable log_panic : System → (List ℕ → List ℕ) → List ℕ → Recovered → Logger → Option Logger
unfolding stack_text log_error
log_panic sys text trace nil_value l = some l
log_panic sys text trace other_value l = some l
log_panic sys text trace error_value l = elim (stack_text (suc (length trace)) 512 trace) [
  | none ↦ none
  | some st ↦ some (log_error sys (text st) l)
]
