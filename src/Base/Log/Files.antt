-- ===== src/Base/Log/Files.antt =====
-- base/log.go: what `LogInit` and the calls that follow it leave in the file of the day.
use clove.Prelude.{
  ℕ, ◌≡◌, Bool, true, false, some, List, [], ◌∷◌, ◌++◌, refl, ap, ◌∙◌, sym, append_assoc,
  append-nil, Bool-cases, inl, inr, if◌then◌else◌, ltb,
}
use mathlib.Core.Path.{subst}
use clove.Codec.Strings.{str_eq_refl}
use clove.Codec.Value.{str_eq}
use clove.Base.Log.{
  System, Logger, Files, log_init, log_and_level, print_line, log_name, set_file, create, level_tag,
  is_exist, bytes_of, print_by, rotated, rotate,
}

module _ (sys : System) where
  -- The calls of the log functions one after the other.
  abbrev pub log_all : List (ℕ × List ℕ) → Logger → Logger
  log_all [] l = l
  log_all ((level, text) ∷ calls) l = log_all calls (log_and_level sys level text l)

  abbrev tagged_line : ℕ → List ℕ → List ℕ
  tagged_line level text = (level_tag level ++ (sys.stamp ++ text)) ++ (10 ∷ [])

  -- The lines of the calls that are not below a level.
  abbrev pub lines_from : ℕ → List (ℕ × List ℕ) → List ℕ
  lines_from least [] = []
  lines_from least ((level, text) ∷ calls) =
      (if ltb level least then [] else tagged_line level text) ++ lines_from least calls

  module _ (least c : ℕ) (s : List ℕ) where
    abbrev name : List ℕ
    name = log_name (c ∷ s) sys.date

    -- The logger has this level and writes to the file.
    record Writes (l : Logger) (content : List ℕ) (others : Files) : Type 0 where
      same_level : l.log_level ≡ least
      same_prefix : l.log_prefix ≡ c ∷ s
      same_content : bytes_of (l.files name) ≡ content
      same_others : (other : List ℕ) → str_eq other name ≡ false → l.files other ≡ others other

    print_line-Writes :
        (line content : List ℕ) (others : Files) (l : Logger)
        → sys.can_write name ≡ true
        → Writes l content others
        → Writes (print_line sys line l) (content ++ (line ++ (10 ∷ []))) others
    unfolding print_line set_file
    print_line-Writes line content others l w h =
        let printed : Logger = record l {
          files = set_file name (some (bytes_of (l.files name) ++ (line ++ (10 ∷ [])))) l.files;
        } in
        let e : print_line sys line l ≡ printed =
          ap (λ (x : List ℕ). print_by sys x line l) h.same_prefix
          ∙ ap (λ (b : Bool). if b then printed else l) w in
        subst (λ (x : Logger). Writes x (content ++ (line ++ (10 ∷ []))) others) (sym e)
          (record {
            same_level = h.same_level;
            same_prefix = h.same_prefix;
            same_content =
                rw (str_eq_refl name)
                  (ap (λ (x : List ℕ). x ++ (line ++ (10 ∷ []))) h.same_content);
            same_others = λ other d. rw d (h.same_others other d);
          })

    abbrev line_of : ℕ → List ℕ → List ℕ
    line_of level text = if ltb level least then [] else tagged_line level text

    log_and_level-Writes :
        (level : ℕ) (text content : List ℕ) (others : Files) (l : Logger)
        → sys.can_write name ≡ true
        → Writes l content others
        → Writes (log_and_level sys level text l) (content ++ line_of level text) others
    unfolding log_and_level
    log_and_level-Writes level text content others l w h =
        let line : List ℕ = level_tag level ++ (sys.stamp ++ text) in
        let by_level : log_and_level sys level text l
            ≡ (if ltb level least then l else print_line sys line l) =
          ap (λ (n : ℕ). if ltb level n then l else print_line sys line l) h.same_level in
        subst (λ (x : Logger). Writes x (content ++ line_of level text) others) (sym by_level)
          (elim (Bool-cases (ltb level least)) [
            | inl e ↦ rw e (rw append-nil h)
            | inr e ↦ rw e (print_line-Writes line content others l w h)
          ])

    log_all-Writes :
        (calls : List (ℕ × List ℕ)) (content : List ℕ) (others : Files) (l : Logger)
        → sys.can_write name ≡ true
        → Writes l content others
        → Writes (log_all calls l) (content ++ lines_from least calls) others
    log_all-Writes [] content others l w h =
        subst (λ (x : List ℕ). Writes l x others) (sym (append-nil content)) h
    log_all-Writes ((level, text) ∷ calls) content others l w h =
        subst (λ (x : List ℕ). Writes (log_all calls (log_and_level sys level text l)) x others)
          (append_assoc content (line_of level text) (lines_from least calls))
          (log_all-Writes calls (content ++ line_of level text) others
            (log_and_level sys level text l) w
            (log_and_level-Writes level text content others l w h))

  create_fresh :
      (least c : ℕ) (s : List ℕ) (files : Files)
      → ((files : Files) (n : List ℕ) → is_exist (sys.stat files n) ≡ false)
      → sys.can_write (name least c s) ≡ true
      → create sys (name least c s) (rotated sys (name least c s) files)
        ≡ (true, set_file (name least c s) (some []) files)
  unfolding create rotate
  create_fresh least c s files no_exist w =
      ap
        (λ (b : Bool).
          create sys (name least c s) (if b then rotate sys 99 1 (name least c s) files else files))
        (no_exist files (name least c s))
      ∙ rw w refl

  -- When the log can be written, and Stat, as it does, reports of no file that it exists already:
  -- `LogInit` returns no error, and after it and any calls of the log functions on one day its file
  -- has the lines of the calls that are not below the level, in order, and nothing of what it had
  -- before; any other file is as before, so none has been kept by a new name.
  pub log_init-log_all :
      (least c : ℕ) (s other : List ℕ) (l : Logger) (calls : List (ℕ × List ℕ))
      → ((files : Files) (n : List ℕ) → is_exist (sys.stat files n) ≡ false)
      → sys.can_write (log_name (c ∷ s) sys.date) ≡ true
      → str_eq other (log_name (c ∷ s) sys.date) ≡ false
      → let (ok, l') = log_init sys least (c ∷ s) l in
        (ok ≡ true)
        × (bytes_of ((log_all calls l').files (log_name (c ∷ s) sys.date)) ≡ lines_from least calls)
        × ((log_all calls l').files other ≡ l.files other)
  unfolding log_init create set_file
  log_init-log_all least c s other l calls no_exist w d =
      let n : List ℕ = name least c s in
      let fresh : Logger = record l {
        log_level = least;
        log_prefix = c ∷ s;
        files = set_file n (some []) l.files;
      } in
      let e : log_init sys least (c ∷ s) l ≡ (true, fresh) =
        ap
          (λ (r : Bool × Files).
            (r.0, record l { log_level = least; log_prefix = c ∷ s; files = r.1 }))
          (create_fresh least c s l.files no_exist w) in
      let h = log_all-Writes least c s calls [] l.files fresh w (record {
        same_level = refl;
        same_prefix = refl;
        same_content = rw (str_eq_refl n) refl;
        same_others = λ x dx. rw dx refl;
      }) in
      subst
        (λ (r : Bool × Logger).
          (r.0 ≡ true)
          × (bytes_of ((log_all calls r.1).files (log_name (c ∷ s) sys.date))
              ≡ lines_from least calls)
          × ((log_all calls r.1).files other ≡ l.files other))
        (sym e) (refl, h.same_content, h.same_others other d)
