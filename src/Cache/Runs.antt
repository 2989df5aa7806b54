-- ===== src/Cache/Runs.antt =====
-- What `write_buffer_to_disk` writes to the chunk files: a run of lines of one date after the
-- other.
use os_hw.Prelude.{
  ℕ, ◌≡◌, refl, ap, sym, subst, ◌∙◌, true, false, Option, none, some, List, [], ◌∷◌, ◌++◌,
  append-nil, append_assoc, if◌then◌else◌, ◌==◌, ==_iff, Bool-cases, inl, inr,
}
use os_hw.Text.{Text, newline, text_eq, text_eq→eq}
use os_hw.Cache.Timestamps.{scan_timestamp, scan_field, is_dates_equal, date_folder}
use os_hw.Cache.Chunks.{append_file, write_file, Junk, grow, split_lines}

-- A missing file has no bytes.
abbrev pub bytes : Option Text → Text
bytes none = []
bytes (some content) = content

abbrev pub stamp_of : Option Text → Text
stamp_of none = []
stamp_of (some t) = t

-- The bytes that the runs have for the file at `p`.
abbrev pub bytes_for : Text → List (Text × Text) → Text
bytes_for p [] = []
bytes_for p ((name, s) ∷ runs) =
    let more = bytes_for p runs in if text_eq p name then s ++ more else more

abbrev pub all_bytes : List (Text × Text) → Text
all_bytes [] = []
all_bytes ((name, s) ∷ runs) = s ++ all_bytes runs

abbrev pub all_lines : List Text → Text
all_lines [] = []
all_lines (l ∷ ls) = l ++ newline ∷ all_lines ls

module _ (junk : Junk) (path file_name : Text) where
  -- The file of the lines of a date, by the timestamp of the first of them and its time.
  abbrev pub file_of : (stamp start : Text) → Text
  file_of stamp start = path ++ (date_folder stamp junk.text ++ b'/' ∷ (file_name ++ b'-' ∷ start))

  -- What goes on with a run of the date of `stamp`, and the runs behind it.
  unfoldable pub runs_after : (stamp start : Text) → List Text → Text × List (Text × Text)
  runs_after stamp start [] = ([], [])
  runs_after stamp start (l ∷ ls) =
      let t = stamp_of (scan_timestamp l) in
      let time = scan_field 3 t start in
      elim (is_dates_equal junk.equal t stamp) [
        | true ↦ let (more, others) = runs_after stamp start ls in (l ++ newline ∷ more, others)
        | false ↦
            let (more, others) = runs_after t time ls in
            ([], (file_of t time, l ++ newline ∷ more) ∷ others)
      ]

  -- The runs of lines of one date, each with its file.
  abbrev pub runs : Text → List Text → List (Text × Text)
  runs l ls =
      let t = stamp_of (scan_timestamp l) in
      let time = scan_field 3 t junk.text in
      let (more, others) = runs_after t time ls in (file_of t time, l ++ newline ∷ more) ∷ others

  pub runs_after-same :
      (stamp start t l : Text) (ls : List Text)
      → scan_timestamp l ≡ some t
      → is_dates_equal junk.equal t stamp ≡ true
      → runs_after stamp start (l ∷ ls)
        ≡ (l ++ newline ∷ (runs_after stamp start ls).0, (runs_after stamp start ls).1)
  unfolding runs_after
  runs_after-same stamp start t l ls stamped same =
      let same' =
        subst (λ t. is_dates_equal junk.equal t stamp ≡ true) (sym (ap stamp_of stamped)) same in
      rw (runs_after, same') refl

  pub runs_after-new :
      (stamp start t l : Text) (ls : List Text)
      → scan_timestamp l ≡ some t
      → is_dates_equal junk.equal t stamp ≡ false
      → runs_after stamp start (l ∷ ls) ≡ (
        [],
        (
          file_of t (scan_field 3 t start),
          l ++ newline ∷ (runs_after t (scan_field 3 t start) ls).0,
        )
            ∷ (runs_after t (scan_field 3 t start) ls).1,
      )
  unfolding runs_after
  runs_after-new stamp start t l ls stamped new =
      subst
        (λ t.
          is_dates_equal junk.equal t stamp ≡ false
          → runs_after stamp start (l ∷ ls) ≡ (
            [],
            (
              file_of t (scan_field 3 t start),
              l ++ newline ∷ (runs_after t (scan_field 3 t start) ls).0,
            )
                ∷ (runs_after t (scan_field 3 t start) ls).1,
          ))
        (ap stamp_of stamped) (λ new. rw (runs_after, new) refl) new

  all_bytes-runs_after :
      (stamp start : Text) (ls : List Text)
      → (runs_after stamp start ls).0 ++ all_bytes (runs_after stamp start ls).1 ≡ all_lines ls
  unfolding runs_after
  all_bytes-runs_after stamp start [] = refl
  all_bytes-runs_after stamp start (l ∷ ls) =
      let t = stamp_of (scan_timestamp l) in
      elim (Bool-cases (is_dates_equal junk.equal t stamp)) [
        | inl same ↦
            rw (runs_after, same)
              (append_assoc l (newline ∷ (runs_after stamp start ls).0)
                  (all_bytes (runs_after stamp start ls).1)
                ∙ ap (λ s. l ++ newline ∷ s) (all_bytes-runs_after stamp start ls))
        | inr new ↦
            let time = scan_field 3 t start in
            rw (runs_after, new)
              (append_assoc l (newline ∷ (runs_after t time ls).0)
                  (all_bytes (runs_after t time ls).1)
                ∙ ap (λ s. l ++ newline ∷ s) (all_bytes-runs_after t time ls))
      ]

  pub all_bytes-runs : (l : Text) (ls : List Text) → all_bytes (runs l ls) ≡ all_lines (l ∷ ls)
  all_bytes-runs l ls =
      let t = stamp_of (scan_timestamp l) in
      let time = scan_field 3 t junk.text in
      append_assoc l (newline ∷ (runs_after t time ls).0) (all_bytes (runs_after t time ls).1)
      ∙ ap (λ s. l ++ newline ∷ s) (all_bytes-runs_after t time ls)

append_file-bytes : (o : Option Text) (s : Text) → append_file o s ≡ bytes o ++ s
unfolding append_file
append_file-bytes none s = refl
append_file-bytes (some content) s = refl

pub bytes_for-cons :
    (p name s : Text) (runs : List (Text × Text))
    → bytes_for p ((name, s) ∷ runs) ≡ bytes_for p ((name, s) ∷ []) ++ bytes_for p runs
bytes_for-cons p name s runs = elim (Bool-cases (text_eq p name)) [
  | inl here ↦ rw here (ap (λ s'. s' ++ bytes_for p runs) (sym (append-nil s)))
  | inr other ↦ rw other refl
]

pub write_file-bytes :
    (name s : Text) (files : Text → Option Text) (p : Text)
    → bytes (write_file true name s files p) ≡ bytes (files p) ++ bytes_for p ((name, s) ∷ [])
unfolding write_file
write_file-bytes name s files p = elim (Bool-cases (text_eq p name)) [
  | inl here ↦
      rw (write_file, here)
        (append_file-bytes (files name) s
          ∙ ap (λ q. bytes (files q) ++ s) (sym (text_eq→eq p name here))
          ∙ ap (λ s'. bytes (files p) ++ s') (sym (append-nil s)))
  | inr other ↦ rw (write_file, other) (sym (append-nil (bytes (files p))))
]

all_lines-grow :
    (c : ℕ) (q : List Text × Text)
    → all_lines (grow c q).0 ++ (grow c q).1 ≡ c ∷ (all_lines q.0 ++ q.1)
unfolding grow
all_lines-grow c ([], rest) = refl
all_lines-grow c (l ∷ ls, rest) = refl

pub all_lines-split_lines : (s : Text) → all_lines (split_lines s).0 ++ (split_lines s).1 ≡ s
unfolding split_lines
all_lines-split_lines [] = refl
all_lines-split_lines (c ∷ s) = elim (Bool-cases (c == newline)) [
  | inl end ↦
      rw (split_lines, end)
        (ap (λ s'. newline ∷ s') (all_lines-split_lines s)
          ∙ ap (λ d. d ∷ s) (sym ((==_iff c newline).0 end)))
  | inr inside ↦
      rw (split_lines, inside)
        (all_lines-grow c (split_lines s) ∙ ap (λ s'. c ∷ s') (all_lines-split_lines s))
]
