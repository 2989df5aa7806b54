-- ===== src/Cache/Timestamps.antt =====
-- The timestamps of log lines, as Cache.c scans and compares them.
use os_hw.Prelude.{
  ℕ, zero, suc, ◌≡◌, refl, Bool, ◌&&◌, Option, none, some, [], ◌∷◌, ◌++◌, ◌==◌, if◌then◌else◌, ℤ,
  eqb_ℤ,
}
use os_hw.Text.{Text, text_eq, skip_space, take_word, take_int}

-- "%[^c]": the bytes before the first `c`, and the rest.
unfoldable pub span_until : ℕ → Text → Text × Text
span_until c [] = ([], [])
span_until c (d ∷ s) = let (w, r) = span_until c s in if d == c then ([], d ∷ s) else (d ∷ w, r)

non_empty : Text × Text → Option (Text × Text)
non_empty ([], r) = none
non_empty (c ∷ w, r) = some (c ∷ w, r)

-- The conversion fails where it reads nothing.
unfoldable pub take_until : ℕ → Text → Option (Text × Text)
unfolding non_empty
take_until c s = non_empty (span_until c s)

-- "%*[^|]|%[^|]|%*s" of a line.
unfoldable pub scan_timestamp : Text → Option Text
scan_timestamp line = elim (take_until b'|' line) [
  | none ↦ none
  | some (level, r) ↦ elim r [
    | [] ↦ none
    | c ∷ r' ↦ elim (take_until b'|' r') [ none ↦ none | some (timestamp, rest) ↦ some timestamp ]
  ]
]

-- "%*[^ ] " so many times: what is left of a timestamp.
unfoldable pub skip_fields : ℕ → Text → Option Text
skip_fields zero s = some s
skip_fields (suc n) s = elim (take_until b' ' s) [
  | none ↦ none
  | some (w, r) ↦ skip_fields n (skip_space r)
]

-- A field, or the old content.
unfoldable pub scan_field : ℕ → Text → Text → Text
scan_field n s old = elim (skip_fields n s) [
  | none ↦ old
  | some r ↦ elim (take_until b' ' r) [ none ↦ old | some (w, rest) ↦ w ]
]

-- Month, date and year, as `is_dates_equal` reads them: "%*[^ ] %[^ ] %d %*[^ ] %*[^ ] %d".
unfoldable pub scan_date : Text → Option (Text × ℤ × ℤ)
scan_date s = elim (skip_fields 1 s) [
  | none ↦ none
  | some r ↦ elim (take_until b' ' r) [
    | none ↦ none
    | some (month, r1) ↦ elim (take_int r1) [
      | none ↦ none
      | some (date, r2) ↦ elim (skip_fields 2 (skip_space r2)) [
        | none ↦ none
        | some r3 ↦ elim (take_int r3) [
          | none ↦ none
          | some (year, rest) ↦ some (month, date, year)
        ]
      ]
    ]
  ]
]

-- `junk` stands for a comparison of variables that `sscanf` did not fill.
unfoldable pub is_dates_equal : (junk : Bool) → Text → Text → Bool
is_dates_equal junk timestamp1 timestamp2 = elim (scan_date timestamp1) [
  | none ↦ junk
  | some (month1, date1, year1) ↦ elim (scan_date timestamp2) [
    | none ↦ junk
    | some (month2, date2, year2) ↦ text_eq month1 month2 && eqb_ℤ date1 date2 && eqb_ℤ year1 year2
  ]
]

-- "%s" after five fields.
unfoldable pub scan_year : Text → Text → Text
scan_year s old = elim (skip_fields 5 s) [
  | none ↦ old
  | some r ↦ elim (take_word r) [ none ↦ old | some (w, rest) ↦ w ]
]

-- `folder_name` of `create_date_folder`: "%s-%s-%s" of month, date and year; `junk` is the old
-- content of its local variables.
unfoldable pub date_folder : (time_stamp junk : Text) → Text
date_folder time_stamp junk =
    scan_field 1 time_stamp junk
    ++ b'-' ∷ (scan_field 2 time_stamp junk ++ b'-' ∷ scan_year time_stamp junk)

pub scan_timestamp-nil : scan_timestamp [] ≡ none
unfolding scan_timestamp take_until span_until non_empty
scan_timestamp-nil = refl
