-- ===== src/FileSystem/Metadata.antt =====
-- The metadata file of lfs_fuse.c: `write_metadata_to_disk`, and the reading in
-- `mdata_from_disk_to_memory`.
use os_hw.Prelude.{
  ℕ, zero, suc, Option, none, some, List, [], ◌∷◌, ◌++◌, ◌==◌, if◌then◌else◌, ℤ, pos_part,
}
use os_hw.Text.{Text, newline, codes, print_int, skip_space, expect, take_word, take_int}
use os_hw.Cache.{MData}

-- The loop over the paths, each with a `;` behind it.
unfoldable pub print_paths : ℕ → List Text → Text
print_paths zero ps = []
print_paths (suc n) [] = b';' ∷ print_paths n []
print_paths (suc n) (p ∷ ps) = p ++ b';' ∷ print_paths n ps

-- `buf` of `write_metadata_to_disk`
unfoldable pub print_metadata : MData → Text
print_metadata m =
    codes "Filename:"
    ++ (m.file_name
        ++ newline
          ∷ (codes "NumPaths:"
              ++ (print_int m.num_paths
                  ++ newline
                    ∷ (codes "Size:"
                        ++ (print_int m.size
                            ++ newline
                              ∷ (codes "Paths:"
                                  ++ (print_paths (pos_part m.num_paths) m.path
                                      ++ newline ∷ [])))))))

-- `write` at the start of a file that `open` did not truncate: the rest of the old content stays.
unfoldable pub overwrite : (new old : Text) → Text
overwrite [] old = old
overwrite (c ∷ new) [] = c ∷ new
overwrite (c ∷ new) (d ∷ old) = c ∷ overwrite new old

abbrev pub write_metadata_to_disk : MData → (old : Text) → Text
write_metadata_to_disk m old = overwrite (print_metadata m) old

-- "Filename:%s", "\nNumPaths:%d" and "\nSize:%d", and "\nPaths:%s".
unfoldable pub scan_name : Text → Option (Text × Text)
scan_name s = elim (expect (codes "Filename:") s) [ none ↦ none | some r ↦ take_word r ]

unfoldable pub scan_labelled : Text → Text → Option (ℤ × Text)
scan_labelled label s = elim (expect label (skip_space s)) [ none ↦ none | some r ↦ take_int r ]

unfoldable pub scan_paths : Text → Option (Text × Text)
scan_paths s = elim (expect (codes "Paths:") (skip_space s)) [ none ↦ none | some r ↦ take_word r ]

-- The four conversions, or `none` if `sscanf` does not return 4.
unfoldable pub scan_metadata : Text → Option (Text × ℤ × ℤ × Text)
scan_metadata s = elim (scan_name s) [
  | none ↦ none
  | some (file_name, r) ↦ elim (scan_labelled (codes "NumPaths:") r) [
    | none ↦ none
    | some (num_paths, r') ↦ elim (scan_labelled (codes "Size:") r') [
      | none ↦ none
      | some (size, r'') ↦ elim (scan_paths r'') [
        | none ↦ none
        | some (paths, rest) ↦ some (file_name, num_paths, size, paths)
      ]
    ]
  ]
]

-- The loop up to the next `;`. `none` stands for a read past the end of `paths`.
unfoldable pub take_path : Text → Option (Text × Text)
take_path [] = none
take_path (c ∷ s) =
    let rest = take_path s in
    if c == b';' then some ([], s) else elim rest [ none ↦ none | some (p, r) ↦ some (c ∷ p, r) ]

unfoldable pub take_paths : ℕ → Text → Option (List Text)
take_paths zero s = some []
take_paths (suc n) s = elim (take_path s) [
  | none ↦ none
  | some (p, r) ↦ elim (take_paths n r) [ none ↦ none | some ps ↦ some (p ∷ ps) ]
]

-- The ends of the reading: "parsing metadata file failed", a read past the end of `paths`, or the
-- metadata.
pub data Loaded : Type 0 where
  parse_failed : Loaded
  past_end : Loaded
  loaded : MData → Loaded

-- What `mdata_from_disk_to_memory` makes of `buf`: the content of the file, and behind it what the
-- stack holds, `junk`, up to a NUL byte.
unfoldable pub read_metadata : (content junk : Text) → Loaded
read_metadata content junk = elim (scan_metadata (content ++ junk)) [
  | none ↦ parse_failed
  | some (file_name, num_paths, size, paths) ↦ elim (take_paths (pos_part num_paths) paths) [
    | none ↦ past_end
    | some path ↦
        loaded (record { file_name = file_name; num_paths = num_paths; path = path; size = size })
  ]
]
