-- ===== src/Fusexmp/Metadata.antt =====
-- The metadata file of fusexmp.c: `write_metadata_to_disk`, and the reading in
-- `mdata_from_disk_to_memory`.
use os_hw.Prelude.{Option, none, some, [], ◌∷◌, ◌++◌, pos_part}
use os_hw.Text.{Text, newline, codes, print_int, skip_space, expect, take_word, take_int}
use os_hw.Cache.{MData}
use os_hw.FileSystem.Metadata.{print_paths, overwrite, take_paths}

-- `buf` of `write_metadata_to_disk`, without the size.
unfoldable pub print_metadata : MData → Text
print_metadata m =
    codes "Filename:"
    ++ (m.file_name
        ++ newline
          ∷ (codes "NumPaths:"
              ++ (print_int m.num_paths
                  ++ newline
                    ∷ (codes "Paths:"
                        ++ (print_paths (pos_part m.num_paths) m.path ++ newline ∷ [])))))

abbrev pub write_metadata_to_disk : MData → (old : Text) → Text
write_metadata_to_disk m old = overwrite (print_metadata m) old

-- "\nPaths:%s\n": `paths`, or its old content.
unfoldable pub scan_paths : Text → (paths : Text) → Text
scan_paths s paths = elim (expect (codes "Paths:") (skip_space s)) [
  | none ↦ paths
  | some r ↦ elim (take_word r) [ none ↦ paths | some (word, rest) ↦ word ]
]

-- "\nNumPaths:%d" and what follows. `sscanf` stores what it has read when it stops.
unfoldable pub scan_num_paths : Text → MData → (paths : Text) → MData × Text
scan_num_paths s m paths = elim (expect (codes "NumPaths:") (skip_space s)) [
  | none ↦ (m, paths)
  | some r ↦ elim (take_int r) [
    | none ↦ (m, paths)
    | some (n, rest) ↦ (record m { num_paths = n }, scan_paths rest paths)
  ]
]

-- "FileName:%s\nNumPaths:%d\nPaths:%s\n" into the metadata and `paths`; what `sscanf` returns is not
-- tested.
unfoldable pub scan_metadata : Text → MData → (paths : Text) → MData × Text
scan_metadata s m paths = elim (expect (codes "FileName:") s) [
  | none ↦ (m, paths)
  | some r ↦ elim (take_word r) [
    | none ↦ (m, paths)
    | some (name, rest) ↦ scan_num_paths rest (record m { file_name = name }) paths
  ]
]

-- The loop over the paths; `none` stands for a read past the end of `paths`.
unfoldable pub fill_paths : MData × Text → Option MData
fill_paths (m, paths) = elim (take_paths (pos_part m.num_paths) paths) [
  | none ↦ none
  | some path ↦ some (record m { path = path })
]

-- What the content of the file, with the stack behind it, makes of the metadata; `paths` is the old
-- content of the array.
unfoldable pub read_metadata : (content stack paths : Text) → MData → Option MData
read_metadata content stack paths m = fill_paths (scan_metadata (content ++ stack) m paths)
