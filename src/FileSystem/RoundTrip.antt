-- ===== src/FileSystem/RoundTrip.antt =====
-- A metadata file is read back as it was written, over any older content.
use os_hw.Prelude.{
  ◌≡◌, refl, none, some, [], ◌∷◌, ◌++◌, length, ℤ, pos, pos_part, append_assoc, append-nil, sym, ap,
  subst, ◌≢◌,
}
use os_hw.Text.{
  newline, Text, codes, print_int, is_space, IsWord, skip_space, expect, take_word, span_word,
  skip_space_one, expect_append, take_word_append, take_int-print_int,
}
use os_hw.Cache.{MData}
use os_hw.FileSystem.Paths.{ArePaths, take_paths-print_paths, print_paths-IsWord}
use os_hw.FileSystem.Metadata.{
  print_paths, print_metadata, overwrite, write_metadata_to_disk, scan_name, scan_labelled,
  scan_paths, scan_metadata, loaded, parse_failed, read_metadata,
}

overwrite_tail : (new old : Text) → (tail : Text) × (overwrite new old ≡ new ++ tail)
unfolding overwrite
overwrite_tail [] old = (old, refl)
overwrite_tail (c ∷ new) [] = ([], sym (append-nil (c ∷ new)))
overwrite_tail (c ∷ new) (d ∷ old) =
    let (tail, same) = overwrite_tail new old in (tail, rw same refl)

overwrite_nil : (new : Text) → overwrite new [] ≡ new
unfolding overwrite
overwrite_nil [] = refl
overwrite_nil (c ∷ new) = refl

scan_name_lem :
    (w s : Text)
    → IsWord w
    → scan_name (codes "Filename:" ++ (w ++ newline ∷ s)) ≡ some (w, newline ∷ s)
unfolding scan_name is_space
scan_name_lem w s h = rw (
  scan_name,
  expect_append (codes "Filename:") (w ++ newline ∷ s),
  take_word_append w s newline h refl,
)

scan_labelled_lem :
    (label : Text) (n : ℤ) (s : Text)
    → IsWord label
    → scan_labelled label (newline ∷ (label ++ (print_int n ++ newline ∷ s)))
      ≡ some (n, newline ∷ s)
unfolding scan_labelled is_space
scan_labelled_lem label n s h = rw (
  scan_labelled,
  skip_space_one newline label (print_int n ++ newline ∷ s) refl h,
  expect_append label (print_int n ++ newline ∷ s),
  take_int-print_int n s newline refl,
)

scan_paths_lem :
    (w s : Text)
    → IsWord w
    → scan_paths (newline ∷ (codes "Paths:" ++ (w ++ newline ∷ s))) ≡ some (w, newline ∷ s)
unfolding scan_paths is_space
scan_paths_lem w s h = rw (
  scan_paths,
  skip_space_one newline (codes "Paths:") (w ++ newline ∷ s) refl
      (refl, (refl, (refl, (refl, (refl, (refl, tt)))))),
  expect_append (codes "Paths:") (w ++ newline ∷ s),
  take_word_append w s newline h refl,
)

-- The file of `m`, with what stands behind it.
abbrev metadata_text : MData → Text → Text
metadata_text m rest =
    codes "Filename:"
    ++ (m.file_name
        ++ newline
          ∷ (codes "NumPaths:"
              ++ (print_int m.num_paths
                  ++ newline
                    ∷ (codes "Size:"
                        ++ (print_int m.size
                            ++ newline
                              ∷ (codes "Paths:"
                                  ++ (print_paths (pos_part m.num_paths) m.path
                                      ++ newline ∷ rest)))))))

print_metadata-append : (m : MData) (rest : Text) → print_metadata m ++ rest ≡ metadata_text m rest
unfolding print_metadata
print_metadata-append m rest = simp (append_assoc)

num_paths-IsWord : IsWord (codes "NumPaths:")
unfolding is_space
num_paths-IsWord = (refl, (refl, (refl, (refl, (refl, (refl, (refl, (refl, (refl, tt)))))))))

size-IsWord : IsWord (codes "Size:")
unfolding is_space
size-IsWord = (refl, (refl, (refl, (refl, (refl, tt)))))

scan_metadata-metadata_text :
    (m : MData) (rest : Text)
    → IsWord m.file_name
    → IsWord (print_paths (pos_part m.num_paths) m.path)
    → scan_metadata (metadata_text m rest)
      ≡ some (m.file_name, m.num_paths, m.size, print_paths (pos_part m.num_paths) m.path)
unfolding scan_metadata
scan_metadata-metadata_text m rest h k =
    let paths = print_paths (pos_part m.num_paths) m.path in
    let after_size = codes "Paths:" ++ (paths ++ newline ∷ rest) in
    let after_num = codes "Size:" ++ (print_int m.size ++ newline ∷ after_size) in
    rw (
      scan_metadata,
      scan_name_lem m.file_name
          (codes "NumPaths:" ++ (print_int m.num_paths ++ newline ∷ after_num)) h,
      scan_labelled_lem (codes "NumPaths:") m.num_paths after_num num_paths-IsWord,
      scan_labelled_lem (codes "Size:") m.size after_size size-IsWord,
      scan_paths_lem paths rest k,
    )

read_metadata-append :
    (m : MData) (rest : Text)
    → IsWord m.file_name
    → m.num_paths ≡ pos (length m.path)
    → m.path ≢ []
    → ArePaths m.path
    → read_metadata (print_metadata m) rest ≡ loaded m
unfolding read_metadata
read_metadata-append m rest name num some_path paths =
    let same = ap pos_part num in
    let word =
      subst (λ n. IsWord (print_paths n m.path)) (sym same)
        (print_paths-IsWord m.path paths some_path) in
    rw (
      read_metadata,
      print_metadata-append m rest,
      scan_metadata-metadata_text m rest name word,
      same,
      take_paths-print_paths m.path paths,
    )

-- Metadata with at least one path, whose name and paths have no white space and whose paths have no
-- `;`, are read back from the file to which they were written, whatever the file held before and
-- whatever stands behind the content in the buffer.
pub read_metadata-write_metadata_to_disk :
    (m : MData) (old junk : Text)
    → IsWord m.file_name
    → m.num_paths ≡ pos (length m.path)
    → m.path ≢ []
    → ArePaths m.path
    → read_metadata (write_metadata_to_disk m old) junk ≡ loaded m
unfolding read_metadata
read_metadata-write_metadata_to_disk m old junk name num some_path paths =
    let (tail, same) = overwrite_tail (print_metadata m) old in
    rw (read_metadata, same, append_assoc (print_metadata m) tail junk)
      (read_metadata-append m (tail ++ junk) name num some_path paths)

scan_metadata_fresh :
    (m : MData)
    → IsWord m.file_name
    → m.num_paths ≡ pos 0
    → scan_metadata (metadata_text m []) ≡ none
unfolding scan_metadata print_paths scan_paths expect skip_space take_word span_word is_space
scan_metadata_fresh m h k =
    let after_size = codes "Paths:" ++ newline ∷ [] in
    let after_num = codes "Size:" ++ (print_int m.size ++ newline ∷ after_size) in
    rw (
      ap pos_part k,
      scan_metadata,
      scan_name_lem m.file_name
          (codes "NumPaths:" ++ (print_int m.num_paths ++ newline ∷ after_num)) h,
      scan_labelled_lem (codes "NumPaths:") m.num_paths after_num num_paths-IsWord,
      scan_labelled_lem (codes "Size:") m.size after_size size-IsWord,
    )

-- The metadata of a file without a path are not read back from a new file, if nothing stands behind
-- the content in the buffer: `%s` finds no word after "Paths:".
pub read_metadata_fresh :
    (m : MData)
    → IsWord m.file_name
    → m.num_paths ≡ pos 0
    → read_metadata (write_metadata_to_disk m []) [] ≡ parse_failed
unfolding read_metadata
read_metadata_fresh m h k = rw (
  read_metadata,
  overwrite_nil (print_metadata m),
  print_metadata-append m [],
  scan_metadata_fresh m h k,
)
