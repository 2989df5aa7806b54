-- ===== src/Cache/Folders.antt =====
-- `create_date_folder` of Cache.c: the folder that the next chunk file is opened in is there.
use os_hw.Prelude.{
  ◌≡◌, refl, ap, sym, subst, ◌∙◌, Bool, true, false, Option, none, some, [], ◌∷◌, ◌++◌,
  append_assoc, Bool-cases, inl, inr,
}
use os_hw.Text.{Text, newline, text_eq_refl}
use os_hw.Cache.{MData}
use os_hw.Cache.Timestamps.{date_folder}
use os_hw.Cache.Chunks.{
  Writer, chunk_file_name, add_path, write_segment, Junk, make_folder, create_date_folder,
  next_segment,
}
use os_hw.Cache.Runs.{file_of}

-- The folder of the date is there.
unfoldable pub IsReady : (junk : Junk) → (path file_name : Text) → Writer → Type 0
IsReady junk path file_name w =
    (w.folders (path ++ w.folder_name) ≡ true)
    × (w.folder_name ≡ date_folder w.last_seen_date junk.text)
    × (w.mdata.file_name ≡ file_name)

make_folder_lem :
    (made : Bool) (path : Text) (folders : Text → Bool)
    → made ≡ true
    → make_folder made path folders path ≡ true
unfolding make_folder
make_folder_lem true path folders h = rw (text_eq_refl path) refl
make_folder_lem false path folders h = cc

create_date_folder_lem :
    (junk : Junk) (t path : Text) (folders : Text → Bool)
    → junk.makes (path ++ date_folder t junk.text) ≡ true
    → ((create_date_folder junk t path folders).0 ≡ date_folder t junk.text)
      × ((create_date_folder junk t path folders).1 (path ++ date_folder t junk.text) ≡ true)
unfolding create_date_folder
create_date_folder_lem junk t path folders makes =
    let folder = path ++ date_folder t junk.text in
    elim (Bool-cases (folders folder)) [
      | inl there ↦ rw (create_date_folder, there) (refl, there)
      | inr missing ↦
          rw (create_date_folder, missing)
            (refl, make_folder_lem (junk.makes folder) folder folders makes)
    ]

add_path-file_name :
    (o : Option Text) (name : Text) (m : MData) → (add_path o name m).file_name ≡ m.file_name
unfolding add_path
add_path-file_name none name m = refl
add_path-file_name (some content) name m = refl

pub add_line_text :
    (s l more : Text) → (s ++ (l ++ newline ∷ [])) ++ more ≡ s ++ (l ++ newline ∷ more)
add_line_text s l more =
    append_assoc s (l ++ newline ∷ []) more ∙ ap (λ r. s ++ r) (append_assoc l (newline ∷ []) more)

module _ (junk : Junk) (path file_name : Text) (makes : (q : Text) → junk.makes q ≡ true) where
  pub next_segment-IsReady :
      (t : Text) (w : Writer)
      → w.mdata.file_name ≡ file_name
      → IsReady junk path file_name (next_segment junk path t w)
  unfolding IsReady next_segment
  next_segment-IsReady t w named =
      let (name, there) =
        create_date_folder_lem junk t path w.folders (makes (path ++ date_folder t junk.text)) in
      (
        subst (λ q. (create_date_folder junk t path w.folders).1 (path ++ q) ≡ true) (sym name)
            there,
        name,
        named,
      )

  pub write_segment-file_name :
      (w : Writer) → (write_segment path w).mdata.file_name ≡ w.mdata.file_name
  unfolding write_segment
  write_segment-file_name w =
      let name = chunk_file_name path w in add_path-file_name (w.files name) name w.mdata

  pub IsReady-file :
      (w : Writer)
      → IsReady junk path file_name w
      → chunk_file_name path w ≡ file_of junk path file_name w.last_seen_date w.start_time
  unfolding IsReady
  IsReady-file w (there, folder, named) = rw (folder, named) refl
