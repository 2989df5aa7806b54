-- ===== src/Cache/Chunks.antt =====
-- `create_date_folder` and `write_buffer_to_disk` of Cache.c: the lines of a write buffer go to one
-- file for each run of lines of one date, in a folder of that date.
use os_hw.Prelude.{
  ℕ, Bool, true, false, ◌||◌, Option, none, some, List, [], ◌∷◌, ◌++◌, ◌==◌, if◌then◌else◌, length,
  pos, ◌+ℤ◌,
}
use os_hw.Text.{Text, newline, text_eq}
use os_hw.Cache.{MData, CacheBlock}
use os_hw.Cache.Timestamps.{scan_timestamp, scan_field, is_dates_equal, date_folder}

-- The local variables, the metadata, the chunk files and the folders by path. `segment` has the bytes of the buffer from
-- `startOffset` to `offset`.
pub record Writer : Type 0 where
  pub files : Text → Option Text
  pub folders : Text → Bool
  pub mdata : MData
  pub segment : Text
  pub line : Text
  pub last_seen_date : Text
  pub start_time : Text
  pub folder_name : Text

abbrev pub chunk_file_name : Text → Writer → Text
chunk_file_name chunk_path w =
    chunk_path ++ (w.folder_name ++ b'/' ∷ (w.mdata.file_name ++ b'-' ∷ w.start_time))

-- A new file gets a path in the metadata; an old one is appended to.
unfoldable pub add_path : Option Text → Text → MData → MData
add_path none name m = record m { num_paths = m.num_paths +ℤ pos 1; path = m.path ++ name ∷ [] }
add_path (some content) name m = m

unfoldable pub append_file : Option Text → Text → Text
append_file none segment = segment
append_file (some content) segment = content ++ segment

-- `open`, `write` and `close`. Where there is no folder `open` fails, which is not tested, and
-- `write` does nothing.
unfoldable pub write_file :
    (there : Bool) → (name segment : Text) → (Text → Option Text) → Text → Option Text
write_file false name segment files p = files p
write_file true name segment files p =
    if text_eq p name then some (append_file (files name) segment) else files p

-- Write `segment` to its chunk file.
unfoldable pub write_segment : Text → Writer → Writer
write_segment chunk_path w =
    let name = chunk_file_name chunk_path w in
    let m = add_path (w.files name) name w.mdata in
    record w {
      files = write_file (w.folders (chunk_path ++ w.folder_name)) name w.segment w.files;
      mdata = record m { size = m.size +ℤ pos (length w.segment) };
      segment = [];
    }

-- What the code does not decide: old contents of local variables that `sscanf` does not fill, and
-- whether `mkdir` of a path succeeds.
pub record Junk : Type 0 where
  pub equal : Bool
  pub text : Text
  pub makes : Text → Bool

-- `mkdir(path, 0777)`, whose result is not tested.
unfoldable pub make_folder : (made : Bool) → (path : Text) → (folders : Text → Bool) → Text → Bool
make_folder false path folders p = folders p
make_folder true path folders p = text_eq p path || folders p

-- `folder_name`, the folders, and the result.
unfoldable pub create_date_folder :
    Junk → (time_stamp folder_path : Text) → (folders : Text → Bool) → Text × (Text → Bool) × ℕ
create_date_folder junk time_stamp folder_path folders =
    let name = date_folder time_stamp junk.text in
    let path = folder_path ++ name in
    if folders path
    then (name, folders, 1)
    else (name, make_folder (junk.makes path) path folders, 0)

-- What follows a segment that was written: its date and time, and the folder.
unfoldable pub next_segment : Junk → (chunk_path timestamp : Text) → Writer → Writer
next_segment junk chunk_path timestamp w =
    let (name, folders, result) = create_date_folder junk timestamp chunk_path w.folders in
    record w {
      last_seen_date = timestamp;
      start_time = scan_field 3 timestamp w.start_time;
      folder_name = name;
      folders = folders;
    }

-- `offset` moves behind a line and the byte that ends it.
unfoldable pub add_line : Text → ℕ → Writer → Writer
add_line l end w = record w { segment = w.segment ++ (l ++ end ∷ []); line = l }

-- A complete line with a timestamp.
unfoldable pub take_line : Junk → (chunk_path timestamp l : Text) → Writer → Writer
take_line junk chunk_path timestamp l w = add_line l newline (
    if is_dates_equal junk.equal timestamp w.last_seen_date
    then w
    else next_segment junk chunk_path timestamp (write_segment chunk_path w))

-- The loop over the complete lines `ls` and what follows the last of them. It ends at an empty line
-- and at the end of the text, where `sscanf` leaves `line`, and at a line that is not complete or
-- has no timestamp.
unfoldable pub write_loop : Junk → (chunk_path : Text) → Writer → List Text → Text → Writer
write_loop junk chunk_path w [] [] = w
write_loop junk chunk_path w [] (c ∷ rest) = record w { line = c ∷ rest }
write_loop junk chunk_path w ([] ∷ ls) rest = w
write_loop junk chunk_path w ((c ∷ l) ∷ ls) rest = elim (scan_timestamp (c ∷ l)) [
  | none ↦ record w { line = c ∷ l }
  | some timestamp ↦
      write_loop junk chunk_path (take_line junk chunk_path timestamp (c ∷ l) w) ls rest
]

-- The first line, which is not tested for being complete: if it is not, the NUL byte behind it
-- counts as its end.
unfoldable pub first_line : Junk → (chunk_path l : Text) → ℕ → Writer → Writer
first_line junk chunk_path l end w = elim (scan_timestamp l) [
  | none ↦ next_segment junk chunk_path junk.text (add_line l end w)
  | some timestamp ↦ next_segment junk chunk_path timestamp (add_line l end w)
]

unfoldable pub write_lines : Junk → (chunk_path : Text) → Writer → List Text → Text → Writer
write_lines junk chunk_path w [] [] = w
write_lines junk chunk_path w [] (c ∷ rest) = first_line junk chunk_path (c ∷ rest) 0 w
write_lines junk chunk_path w ([] ∷ ls) rest = w
write_lines junk chunk_path w ((c ∷ l) ∷ ls) rest =
    write_loop junk chunk_path (first_line junk chunk_path (c ∷ l) newline w) ls rest

-- A byte in front of the first line.
unfoldable pub grow : ℕ → List Text × Text → List Text × Text
grow c ([], rest) = ([], c ∷ rest)
grow c (l ∷ ls, rest) = ((c ∷ l) ∷ ls, rest)

-- The complete lines of a text, and what follows the last newline.
unfoldable pub split_lines : Text → List Text × Text
split_lines [] = ([], [])
split_lines (c ∷ s) =
    let (ls, rest) = split_lines s in if c == newline then ([] ∷ ls, rest) else grow c (ls, rest)

abbrev pub start_writer : Junk → (Text → Option Text) → (Text → Bool) → MData → Writer
start_writer junk files folders m = record {
  files = files;
  folders = folders;
  mdata = m;
  segment = [];
  line = [];
  last_seen_date = [];
  start_time = junk.text;
  folder_name = junk.text;
}

unfoldable pub write_text : Junk → (chunk_path : Text) → Writer → Text → Writer
write_text junk chunk_path w s = write_lines junk chunk_path w (split_lines s).0 (split_lines s).1

-- The end: `buf` is cleared before it is tested for a newline, so the test always holds and `line`
-- is put back into the buffer.
unfoldable pub write_buffer_to_disk :
    Junk
    → (chunk_path : Text) → (files : Text → Option Text) → (folders : Text → Bool) → MData
    → CacheBlock
    → Writer × CacheBlock
write_buffer_to_disk junk chunk_path files folders m b =
    let w = write_text junk chunk_path (start_writer junk files folders m) b.buf in
    (write_segment chunk_path w, record b { buf = w.line; offset = length w.line })
