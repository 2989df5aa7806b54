-- ===== src/FileSystem/Operations.antt =====
-- Operations of lfs_fuse.c on regular files: the lookup of metadata, `lfs_mknod`, `lfs_getattr` and
-- `lfs_read`.
use os_hw.Prelude.{
  ℕ, ◌-◌, zero, suc, Bool, Option, none, some, List, [], ◌∷◌, ◌++◌, ◌==◌, if◌then◌else◌, ℤ, pos,
  pos_part, ◌+ℤ◌, ltb,
}
use os_hw.Text.{newline, Text, codes, text_eq}
use os_hw.Cache.{
  MData, Cache, block, Store, FreeResult, normal, write_back, get_free_cache_block, update_lru,
  find_meta_data_block,
}
use os_hw.FileSystem.Metadata.{
  write_metadata_to_disk, Loaded, parse_failed, past_end, loaded, read_metadata,
}

-- LOAD_PATH
abbrev pub load_path_root : Text
load_path_root = codes "/home/vino/Desktop/serverfilesystem"

-- The globals `load_path`, `meta_data_cache` and `buffer_cache`, the memory of the metadata, the
-- files under MDATA_PATH by name, and the chunk files and
-- their folders by path.
pub record Fs : Type 0 where
  pub load_path : Text
  pub meta_data_cache : Cache
  pub buffer_cache : Cache
  pub store : Store
  pub metadata_dir : Text → Option Text
  pub files : Text → Option Text
  pub folders : Text → Bool

-- A write to the metadata at `a`.
abbrev pub put_store : Store → ℕ → MData → Store
put_store store a m b = if b == a then m else store b

unfoldable pub old_content : Option Text → Text
old_content none = []
old_content (some content) = content

-- `write_metadata_to_disk(mdata, MDATA_PATH)` for the metadata at `a`.
unfoldable pub flush_metadata : Fs → ℕ → Fs
flush_metadata s a = record s {
  metadata_dir = λ name.
      if text_eq name (s.store a).file_name
      then some (write_metadata_to_disk (s.store a) (old_content (s.metadata_dir name)))
      else s.metadata_dir name;
}

-- The ends of a lookup: `exit(1)` where the file is missing, a null pointer, on which the callers'
-- `assert` fails, an access out of bounds, or block `i` with its metadata at `a`.
pub data Lookup : Type 0 where
  exited : Lookup
  null_block : Lookup
  fault : Lookup
  mapped : (i a : ℕ) → Fs → Lookup

unfoldable pub fill : Fs → ℕ → ℕ → Loaded → Lookup
fill s i a parse_failed = null_block
fill s i a past_end = fault
fill s i a (loaded m) =
    mapped i a
      (record s { meta_data_cache = update_lru s.meta_data_cache i; store = put_store s.store a m })

-- The file is opened and read into the metadata at `a`, of block `i`.
unfoldable pub load_into : Fs → (junk name : Text) → ℕ → ℕ → Lookup
load_into s junk name i a = elim (s.metadata_dir name) [
  | none ↦ exited
  | some content ↦ fill s i a (read_metadata content junk)
]

unfoldable pub evict : Fs → ℕ → FreeResult → Fs
evict s a normal = s
evict s a write_back = flush_metadata s a

unfoldable pub mdata_from_disk_to_memory : Fs → (junk name : Text) → Lookup
mdata_from_disk_to_memory s junk name = elim (get_free_cache_block s.meta_data_cache) [
  | none ↦ fault
  | some (c, i, result) ↦ elim (block c i).mdata [
    | none ↦ fault
    | some a ↦ load_into (evict (record s { meta_data_cache = c }) a result) junk name i a
  ]
]

-- The first lines of `lfs_getattr`, `lfs_read` and `lfs_write`.
unfoldable pub metadata_block : Fs → (junk name : Text) → Lookup
metadata_block s junk name = elim (find_meta_data_block s.store s.meta_data_cache name) [
  | none ↦ mdata_from_disk_to_memory s junk name
  | some i ↦ elim (block s.meta_data_cache i).mdata [
    | none ↦ fault
    | some a ↦ mapped i a (record s { meta_data_cache = update_lru s.meta_data_cache i })
  ]
]

abbrev pub fresh_metadata : Text → MData
fresh_metadata name = record { file_name = name; num_paths = pos 0; path = []; size = pos 0 }

-- `lfs_mknod` for a regular file: what `get_free_cache_block` says of a write-back is not used.
-- `none` is an access out of bounds.
unfoldable pub lfs_mknod : Fs → Text → Option Fs
lfs_mknod s name = elim (get_free_cache_block s.meta_data_cache) [
  | none ↦ none
  | some (c, i, result) ↦ elim (block c i).mdata [
    | none ↦ none
    | some a ↦ some (
        flush_metadata
          (record s {
            load_path = load_path_root ++ b'/' ∷ name;
            meta_data_cache = update_lru c i;
            store = put_store s.store a (fresh_metadata name);
          })
          a)
  ]
]

-- What a call leaves: an end of the process, or its result and the new state.
pub data Reply (A : Type 0) : Type 0 where
  died : Reply A
  replied : A → Fs → Reply A

-- `st_size` of `lfs_getattr`, after the metadata at `a` were found.
unfoldable pub attr_size : Fs → Text → ℕ → Reply ℤ
attr_size s name a =
    let m = s.store a in
    elim (find_meta_data_block s.store s.buffer_cache name) [
      | none ↦ replied (m.size +ℤ m.num_paths) s
      | some j ↦
          replied (m.size +ℤ pos (block s.buffer_cache j).offset +ℤ m.num_paths)
            (record s { buffer_cache = update_lru s.buffer_cache j })
    ]

unfoldable pub found_size : Text → Lookup → Reply ℤ
found_size name exited = died
found_size name null_block = died
found_size name fault = died
found_size name (mapped i a s) = attr_size s name a

-- `st_size` of `lfs_getattr`, for a path whose `lstat` succeeds and that is neither "/" nor begins
-- with a dot.
unfoldable pub lfs_getattr : Fs → (junk name : Text) → Reply ℤ
unfolding found_size
lfs_getattr s junk name = found_size name (metadata_block s junk name)

-- `fread` of at most `n` bytes.
unfoldable pub fread : ℕ → Text → Text
fread n [] = []
fread n (c ∷ s) = let rest = fread (n - 1) s in if ltb 0 n then c ∷ rest else []

-- The loop over the chunks, of which each is read up to the size of the whole file. `none` is a null
-- `fptr`.
unfoldable pub read_chunks : (files : Text → Option Text) (size n : ℕ) → List Text → Option Text
read_chunks files size zero ps = some []
read_chunks files size (suc n) [] = none
read_chunks files size (suc n) (p ∷ ps) = elim (files p) [
  | none ↦ none
  | some content ↦ elim (read_chunks files size n ps) [
    | none ↦ none
    | some rest ↦ some (fread size content ++ newline ∷ rest)
  ]
]

-- What `lfs_read` puts into the caller's buffer, whatever `size` and `offset` it is called with;
-- it returns the length.
unfoldable pub read_result : Fs → Text → ℕ → Reply Text
read_result s name a =
    let m = s.store a in
    elim (read_chunks s.files (pos_part m.size) (pos_part m.num_paths) m.path) [
      | none ↦ died
      | some chunks ↦ elim (find_meta_data_block s.store s.buffer_cache name) [
        | none ↦ replied chunks s
        | some j ↦ replied (chunks ++ (block s.buffer_cache j).buf) s
      ]
    ]

unfoldable pub lfs_read : Fs → (junk name : Text) → Reply Text
lfs_read s junk name = elim (metadata_block s junk name) [
  | exited ↦ died
  | null_block ↦ died
  | fault ↦ died
  | mapped i a s' ↦ read_result s' name a
]
