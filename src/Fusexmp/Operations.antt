-- ===== src/Fusexmp/Operations.antt =====
-- `xmp_mknod`, `xmp_read` and `xmp_write` of fusexmp.c.
use os_hw.Prelude.{ℕ, ◌+◌, Option, none, some, [], ◌∷◌, ltb, if◌then◌else◌, length, modify, ℤ, pos}
use os_hw.Text.{Text, codes, text_eq}
use os_hw.Cache.{
  MData, block, FreeResult, normal, write_back, get_free_cache_block, find_meta_data_block,
}
use os_hw.Cache.Chunks.{Junk, write_buffer_to_disk}
use os_hw.FileSystem.Operations.{Fs, put_store, old_content, Reply, died, replied}
use os_hw.FileSystem.Write.{set_block, point_block, append_text, extend_load_path}
use os_hw.FileSystem.Calls.{status}
use os_hw.FileSystem.Nodes.{FileMode, regular, fifo, other, NodeCalls, close_opened}
use os_hw.Fusexmp.Calls.{set_load_path}
use os_hw.Fusexmp.Metadata.{write_metadata_to_disk, read_metadata}

-- CHUNK_PATH
abbrev pub chunk_path : Text
chunk_path = codes "/home/gokul/Desktop/ESS/Chunks/"

-- `write_metadata_to_disk(mdata, MDATA_PATH)` for the metadata at `a`.
unfoldable pub flush_metadata : Fs → ℕ → Fs
flush_metadata s a = record s {
  metadata_dir = λ name.
      if text_eq name (s.store a).file_name
      then some (write_metadata_to_disk (s.store a) (old_content (s.metadata_dir name)))
      else s.metadata_dir name;
}

-- What `mdata_from_disk_to_memory` leaves: an access out of bounds, or the state. It returns NULL
-- where the file cannot be read, and else no value.
pub data Lookup : Type 0 where
  fault : Lookup
  null_block : Fs → Lookup
  no_value : Fs → Lookup

unfoldable pub fill : Fs → ℕ → Option MData → Lookup
fill s a none = fault
fill s a (some m) = no_value (record s { store = put_store s.store a m })

unfoldable pub load_into : Fs → (stack paths name : Text) → ℕ → Lookup
load_into s stack paths name a = elim (s.metadata_dir name) [
  | none ↦ null_block s
  | some content ↦ fill s a (read_metadata content stack paths (s.store a))
]

unfoldable pub evict : Fs → ℕ → FreeResult → Fs
evict s a normal = s
evict s a write_back = flush_metadata s a

unfoldable pub mdata_from_disk_to_memory : Fs → (stack paths name : Text) → Lookup
mdata_from_disk_to_memory s stack paths name = elim (get_free_cache_block s.meta_data_cache) [
  | none ↦ fault
  | some (c, i, result) ↦ elim (block c i).mdata [
    | none ↦ fault
    | some a ↦ load_into (evict (record s { meta_data_cache = c }) a result) stack paths name a
  ]
]

-- The metadata of a new file: the size is what stood there.
abbrev pub renamed : Text → MData → MData
renamed name m = record m { file_name = name; num_paths = pos 0; path = [] }

-- `xmp_mknod` of a regular file "/name": the block that is taken does not count as used.
unfoldable pub take_metadata : Fs → Text → Option Fs
take_metadata s name = elim (get_free_cache_block s.meta_data_cache) [
  | none ↦ none
  | some (c, i, result) ↦ elim (block c i).mdata [
    | none ↦ none
    | some a ↦ some (
        flush_metadata
          (record s { meta_data_cache = c; store = put_store s.store a (renamed name (s.store a)) })
          a)
  ]
]

unfoldable pub made_node : NodeCalls → Option Fs → Reply ℤ
made_node sys none = died
made_node sys (some s) = replied (status (close_opened sys.close (sys.open_new s.load_path))) s

unfoldable pub xmp_mknod : NodeCalls → FileMode → Text → Fs → Reply ℤ
xmp_mknod sys regular name s = made_node sys (take_metadata (set_load_path (b'/' ∷ name) s) name)
xmp_mknod sys fifo name s =
    replied (status (sys.mkfifo (b'/' ∷ name))) (set_load_path (b'/' ∷ name) s)
xmp_mknod sys other name s =
    replied (status (sys.mknod (b'/' ∷ name))) (set_load_path (b'/' ∷ name) s)

-- The same text for every file; it returns the length.
abbrev pub xmp_read : (path : Text) → Text
xmp_read path = codes "helllllllllllllllllllllllllllllllllo"

-- `write_buffer_to_disk` of block `j` of the buffer cache; the metadata file is not written. `none`
-- is a null `mdata`.
unfoldable pub spill : Junk → Fs → ℕ → Option Fs
spill junk s j =
    let b = block s.buffer_cache j in
    elim b.mdata [
      | none ↦ none
      | some a ↦
          let (w, b') = write_buffer_to_disk junk chunk_path s.files s.folders (s.store a) b in
          some (record s {
            files = w.files;
            folders = w.folders;
            store = put_store s.store a w.mdata;
            buffer_cache = set_block j b' s.buffer_cache;
          })
    ]

unfoldable pub evict_buffer : Junk → Fs → ℕ → FreeResult → Option Fs
evict_buffer junk s j normal = some s
evict_buffer junk s j write_back = spill junk s j

-- A new write buffer, for the metadata at `a`.
unfoldable pub new_buffer : Junk → Fs → ℕ → Option (ℕ × Fs)
new_buffer junk s a = elim (get_free_cache_block s.buffer_cache) [
  | none ↦ none
  | some (c, j, result) ↦ elim (evict_buffer junk (record s { buffer_cache = c }) j result) [
    | none ↦ none
    | some s' ↦ some (j, point_block j a s')
  ]
]

-- `meta_data_block`: a block with its metadata at an address, or a pointer that must not be used.
pub data BlockPointer : Type 0 where
  pointer : ℕ → BlockPointer
  unusable : BlockPointer

unfoldable pub buffer_for : Junk → BlockPointer → Fs → Option (ℕ × Fs)
buffer_for junk unusable s = none
buffer_for junk (pointer a) s = new_buffer junk s a

-- The write buffer of the file; only a new one needs the metadata.
unfoldable pub buffer_block : Junk → Fs → Text → BlockPointer → Option (ℕ × Fs)
buffer_block junk s name p = elim (find_meta_data_block s.store s.buffer_cache name) [
  | none ↦ buffer_for junk p s
  | some j ↦ some (j, s)
]

unfoldable pub make_room : Junk → Fs → ℕ → Text → Option Fs
make_room junk s j text =
    if ltb s.buffer_cache.cache_block_size ((block s.buffer_cache j).offset + length text)
    then spill junk s j
    else some s

-- The last lines: `strcat` to the buffer.
abbrev pub append_block : Fs → ℕ → Text → Fs
append_block s j text = record s {
  buffer_cache = record s.buffer_cache {
    cblocks = modify s.buffer_cache.cblocks j (append_text text);
  };
}

-- From `meta_data_block` on.
unfoldable pub write_to : Junk → Fs → Text → BlockPointer → Text → Reply ℕ
write_to junk s name p text = elim (buffer_block junk s name p) [
  | none ↦ died
  | some (j, s1) ↦ elim (make_room junk s1 j text) [
    | none ↦ died
    | some s2 ↦ replied (length text) (append_block s2 j text)
  ]
]

-- The metadata were not in the cache.
unfoldable pub write_loaded : Junk → (name text : Text) → Lookup → Reply ℕ
write_loaded junk name text fault = died
write_loaded junk name text (null_block s) = write_to junk s name unusable text
write_loaded junk name text (no_value s) = write_to junk s name unusable text

unfoldable pub write_cached : Junk → Fs → (name text : Text) → Option ℕ → Reply ℕ
write_cached junk s name text none = died
write_cached junk s name text (some a) = write_to junk s name (pointer a) text

-- `xmp_write` of the string at `buf`, to the path "/name".
unfoldable pub xmp_write : Junk → (stack paths : Text) → Fs → (name text : Text) → Reply ℕ
xmp_write junk stack paths s name text =
    let s' = extend_load_path (b'/' ∷ name) s in
    elim (find_meta_data_block s.store s.meta_data_cache name) [
      | none ↦ write_loaded junk name text (mdata_from_disk_to_memory s' stack paths name)
      | some i ↦ write_cached junk s' name text (block s.meta_data_cache i).mdata
    ]
