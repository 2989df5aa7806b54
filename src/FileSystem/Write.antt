-- ===== src/FileSystem/Write.antt =====
-- `lfs_write` of lfs_fuse.c: the text goes to the write buffer of the file, and the buffer to the
-- chunk files when it is full.
use os_hw.Prelude.{ℕ, ◌+◌, Option, none, some, ◌∷◌, ◌++◌, ltb, if◌then◌else◌, length, modify}
use os_hw.Text.{Text, codes}
use os_hw.Cache.{
  CacheBlock, Cache, block, FreeResult, normal, write_back, get_free_cache_block, update_lru,
  find_meta_data_block,
}
use os_hw.Cache.Chunks.{Junk, write_buffer_to_disk}
use os_hw.FileSystem.Operations.{
  Fs, put_store, flush_metadata, Lookup, exited, null_block, fault, mapped, metadata_block, Reply,
  died, replied,
}

-- CHUNK_PATH
abbrev pub chunk_path : Text
chunk_path = codes "/home/vino/Desktop/ESS/Chunks/"

-- A write through a pointer to block `j`.
abbrev pub set_block : ℕ → CacheBlock → Cache → Cache
set_block j b c = record c { cblocks = modify c.cblocks j (λ _. b) }

-- `write_buffer_to_disk` of block `j` of the buffer cache, and `write_metadata_to_disk` of its
-- metadata. `none` is a null `mdata`.
unfoldable pub spill : Junk → Fs → ℕ → Option Fs
spill junk s j =
    let b = block s.buffer_cache j in
    elim b.mdata [
      | none ↦ none
      | some a ↦
          let (w, b') = write_buffer_to_disk junk chunk_path s.files s.folders (s.store a) b in
          some (
            flush_metadata
              (record s {
                files = w.files;
                folders = w.folders;
                store = put_store s.store a w.mdata;
                buffer_cache = set_block j b' s.buffer_cache;
              })
              a)
    ]

-- Block `j` of the buffer cache gets the metadata at `a`.
abbrev pub point_to : ℕ → CacheBlock → CacheBlock
point_to a b = record b { mdata = some a }

abbrev pub point_block : ℕ → ℕ → Fs → Fs
point_block j a s = record s {
  buffer_cache = record s.buffer_cache { cblocks = modify s.buffer_cache.cblocks j (point_to a) };
}

unfoldable pub evict_buffer : Junk → Fs → ℕ → FreeResult → Option Fs
evict_buffer junk s j normal = some s
evict_buffer junk s j write_back = spill junk s j

-- A new write buffer, for the metadata at `a`.
unfoldable pub new_buffer : Junk → Fs → ℕ → Option (ℕ × Fs)
new_buffer junk s a = elim (get_free_cache_block s.buffer_cache) [
  | none ↦ none
  | some (c, j, result) ↦ elim (evict_buffer junk (record s { buffer_cache = c }) j result) [
    | none ↦ none
    | some s' ↦ some (j, point_block j a s')
  ]
]

-- The write buffer of the file.
unfoldable pub buffer_block : Junk → Fs → Text → ℕ → Option (ℕ × Fs)
buffer_block junk s name a = elim (find_meta_data_block s.store s.buffer_cache name) [
  | none ↦ new_buffer junk s a
  | some j ↦ some (j, s)
]

-- A buffer that the text would fill over its size is written to disk.
unfoldable pub make_room : Junk → Fs → ℕ → Text → Option Fs
make_room junk s j text =
    if ltb s.buffer_cache.cache_block_size ((block s.buffer_cache j).offset + length text)
    then spill junk s j
    else some s

abbrev pub append_text : Text → CacheBlock → CacheBlock
append_text text b = record b { buf = b.buf ++ text; offset = b.offset + length text }

-- The last lines: `strcat` to the buffer, whatever room is left. The size of the block is no part of
-- it, so where the text and its NUL byte go over the end, this is not what the memory holds then.
unfoldable pub append_block : Fs → ℕ → Text → Fs
append_block s j text =
    let c = update_lru s.buffer_cache j in
    record s { buffer_cache = record c { cblocks = modify c.cblocks j (append_text text) } }

-- From the metadata at `a` on.
unfoldable pub write_to : Junk → Fs → Text → ℕ → Text → Reply ℕ
write_to junk s name a text = elim (buffer_block junk s name a) [
  | none ↦ died
  | some (j, s1) ↦ elim (make_room junk s1 j text) [
    | none ↦ died
    | some s2 ↦ replied (length text) (append_block s2 j text)
  ]
]

-- `strcat(load_path, path)`, with no `strcpy` before it.
abbrev pub extend_load_path : Text → Fs → Fs
extend_load_path path s = record s { load_path = s.load_path ++ path }

unfoldable pub write_found : Junk → (name text : Text) → Lookup → Reply ℕ
write_found junk name text exited = died
write_found junk name text null_block = died
write_found junk name text fault = died
write_found junk name text (mapped i a s) = write_to junk s name a text

-- `lfs_write` of the string at `buf`; `size` and `offset` are not read. `stack` is what stands
-- behind the content of a metadata file that is read.
unfoldable pub lfs_write : Junk → (stack : Text) → Fs → (name text : Text) → Reply ℕ
unfolding write_found
lfs_write junk stack s name text =
    write_found junk name text (metadata_block (extend_load_path (b'/' ∷ name) s) stack name)
