-- ===== src/FileSystem/Reload.antt =====
-- Metadata that are not in the cache are read back from their file.
use os_hw.Prelude.{ℕ, ◌≡◌, ◌≢◌, refl, ap, ◌∙◌, false, none, some, [], arith, length, pos}
use os_hw.Text.{Text, text_eq, IsWord}
use os_hw.Cache.{
  MData, Cache, block, FreeResult, normal, write_back, get_free_cache_block, update_lru,
  find_meta_data_block,
}
use os_hw.FileSystem.Metadata.{write_metadata_to_disk, read_metadata}
use os_hw.FileSystem.Paths.{ArePaths}
use os_hw.FileSystem.RoundTrip.{read_metadata-write_metadata_to_disk, read_metadata_fresh}
use os_hw.FileSystem.Operations.{
  Fs, put_store, flush_metadata, mapped, fill, load_into, evict, mdata_from_disk_to_memory,
  metadata_block, fresh_metadata, died, lfs_getattr,
}

-- An eviction does not touch the files of other names.
evict_other :
    (s : Fs) (a : ℕ) (result : FreeResult) (name : Text)
    → (result ≡ write_back → text_eq name (s.store a).file_name ≡ false)
    → (evict s a result).metadata_dir name ≡ s.metadata_dir name
unfolding evict flush_metadata
evict_other s a normal name other = refl
evict_other s a write_back name other = rw (other refl)

module _ (s : Fs) (junk name : Text) (c : Cache) (i : ℕ) (result : FreeResult) (a : ℕ)
    (missing : find_meta_data_block s.store s.meta_data_cache name ≡ none)
    (free : get_free_cache_block s.meta_data_cache ≡ some (c, i, result))
    (at : (block c i).mdata ≡ some a)
    (other : result ≡ write_back → text_eq name (s.store a).file_name ≡ false) (content : Text)
    (file : s.metadata_dir name ≡ some content) where
  metadata_block_load :
      metadata_block s junk name
      ≡ fill (evict (record s { meta_data_cache = c }) a result) i a (read_metadata content junk)
  unfolding metadata_block mdata_from_disk_to_memory load_into
  metadata_block_load =
      let evicted = evict_other (record s { meta_data_cache = c }) a result name other ∙ file in
      rw (metadata_block, missing, mdata_from_disk_to_memory, free, at, load_into, evicted)

-- A lookup of metadata that are not in the cache, but were written to their file, maps what was
-- written, if the metadata have at least one path and as many as they count, their name is not empty
-- and has no white space, no path has white space or a `;`, and the block that is evicted for them,
-- if it was in use, is of another file. Metadata without a path are not covered.
pub metadata_block_reload :
    (s : Fs) (junk : Text) (c : Cache) (i : ℕ) (result : FreeResult) (a : ℕ) (m : MData)
    (old : Text)
    → find_meta_data_block s.store s.meta_data_cache m.file_name ≡ none
    → get_free_cache_block s.meta_data_cache ≡ some (c, i, result)
    → (block c i).mdata ≡ some a
    → (result ≡ write_back → text_eq m.file_name (s.store a).file_name ≡ false)
    → s.metadata_dir m.file_name ≡ some (write_metadata_to_disk m old)
    → IsWord m.file_name
    → m.num_paths ≡ pos (length m.path)
    → m.path ≢ []
    → ArePaths m.path
    → (s' : Fs) × (metadata_block s junk m.file_name ≡ mapped i a s') × (s'.store a ≡ m)
unfolding fill
metadata_block_reload s junk c i result a m old missing free at other file name num some_path
      paths =
    let e = evict (record s { meta_data_cache = c }) a result in
    (
      record e { meta_data_cache = update_lru e.meta_data_cache i; store = put_store e.store a m },
      metadata_block_load s junk m.file_name c i result a missing free at other
            (write_metadata_to_disk m old) file
          ∙ ap (fill e i a)
              (read_metadata-write_metadata_to_disk m old junk name num some_path paths),
      ground arith,
    )

-- Once the metadata of a new file have left the cache, `lfs_getattr` of the file ends the process:
-- what `lfs_mknod` writes for it is not read back, if nothing stands behind the content in the
-- buffer.
pub lfs_getattr_fresh :
    (s : Fs) (name : Text) (c : Cache) (i : ℕ) (result : FreeResult) (a : ℕ)
    → find_meta_data_block s.store s.meta_data_cache name ≡ none
    → get_free_cache_block s.meta_data_cache ≡ some (c, i, result)
    → (block c i).mdata ≡ some a
    → (result ≡ write_back → text_eq name (s.store a).file_name ≡ false)
    → s.metadata_dir name ≡ some (write_metadata_to_disk (fresh_metadata name) [])
    → IsWord name
    → lfs_getattr s [] name ≡ died
unfolding lfs_getattr fill
lfs_getattr_fresh s name c i result a missing free at other file word = rw (
  lfs_getattr,
  metadata_block_load s [] name c i result a missing free at other
      (write_metadata_to_disk (fresh_metadata name) []) file,
  read_metadata_fresh (fresh_metadata name) word refl,
)
