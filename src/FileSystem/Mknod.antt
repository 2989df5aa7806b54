-- ===== src/FileSystem/Mknod.antt =====
-- `lfs_mknod` and the write buffers that point to the metadata it takes.
use os_hw.Prelude.{
  ℕ, zero, suc, ◌<◌, ◌≡◌, refl, true, false, some, List, [], ◌∷◌, ◌++◌, arith, length, get_or,
  Bool-cases, inl, inr,
}
use os_hw.Text.{Text, text_eq_refl}
use os_hw.Cache.{
  CacheBlock, Cache, num_blocks, block, no_block, Store, is_file, find_from, find_meta_data_block,
  FreeResult, get_free_cache_block, update_lru,
}
use os_hw.FileSystem.Operations.{
  Fs, load_path_root, put_store, flush_metadata, fresh_metadata, lfs_mknod,
}

find_from_total :
    (i : ℕ) (m : Store) (name : Text) (bs : List CacheBlock) (j : ℕ)
    → j < length bs
    → is_file m name (get_or bs j no_block) ≡ true
    → (k : ℕ) × (find_from i m name bs ≡ some k)
unfolding find_from
find_from_total i m name [] j h e = absurd (omega arith)
find_from_total i m name (b ∷ bs) zero h e = (i, rw (find_from, e) refl)
find_from_total i m name (b ∷ bs) (suc j) h e = elim (Bool-cases (is_file m name b)) [
  | inl here ↦ (i, rw (find_from, here) refl)
  | inr other ↦
      let (k, there) = find_from_total (suc i) m name bs j (omega arith) e in
      (k, rw (find_from, other) there)
]

is_file_at :
    (store : Store) (a : ℕ) (name : Text) (b : CacheBlock)
    → b.free_flag ≡ false
    → b.mdata ≡ some a
    → is_file (put_store store a (fresh_metadata name)) name b ≡ true
is_file_at store a name b used points = ground (arith, text_eq_refl name)

-- If a write buffer in use points to the metadata that `lfs_mknod` takes for a new file, the new
-- file has a write buffer from the start: the data that were buffered for another file.
pub lfs_mknod_adopts_buffer :
    (s : Fs) (name : Text) (c : Cache) (i : ℕ) (result : FreeResult) (a j : ℕ)
    → get_free_cache_block s.meta_data_cache ≡ some (c, i, result)
    → (block c i).mdata ≡ some a
    → j < num_blocks s.buffer_cache
    → (block s.buffer_cache j).free_flag ≡ false
    → (block s.buffer_cache j).mdata ≡ some a
    → (s' : Fs) × (k : ℕ) × (lfs_mknod s name ≡ some s')
      × (find_meta_data_block s'.store s'.buffer_cache name ≡ some k)
unfolding lfs_mknod flush_metadata find_meta_data_block
lfs_mknod_adopts_buffer s name c i result a j free at inside used points =
    let store' = put_store s.store a (fresh_metadata name) in
    let made = record s {
      load_path = load_path_root ++ b'/' ∷ name;
      meta_data_cache = update_lru c i;
      store = store';
    } in
    let (k, found) =
      find_from_total 0 store' name s.buffer_cache.cblocks j inside
        (is_file_at s.store a name (block s.buffer_cache j) used points) in
    (flush_metadata made a, k, rw (lfs_mknod, free, at) refl, found)
