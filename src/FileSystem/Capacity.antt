-- ===== src/FileSystem/Capacity.antt =====
-- The room that `lfs_write` leaves in a write buffer.
use os_hw.Prelude.{ℕ, ◌+◌, ◌≤◌, ◌<◌, ◌≡◌, ap, ◌∙◌, some, ◌∷◌, arith, length, length-append, ◌↔◌}
use os_hw.Text.{Text}
use os_hw.Cache.{block, update_lru, find_meta_data_block}
use os_hw.Cache.Chunks.{Junk}
use os_hw.FileSystem.Operations.{Fs, replied}
use os_hw.FileSystem.Write.{append_block, extend_load_path, lfs_write}
use os_hw.FileSystem.Append.{used_metadata, append_block-block, after_write, lfs_write_cached}

-- After a text that fits beside what is there went to the write buffer of a file in both caches, and
-- the buffer counted its bytes before, it counts them still and holds no more than its size; but the
-- NUL byte behind the text has a place in the block only if the text does not fill it.
pub lfs_write_bounds :
    (junk : Junk) (stack : Text) (s : Fs) (name text : Text) (i a j : ℕ)
    → find_meta_data_block s.store s.meta_data_cache name ≡ some i
    → (block s.meta_data_cache i).mdata ≡ some a
    → find_meta_data_block s.store s.buffer_cache name ≡ some j
    → (block s.buffer_cache j).offset ≡ length (block s.buffer_cache j).buf
    → (block s.buffer_cache j).offset + length text ≤ s.buffer_cache.cache_block_size
    → (u : Fs) × (lfs_write junk stack s name text ≡ replied (length text) u)
      × ((block u.buffer_cache j).offset ≡ length (block u.buffer_cache j).buf)
      × ((block u.buffer_cache j).offset ≤ u.buffer_cache.cache_block_size)
      × ((length (block u.buffer_cache j).buf + 1 ≤ u.buffer_cache.cache_block_size)
          ↔ ((block s.buffer_cache j).offset + length text < s.buffer_cache.cache_block_size))
unfolding lfs_write append_block update_lru
lfs_write_bounds junk stack s name text i a j found at buffered counts fits =
    let s1 = extend_load_path (b'/' ∷ name) (used_metadata i s) in
    let (buf, offset) = append_block-block s1 name text j buffered in
    let len : length (block (append_block s1 j text).buffer_cache j).buf
        ≡ length (block s.buffer_cache j).buf + length text =
      ap length buf ∙ length-append (block s.buffer_cache j).buf text in
    (
      after_write name i j text s,
      lfs_write_cached s name i a j found at buffered junk stack text fits,
      omega arith,
      omega arith,
      (λ h. omega arith, λ h. omega arith),
    )
