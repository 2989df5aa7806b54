-- ===== src/FileSystem/Appends.antt =====
-- Many writes to a file that is in both caches, and a read after them.
use os_hw.Prelude.{
  ℕ, ◌+◌, ◌≤◌, ◌≡◌, refl, sym, ap, ◌∙◌, some, List, [], ◌∷◌, ◌++◌, append-nil, append_assoc, arith,
  length, length-append,
}
use os_hw.Text.{Text}
use os_hw.Cache.{block, find_meta_data_block}
use os_hw.Cache.Chunks.{Junk}
use os_hw.FileSystem.Operations.{Fs, replied, lfs_read}
use os_hw.FileSystem.Append.{
  used_metadata, after_write, lfs_write_cached, lfs_read-after_write, after_write-cached,
}
use os_hw.FileSystem.LoadPath.Growth.{lfs_writes}

abbrev pub all_text : List Text → Text
all_text [] = []
all_text (text ∷ texts) = text ++ all_text texts

-- Texts that fit the write buffer of a file in both caches together are all written, whatever the
-- file holds, and `lfs_read` then returns what it returned before with the texts behind it, in the
-- order of the writes.
pub lfs_read-lfs_writes :
    (junk : Junk) (stack : Text) (s t : Fs) (name old : Text) (texts : List Text) (i a j : ℕ)
    → find_meta_data_block s.store s.meta_data_cache name ≡ some i
    → (block s.meta_data_cache i).mdata ≡ some a
    → find_meta_data_block s.store s.buffer_cache name ≡ some j
    → (block s.buffer_cache j).offset + length (all_text texts) ≤ s.buffer_cache.cache_block_size
    → lfs_read s stack name ≡ replied old t
    → (u v : Fs) × (lfs_writes junk stack s name texts ≡ replied tt u)
      × (lfs_read u stack name ≡ replied (old ++ all_text texts) v)
unfolding lfs_writes
lfs_read-lfs_writes junk stack s t name old [] i a j found at buffered fits read =
    (s, t, refl, read ∙ ap (λ b. replied b t) (sym (append-nil old)))
lfs_read-lfs_writes junk stack s t name old (text ∷ texts) i a j found at buffered fits read =
    let s' = after_write name i j text s in
    let split = length-append text (all_text texts) in
    let (found', at', buffered', offset, size) =
      after_write-cached s name i a j found at buffered text in
    let (u, v, wrote, reads) =
      lfs_read-lfs_writes junk stack s' (used_metadata i s') name (old ++ text) texts i a j found'
        at' buffered' (omega arith)
        (lfs_read-after_write s name i a j found at buffered stack text old t read) in
    (
      u,
      v,
      rw (lfs_writes, lfs_write_cached s name i a j found at buffered junk stack text (omega arith))
          wrote,
      reads ∙ ap (λ b. replied b v) (append_assoc old text (all_text texts)),
    )
