-- ===== src/FileSystem/Overflow.antt =====
-- `lfs_write` of a text that does not fit the write buffer of its file, and a read after it.
use os_hw.Prelude.{
  ℕ, ◌+◌, ◌<◌, ◌≡◌, refl, sym, ap, subst, ◌∙◌, Bool, true, Option, none, some, List, [], ◌∷◌, ◌++◌,
  arith, length, length-append, pos, +ℤ_pos,
}
use os_hw.Text.{Text, newline, text_eq_refl}
use os_hw.Cache.{MData, CacheBlock, block, update_lru, find_meta_data_block}
use os_hw.Cache.Timestamps.{scan_timestamp, scan_field}
use os_hw.Cache.Chunks.{Junk, add_path, append_file, write_file, split_lines, write_buffer_to_disk}
use os_hw.Cache.Consumed.{last_line, kept}
use os_hw.Cache.Kept.{update_lru-Kept, find_meta_data_block-update_lru}
use os_hw.Cache.Runs.{all_lines, file_of}
use os_hw.Cache.OneDate.{AreDated, write_buffer_to_disk-AreDated}
use os_hw.FileSystem.Operations.{Fs, flush_metadata, fresh_metadata, replied, lfs_read}
use os_hw.FileSystem.Write.{chunk_path, append_block, extend_load_path, lfs_write}
use os_hw.FileSystem.Append.{used_metadata, metadata_block_cached, lfs_read_mapped}
use os_hw.FileSystem.Spilled.{
  write_to_full, with_text, spilled-store, appended-block, read_result-appended,
}
use os_hw.FileSystem.Eviction.{spilled}

-- The first chunk of a new file.
abbrev first_chunk : (name p content : Text) → MData
first_chunk name p content = record {
  file_name = name;
  num_paths = pos 1;
  path = p ∷ [];
  size = pos (length content);
}

module _ (junk : Junk) (files : Text → Option Text) (folders : Text → Bool) (b : CacheBlock)
    (name t l : Text) (ls : List Text) (rest : Text) (makes : (q : Text) → junk.makes q ≡ true)
    (lines : split_lines b.buf ≡ (l ∷ ls, rest)) (stamp : scan_timestamp l ≡ some t)
    (dated : AreDated junk t ls)
    (new : files (file_of junk chunk_path name t (scan_field 3 t junk.text)) ≡ none) where
  abbrev file : Text
  file = file_of junk chunk_path name t (scan_field 3 t junk.text)

  fresh_chunk :
      (m : MData)
      → fresh_metadata name ≡ m
      → ((write_buffer_to_disk junk chunk_path files folders m b).0.files file
          ≡ some (all_lines (l ∷ ls)))
        × ((write_buffer_to_disk junk chunk_path files folders m b).0.mdata
            ≡ first_chunk name file (all_lines (l ∷ ls)))
        × ((write_buffer_to_disk junk chunk_path files folders m b).1
            ≡ with_text (kept (last_line l ls) rest) b)
  unfolding add_path write_file append_file
  fresh_chunk m fresh =
      let zero_sum : 0 + length (all_lines (l ∷ ls)) ≡ length (all_lines (l ∷ ls)) = omega arith in
      let (content, metadata, left) =
        write_buffer_to_disk-AreDated junk chunk_path files folders (fresh_metadata name) t b l ls
          rest makes lines stamp dated in
      subst
        (λ m.
          ((write_buffer_to_disk junk chunk_path files folders m b).0.files file
            ≡ some (all_lines (l ∷ ls)))
          × ((write_buffer_to_disk junk chunk_path files folders m b).0.mdata
              ≡ first_chunk name file (all_lines (l ∷ ls)))
          × ((write_buffer_to_disk junk chunk_path files folders m b).1
              ≡ with_text (kept (last_line l ls) rest) b))
        fresh
        (
          content file ∙ rw (text_eq_refl file, new) refl,
          metadata
              ∙ rw (add_path, new, +ℤ_pos 0 1, +ℤ_pos 0 (length (all_lines (l ∷ ls))))
                  (ap (λ n. record (first_chunk name file []) { size = pos n }) zero_sum),
          left,
        )

-- A text that does not fit the write buffer of a new file, whose lines have all one date, sends them
-- to its first chunk file, when `mkdir` succeeds and there is no such file: `lfs_write` returns the
-- length, and `lfs_read` after it returns the complete lines, a newline, and the text behind what
-- stayed in the buffer; that is the incomplete line, or, if there is none, the last line once more.
-- This is for a block that has the byte which is tested after the buffer was cleared, as far behind
-- the complete lines as what stays is long, and that has room for what stays, the text and a NUL
-- byte; the buffer then holds them inside the block.
pub lfs_read-lfs_write_full :
    (junk : Junk) (stack : Text) (s : Fs) (name text : Text) (i a j : ℕ) (t l : Text)
    (ls : List Text) (rest : Text)
    → find_meta_data_block s.store s.meta_data_cache name ≡ some i
    → (block s.meta_data_cache i).mdata ≡ some a
    → find_meta_data_block s.store s.buffer_cache name ≡ some j
    → (block s.buffer_cache j).mdata ≡ some a
    → fresh_metadata name ≡ s.store a
    → s.buffer_cache.cache_block_size < (block s.buffer_cache j).offset + length text
    → ((q : Text) → junk.makes q ≡ true)
    → split_lines (block s.buffer_cache j).buf ≡ (l ∷ ls, rest)
    → scan_timestamp l ≡ some t
    → AreDated junk t ls
    → s.files (file_of junk chunk_path name t (scan_field 3 t junk.text)) ≡ none
    → length (all_lines (l ∷ ls)) + length (kept (last_line l ls) rest)
      < s.buffer_cache.cache_block_size
    → length (kept (last_line l ls) rest) + length text < s.buffer_cache.cache_block_size
    → (u v : Fs) × (lfs_write junk stack s name text ≡ replied (length text) u)
      × (lfs_read u stack name
          ≡ replied (all_lines (l ∷ ls) ++ newline ∷ (kept (last_line l ls) rest ++ text)) v)
      × ((block u.buffer_cache j).buf ≡ kept (last_line l ls) rest ++ text)
      × (length (block u.buffer_cache j).buf < u.buffer_cache.cache_block_size)
unfolding lfs_write flush_metadata append_block update_lru
lfs_read-lfs_write_full junk stack s name text i a j t l ls rest found at buffered points fresh full
      makes lines stamp dated new tested room =
    let b = block s.buffer_cache j in
    let s1 = extend_load_path (b'/' ∷ name) (used_metadata i s) in
    let r = write_buffer_to_disk junk chunk_path s.files s.folders (s.store a) b in
    let (content, metadata, left) =
      fresh_chunk junk s.files s.folders b name t l ls rest makes lines stamp dated new (s.store a)
        fresh in
    let same : r.0.mdata.file_name ≡ (s.store a).file_name =
      ap (λ m. m.file_name) metadata ∙ ap (λ m. m.file_name) fresh in
    let k = kept (last_line l ls) rest in
    let u = append_block (spilled s1 j a r) j text in
    let buffer = appended-block s1 name j a r k buffered same left text in
    let size : length (block u.buffer_cache j).buf ≡ length k + length text =
      ap length buffer ∙ length-append k text in
    (
      u,
      used_metadata i u,
      rw
          (
            lfs_write,
            metadata_block_cached (extend_load_path (b'/' ∷ name) s) stack name i a found at,
          )
          (write_to_full junk s1 name a j text buffered points full),
      lfs_read_mapped u (used_metadata i u) stack name i a (
            metadata_block_cached u stack name i a
              (spilled-store s1 name j a r k buffered same left (update_lru s.meta_data_cache i)
                  name
                ∙ find_meta_data_block-update_lru s.store s.meta_data_cache i name
                ∙ found)
              ((update_lru-Kept s.meta_data_cache i i).0 ∙ at))
          ∙ read_result-appended s1 name j a r k buffered same left text
              (file_of junk chunk_path name t (scan_field 3 t junk.text)) (all_lines (l ∷ ls)) i
              content (ap (λ m. m.path) metadata) (ap (λ m. m.num_paths) metadata)
              (ap (λ m. m.size) metadata),
      buffer,
      subst (λ n. n < s.buffer_cache.cache_block_size) (sym size) room,
    )
