-- ===== src/FileSystem/Eviction.antt =====
-- `lfs_write` to a file without a write buffer, when the buffer of another file is evicted for it.
use os_hw.Prelude.{
  ℕ, ◌+◌, ◌≤◌, ◌<◌, ◌≡◌, sym, ap, subst, ◌∙◌, false, none, some, List, ◌∷◌, ◌++◌, arith, ltb,
  length, length-modify, get_or-modify_self, pos,
}
use os_hw.Text.{Text}
use os_hw.Cache.{
  CacheBlock, Cache, num_blocks, no_block, block, write_back, get_free_cache_block, update_lru,
  find_meta_data_block,
}
use os_hw.Cache.Chunks.{Junk, split_lines, Writer, write_buffer_to_disk}
use os_hw.Cache.Consumed.{AreStamped, last_line, kept, write_buffer_to_disk_lem}
use os_hw.Cache.Kept.{update_lru-Kept, num_blocks-update_lru}
use os_hw.FileSystem.Operations.{Fs, put_store, flush_metadata, mapped, metadata_block, replied}
use os_hw.FileSystem.Write.{
  chunk_path, set_block, spill, point_to, point_block, evict_buffer, new_buffer, buffer_block,
  make_room, append_text, append_block, write_to, extend_load_path, lfs_write,
}

-- The state after block `j` went to disk, with its metadata at `a`.
abbrev pub spilled : Fs → ℕ → ℕ → Writer × CacheBlock → Fs
spilled s j a r =
    flush_metadata
      (record s {
        files = r.0.files;
        folders = r.0.folders;
        store = put_store s.store a r.0.mdata;
        buffer_cache = set_block j r.1 s.buffer_cache;
      })
      a

pub spill_lem :
    (junk : Junk) (s : Fs) (j a : ℕ)
    → (block s.buffer_cache j).mdata ≡ some a
    → spill junk s j
      ≡ some (
          spilled s j a (
            write_buffer_to_disk junk chunk_path s.files s.folders
              (s.store a)
              (block s.buffer_cache j)))
unfolding spill
spill_lem junk s j a at = rw (spill, at)

module _ (junk : Junk) (s : Fs) (c : Cache) (j a a' : ℕ) (inside : j < num_blocks c)
    (free : get_free_cache_block s.buffer_cache ≡ some (c, j, write_back))
    (at : (block c j).mdata ≡ some a') where
  abbrev victim : Writer × CacheBlock
  victim = write_buffer_to_disk junk chunk_path s.files s.folders (s.store a') (block c j)

  -- The buffer of the other file is written, and then points to the new metadata.
  abbrev taken : Fs
  taken = point_block j a (spilled (record s { buffer_cache = c }) j a' victim)

  new_buffer_lem : new_buffer junk s a ≡ some (j, taken)
  unfolding new_buffer evict_buffer
  new_buffer_lem =
      rw (new_buffer, free, evict_buffer, spill_lem junk (record s { buffer_cache = c }) j a' at)

  taken-block : block taken.buffer_cache j ≡ point_to a victim.1
  unfolding flush_metadata
  taken-block =
      let inside' = subst (λ n. j < n) (sym (length-modify c.cblocks j (λ _. victim.1))) inside in
      get_or-modify_self (set_block j victim.1 c).cblocks j (point_to a) no_block inside'
      ∙ ap (point_to a) (get_or-modify_self c.cblocks j (λ _. victim.1) no_block inside)

  taken-num_blocks : num_blocks taken.buffer_cache ≡ num_blocks c
  unfolding flush_metadata
  taken-num_blocks =
      length-modify (set_block j victim.1 c).cblocks j (point_to a)
      ∙ length-modify c.cblocks j (λ _. victim.1)

  append_block-taken :
      (text : Text)
      → ((block (append_block taken j text).buffer_cache j).mdata ≡ some a)
        × ((block (append_block taken j text).buffer_cache j).buf ≡ victim.1.buf ++ text)
  unfolding append_block
  append_block-taken text =
      let used = update_lru taken.buffer_cache j in
      let same = update_lru-Kept taken.buffer_cache j j in
      let inside' : j < num_blocks used =
        omega (arith, num_blocks-update_lru taken.buffer_cache j, taken-num_blocks) in
      rw (append_block, get_or-modify_self used.cblocks j (append_text text) no_block inside')
        (
          same.0 ∙ ap (λ b. b.mdata) taken-block,
          ap (λ b. b ++ text) (same.2 ∙ ap (λ b. b.buf) taken-block),
        )

  write_to_evicting :
      (name text : Text)
      → find_meta_data_block s.store s.buffer_cache name ≡ none
      → victim.1.offset + length text ≤ taken.buffer_cache.cache_block_size
      → write_to junk s name a text ≡ replied (length text) (append_block taken j text)
  unfolding write_to buffer_block make_room
  write_to_evicting name text missing fits =
      let room : ltb taken.buffer_cache.cache_block_size
            ((block taken.buffer_cache j).offset + length text)
          ≡ false =
        rw taken-block (ground arith) in
      rw (write_to, buffer_block, missing, new_buffer_lem, make_room, room)

-- If the write buffer of another file is evicted for a file and all its complete lines have a
-- timestamp, the line that `write_buffer_to_disk` keeps stays in the buffer: it stands in front of
-- the text in the buffer of the file that is written.
pub lfs_write_adopts_line :
    (junk : Junk) (stack : Text) (s s' : Fs) (name text : Text) (c : Cache) (i j a a' n : ℕ)
    (l : Text) (ls : List Text) (rest : Text)
    → metadata_block (extend_load_path (b'/' ∷ name) s) stack name ≡ mapped i a s'
    → find_meta_data_block s'.store s'.buffer_cache name ≡ none
    → get_free_cache_block s'.buffer_cache ≡ some (c, j, write_back)
    → j < num_blocks c
    → (block c j).mdata ≡ some a'
    → (s'.store a').size ≡ pos n
    → split_lines (block c j).buf ≡ (l ∷ ls, rest)
    → AreStamped (l ∷ ls)
    → length (kept (last_line l ls) rest) + length text ≤ c.cache_block_size
    → (u : Fs) × (lfs_write junk stack s name text ≡ replied (length text) u)
      × ((block u.buffer_cache j).mdata ≡ some a)
      × ((block u.buffer_cache j).buf ≡ kept (last_line l ls) rest ++ text)
unfolding lfs_write flush_metadata
lfs_write_adopts_line junk stack s s' name text c i j a a' n l ls rest found missing free inside at
      size lines stamped fits =
    let (_, buf, offset, _) =
      write_buffer_to_disk_lem junk chunk_path s'.files s'.folders (s'.store a') (block c j) n l ls
        rest size lines stamped in
    let (points, holds) = append_block-taken junk s' c j a a' inside free at text in
    (
      append_block (taken junk s' c j a a' inside free at) j text,
      rw (lfs_write, found)
          (write_to_evicting junk s' c j a a' inside free at name text missing (rw offset fits)),
      points,
      holds ∙ ap (λ b. b ++ text) buf,
    )
