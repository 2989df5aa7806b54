-- ===== src/FileSystem/Append.antt =====
-- `lfs_write` to a file that is in both caches, and the reads after it.
use os_hw.Prelude.{
  ℕ, ◌+◌, ◌≤◌, ◌<◌, ◌≡◌, refl, sym, ap, ◌∙◌, false, Option, none, some, ◌∷◌, ◌++◌, arith, ltb,
  length, get_or-modify_self, append_assoc, pos_part, Option-cases, inl, inr,
}
use os_hw.Text.{Text}
use os_hw.Cache.{num_blocks, no_block, block, update_lru, find_meta_data_block}
use os_hw.Cache.Chunks.{Junk}
use os_hw.Cache.Kept.{
  update_lru-Kept, num_blocks-update_lru, find_meta_data_block-update_lru,
  find_meta_data_block-modify, find_meta_data_block-lt,
}
use os_hw.FileSystem.Operations.{
  Fs, mapped, metadata_block, died, replied, read_chunks, read_result, lfs_read,
}
use os_hw.FileSystem.Write.{
  append_text, append_block, buffer_block, make_room, write_to, extend_load_path, lfs_write,
}

-- The state after a lookup that finds block `i` of the metadata cache.
abbrev pub used_metadata : ℕ → Fs → Fs
used_metadata i s = record s { meta_data_cache = update_lru s.meta_data_cache i }

pub metadata_block_cached :
    (s : Fs) (stack name : Text) (i a : ℕ)
    → find_meta_data_block s.store s.meta_data_cache name ≡ some i
    → (block s.meta_data_cache i).mdata ≡ some a
    → metadata_block s stack name ≡ mapped i a (used_metadata i s)
unfolding metadata_block
metadata_block_cached s stack name i a found at = rw (metadata_block, found, at)

-- The block of the buffer cache after the text was appended.
pub append_block-block :
    (s : Fs) (name text : Text) (j : ℕ)
    → find_meta_data_block s.store s.buffer_cache name ≡ some j
    → ((block (append_block s j text).buffer_cache j).buf ≡ (block s.buffer_cache j).buf ++ text)
      × ((block (append_block s j text).buffer_cache j).offset
          ≡ (block s.buffer_cache j).offset + length text)
unfolding append_block
append_block-block s name text j found =
    let c = update_lru s.buffer_cache j in
    let kept = update_lru-Kept s.buffer_cache j j in
    let inside : j < num_blocks c = omega (
      arith,
      num_blocks-update_lru s.buffer_cache j,
      find_meta_data_block-lt s.store s.buffer_cache name found,
    ) in
    rw (append_block, get_or-modify_self c.cblocks j (append_text text) no_block inside)
      (ap (λ b. b ++ text) kept.2, ap (λ n. n + length text) kept.3)

pub append_block-find :
    (s : Fs) (name text : Text) (j : ℕ)
    → find_meta_data_block s.store (append_block s j text).buffer_cache name
      ≡ find_meta_data_block s.store s.buffer_cache name
unfolding append_block
append_block-find s name text j =
    find_meta_data_block-modify s.store (update_lru s.buffer_cache j) name j (append_text text)
      (λ b. (refl, refl))
    ∙ find_meta_data_block-update_lru s.store s.buffer_cache j name

write_to_cached :
    (junk : Junk) (s : Fs) (name : Text) (a j : ℕ) (text : Text)
    → find_meta_data_block s.store s.buffer_cache name ≡ some j
    → (block s.buffer_cache j).offset + length text ≤ s.buffer_cache.cache_block_size
    → write_to junk s name a text ≡ replied (length text) (append_block s j text)
unfolding write_to buffer_block make_room
write_to_cached junk s name a j text found fits =
    let room : ltb s.buffer_cache.cache_block_size ((block s.buffer_cache j).offset + length text)
        ≡ false =
      ground arith in
    rw (write_to, buffer_block, found, make_room, room)

-- The chunks of the file with the metadata at `a`.
abbrev pub chunk_text : Fs → ℕ → Option Text
chunk_text s a =
    read_chunks s.files (pos_part (s.store a).size) (pos_part (s.store a).num_paths)
      (s.store a).path

read_result_fault :
    (s : Fs) (name : Text) (a : ℕ) → chunk_text s a ≡ none → read_result s name a ≡ died
unfolding read_result
read_result_fault s name a gone = rw (read_result, gone)

pub read_result_buffered :
    (s : Fs) (name chunks : Text) (a j : ℕ)
    → chunk_text s a ≡ some chunks
    → find_meta_data_block s.store s.buffer_cache name ≡ some j
    → read_result s name a ≡ replied (chunks ++ (block s.buffer_cache j).buf) s
unfolding read_result
read_result_buffered s name chunks a j there found = rw (read_result, there, found)

-- Where a read worked before, it works after the text was appended, and returns the text too.
read_result-append_block :
    (s t : Fs) (name old text : Text) (a j : ℕ)
    → find_meta_data_block s.store s.buffer_cache name ≡ some j
    → read_result s name a ≡ replied old t
    → (u : Fs) → u.files ≡ s.files
    → u.store ≡ s.store
    → u.buffer_cache ≡ (append_block s j text).buffer_cache
    → read_result u name a ≡ replied (old ++ text) u
read_result-append_block s t name old text a j found read u files store buffers =
    elim (Option-cases (chunk_text s a)) [
      | inl gone ↦ cc (sym (read_result_fault s name a gone) ∙ read)
      | inr (chunks, there) ↦
          let same : old ≡ chunks ++ (block s.buffer_cache j).buf =
            cc (sym (read_result_buffered s name chunks a j there found) ∙ read) in
          let there' : chunk_text u a ≡ some chunks =
            ap
              (λ f.
                read_chunks f (pos_part (u.store a).size) (pos_part (u.store a).num_paths)
                  (u.store a).path)
              files
            ∙ ap
                (λ m.
                  read_chunks s.files (pos_part (m a).size) (pos_part (m a).num_paths) (m a).path)
                store
            ∙ there in
          let found' : find_meta_data_block u.store u.buffer_cache name ≡ some j =
            ap (λ m. find_meta_data_block m u.buffer_cache name) store
            ∙ ap (λ c. find_meta_data_block s.store c name) buffers
            ∙ append_block-find s name text j
            ∙ found in
          read_result_buffered u name chunks a j there' found'
          ∙ ap (λ b. replied (chunks ++ b) u)
              (ap (λ c. (block c j).buf) buffers ∙ (append_block-block s name text j found).0)
          ∙ ap (λ b. replied b u)
              (sym (append_assoc chunks (block s.buffer_cache j).buf text)
                ∙ ap (λ b. b ++ text) (sym same))
    ]

pub lfs_read_mapped :
    (s s' : Fs) (stack name : Text) (i a : ℕ)
    → metadata_block s stack name ≡ mapped i a s'
    → lfs_read s stack name ≡ read_result s' name a
unfolding lfs_read
lfs_read_mapped s s' stack name i a found = rw (lfs_read, found)

-- The state after the text was appended to the buffer `j` of a file with metadata in block `i`.
abbrev pub after_write : (name : Text) → (i j : ℕ) → Text → Fs → Fs
after_write name i j text s =
    append_block (extend_load_path (b'/' ∷ name) (used_metadata i s)) j text

module _ (s : Fs) (name : Text) (i a j : ℕ)
    (found : find_meta_data_block s.store s.meta_data_cache name ≡ some i)
    (at : (block s.meta_data_cache i).mdata ≡ some a)
    (buffered : find_meta_data_block s.store s.buffer_cache name ≡ some j) where
  pub lfs_write_cached :
      (junk : Junk) (stack text : Text)
      → (block s.buffer_cache j).offset + length text ≤ s.buffer_cache.cache_block_size
      → lfs_write junk stack s name text ≡ replied (length text) (after_write name i j text s)
  unfolding lfs_write
  lfs_write_cached junk stack text fits =
      rw
        (
          lfs_write,
          metadata_block_cached (extend_load_path (b'/' ∷ name) s) stack name i a found at,
        )
        (write_to_cached junk (extend_load_path (b'/' ∷ name) (used_metadata i s)) name a j text
          buffered fits)

  pub lfs_read-after_write :
      (stack text old : Text) (t : Fs)
      → lfs_read s stack name ≡ replied old t
      → lfs_read (after_write name i j text s) stack name
        ≡ replied (old ++ text) (used_metadata i (after_write name i j text s))
  unfolding append_block
  lfs_read-after_write stack text old t read =
      let u = after_write name i j text s in
      let v = used_metadata i u in
      let read' : read_result (used_metadata i s) name a ≡ replied old t =
        sym (
          lfs_read_mapped s (used_metadata i s) stack name i a
            (metadata_block_cached s stack name i a found at))
        ∙ read in
      let found' = find_meta_data_block-update_lru s.store s.meta_data_cache i name ∙ found in
      let at' = (update_lru-Kept s.meta_data_cache i i).0 ∙ at in
      lfs_read_mapped u v stack name i a (metadata_block_cached u stack name i a found' at')
      ∙ (read_result-append_block (used_metadata i s) t name old text a j buffered read' v refl refl
          refl)

  -- What the file has in the caches after the text was appended.
  pub after_write-cached :
      (text : Text)
      → (find_meta_data_block
            (after_write name i j text s).store
            (after_write name i j text s).meta_data_cache
            name
          ≡ some i)
        × ((block (after_write name i j text s).meta_data_cache i).mdata ≡ some a)
        × (find_meta_data_block
              (after_write name i j text s).store
              (after_write name i j text s).buffer_cache
              name
            ≡ some j)
        × ((block (after_write name i j text s).buffer_cache j).offset
            ≡ (block s.buffer_cache j).offset + length text)
        × ((after_write name i j text s).buffer_cache.cache_block_size
            ≡ s.buffer_cache.cache_block_size)
  unfolding append_block update_lru
  after_write-cached text =
      let s1 = extend_load_path (b'/' ∷ name) (used_metadata i s) in
      (
        find_meta_data_block-update_lru s.store s.meta_data_cache i name ∙ found,
        (update_lru-Kept s.meta_data_cache i i).0 ∙ at,
        append_block-find s1 name text j ∙ buffered,
        (append_block-block s1 name text j buffered).1,
        refl,
      )

-- A text that fits the write buffer of a file in both caches is written, whatever the file holds:
-- `lfs_write` returns its length, and `lfs_read` returns what it returned before with the text
-- behind it.
pub lfs_read-lfs_write :
    (junk : Junk) (stack : Text) (s t : Fs) (name text old : Text) (i a j : ℕ)
    → find_meta_data_block s.store s.meta_data_cache name ≡ some i
    → (block s.meta_data_cache i).mdata ≡ some a
    → find_meta_data_block s.store s.buffer_cache name ≡ some j
    → (block s.buffer_cache j).offset + length text ≤ s.buffer_cache.cache_block_size
    → lfs_read s stack name ≡ replied old t
    → (u v : Fs) × (lfs_write junk stack s name text ≡ replied (length text) u)
      × (lfs_read u stack name ≡ replied (old ++ text) v)
lfs_read-lfs_write junk stack s t name text old i a j found at buffered fits read = (
  after_write name i j text s,
  used_metadata i (after_write name i j text s),
  lfs_write_cached s name i a j found at buffered junk stack text fits,
  lfs_read-after_write s name i a j found at buffered stack text old t read,
)
