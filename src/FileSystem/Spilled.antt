-- ===== src/FileSystem/Spilled.antt =====
-- What the file system has of a file after its write buffer went to disk.
use os_hw.Prelude.{
  ℕ, ◌+◌, ◌<◌, ◌≡◌, refl, sym, ap, ◌∙◌, true, Option, some, [], ◌∷◌, ◌++◌, ◌==◌, ==_iff, arith, ltb,
  length, get_or-modify_self, modify, modify_const, Bool-cases, inl, inr, append_assoc, pos,
}
use os_hw.Text.{Text, newline}
use os_hw.Cache.{MData, CacheBlock, Cache, no_block, block, Store, find_meta_data_block}
use os_hw.Cache.Chunks.{Junk, Writer, write_buffer_to_disk}
use os_hw.Cache.Kept.{
  find_meta_data_block-modify, find_meta_data_block-store, find_meta_data_block-lt,
}
use os_hw.FileSystem.Operations.{Fs, put_store, flush_metadata, replied, read_chunks, read_result}
use os_hw.FileSystem.Write.{chunk_path, set_block, buffer_block, make_room, append_block, write_to}
use os_hw.FileSystem.Append.{
  used_metadata, chunk_text, read_result_buffered, append_block-block, append_block-find,
}
use os_hw.FileSystem.Eviction.{spilled, spill_lem}
use os_hw.FileSystem.Sizes.{fread_all}

pub write_to_full :
    (junk : Junk) (s : Fs) (name : Text) (a j : ℕ) (text : Text)
    → find_meta_data_block s.store s.buffer_cache name ≡ some j
    → (block s.buffer_cache j).mdata ≡ some a
    → s.buffer_cache.cache_block_size < (block s.buffer_cache j).offset + length text
    → write_to junk s name a text
      ≡ replied (length text) (
          append_block
            (spilled s j a (
              write_buffer_to_disk junk chunk_path s.files s.folders
                (s.store a)
                (block s.buffer_cache j)))
            j
            text)
unfolding write_to buffer_block make_room
write_to_full junk s name a j text found at full =
    let over : ltb s.buffer_cache.cache_block_size ((block s.buffer_cache j).offset + length text)
        ≡ true =
      ground arith in
    rw (write_to, buffer_block, found, make_room, over, spill_lem junk s j a at)

put_store-file_name :
    (store : Store) (a : ℕ) (m : MData)
    → m.file_name ≡ (store a).file_name
    → (b : ℕ) → (put_store store a m b).file_name ≡ (store b).file_name
put_store-file_name store a m same b = elim (Bool-cases (b == a)) [
  | inl here ↦ rw here (same ∙ ap (λ c. (store c).file_name) (sym ((==_iff b a).0 here)))
  | inr other ↦ rw other refl
]

pub put_store_self : (store : Store) (a : ℕ) (m : MData) → put_store store a m a ≡ m
put_store_self store a m = rw ((==_iff a a).1 refl) refl

-- A file whose first chunk was just written.
read_chunks_one :
    (files : Text → Option Text) (p content : Text)
    → files p ≡ some content
    → read_chunks files (length content) 1 (p ∷ []) ≡ some (content ++ newline ∷ [])
unfolding read_chunks
read_chunks_one files p content there =
    rw (read_chunks, there, fread_all (length content) content (omega arith)) refl

-- A block whose text was replaced.
abbrev pub with_text : Text → CacheBlock → CacheBlock
with_text k b = record b { buf = k; offset = length k }

-- What the state has of the file after its block `j` went to disk, and after more text came to it.
module _ (s : Fs) (name : Text) (j a : ℕ) (r : Writer × CacheBlock) (k : Text)
    (found : find_meta_data_block s.store s.buffer_cache name ≡ some j)
    (same : r.0.mdata.file_name ≡ (s.store a).file_name)
    (left : r.1 ≡ with_text k (block s.buffer_cache j)) where
  spilled-block : block (spilled s j a r).buffer_cache j ≡ r.1
  unfolding flush_metadata
  spilled-block =
      get_or-modify_self s.buffer_cache.cblocks j (λ _. r.1) no_block
        (find_meta_data_block-lt s.store s.buffer_cache name found)

  pub spilled-store :
      (c : Cache) (n : Text)
      → find_meta_data_block (spilled s j a r).store c n ≡ find_meta_data_block s.store c n
  unfolding flush_metadata
  spilled-store c n =
      find_meta_data_block-store s.store (put_store s.store a r.0.mdata) c n
        (put_store-file_name s.store a r.0.mdata same)

  spilled-find :
      find_meta_data_block (spilled s j a r).store (spilled s j a r).buffer_cache name ≡ some j
  unfolding flush_metadata
  spilled-find =
      spilled-store (set_block j r.1 s.buffer_cache) name
      ∙ ap (λ bs. find_meta_data_block s.store (record s.buffer_cache { cblocks = bs }) name)
          (ap (λ b. modify s.buffer_cache.cblocks j (λ _. b)) left
            ∙ modify_const s.buffer_cache.cblocks j (with_text k) no_block)
      ∙ find_meta_data_block-modify s.store s.buffer_cache name j (with_text k) (λ b. (refl, refl))
      ∙ found

  -- The write buffer after the text was appended.
  pub appended-block :
      (text : Text) → (block (append_block (spilled s j a r) j text).buffer_cache j).buf ≡ k ++ text
  appended-block text =
      (append_block-block (spilled s j a r) name text j spilled-find).0
      ∙ ap (λ b. b.buf ++ text) (spilled-block ∙ left)

  -- The file has one chunk with all of `content`.
  pub read_result-appended :
      (text p content : Text) (i : ℕ)
      → r.0.files p ≡ some content
      → r.0.mdata.path ≡ p ∷ []
      → r.0.mdata.num_paths ≡ pos 1
      → r.0.mdata.size ≡ pos (length content)
      → let u = used_metadata i (append_block (spilled s j a r) j text) in
        read_result u name a ≡ replied (content ++ newline ∷ (k ++ text)) u
  unfolding flush_metadata append_block
  read_result-appended text p content i there path num size =
      let u = used_metadata i (append_block (spilled s j a r) j text) in
      let m = put_store_self s.store a r.0.mdata in
      let chunks : chunk_text u a ≡ some (content ++ newline ∷ []) =
        rw (m, size, num, path) (read_chunks_one r.0.files p content there) in
      read_result_buffered u name (content ++ newline ∷ []) a j chunks
        (append_block-find (spilled s j a r) name text j ∙ spilled-find)
      ∙ ap (λ b. replied ((content ++ newline ∷ []) ++ b) u) (appended-block text)
      ∙ ap (λ b. replied b u) (append_assoc content (newline ∷ []) (k ++ text))
