-- ===== src/FileSystem/Sizes.antt =====
-- The size that `lfs_getattr` gives is the length of what `lfs_read` returns.
use os_hw.Prelude.{
  ℕ, ◌+◌, ◌-◌, ◌≤◌, ◌≡◌, refl, ap, sym, ◌∙◌, Option, some, List, [], ◌∷◌, ◌++◌, arith, length,
  length-append, pos, +ℤ_pos, Option-cases, inl, inr,
}
use os_hw.Cache.{block, find_meta_data_block, update_lru}
use os_hw.Text.{Text, newline}
use os_hw.FileSystem.Operations.{
  Fs, mapped, metadata_block, replied, attr_size, lfs_getattr, fread, read_chunks, read_result,
  lfs_read,
}

-- The chunks under the paths `ps` are there, and hold `n` bytes.
abbrev pub Chunks : (files : Text → Option Text) → List Text → ℕ → Type 0
Chunks files [] n = n ≡ 0
Chunks files (p ∷ ps) n =
    (content : Text) × (k : ℕ) × (files p ≡ some content)
    × (n ≡ length content + k)
    × Chunks files ps k

pub fread_all : (n : ℕ) (s : Text) → length s ≤ n → fread n s ≡ s
unfolding fread
fread_all n [] h = refl
fread_all n (c ∷ s) h = ground (arith, fread_all (n - 1) s)

read_chunks_lem :
    (files : Text → Option Text) (size n : ℕ) (ps : List Text)
    → Chunks files ps n
    → n ≤ size
    → (text : Text) × (read_chunks files size (length ps) ps ≡ some text)
      × (length text ≡ n + length ps)
unfolding read_chunks
read_chunks_lem files size n [] h le = ([], refl, omega arith)
read_chunks_lem files size n (p ∷ ps) (content, k, file, sum, h) le =
    let (text, e, len) = read_chunks_lem files size k ps h (omega arith) in
    (
      content ++ newline ∷ text,
      rw (read_chunks, file, e, fread_all size content (omega arith)) refl,
      omega (arith, length-append content (newline ∷ text)),
    )

-- The file is as `lfs_write` leaves it: its chunks hold `size` bytes, and the `offset` of a write
-- buffer is the length of its text.
pub record IsConsistent (s : Fs) (name : Text) (a : ℕ) : Type 0 where
  pub bytes : ℕ
  pub chunks : Chunks s.files (s.store a).path bytes
  pub size : (s.store a).size ≡ pos bytes
  pub num_paths : (s.store a).num_paths ≡ pos (length (s.store a).path)
  pub offset :
      (j : ℕ)
      → find_meta_data_block s.store s.buffer_cache name ≡ some j
      → (block s.buffer_cache j).offset ≡ length (block s.buffer_cache j).buf

result_size :
    (s : Fs) (name : Text) (a : ℕ)
    → IsConsistent s name a
    → (text : Text) × (s' : Fs) × (read_result s name a ≡ replied text s)
      × (attr_size s name a ≡ replied (pos (length text)) s')
unfolding read_result attr_size
result_size s name a r =
    let (text, e, len) =
      read_chunks_lem s.files r.bytes r.bytes (s.store a).path r.chunks (omega arith) in
    elim (Option-cases (find_meta_data_block s.store s.buffer_cache name)) [
      | inl missing ↦ (
        text,
        s,
        rw (read_result, r.size, r.num_paths, e, missing) refl,
        rw (attr_size, missing, r.size, r.num_paths)
            (ap (λ n. replied n s) (+ℤ_pos r.bytes (length (s.store a).path) ∙ ap pos (sym len))),
      )
      | inr (j, found) ↦
          let b = block s.buffer_cache j in
          (
            text ++ b.buf,
            record s { buffer_cache = update_lru s.buffer_cache j },
            rw (read_result, r.size, r.num_paths, e, found) refl,
            rw
                (
                  attr_size,
                  found,
                  r.size,
                  r.num_paths,
                  +ℤ_pos r.bytes b.offset,
                  +ℤ_pos (r.bytes + b.offset) (length (s.store a).path),
                )
                (ap (λ n. replied (pos n) (record s { buffer_cache = update_lru s.buffer_cache j }))
                  (omega (arith, len, r.offset j found, length-append text b.buf))),
          )
    ]

-- If a lookup maps metadata whose chunks are there, `lfs_read` returns a text, and `lfs_getattr`
-- gives its length as the size of the file, with and without a write buffer.
pub lfs_getattr-lfs_read :
    (s s' : Fs) (junk name : Text) (i a : ℕ)
    → metadata_block s junk name ≡ mapped i a s'
    → IsConsistent s' name a
    → (text : Text) × (t : Fs) × (lfs_read s junk name ≡ replied text s')
      × (lfs_getattr s junk name ≡ replied (pos (length text)) t)
unfolding lfs_read lfs_getattr
lfs_getattr-lfs_read s s' junk name i a found r =
    let (text, t, read, attr) = result_size s' name a r in
    (text, t, rw (lfs_read, found) read, rw (lfs_getattr, found) attr)
