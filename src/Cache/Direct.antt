-- ===== src/Cache/Direct.antt =====
-- The calls of Cache.c that find a block by the pointer to its metadata: `find_cache_block`,
-- `write_cache_block` and `read_cache_block`.
use os_hw.Prelude.{
  ℕ, zero, suc, ◌+◌, ◌<◌, ◌≡◌, refl, Bool, true, false, Option, none, some, List, [], ◌∷◌, ◌++◌,
  arith, ltb, leb, ◌==◌, if◌then◌else◌, length, modify, get_or-modify_self, ap, ◌∙◌,
}
use os_hw.Text.{Text}
use os_hw.Cache.{CacheBlock, Cache, num_blocks, block, no_block, update_lru}
use os_hw.Cache.Kept.{AllKept, update_lru-AllKept, update_lru-Kept}

-- The comparison of two pointers.
abbrev pub same_pointer : Option ℕ → Option ℕ → Bool
same_pointer none none = true
same_pointer none (some b) = false
same_pointer (some a) none = false
same_pointer (some a) (some b) = a == b

unfoldable pub find_pointer : ℕ → Option ℕ → List CacheBlock → Option ℕ
find_pointer i p [] = none
find_pointer i p (b ∷ bs) = if same_pointer b.mdata p then some i else find_pointer (suc i) p bs

unfoldable pub find_cache_block : Cache → Option ℕ → Option ℕ
find_cache_block c p = find_pointer 0 p c.cblocks

-- The first bytes of a string, and the rest.
unfoldable pub first_bytes : ℕ → Text → Text
first_bytes zero s = []
first_bytes (suc n) [] = []
first_bytes (suc n) (x ∷ s) = x ∷ first_bytes n s

unfoldable pub later_bytes : ℕ → Text → Text
later_bytes zero s = s
later_bytes (suc n) [] = []
later_bytes (suc n) (x ∷ s) = later_bytes n s

-- `memcpy` to `offset` of a buffer that holds the string `buf`. No NUL byte is written: if the copy
-- goes over the end of the string, what stands `behind` it follows.
unfoldable pub copy_bytes : (behind : Text) → ℕ → (src buf : Text) → Text
copy_bytes behind offset src buf =
    if ltb (length buf) offset
    then buf
    else if leb (offset + length src) (length buf)
    then first_bytes offset buf ++ (src ++ later_bytes (offset + length src) buf)
    else first_bytes offset buf ++ (src ++ behind)

-- A null pointer, the result -1, or 0 with the new cache.
pub data WriteResult : Type 0 where
  null_block : WriteResult
  full : WriteResult
  wrote : Cache → WriteResult

abbrev pub put_text : (behind text : Text) → CacheBlock → CacheBlock
put_text behind text b = record b {
  buf = copy_bytes behind b.offset text b.buf;
  offset = b.offset + length text;
}

unfoldable pub write_cache_block : (behind : Text) → Cache → Option ℕ → (text : Text) → WriteResult
write_cache_block behind c p text = elim (find_cache_block c p) [
  | none ↦ null_block
  | some j ↦
      if leb c.cache_block_size ((block c j).offset + length text)
      then full
      else wrote (update_lru (record c { cblocks = modify c.cblocks j (put_text behind text) }) j)
]

-- The string, the length that is reported, and the new cache, or `none` for -1.
unfoldable pub read_cache_block : Cache → Option ℕ → Option (Text × ℕ × Cache)
read_cache_block c p = elim (find_cache_block c p) [
  | none ↦ none
  | some j ↦ some ((block c j).buf, (block c j).offset, update_lru c j)
]

first_bytes_all : (s : Text) → first_bytes (length s) s ≡ s
unfolding first_bytes
first_bytes_all [] = refl
first_bytes_all (x ∷ s) = ap (◌∷◌ x) (first_bytes_all s)

find_pointer-modify :
    (i : ℕ) (p : Option ℕ) (bs : List CacheBlock) (j : ℕ) (f : CacheBlock → CacheBlock)
    → ((b : CacheBlock) → (f b).mdata ≡ b.mdata)
    → find_pointer i p (modify bs j f) ≡ find_pointer i p bs
unfolding find_pointer
find_pointer-modify i p [] j f h = refl
find_pointer-modify i p (b ∷ bs) zero f h = rw (h b)
find_pointer-modify i p (b ∷ bs) (suc j) f h = rw (find_pointer-modify (suc i) p bs j f h)

find_pointer-AllKept :
    (i : ℕ) (p : Option ℕ) (bs bs' : List CacheBlock)
    → AllKept bs bs'
    → find_pointer i p bs' ≡ find_pointer i p bs
unfolding find_pointer
find_pointer-AllKept i p [] [] h = refl
find_pointer-AllKept i p [] (b' ∷ bs') h = absurd h
find_pointer-AllKept i p (b ∷ bs) [] h = absurd h
find_pointer-AllKept i p (b ∷ bs) (b' ∷ bs') h =
    rw (h.0.0, find_pointer-AllKept (suc i) p bs bs' h.1)

copy_bytes_end :
    (behind text buf : Text) (n : ℕ)
    → n ≡ length buf
    → 0 < length text
    → copy_bytes behind n text buf ≡ buf ++ (text ++ behind)
unfolding copy_bytes
copy_bytes_end behind text buf n e some_text =
    let inside : ltb (length buf) (length buf) ≡ false = ground arith in
    let over : leb (length buf + length text) (length buf) ≡ false = ground arith in
    rw (e, copy_bytes, inside, over, first_bytes_all buf) refl

-- If the string in the block of a file is as long as its offset says, a text that leaves room in
-- the block is written, and what is read then is the string with the text behind it, and what stood
-- in the memory behind that, while the length that is reported counts the string and the text.
pub read_cache_block-write_cache_block :
    (c : Cache) (p : Option ℕ) (j : ℕ) (text behind : Text)
    → find_cache_block c p ≡ some j
    → j < num_blocks c
    → (block c j).offset ≡ length (block c j).buf
    → 0 < length text
    → (block c j).offset + length text < c.cache_block_size
    → (c' : Cache) × (c'' : Cache) × (write_cache_block behind c p text ≡ wrote c')
      × (read_cache_block c' p
          ≡ some ((block c j).buf ++ (text ++ behind), (block c j).offset + length text, c''))
unfolding write_cache_block read_cache_block find_cache_block
read_cache_block-write_cache_block c p j text behind found inside ends some_text room =
    let c1 = record c { cblocks = modify c.cblocks j (put_text behind text) } in
    let c' = update_lru c1 j in
    let fits : leb c.cache_block_size ((block c j).offset + length text) ≡ false = ground arith in
    let found' : find_pointer 0 p c'.cblocks ≡ some j =
      find_pointer-AllKept 0 p c1.cblocks c'.cblocks (update_lru-AllKept c1 j)
      ∙ find_pointer-modify 0 p c.cblocks j (put_text behind text) (λ b. refl)
      ∙ found in
    let at = get_or-modify_self c.cblocks j (put_text behind text) no_block inside in
    let (_, _, buf, offset) = update_lru-Kept c1 j j in
    let buf' =
      buf
      ∙ ap (λ b. b.buf) at
      ∙ copy_bytes_end behind text (block c j).buf (block c j).offset ends some_text in
    let offset' = offset ∙ ap (λ b. b.offset) at in
    (
      c',
      update_lru c' j,
      rw (write_cache_block, found, fits) refl,
      rw (read_cache_block, found', buf', offset') refl,
    )
