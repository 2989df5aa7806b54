-- ===== src/Cache/Kept.antt =====
-- `update_lru` touches nothing but the counters: what is found in a cache, and what its blocks hold,
-- stays.
use os_hw.Prelude.{
  ℕ, zero, suc, ◌+◌, ◌<◌, ◌≡◌, refl, not, ◌&&◌, some, List, [], ◌∷◌, arith, leb, ◌==◌, length,
  get_or, modify, Bool-cases, Option-cases, inl, inr,
}
use os_hw.Text.{Text}
use os_hw.Cache.{
  CacheBlock, Cache, num_blocks, no_block, block, age_loop, reset_counter, update_lru, Store,
  is_file, find_from, find_meta_data_block,
}

-- The two blocks differ in their counters at most.
abbrev pub Kept : CacheBlock → CacheBlock → Type 0
Kept b b' =
    (b'.mdata ≡ b.mdata) × (b'.free_flag ≡ b.free_flag) × (b'.buf ≡ b.buf) × (b'.offset ≡ b.offset)

abbrev pub AllKept : List CacheBlock → List CacheBlock → Type 0
AllKept [] [] = Unit
AllKept [] (b' ∷ bs') = ⊥
AllKept (b ∷ bs) [] = ⊥
AllKept (b ∷ bs) (b' ∷ bs') = Kept b b' × AllKept bs bs'

age_loop-AllKept :
    (n i used counter : ℕ) (bs : List CacheBlock) → AllKept bs (age_loop n i used counter bs)
unfolding age_loop
age_loop-AllKept n i used counter [] = tt
age_loop-AllKept n i used counter (b ∷ bs) =
    elim (Bool-cases (not (i == used) && leb b.lru_counter counter)) [
      | inl older ↦
          rw (age_loop, older)
            ((refl, refl, refl, refl), age_loop-AllKept n (suc i) used counter bs)
      | inr newer ↦
          rw (age_loop, newer)
            ((refl, refl, refl, refl), age_loop-AllKept n (suc i) used counter bs)
    ]

reset-AllKept :
    (bs bs' : List CacheBlock) (k : ℕ) → AllKept bs bs' → AllKept bs (modify bs' k reset_counter)
reset-AllKept [] [] k h = tt
reset-AllKept [] (b' ∷ bs') k h = absurd h
reset-AllKept (b ∷ bs) [] k h = absurd h
reset-AllKept (b ∷ bs) (b' ∷ bs') zero h = h
reset-AllKept (b ∷ bs) (b' ∷ bs') (suc k) h = (h.0, reset-AllKept bs bs' k h.1)

pub update_lru-AllKept : (c : Cache) (used : ℕ) → AllKept c.cblocks (update_lru c used).cblocks
unfolding update_lru
update_lru-AllKept c used =
    let counter = (block c used).lru_counter in
    reset-AllKept c.cblocks (age_loop (num_blocks c) 0 used counter c.cblocks) used
      (age_loop-AllKept (num_blocks c) 0 used counter c.cblocks)

get_or-Kept :
    (bs bs' : List CacheBlock) (j : ℕ)
    → AllKept bs bs'
    → Kept (get_or bs j no_block) (get_or bs' j no_block)
get_or-Kept [] [] j h = (refl, refl, refl, refl)
get_or-Kept [] (b' ∷ bs') j h = absurd h
get_or-Kept (b ∷ bs) [] j h = absurd h
get_or-Kept (b ∷ bs) (b' ∷ bs') zero h = h.0
get_or-Kept (b ∷ bs) (b' ∷ bs') (suc j) h = get_or-Kept bs bs' j h.1

length-AllKept : (bs bs' : List CacheBlock) → AllKept bs bs' → length bs' ≡ length bs
length-AllKept [] [] h = refl
length-AllKept [] (b' ∷ bs') h = absurd h
length-AllKept (b ∷ bs) [] h = absurd h
length-AllKept (b ∷ bs) (b' ∷ bs') h = omega (arith, length-AllKept bs bs' h.1)

pub update_lru-Kept : (c : Cache) (used j : ℕ) → Kept (block c j) (block (update_lru c used) j)
update_lru-Kept c used j =
    get_or-Kept c.cblocks (update_lru c used).cblocks j (update_lru-AllKept c used)

pub num_blocks-update_lru : (c : Cache) (used : ℕ) → num_blocks (update_lru c used) ≡ num_blocks c
num_blocks-update_lru c used =
    length-AllKept c.cblocks (update_lru c used).cblocks (update_lru-AllKept c used)

is_file-Kept :
    (m : Store) (name : Text) (b b' : CacheBlock)
    → b'.mdata ≡ b.mdata
    → b'.free_flag ≡ b.free_flag
    → is_file m name b' ≡ is_file m name b
is_file-Kept m name b b' h k = rw (h, k)

find_from-AllKept :
    (i : ℕ) (m : Store) (name : Text) (bs bs' : List CacheBlock)
    → AllKept bs bs'
    → find_from i m name bs' ≡ find_from i m name bs
unfolding find_from
find_from-AllKept i m name [] [] h = refl
find_from-AllKept i m name [] (b' ∷ bs') h = absurd h
find_from-AllKept i m name (b ∷ bs) [] h = absurd h
find_from-AllKept i m name (b ∷ bs) (b' ∷ bs') h =
    rw (is_file-Kept m name b b' h.0.0 h.0.1, find_from-AllKept (suc i) m name bs bs' h.1)

-- Using a block changes nothing of what is found.
pub find_meta_data_block-update_lru :
    (m : Store) (c : Cache) (used : ℕ) (name : Text)
    → find_meta_data_block m (update_lru c used) name ≡ find_meta_data_block m c name
unfolding find_meta_data_block
find_meta_data_block-update_lru m c used name =
    find_from-AllKept 0 m name c.cblocks (update_lru c used).cblocks (update_lru-AllKept c used)

find_from-modify :
    (i : ℕ) (m : Store) (name : Text) (bs : List CacheBlock) (j : ℕ) (f : CacheBlock → CacheBlock)
    → ((b : CacheBlock) → ((f b).mdata ≡ b.mdata) × ((f b).free_flag ≡ b.free_flag))
    → find_from i m name (modify bs j f) ≡ find_from i m name bs
unfolding find_from
find_from-modify i m name [] j f h = refl
find_from-modify i m name (b ∷ bs) zero f h = rw (is_file-Kept m name b (f b) (h b).0 (h b).1)
find_from-modify i m name (b ∷ bs) (suc j) f h = rw (find_from-modify (suc i) m name bs j f h)

-- Nor does a write to the text of a block.
pub find_meta_data_block-modify :
    (m : Store) (c : Cache) (name : Text) (j : ℕ) (f : CacheBlock → CacheBlock)
    → ((b : CacheBlock) → ((f b).mdata ≡ b.mdata) × ((f b).free_flag ≡ b.free_flag))
    → find_meta_data_block m (record c { cblocks = modify c.cblocks j f }) name
      ≡ find_meta_data_block m c name
unfolding find_meta_data_block
find_meta_data_block-modify m c name j f h = find_from-modify 0 m name c.cblocks j f h

find_from-store :
    (i : ℕ) (m m' : Store) (name : Text) (bs : List CacheBlock)
    → ((a : ℕ) → (m' a).file_name ≡ (m a).file_name)
    → find_from i m' name bs ≡ find_from i m name bs
unfolding find_from
find_from-store i m m' name [] h = refl
find_from-store i m m' name (b ∷ bs) h = elim (Option-cases b.mdata) [
  | inl null ↦ rw (null, find_from-store (suc i) m m' name bs h) refl
  | inr (a, at) ↦ rw (at, h a, find_from-store (suc i) m m' name bs h) refl
]

-- Nor does a write to metadata that leaves the names.
pub find_meta_data_block-store :
    (m m' : Store) (c : Cache) (name : Text)
    → ((a : ℕ) → (m' a).file_name ≡ (m a).file_name)
    → find_meta_data_block m' c name ≡ find_meta_data_block m c name
unfolding find_meta_data_block
find_meta_data_block-store m m' c name h = find_from-store 0 m m' name c.cblocks h

find_from-lt :
    (i : ℕ) (m : Store) (name : Text) (bs : List CacheBlock) {j : ℕ}
    → find_from i m name bs ≡ some j
    → j < i + length bs
unfolding find_from
find_from-lt i m name [] h = cc
find_from-lt i m name (b ∷ bs) {j} h = elim (Bool-cases (is_file m name b)) [
  | inl here ↦ ground arith
  | inr other ↦ ground (arith, find_from-lt (suc i) m name bs {j = j})
]

-- A block that is found lies in the cache.
pub find_meta_data_block-lt :
    (m : Store) (c : Cache) (name : Text) {j : ℕ}
    → find_meta_data_block m c name ≡ some j
    → j < num_blocks c
unfolding find_meta_data_block
find_meta_data_block-lt m c name h = omega (arith, find_from-lt 0 m name c.cblocks h)
