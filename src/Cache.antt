-- ===== src/Cache.antt =====
-- Cache.c and Cache.h: the block cache of the log file system, with its replacement counters.
pub mod Recency
pub mod Lru
pub mod Free
pub mod Create
pub mod Timestamps
pub mod Chunks
pub mod Consumed
pub mod Runs
pub mod Folders
pub mod Written
pub mod Lost
pub mod OneDate
pub mod Kept
pub mod Direct
pub mod Print
use os_hw.Prelude.{
  ℕ, zero, suc, ◌+◌, ◌/◌, ◌%◌, Bool, true, false, not, ◌&&◌, Option, none, some, List, [], ◌∷◌, ltb,
  leb, ◌==◌, if◌then◌else◌, length, get_or, modify, ℤ,
}
use os_hw.Text.{Text, text_eq}

-- `MDATA` of log_fs.h: `path` has the elements that were written, and the rest is empty.
pub record MData : Type 0 where
  pub file_name : Text
  pub num_paths : ℤ
  pub path : List Text
  pub size : ℤ

-- `struct cache_block`. `mdata` is a pointer: `none` for NULL, or an address of the store.
pub record CacheBlock : Type 0 where
  pub mdata : Option ℕ
  pub free_flag : Bool
  pub buf : Text
  pub offset : ℕ
  pub lru_counter : ℕ

-- METADATA_CACHE and WRITE_BUFFER
pub data CacheType : Type 0 where
  metadata_cache write_buffer : CacheType

-- `struct cache`; `num_blocks` is the length of `cblocks`.
pub record Cache : Type 0 where
  pub cblocks : List CacheBlock
  pub cache_block_size : ℕ
  pub type : CacheType

abbrev pub num_blocks : Cache → ℕ
num_blocks c = length c.cblocks

-- `init_cache_block`: `addr` is where `malloc` puts the metadata, `junk` what stands in the buffer,
-- which nothing clears.
unfoldable pub init_cache_block : CacheType → (addr : ℕ) → (junk : Text) → CacheBlock
init_cache_block metadata_cache addr junk = record {
  mdata = some addr;
  free_flag = true;
  buf = junk;
  offset = 0;
  lru_counter = 0;
}
init_cache_block write_buffer addr junk = record {
  mdata = none;
  free_flag = true;
  buf = junk;
  offset = 0;
  lru_counter = 0;
}

-- The loop over the blocks; the metadata of block `i` stands at `addr + i`.
unfoldable pub init_blocks : ℕ → CacheType → (addr : ℕ) → (junk : Text) → List CacheBlock
init_blocks zero type addr junk = []
init_blocks (suc n) type addr junk =
    init_cache_block type addr junk ∷ init_blocks n type (addr + 1) junk

-- The exits of `create_cache`, a division by zero, or the cache.
pub data Created : Type 0 where
  exit : ℕ → Created
  division_by_zero : Created
  created : Cache → Created

unfoldable pub make_cache : ℕ → (block_size : ℕ) → CacheType → (addr : ℕ) → (junk : Text) → Created
make_cache n block_size type addr junk =
    created (record {
      cblocks = init_blocks n type addr junk;
      cache_block_size = block_size;
      type = type;
    })

-- `page_size` is what `sysconf` returns.
unfoldable pub create_cache :
    (page_size size block_size : ℕ) → CacheType → (addr : ℕ) → (junk : Text) → Created
create_cache page_size size block_size metadata_cache addr junk =
    make_cache size block_size metadata_cache addr junk
create_cache page_size size block_size write_buffer addr junk =
    if not (block_size % page_size == 0)
    then exit 2
    else if block_size == 0
    then division_by_zero
    else if not (size % block_size == 0)
    then exit 3
    else make_cache (size / block_size) block_size write_buffer addr junk

-- The loop of `get_free_cache_block`: `max` and `index`, `none` for -1.
unfoldable pub free_loop : ℕ → Option (ℕ × ℕ) → List CacheBlock → Option (ℕ × ℕ)
free_loop i best [] = best
free_loop i none (b ∷ bs) = free_loop (suc i) (some (b.lru_counter, i)) bs
free_loop i (some (max, index)) (b ∷ bs) =
    free_loop (suc i) (if ltb max b.lru_counter then some (b.lru_counter, i) else some (max, index))
      bs

-- NORMAL and WRITE_BACK
pub data FreeResult : Type 0 where
  normal write_back : FreeResult

abbrev pub allocate : CacheBlock → CacheBlock
allocate b = record b { free_flag = false }

abbrev pub no_block : CacheBlock
no_block = record { mdata = none; free_flag = true; buf = []; offset = 0; lru_counter = 0 }

-- `cblocks[i]`; the indices that are used lie in the cache.
abbrev pub block : Cache → ℕ → CacheBlock
block c i = get_or c.cblocks i no_block

-- `none` for a cache without blocks, where the code reads `cblocks[-1]`.
unfoldable pub get_free_cache_block : Cache → Option (Cache × ℕ × FreeResult)
get_free_cache_block c = elim (free_loop 0 none c.cblocks) [
  | none ↦ none
  | some (max, index) ↦ some (
    record c { cblocks = modify c.cblocks index allocate },
    index,
    if (block c index).free_flag then normal else write_back,
  )
]

-- The loop of `update_lru`: block `i` ages unless it is the used one, `used`, or newer than it.
unfoldable pub age_loop : (n i used counter : ℕ) → List CacheBlock → List CacheBlock
age_loop n i used counter [] = []
age_loop n i used counter (b ∷ bs) =
    (if not (i == used) && leb b.lru_counter counter
      then record b { lru_counter = (b.lru_counter + 1) % n }
      else b)
    ∷ age_loop n (suc i) used counter bs

abbrev pub reset_counter : CacheBlock → CacheBlock
reset_counter b = record b { lru_counter = 0 }

unfoldable pub update_lru : Cache → ℕ → Cache
update_lru c used = record c {
  cblocks =
      modify (age_loop (num_blocks c) 0 used (block c used).lru_counter c.cblocks) used
        reset_counter;
}

-- The memory that `mdata` pointers point to.
abbrev pub Store : Type 0
Store = ℕ → MData

abbrev pub is_file : Store → Text → CacheBlock → Bool
is_file m file_name b =
    not b.free_flag && (elim b.mdata [ none ↦ false | some a ↦ text_eq (m a).file_name file_name ])

unfoldable pub find_from : ℕ → Store → Text → List CacheBlock → Option ℕ
find_from i m file_name [] = none
find_from i m file_name (b ∷ bs) =
    if is_file m file_name b then some i else find_from (suc i) m file_name bs

-- `find_meta_data_block`: the first block in use whose metadata has the name.
unfoldable pub find_meta_data_block : Store → Cache → Text → Option ℕ
find_meta_data_block m c file_name = find_from 0 m file_name c.cblocks
