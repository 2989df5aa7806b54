-- ===== src/Cache/Create.antt =====
-- `create_cache` of Cache.c: its exits, and the cache that it makes.
use os_hw.Prelude.{
  ℕ, zero, suc, ◌+◌, ◌/◌, ◌%◌, ◌≡◌, ◌≢◌, refl, ap, true, [], arith, ◌==◌, length, get_or,
  Bool-cases, inl, inr, ◌⊎◌,
}
use os_hw.Text.{Text}
use os_hw.Cache.{
  Cache, CacheType, metadata_cache, write_buffer, num_blocks, block, no_block, init_cache_block,
  init_blocks, exit, division_by_zero, created, make_cache, create_cache,
}
use os_hw.Cache.Recency.{rank}
use os_hw.Cache.Lru.{Ranked}

length-init_blocks :
    (n : ℕ) (type : CacheType) (addr : ℕ) (junk : Text) → length (init_blocks n type addr junk) ≡ n
unfolding init_blocks
length-init_blocks zero type addr junk = refl
length-init_blocks (suc n) type addr junk = ap suc (length-init_blocks n type (addr + 1) junk)

-- Every block starts free, with counter 0 and nothing in its buffer.
init_blocks_lem :
    (n : ℕ) (type : CacheType) (addr : ℕ) (junk : Text) (j : ℕ)
    → ((get_or (init_blocks n type addr junk) j no_block).lru_counter ≡ 0)
      × ((get_or (init_blocks n type addr junk) j no_block).free_flag ≡ true)
      × ((get_or (init_blocks n type addr junk) j no_block).offset ≡ 0)
unfolding init_blocks init_cache_block
init_blocks_lem zero type addr junk j = (refl, refl, refl)
init_blocks_lem (suc n) metadata_cache addr junk zero = (refl, refl, refl)
init_blocks_lem (suc n) write_buffer addr junk zero = (refl, refl, refl)
init_blocks_lem (suc n) type addr junk (suc j) = init_blocks_lem n type (addr + 1) junk j

-- A new cache has no block in use: every block is free, with an empty buffer, and the counters are
-- the ranks of the empty order of use.
pub record IsFresh (c : Cache) (n block_size : ℕ) : Type 0 where
  pub blocks : num_blocks c ≡ n
  pub bytes : c.cache_block_size ≡ block_size
  pub ranked : Ranked c []
  pub free : (j : ℕ) → (block c j).free_flag ≡ true
  pub empty : (j : ℕ) → (block c j).offset ≡ 0

pub make_cache-IsFresh :
    (n block_size : ℕ) (type : CacheType) (addr : ℕ) (junk : Text)
    → (c : Cache) × (make_cache n block_size type addr junk ≡ created c) × IsFresh c n block_size
unfolding make_cache rank
make_cache-IsFresh n block_size type addr junk =
    let c : Cache = record {
      cblocks = init_blocks n type addr junk;
      cache_block_size = block_size;
      type = type;
    } in
    (
      c,
      refl,
      record {
        blocks = length-init_blocks n type addr junk;
        bytes = refl;
        ranked = record {
          distinct = tt;
          inside = tt;
          counters = λ j h. (init_blocks_lem n type addr junk j).0;
        };
        free = λ j. (init_blocks_lem n type addr junk j).1;
        empty = λ j. (init_blocks_lem n type addr junk j).2;
      },
    )

-- A write buffer is made exactly when the block size is a positive multiple of the page size and
-- the size a multiple of the block size; it then has `size / block_size` fresh blocks. The other
-- sizes end in exit 2, a division by zero, or exit 3, in this order.
pub create_write_buffer :
    (page_size size block_size addr : ℕ) (junk : Text)
    → ((block_size % page_size ≢ 0)
        × (create_cache page_size size block_size write_buffer addr junk ≡ exit 2))
      ⊎ ((block_size % page_size ≡ 0)
          × (block_size ≡ 0)
          × (create_cache page_size size block_size write_buffer addr junk ≡ division_by_zero))
      ⊎ ((block_size % page_size ≡ 0)
          × (block_size ≢ 0)
          × (size % block_size ≢ 0)
          × (create_cache page_size size block_size write_buffer addr junk ≡ exit 3))
      ⊎ ((block_size % page_size ≡ 0)
          × (block_size ≢ 0)
          × (size % block_size ≡ 0)
          × ((c : Cache) × (create_cache page_size size block_size write_buffer addr junk
                ≡ created c)
              × IsFresh c (size / block_size) block_size))
unfolding create_cache
create_write_buffer page_size size block_size addr junk =
    elim (Bool-cases (block_size % page_size == 0)) [
      | inr odd ↦ inl (ground arith, rw (create_cache, odd))
      | inl paged ↦ elim (Bool-cases (block_size == 0)) [
        | inl none_left ↦
            inr (inl (ground arith, ground arith, rw (create_cache, paged, none_left)))
        | inr some_left ↦ elim (Bool-cases (size % block_size == 0)) [
          | inr odd ↦ inr (
              inr (
                inl (
                  ground arith,
                  ground arith,
                  ground arith,
                  rw (create_cache, paged, some_left, odd),
                )))
          | inl fits ↦
              let (c, e, fresh) =
                make_cache-IsFresh (size / block_size) block_size write_buffer addr junk in
              inr (
                inr (
                  inr (
                    ground arith,
                    ground arith,
                    ground arith,
                    (c, rw (create_cache, paged, some_left, fits) e, fresh),
                  )))
        ]
      ]
    ]
