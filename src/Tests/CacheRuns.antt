-- ===== src/Tests/CacheRuns.antt =====
-- Cache.c on small caches.
use os_hw.Prelude.{
  ℕ, zero, suc, ◌≤◌, ◌<◌, ◌≡◌, ◌↔◌, refl, true, false, some, List, [], ◌∷◌, arith, modify,
}
use os_hw.Cache.{
  CacheBlock, Cache, num_blocks, block, write_buffer, update_lru, get_free_cache_block, FreeResult,
  write_back, allocate,
}
use os_hw.Cache.Recency.{rank, touch, mem}
use os_hw.Cache.Lru
use os_hw.Cache.Lru.{Ranked}
use os_hw.Cache.Free

-- Block 1 was used last, before it block 0, and block 2 never.
abbrev used_block : ℕ → CacheBlock
used_block n = record { mdata = some n; free_flag = false; buf = []; offset = 0; lru_counter = n }

abbrev three_blocks : Cache
three_blocks = record {
  cblocks = used_block 1 ∷ used_block 0 ∷ record (used_block 2) { free_flag = true } ∷ [];
  cache_block_size = 4096;
  type = write_buffer;
}

abbrev order : List ℕ
order = 1 ∷ 0 ∷ []

three_blocks-Ranked : Ranked three_blocks order
unfolding rank mem
three_blocks-Ranked = record {
  distinct = (refl, (refl, tt));
  inside = (omega arith, (omega arith, tt));
  counters = counters;
}
  where
    counters : (j : ℕ) → j < 3 → (block three_blocks j).lru_counter ≡ rank j order
    counters zero h = refl
    counters (suc zero) h = refl
    counters (suc (suc zero)) h = refl
    counters (suc (suc (suc j))) h = absurd (omega arith)

update_lru-Ranked_example : Ranked (update_lru three_blocks 0) (touch 0 order)
update_lru-Ranked_example =
    Lru.update_lru-Ranked three_blocks order 0 three_blocks-Ranked (omega arith)

get_free_least_recent_example :
    (k : ℕ) × (result : FreeResult) × (get_free_cache_block three_blocks
      ≡ some (record three_blocks { cblocks = modify three_blocks.cblocks k allocate }, k, result))
    × (k < num_blocks three_blocks)
    × ((j : ℕ) → j < num_blocks three_blocks → rank j order ≤ rank k order)
    × ((j : ℕ) → j < num_blocks three_blocks → mem j order ≡ false → mem k order ≡ false)
    × ((result ≡ write_back) ↔ ((block three_blocks k).free_flag ≡ false))
get_free_least_recent_example =
    Free.get_free_least_recent three_blocks order (omega arith) three_blocks-Ranked
