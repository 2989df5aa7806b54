-- ===== src/Cache/Free.antt =====
-- `get_free_cache_block` of Cache.c, against the order of use of the blocks.
use os_hw.Prelude.{
  ℕ, zero, suc, ◌+◌, ◌≤◌, ◌<◌, ◌≡◌, refl, sym, ◌↔◌, false, none, some, List, [], ◌∷◌, arith, ltb,
  if◌then◌else◌, length, get_or, modify, Bool-cases, ◌⊎◌, inl, inr,
}
use os_hw.Cache.{
  CacheBlock, Cache, num_blocks, block, no_block, free_loop, FreeResult, normal, write_back,
  allocate, get_free_cache_block,
}
use os_hw.Cache.Recency.{mem, rank, rank_unused, rank_used}
use os_hw.Cache.Lru.{Ranked}

-- The first block with the highest counter, or the one of the blocks before.
free_loop_lem :
    (i max index : ℕ) (bs : List CacheBlock)
    → (m k : ℕ) × (free_loop i (some (max, index)) bs ≡ some (m, k))
      × (max ≤ m)
      × ((j : ℕ) → j < length bs → (get_or bs j no_block).lru_counter ≤ m)
      × (((m ≡ max) × (k ≡ index))
          ⊎ ((j : ℕ) × (j < length bs) × (k ≡ i + j) × ((get_or bs j no_block).lru_counter ≡ m)))
unfolding free_loop
free_loop_lem i max index [] =
    (max, index, refl, omega arith, (λ j h. absurd (omega arith)), inl (refl, refl))
free_loop_lem i max index (b ∷ bs) = elim (Bool-cases (ltb max b.lru_counter)) [
  | inl higher ↦
      let (m, k, e, le, all, at) = free_loop_lem (suc i) b.lru_counter i bs in
      rw higher (m, k, e, ground arith, all_of m b bs le all, inr (place_new m k b at))
  | inr lower ↦
      let (m, k, e, le, all, at) = free_loop_lem (suc i) max index bs in
      rw lower (m, k, e, le, all_of m b bs (ground arith) all, place_old m k b at)
]
  where
    all_of :
        (m : ℕ) (x : CacheBlock) (xs : List CacheBlock)
        → x.lru_counter ≤ m
        → ((j : ℕ) → j < length xs → (get_or xs j no_block).lru_counter ≤ m)
        → (j : ℕ) → j < length (x ∷ xs)
        → (get_or (x ∷ xs) j no_block).lru_counter ≤ m
    all_of m x xs le all zero h = le
    all_of m x xs le all (suc j) h = all j (omega arith)

    place_new :
        (m k : ℕ) (x : CacheBlock)
        → ((m ≡ x.lru_counter) × (k ≡ i))
          ⊎ ((j : ℕ) × (j < length bs) × (k ≡ suc i + j) × ((get_or bs j no_block).lru_counter ≡ m))
        → (j : ℕ) × (j < length (x ∷ bs))
          × (k ≡ i + j)
          × ((get_or (x ∷ bs) j no_block).lru_counter ≡ m)
    place_new m k x (inl here) = (0, omega arith, omega arith, sym here.0)
    place_new m k x (inr (j, lt, e, at)) = (suc j, omega arith, omega arith, at)

    place_old :
        (m k : ℕ) (x : CacheBlock)
        → ((m ≡ max) × (k ≡ index))
          ⊎ ((j : ℕ) × (j < length bs) × (k ≡ suc i + j) × ((get_or bs j no_block).lru_counter ≡ m))
        → ((m ≡ max) × (k ≡ index))
          ⊎ ((j : ℕ) × (j < length (x ∷ bs))
              × (k ≡ i + j)
              × ((get_or (x ∷ bs) j no_block).lru_counter ≡ m))
    place_old m k x (inl here) = inl here
    place_old m k x (inr (j, lt, e, at)) = inr (suc j, omega arith, omega arith, at)

-- The block that a cache gives out has a counter that no other exceeds.
free_loop_highest :
    (bs : List CacheBlock)
    → 0 < length bs
    → (m k : ℕ) × (free_loop 0 none bs ≡ some (m, k))
      × (k < length bs)
      × ((j : ℕ)
          → j < length bs
          → (get_or bs j no_block).lru_counter ≤ (get_or bs k no_block).lru_counter)
unfolding free_loop
free_loop_highest [] h = absurd (omega arith)
free_loop_highest (b ∷ bs) h =
    let (m, k, e, le, all, at) = free_loop_lem 1 b.lru_counter 0 bs in finish m k e le all at
  where
    finish :
        (m k : ℕ)
        → free_loop 1 (some (b.lru_counter, 0)) bs ≡ some (m, k)
        → b.lru_counter ≤ m
        → ((j : ℕ) → j < length bs → (get_or bs j no_block).lru_counter ≤ m)
        → ((m ≡ b.lru_counter) × (k ≡ 0))
          ⊎ ((j : ℕ) × (j < length bs) × (k ≡ 1 + j) × ((get_or bs j no_block).lru_counter ≡ m))
        → (m' k' : ℕ) × (free_loop 1 (some (b.lru_counter, 0)) bs ≡ some (m', k'))
          × (k' < length (b ∷ bs))
          × ((j : ℕ)
              → j < length (b ∷ bs)
              → (get_or (b ∷ bs) j no_block).lru_counter
                ≤ (get_or (b ∷ bs) k' no_block).lru_counter)
    finish m k e le all (inl (m_is, k_is)) = (m, k, e, omega arith, λ j h. rw k_is (below j h))
      where
        below :
            (j : ℕ) → j < length (b ∷ bs) → (get_or (b ∷ bs) j no_block).lru_counter ≤ b.lru_counter
        below zero h = omega arith
        below (suc j) h = omega (arith, all j (omega arith))
    finish m k e le all (inr (p, lt, k_is, at)) =
        (m, k, e, omega arith, λ j h. rw k_suc (below j h))
      where
        k_suc : k ≡ suc p
        k_suc = omega arith

        below :
            (j : ℕ)
            → j < length (b ∷ bs)
            → (get_or (b ∷ bs) j no_block).lru_counter ≤ (get_or bs p no_block).lru_counter
        below zero h = omega arith
        below (suc j) h = omega (arith, all j (omega arith))

-- On a cache with blocks, `get_free_cache_block` gives out a block such that after no other more
-- blocks were used, and one that was never used if there is one. It marks this block and changes no
-- other, and asks for a write-back exactly when the block was in use.
pub get_free_least_recent :
    (c : Cache) (order : List ℕ)
    → 0 < num_blocks c
    → Ranked c order
    → (k : ℕ) × (result : FreeResult) × (get_free_cache_block c
        ≡ some (record c { cblocks = modify c.cblocks k allocate }, k, result))
      × (k < num_blocks c)
      × ((j : ℕ) → j < num_blocks c → rank j order ≤ rank k order)
      × ((j : ℕ) → j < num_blocks c → mem j order ≡ false → mem k order ≡ false)
      × ((result ≡ write_back) ↔ ((block c k).free_flag ≡ false))
unfolding get_free_cache_block
get_free_least_recent c order pos r =
    let (m, k, e, lt, all) = free_loop_highest c.cblocks pos in
    (
      k,
      (if (block c k).free_flag then normal else write_back),
      rw (get_free_cache_block, e),
      lt,
      (λ j h. omega (arith, all j h, r.counters j h, r.counters k lt)),
      (λ j h unused. elim (Bool-cases (mem k order)) [
        | inl used ↦ absurd (
            omega (
              arith,
              all j h,
              r.counters j h,
              r.counters k lt,
              rank_unused j order unused,
              rank_used k order used,
            ))
        | inr never ↦ never
      ]),
      ground arith,
    )
