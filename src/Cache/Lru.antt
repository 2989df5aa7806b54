-- ===== src/Cache/Lru.antt =====
-- The replacement counters of Cache.c implement the order of use of the blocks.
use os_hw.Prelude.{
  ℕ, zero, suc, ◌+◌, ◌%◌, ◌<◌, ◌≡◌, refl, sym, subst, ◌∙◌, ap, ◌≢◌, not, ◌&&◌, List, [], ◌∷◌, arith,
  leb, ◌==◌, ==_iff, if◌then◌else◌, length, get_or, length-modify, get_or-modify_self,
  get_or-modify_ne, Bool-cases, inl, inr,
}
use native.Mathlib.Nat.{add-zero, add-suc, suc-add, mod-eq_of_lt}
use os_hw.Cache.{
  CacheBlock, Cache, num_blocks, block, no_block, age_loop, reset_counter, update_lru,
}
use os_hw.Cache.Recency.{
  rank, touch, Distinct, AllBelow, touch-Distinct, touch-AllBelow, rank-touch, rank-touch_self,
  rank-lt,
}

-- The counter of each block is the number of blocks that were used after it.
pub record Ranked (c : Cache) (order : List ℕ) : Type 0 where
  pub distinct : Distinct order
  pub inside : AllBelow (num_blocks c) order
  pub counters : (j : ℕ) → j < num_blocks c → (block c j).lru_counter ≡ rank j order

length-age_loop :
    (n i used counter : ℕ) (bs : List CacheBlock)
    → length (age_loop n i used counter bs) ≡ length bs
unfolding age_loop
length-age_loop n i used counter [] = refl
length-age_loop n i used counter (b ∷ bs) = ap suc (length-age_loop n (suc i) used counter bs)

-- What the loop leaves in block `j`.
age_loop_lem :
    (n i used counter j : ℕ) (bs : List CacheBlock)
    → j < length bs
    → (get_or (age_loop n i used counter bs) j no_block).lru_counter ≡ (
        if not ((i + j) == used) && leb (get_or bs j no_block).lru_counter counter
        then ((get_or bs j no_block).lru_counter + 1) % n
        else (get_or bs j no_block).lru_counter)
unfolding age_loop
age_loop_lem n i used counter j [] h = absurd (omega arith)
age_loop_lem n i used counter zero (b ∷ bs) h = rw (add-zero i) (ground arith)
age_loop_lem n i used counter (suc j) (b ∷ bs) h =
    rw (add-suc i j, ← suc-add i j) (age_loop_lem n (suc i) used counter j bs (omega arith))

num_blocks-update_lru : (c : Cache) (used : ℕ) → num_blocks (update_lru c used) ≡ num_blocks c
unfolding update_lru
num_blocks-update_lru c used =
    length-modify (age_loop (num_blocks c) 0 used (block c used).lru_counter c.cblocks) used
      reset_counter
    ∙ length-age_loop (num_blocks c) 0 used (block c used).lru_counter c.cblocks

mod_small : (a n : ℕ) → a < n → a % n ≡ a
mod_small a n h = mod-eq_of_lt h

module _ (c : Cache) (order : List ℕ) (used : ℕ) (r : Ranked c order)
    (lt : used < num_blocks c) where
  abbrev aged : List CacheBlock
  aged = age_loop (num_blocks c) 0 used (block c used).lru_counter c.cblocks

  counter_of_used : (block (update_lru c used) used).lru_counter ≡ 0
  unfolding update_lru
  counter_of_used =
      let inside : used < length aged =
        omega (arith, length-age_loop (num_blocks c) 0 used (block c used).lru_counter c.cblocks) in
      ap (λ b. b.lru_counter) (get_or-modify_self aged used reset_counter no_block inside)

  -- The remainder in `update_lru` never wraps: a counter that grows stays a rank.
  counter_of_other :
      (j : ℕ)
      → j < num_blocks c
      → j ≢ used
      → (block (update_lru c used) j).lru_counter ≡ rank j (touch used order)
  unfolding update_lru
  counter_of_other j inside other =
      let small =
        rank-lt j (num_blocks c) (touch used order) inside (touch-Distinct used order r.distinct)
          (touch-AllBelow used (num_blocks c) order lt r.inside) in
      ap (λ b. b.lru_counter)
        (get_or-modify_ne aged used j reset_counter no_block (λ e. other (sym e)))
      ∙ age_loop_lem (num_blocks c) 0 used (block c used).lru_counter j c.cblocks inside
      ∙ (rw (r.counters j inside, r.counters used lt)
          (ground
            (arith, rank-touch used j order other, mod_small (rank j order + 1) (num_blocks c))))

  -- `update_lru` is a use of the block: the counters stay the ranks of the order of use.
  pub update_lru-Ranked : Ranked (update_lru c used) (touch used order)
  update_lru-Ranked = record {
    distinct = touch-Distinct used order r.distinct;
    inside =
        subst (λ n. AllBelow n (touch used order)) (sym (num_blocks-update_lru c used))
          (touch-AllBelow used (num_blocks c) order lt r.inside);
    counters = λ j h. elim (Bool-cases (j == used)) [
      | inl same ↦ rw ((==_iff j used).0 same) (counter_of_used ∙ sym (rank-touch_self used order))
      | inr other ↦
          counter_of_other j (subst (λ n. j < n) (num_blocks-update_lru c used) h)
            (λ e. cc (sym other ∙ (==_iff j used).1 e))
    ];
  }
