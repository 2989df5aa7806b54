-- ===== src/Cache/Recency.antt =====
-- The order of use of the blocks, most recent first: what the counters of Cache.c stand for.
use os_hw.Prelude.{
  ℕ, zero, suc, ◌≤◌, ◌<◌, ◌≡◌, refl, ◌≢◌, Bool, true, false, ◌||◌, List, [], ◌∷◌, arith, leb, ◌==◌,
  ==_iff, if◌then◌else◌, length, Bool-cases, inl, inr,
}

unfoldable pub mem : ℕ → List ℕ → Bool
mem x [] = false
mem x (y ∷ ys) = x == y || mem x ys

-- How many blocks were used after `x`: all, if it was never used.
unfoldable pub rank : ℕ → List ℕ → ℕ
rank x [] = 0
rank x (y ∷ ys) = if x == y then 0 else suc (rank x ys)

unfoldable pub remove : ℕ → List ℕ → List ℕ
remove x [] = []
remove x (y ∷ ys) = if x == y then ys else y ∷ remove x ys

-- A use puts the block first.
abbrev pub touch : ℕ → List ℕ → List ℕ
touch x ys = x ∷ remove x ys

abbrev pub Distinct : List ℕ → Type 0
Distinct [] = Unit
Distinct (x ∷ xs) = (mem x xs ≡ false) × Distinct xs

abbrev pub AllBelow : ℕ → List ℕ → Type 0
AllBelow n [] = Unit
AllBelow n (x ∷ xs) = (x < n) × AllBelow n xs

mem-remove_ne : (x y : ℕ) (ys : List ℕ) → mem x ys ≡ false → mem x (remove y ys) ≡ false
unfolding mem remove
mem-remove_ne x y [] h = refl
mem-remove_ne x y (z ∷ ys) h = ground (arith, mem-remove_ne x y ys)

remove-Distinct : (x : ℕ) (ys : List ℕ) → Distinct ys → Distinct (remove x ys)
unfolding mem remove
remove-Distinct x [] h = tt
remove-Distinct x (y ∷ ys) h = elim (Bool-cases (x == y)) [
  | inl same ↦ rw same h.1
  | inr other ↦ rw other (mem-remove_ne y x ys h.0, remove-Distinct x ys h.1)
]

remove-AllBelow : (x n : ℕ) (ys : List ℕ) → AllBelow n ys → AllBelow n (remove x ys)
unfolding remove
remove-AllBelow x n [] h = tt
remove-AllBelow x n (y ∷ ys) h = elim (Bool-cases (x == y)) [
  | inl same ↦ rw same h.1
  | inr other ↦ rw other (h.0, remove-AllBelow x n ys h.1)
]

mem-remove_self : (x : ℕ) (ys : List ℕ) → Distinct ys → mem x (remove x ys) ≡ false
unfolding mem remove
mem-remove_self x [] h = refl
mem-remove_self x (y ∷ ys) h = elim (Bool-cases (x == y)) [
  | inl same ↦ rw (same, (==_iff x y).0 same) (h.0)
  | inr other ↦ rw other (ground (arith, mem-remove_self x ys h.1))
]

pub touch-Distinct : (x : ℕ) (ys : List ℕ) → Distinct ys → Distinct (touch x ys)
touch-Distinct x ys h = (mem-remove_self x ys h, remove-Distinct x ys h)

pub touch-AllBelow : (x n : ℕ) (ys : List ℕ) → x < n → AllBelow n ys → AllBelow n (touch x ys)
touch-AllBelow x n ys lt h = (lt, remove-AllBelow x n ys h)

rank-remove :
    (x j : ℕ) (ys : List ℕ)
    → j ≢ x
    → suc (rank j (remove x ys))
      ≡ (if leb (rank j ys) (rank x ys) then suc (rank j ys) else rank j ys)
unfolding rank remove
rank-remove x j [] h = ground arith
rank-remove x j (y ∷ ys) h = ground (arith, rank-remove x j ys h)

-- A use of `x` moves down by one place what was used after it, and leaves the rest.
pub rank-touch :
    (x j : ℕ) (ys : List ℕ)
    → j ≢ x
    → rank j (touch x ys) ≡ (if leb (rank j ys) (rank x ys) then suc (rank j ys) else rank j ys)
unfolding rank
rank-touch x j ys h = ground (arith, rank-remove x j ys h)

pub rank-touch_self : (x : ℕ) (ys : List ℕ) → rank x (touch x ys) ≡ 0
unfolding rank
rank-touch_self x ys = ground arith

length-remove-ge : (x : ℕ) (ys : List ℕ) → length ys ≤ suc (length (remove x ys))
unfolding remove
length-remove-ge x [] = omega arith
length-remove-ge x (y ∷ ys) = ground (arith, length-remove-ge x ys)

AllBelow-pred : (n : ℕ) (ys : List ℕ) → mem n ys ≡ false → AllBelow (suc n) ys → AllBelow n ys
unfolding mem
AllBelow-pred n [] m h = tt
AllBelow-pred n (y ∷ ys) m h = (ground arith, AllBelow-pred n ys (ground arith) h.1)

-- Different blocks below `n` are at most `n`.
length-le : (n : ℕ) (ys : List ℕ) → Distinct ys → AllBelow n ys → length ys ≤ n
length-le zero [] d h = omega arith
length-le zero (y ∷ ys) d h = absurd (omega arith)
length-le (suc n) ys d h = omega (
  arith,
  length-remove-ge n ys,
  length-le n (remove n ys) (remove-Distinct n ys d)
      (AllBelow-pred n (remove n ys) (mem-remove_self n ys d) (remove-AllBelow n (suc n) ys h)),
)

rank_of_mem : (x : ℕ) (ys : List ℕ) → mem x ys ≡ true → rank x ys < length ys
unfolding mem rank
rank_of_mem x [] h = cc
rank_of_mem x (y ∷ ys) h = ground (arith, rank_of_mem x ys)

pub rank-le-length : (x : ℕ) (ys : List ℕ) → rank x ys ≤ length ys
unfolding rank
rank-le-length x [] = omega arith
rank-le-length x (y ∷ ys) = ground (arith, rank-le-length x ys)

-- Every rank is below the number of blocks.
pub rank-lt : (x n : ℕ) (ys : List ℕ) → x < n → Distinct ys → AllBelow n ys → rank x ys < n
rank-lt x n ys lt d h = elim (Bool-cases (mem x ys)) [
  | inl used ↦ omega (arith, rank_of_mem x ys used, length-le n ys d h)
  | inr unused ↦ omega (arith, rank-le-length x ys, length-le n (x ∷ ys) (unused, d) (lt, h))
]

-- The rank of a block that was never used is the number of those that were.
pub rank_unused : (x : ℕ) (ys : List ℕ) → mem x ys ≡ false → rank x ys ≡ length ys
unfolding mem rank
rank_unused x [] h = refl
rank_unused x (y ∷ ys) h = ground (arith, rank_unused x ys)

pub rank_used : (x : ℕ) (ys : List ℕ) → mem x ys ≡ true → rank x ys < length ys
rank_used = rank_of_mem
