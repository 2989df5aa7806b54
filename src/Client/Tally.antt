-- ===== src/Client/Tally.antt =====
-- `HashMap` of Client.h, as `selectServer` of Client.c uses it: groups of servers that agree on a
-- value (GET) or on a version number (PUT).
pub mod Counts
pub mod Votes
pub mod Winner
use os_hw.Prelude.{
  ℕ, Bool, false, ◌||◌, Option, none, some, List, [], ◌∷◌, ◌++◌, ltb, if◌then◌else◌, length,
}

-- `keyValuePair` or `ver_no`, whichever the loop compares, and the first `count` elements of `idx`.
pub record Group (K : Type 0) : Type 0 where
  pub key : K
  pub idx : List ℕ

module _ {K : Type 0} where
  -- `count`
  abbrev pub count : Group K → ℕ
  count g = length g.idx

  abbrev pub add_server : ℕ → Group K → Group K
  add_server i g = record g { idx = g.idx ++ i ∷ [] }

module _ {K : Type 0} (eq : K → K → Bool) where
  -- The flag `incrIndex` after the inner loop.
  unfoldable pub has_group : K → List (Group K) → Bool
  has_group k [] = false
  has_group k (g ∷ gs) = eq g.key k || has_group k gs

  -- The writes of the inner loop: server `i` joins each group that agrees with it.
  unfoldable pub join_groups : K → ℕ → List (Group K) → List (Group K)
  join_groups k i [] = []
  join_groups k i (g ∷ gs) = (if eq g.key k then add_server i g else g) ∷ join_groups k i gs

  -- The inner loop, and the new group if there was none.
  unfoldable pub add_vote : K → ℕ → List (Group K) → List (Group K)
  add_vote k i gs =
      if has_group k gs then join_groups k i gs else gs ++ record { key = k; idx = i ∷ [] } ∷ []

module _ {K : Type 0} where
  -- The loop over `retVal` and `retIndex`: the first group with the most servers, and `none` for
  -- the index -1.
  unfoldable pub best_from : ℕ → Option (Group K) → List (Group K) → Option (Group K)
  best_from ret_val best [] = best
  best_from ret_val best (g ∷ gs) =
      best_from (if ltb ret_val (count g) then count g else ret_val)
        (if ltb ret_val (count g) then some g else best) gs

  unfoldable pub best_group : List (Group K) → Option (Group K)
  best_group gs = best_from 0 none gs
