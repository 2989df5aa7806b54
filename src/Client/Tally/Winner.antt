-- ===== src/Client/Tally/Winner.antt =====
-- The group that the last loop chooses, and the counts of all keys.
use os_hw.Prelude.{
  ℕ, ◌≤◌, ◌<◌, ◌≡◌, sym, ◌↔◌, Bool, true, Option, none, some, List, [], ◌∷◌, arith, get_or,
  Bool-cases, inl, inr,
}
use os_hw.Client.Tally.{Group, count, has_group, best_group}
use os_hw.Client.Tally.Counts.{AllGroups, IsBest, best_group_lem}
use os_hw.Client.Tally.Votes.{Member, Counts}

AllGroups-both :
    {K : Type 0} (P Q : Group K → Type 0) (gs : List (Group K))
    → AllGroups P gs
    → AllGroups Q gs
    → AllGroups (λ g. P g × Q g) gs
AllGroups-both P Q [] h k = tt
AllGroups-both P Q (g ∷ gs) h k = ((h.0, k.0), AllGroups-both P Q gs h.1 k.1)

module _ {K : Type 0} where
  -- The chosen group, if any, against the counts of all keys.
  abbrev pub Winner : (K → ℕ) → (K → ℕ → Type 0) → Option (Group K) → Type 0
  Winner support M none = (k : K) → support k ≡ 0
  Winner support M (some g) =
      M g.key (get_or g.idx 0 0) × ((k : K) → support k ≤ support g.key) × (0 < support g.key)

module _ {K : Type 0} (eq : K → K → Bool) (eq_iff : (a b : K) → (eq a b ≡ true) ↔ (a ≡ b)) where
  support-le :
      (support : K → ℕ) (k : K) (m : ℕ) (gs : List (Group K))
      → has_group eq k gs ≡ true
      → AllGroups (λ g. count g ≡ support g.key) gs
      → AllGroups (λ g. count g ≤ m) gs
      → support k ≤ m
  unfolding has_group
  support-le support k m [] h x a = cc
  support-le support k m (g ∷ gs) h x a = elim (Bool-cases (eq g.key k)) [
    | inl same ↦ rw (sym ((eq_iff g.key k).0 same)) (omega arith)
    | inr other ↦ support-le support k m gs (ground arith) x.1 a.1
  ]

  pub Counts-Winner :
      (support : K → ℕ) (M : K → ℕ → Type 0) (gs : List (Group K))
      → Counts eq eq_iff support M gs
      → Winner support M (best_group gs)
  Counts-Winner support M gs c =
      let (m, is_best, all) =
        best_group_lem (λ g. (count g ≡ support g.key) × Member M g) gs
          (AllGroups-both _ _ gs c.exact c.members) in
      decide (best_group gs) is_best (below m all)
    where
      below : (m : ℕ) → AllGroups (λ g. count g ≤ m) gs → (k : K) → support k ≤ m
      below m all k = elim (Bool-cases (has_group eq k gs)) [
        | inl found ↦ support-le support k m gs found c.exact all
        | inr missing ↦ omega (arith, c.complete k missing)
      ]

      decide :
          {m : ℕ} (best : Option (Group K))
          → IsBest (λ g. (count g ≡ support g.key) × Member M g) m best
          → ((k : K) → support k ≤ m)
          → Winner support M best
      decide none h le = λ k. omega (arith, le k)
      decide (some g) h le = (h.0.1 (omega arith), (λ k. omega (arith, le k)), omega arith)
