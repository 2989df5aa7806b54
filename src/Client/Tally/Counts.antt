-- ===== src/Client/Tally/Counts.antt =====
-- The groups count the servers that agree, and the best group has the most.
use os_hw.Prelude.{
  ℕ, ◌≤◌, ◌<◌, ◌≡◌, refl, Option, none, some, List, [], ◌∷◌, ◌++◌, arith, ltb, Bool-cases, inl, inr,
}
use os_hw.Client.Tally.{Group, count, best_from, best_group}

-- Every group satisfies `P`.
abbrev pub AllGroups {κ} : {K : Type 0} → (Group K → Type κ) → List (Group K) → Type κ
AllGroups P [] = Unit
AllGroups P (g ∷ gs) = P g × AllGroups P gs

module _ {K : Type 0} where
  pub AllGroups-append :
      (P : Group K → Type 0) (gs hs : List (Group K))
      → AllGroups P gs
      → AllGroups P hs
      → AllGroups P (gs ++ hs)
  AllGroups-append P [] hs h k = k
  AllGroups-append P (g ∷ gs) hs h k = (h.0, AllGroups-append P gs hs h.1 k)

  -- What the loop over `retVal` keeps: the group so far beats all that it has seen.
  abbrev pub IsBest : (Group K → Type 0) → ℕ → Option (Group K) → Type 0
  IsBest P n none = n ≡ 0
  IsBest P n (some g) = P g × (count g ≡ n) × (0 < n)

  best_from-IsBest :
      (P : Group K → Type 0) (n : ℕ) (best : Option (Group K)) (gs : List (Group K))
      → IsBest P n best
      → AllGroups P gs
      → (m : ℕ) × IsBest P m (best_from n best gs) × (n ≤ m) × AllGroups (λ g. count g ≤ m) gs
  unfolding best_from
  best_from-IsBest P n best [] h a = (n, h, omega arith, tt)
  best_from-IsBest P n best (g ∷ gs) h a = elim (Bool-cases (ltb n (count g))) [
    | inl more ↦
        let (m, is_best, le, all) =
          best_from-IsBest P (count g) (some g) gs (a.0, refl, ground arith) a.1 in
        rw more (m, is_best, ground arith, (le, all))
    | inr same ↦
        let (m, is_best, le, all) = best_from-IsBest P n best gs h a.1 in
        rw same (m, is_best, le, (ground arith, all))
  ]

  -- A best group exists if any group has a server; no group has more servers.
  pub best_group_lem :
      (P : Group K → Type 0) (gs : List (Group K))
      → AllGroups P gs
      → (m : ℕ) × IsBest P m (best_group gs) × AllGroups (λ g. count g ≤ m) gs
  unfolding best_group
  best_group_lem P gs a =
      let (m, is_best, _, all) = best_from-IsBest P 0 none gs refl a in (m, is_best, all)
