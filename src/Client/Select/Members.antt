-- ===== src/Client/Select/Members.antt =====
-- Which servers stand in the groups: just those whose replies agree with the key.
use os_hw.Prelude.{
  ℕ, ◌≡◌, refl, sym, ◌∙◌, Bool, true, false, Option, none, some, List, [], ◌∷◌, ◌++◌, arith, length,
  Bool-cases, inl, inr, ◌↔◌, if◌then◌else◌,
}
use os_hw.Server.Table.{KeyVal}
use os_hw.Client.Tally.{Group, count, best_group, has_group, join_groups, add_vote}
use os_hw.Client.Tally.Counts.{AllGroups, AllGroups-append, IsBest, best_group_lem}
use os_hw.Client.Tally.Votes.{Counts}
use os_hw.Client.Tally.Winner.{Winner, Counts-Winner}
use os_hw.Client.Select.{first_server}
use os_hw.Client.Select.Replies.{count_if, Passes}
use os_hw.Client.Select.Passed.{contains, contains-append, passes, passes-snoc, passes_zero}

module _ {K : Type 0} (p : K → KeyVal → Bool) where
  -- Each group has just the servers that agree with its key.
  abbrev pub AreExact : List KeyVal → List (Group K) → Type 0
  AreExact seen gs = AllGroups (λ g. (k : ℕ) → contains k g.idx ≡ passes (p g.key) seen k) gs

  -- A reply that agrees with no key.
  pub other-AreExact :
      (seen : List KeyVal) (kv : KeyVal) (gs : List (Group K))
      → ((v : K) → p v kv ≡ false)
      → AreExact seen gs
      → AreExact (seen ++ kv ∷ []) gs
  other-AreExact seen kv [] other h = tt
  other-AreExact seen kv (g ∷ gs) other h = (
    λ k. ground (arith, h.0 k, passes-snoc (p g.key) seen kv k, other g.key),
    other-AreExact seen kv gs other h.1,
  )

  module _ (eq : K → K → Bool) (seen : List KeyVal) (kv : KeyVal) (v : K)
      (agrees : (w : K) → p w kv ≡ eq w v) where
    join_groups-AreExact :
        (gs : List (Group K))
        → AreExact seen gs
        → AreExact (seen ++ kv ∷ []) (join_groups eq v (length seen) gs)
    unfolding join_groups
    join_groups-AreExact [] h = tt
    join_groups-AreExact (g ∷ gs) h = elim (Bool-cases (eq g.key v)) [
      | inl same ↦ rw same (
        λ k. ground (
          arith,
          h.0 k,
          passes-snoc (p g.key) seen kv k,
          agrees g.key,
          contains-append k g.idx (length seen ∷ []),
        ),
        join_groups-AreExact gs h.1,
      )
      | inr new ↦ rw new (
        λ k. ground (arith, h.0 k, passes-snoc (p g.key) seen kv k, agrees g.key),
        join_groups-AreExact gs h.1,
      )
    ]

    -- With no group for the key, the reply agrees with none.
    unchanged-AreExact :
        (gs : List (Group K))
        → has_group eq v gs ≡ false
        → AreExact seen gs
        → AreExact (seen ++ kv ∷ []) gs
    unfolding has_group
    unchanged-AreExact [] new h = tt
    unchanged-AreExact (g ∷ gs) new h = (
      λ k. ground (arith, h.0 k, passes-snoc (p g.key) seen kv k, agrees g.key),
      unchanged-AreExact gs (ground arith) h.1,
    )

    -- A reply that agrees with `v`.
    pub add_vote-AreExact :
        (gs : List (Group K))
        → eq v v ≡ true
        → (has_group eq v gs ≡ false → count_if (p v) seen ≡ 0)
        → AreExact seen gs
        → AreExact (seen ++ kv ∷ []) (add_vote eq v (length seen) gs)
    unfolding add_vote
    add_vote-AreExact gs reflexive missing h = elim (Bool-cases (has_group eq v gs)) [
      | inl old ↦ rw (add_vote, old) (join_groups-AreExact gs h)
      | inr new ↦
          rw (add_vote, new)
            (AllGroups-append _ gs _ (unchanged-AreExact gs new h) (
              λ k. ground (
                arith,
                passes_zero (p v) seen k (missing new),
                passes-snoc (p v) seen kv k,
                agrees v,
              ),
              tt,
            ))
    ]

  -- The best group, against the servers that agree with its key.
  pub best_group-exact :
      (eq : K → K → Bool) (eq_iff : (a b : K) → (eq a b ≡ true) ↔ (a ≡ b)) (kvs : List KeyVal)
      (gs : List (Group K))
      → Counts eq eq_iff (λ v. count_if (p v) kvs) (λ v i. Passes (p v) kvs i) gs
      → (((v : K) → count_if (p v) kvs ≡ 0) → ⊥)
      → (g : Group K) × (best_group gs ≡ some g)
        × Passes (p g.key) kvs (first_server g)
        × (count g ≡ count_if (p g.key) kvs)
  best_group-exact eq eq_iff kvs gs c voted =
      let (m, is_best, _) = best_group_lem (λ g. count g ≡ count_if (p g.key) kvs) gs c.exact in
      decide m (best_group gs) is_best (Counts-Winner eq eq_iff _ _ gs c)
    where
      decide :
          (m : ℕ) (best : Option (Group K))
          → IsBest (λ g. count g ≡ count_if (p g.key) kvs) m best
          → Winner (λ v. count_if (p v) kvs) (λ v i. Passes (p v) kvs i) best
          → (g : Group K) × (best ≡ some g)
            × Passes (p g.key) kvs (first_server g)
            × (count g ≡ count_if (p g.key) kvs)
      decide m none h w = absurd (voted w)
      decide m (some g) h w = (g, refl, w.0, h.0)

  -- The keys that pass have a group.
  pub has_group-passes :
      (eq : K → K → Bool) (kvs : List KeyVal) (gs : List (Group K)) (v : K) (k : ℕ)
      → (has_group eq v gs ≡ false → count_if (p v) kvs ≡ 0)
      → passes (p v) kvs k ≡ true
      → has_group eq v gs ≡ true
  has_group-passes eq kvs gs v k missing h = elim (Bool-cases (has_group eq v gs)) [
    | inl there ↦ there
    | inr new ↦ cc (sym h ∙ passes_zero (p v) kvs k (missing new))
  ]

  -- What a loop over the groups collects from those that pass a test of their keys.
  abbrev pub collect : (K → Bool) → List (Group K) → List ℕ
  collect q [] = []
  collect q (g ∷ gs) = (if q g.key then g.idx else []) ++ collect q gs

  module _ (eq : K → K → Bool) (eq_iff : (a b : K) → (eq a b ≡ true) ↔ (a ≡ b)) (q : K → Bool)
      (kvs : List KeyVal) (k : ℕ) where
    -- Server `k` agrees with a key that passes and has a group.
    abbrev Collected : List (Group K) → Type 0
    Collected gs = (v : K) × (q v ≡ true) × (has_group eq v gs ≡ true) × (passes (p v) kvs k ≡ true)

    Collected-cons : (g : Group K) (gs : List (Group K)) → Collected gs → Collected (g ∷ gs)
    unfolding has_group
    Collected-cons g gs (v, passed, there, agrees) = (v, passed, ground arith, agrees)

    contains-group :
        (g : Group K) (gs : List (Group K))
        → AreExact kvs (g ∷ gs)
        → contains k (if q g.key then g.idx else []) ≡ true
        → Collected (g ∷ gs)
    unfolding has_group
    contains-group g gs h c = elim (Bool-cases (q g.key)) [
      | inl passed ↦
          let itself = (eq_iff g.key g.key).1 refl in
          (g.key, passed, ground arith, ground (arith, h.0 k))
      | inr failed ↦ cc (rw failed at c)
    ]

    contains_of_group :
        (g : Group K) (gs : List (Group K)) (v : K)
        → AreExact kvs (g ∷ gs)
        → q v ≡ true
        → eq g.key v ≡ true
        → passes (p v) kvs k ≡ true
        → contains k (if q g.key then g.idx else []) ≡ true
    contains_of_group g gs v h passed same agrees =
        let e : v ≡ g.key = sym ((eq_iff g.key v).0 same) in
        let passed' : q g.key ≡ true = rw e at passed in
        let agrees' : passes (p g.key) kvs k ≡ true = rw e at agrees in rw passed' (h.0 k ∙ agrees')

    pub contains-Collected :
        (gs : List (Group K)) → AreExact kvs gs → contains k (collect q gs) ≡ true → Collected gs
    contains-Collected [] h c = cc c
    contains-Collected (g ∷ gs) h c =
        elim (Bool-cases (contains k (if q g.key then g.idx else []))) [
          | inl here ↦ contains-group g gs h here
          | inr other ↦ Collected-cons g gs (
              contains-Collected gs h.1
                (ground (arith, contains-append k (if q g.key then g.idx else []) (collect q gs))))
        ]

    pub contains_of_Collected :
        (gs : List (Group K)) → AreExact kvs gs → Collected gs → contains k (collect q gs) ≡ true
    unfolding has_group
    contains_of_Collected [] h (v, passed, there, agrees) = cc there
    contains_of_Collected (g ∷ gs) h (v, passed, there, agrees) = elim (Bool-cases (eq g.key v)) [
      | inl same ↦
          let here = contains_of_group g gs v h passed same agrees in
          ground (arith, contains-append k (if q g.key then g.idx else []) (collect q gs))
      | inr other ↦
          let later = contains_of_Collected gs h.1 (v, passed, ground arith, agrees) in
          ground (arith, contains-append k (if q g.key then g.idx else []) (collect q gs))
    ]
