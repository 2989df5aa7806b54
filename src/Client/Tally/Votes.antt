-- ===== src/Client/Tally/Votes.antt =====
-- A vote keeps the groups in step with the number of servers that agree on each key.
use os_hw.Prelude.{
  ℕ, ◌+◌, ◌<◌, ◌≡◌, refl, sym, ◌∙◌, ◌↔◌, Bool, true, false, List, [], ◌∷◌, ◌++◌, arith,
  if◌then◌else◌, length, length-append, get_or, Bool-cases, inl, inr,
}
use os_hw.Client.Tally.{Group, count, add_server, has_group, join_groups, add_vote}
use os_hw.Client.Tally.Counts.{AllGroups, AllGroups-append}

abbrev pub Member : {K : Type 0} → (K → ℕ → Type 0) → Group K → Type 0
Member M g = 0 < count g → M g.key (get_or g.idx 0 0)

module _ {K : Type 0} (eq : K → K → Bool) (eq_iff : (a b : K) → (eq a b ≡ true) ↔ (a ≡ b)) where
  -- `support k` servers have voted for `k`; `M k i` says that server `i` is one of them.
  pub record Counts (support : K → ℕ) (M : K → ℕ → Type 0) (gs : List (Group K)) : Type 0 where
    pub exact : AllGroups (λ g. count g ≡ support g.key) gs
    pub members : AllGroups (Member M) gs
    pub complete : (k : K) → has_group eq k gs ≡ false → support k ≡ 0

  module _ (M M' : K → ℕ → Type 0) (grow : (k : K) (i : ℕ) → M k i → M' k i) (k : K) (i : ℕ)
      (is_new : M' k i) where
    join-member : (g : Group K) → eq g.key k ≡ true → Member M g → Member M' (add_server i g)
    join-member g e h _ = first g.idx h
      where
        first :
            (idx : List ℕ)
            → (0 < length idx → M g.key (get_or idx 0 0))
            → M' g.key (get_or (idx ++ i ∷ []) 0 0)
        first [] m = rw ((eq_iff g.key k).0 e) is_new
        first (x ∷ idx) m = grow g.key x (m (omega arith))

    join_groups-members :
        (gs : List (Group K))
        → AllGroups (Member M) gs
        → AllGroups (Member M') (join_groups eq k i gs)
    unfolding join_groups
    join_groups-members [] h = tt
    join_groups-members (g ∷ gs) h = elim (Bool-cases (eq g.key k)) [
      | inl same ↦ rw same (join-member g same h.0, join_groups-members gs h.1)
      | inr other ↦ rw other ((λ p. grow _ _ (h.0 p)), join_groups-members gs h.1)
    ]

    members_grow : (gs : List (Group K)) → AllGroups (Member M) gs → AllGroups (Member M') gs
    members_grow [] h = tt
    members_grow (g ∷ gs) h = ((λ p. grow _ _ (h.0 p)), members_grow gs h.1)

  module _ (k : K) (i : ℕ) (support support' : K → ℕ)
      (step : (j : K) → support' j ≡ support j + (if eq j k then 1 else 0)) where
    join_groups-exact :
        (gs : List (Group K))
        → AllGroups (λ g. count g ≡ support g.key) gs
        → AllGroups (λ g. count g ≡ support' g.key) (join_groups eq k i gs)
    unfolding join_groups
    join_groups-exact [] h = tt
    join_groups-exact (g ∷ gs) h = elim (Bool-cases (eq g.key k)) [
      | inl same ↦
          rw same
            (ground (arith, step g.key, length-append {0} g.idx (i ∷ [])), join_groups-exact gs h.1)
      | inr other ↦ rw other (ground (arith, step g.key), join_groups-exact gs h.1)
    ]

    -- With no group for `k`, the vote changes no count.
    exact_other :
        (gs : List (Group K))
        → has_group eq k gs ≡ false
        → AllGroups (λ g. count g ≡ support g.key) gs
        → AllGroups (λ g. count g ≡ support' g.key) gs
    unfolding has_group
    exact_other [] n h = tt
    exact_other (g ∷ gs) n h = (ground (arith, step g.key), exact_other gs (ground arith) h.1)

    has_group-join :
        (j : K) (gs : List (Group K)) → has_group eq j (join_groups eq k i gs) ≡ has_group eq j gs
    unfolding has_group join_groups
    has_group-join j [] = refl
    has_group-join j (g ∷ gs) = ground (arith, has_group-join j gs)

    has_group-append :
        (j : K) (gs : List (Group K)) (h : Group K)
        → has_group eq j (gs ++ h ∷ []) ≡ false
        → (has_group eq j gs ≡ false) × (eq h.key j ≡ false)
    unfolding has_group
    has_group-append j [] h n = ground arith
    has_group-append j (g ∷ gs) h n = ground (arith, has_group-append j gs h)

    has_group-eq : (j : K) (gs : List (Group K)) → j ≡ k → has_group eq j gs ≡ has_group eq k gs
    has_group-eq j gs e = rw e

    add_vote_complete :
        (gs : List (Group K))
        → ((j : K) → has_group eq j gs ≡ false → support j ≡ 0)
        → (j : K) → has_group eq j (add_vote eq k i gs) ≡ false
        → support' j ≡ 0
    unfolding add_vote
    add_vote_complete gs c j n = elim (Bool-cases (has_group eq k gs)) [
      | inl old ↦
          let missing : has_group eq j gs ≡ false =
            sym (has_group-join j gs) ∙ rw (add_vote, old) at n in
          elim (Bool-cases (eq j k)) [
            | inl same ↦ cc (sym missing ∙ has_group-eq j gs ((eq_iff j k).0 same) ∙ old)
            | inr other ↦ ground (arith, step j, c j missing)
          ]
      | inr new ↦
          let (missing, differs) =
            has_group-append j gs (record { key = k; idx = i ∷ [] }) (rw (add_vote, new) at n) in
          elim (Bool-cases (eq j k)) [
            | inl same ↦ cc (sym differs ∙ (eq_iff k j).1 (sym ((eq_iff j k).0 same)))
            | inr other ↦ ground (arith, step j, c j missing)
          ]
    ]

  -- A vote for `k` by server `i`.
  pub add_vote-Counts :
      {support support' : K → ℕ} {M M' : K → ℕ → Type 0} (k : K) (i : ℕ) (gs : List (Group K))
      → ((j : K) → support' j ≡ support j + (if eq j k then 1 else 0))
      → ((j : K) (n : ℕ) → M j n → M' j n)
      → M' k i
      → Counts support M gs
      → Counts support' M' (add_vote eq k i gs)
  unfolding add_vote
  add_vote-Counts {support} {support'} {M} {M'} k i gs step grow is_new c =
      elim (Bool-cases (has_group eq k gs)) [
        | inl old ↦ record {
          exact = rw (add_vote, old) (join_groups-exact k i support support' step gs c.exact);
          members = rw (add_vote, old) (join_groups-members M M' grow k i is_new gs c.members);
          complete = add_vote_complete k i support support' step gs c.complete;
        }
        | inr new ↦
            let one : 1 ≡ support' k =
              ground (arith, step k, c.complete k new, (eq_iff k k).1 refl) in
            record {
              exact =
                  rw (add_vote, new)
                    (AllGroups-append (λ g. count g ≡ support' g.key) gs _
                      (exact_other k i support support' step gs new c.exact) (one, tt));
              members =
                  rw (add_vote, new)
                    (AllGroups-append (Member M') gs _
                      (members_grow M M' grow k i is_new gs c.members) ((λ _. is_new), tt));
              complete = add_vote_complete k i support support' step gs c.complete;
            }
      ]

  -- A server that does not count leaves the groups as they are.
  pub Counts-same :
      {support support' : K → ℕ} {M M' : K → ℕ → Type 0} {gs : List (Group K)}
      → ((j : K) → support' j ≡ support j)
      → ((j : K) (n : ℕ) → M j n → M' j n)
      → Counts support M gs
      → Counts support' M' gs
  Counts-same {support} {support'} {M} {M'} {gs} same grow c = record {
    exact = keep gs c.exact;
    members = move gs c.members;
    complete = λ k h. same k ∙ c.complete k h;
  }
    where
      keep :
          (hs : List (Group K))
          → AllGroups (λ g. count g ≡ support g.key) hs
          → AllGroups (λ g. count g ≡ support' g.key) hs
      keep [] h = tt
      keep (g ∷ hs) h = (h.0 ∙ sym (same g.key), keep hs h.1)

      move : (hs : List (Group K)) → AllGroups (Member M) hs → AllGroups (Member M') hs
      move [] h = tt
      move (g ∷ hs) h = ((λ p. grow _ _ (h.0 p)), move hs h.1)
