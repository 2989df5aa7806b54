-- ===== src/Client/Select/Get/Rounds.antt =====
-- The rounds of the loop for GET keep the newest version and the counts of its values.
use os_hw.Prelude.{
  ℕ, suc, ◌≡◌, refl, sym, subst, Bool, true, false, ◌&&◌, some, List, [], ◌∷◌, ◌++◌, append-nil,
  append_assoc, arith, length, length-append, get_elem?, get_elem?-snoc, Bool-cases, ◌⊎◌, inl, inr,
  ℤ, pos, minus_one, eqb_ℤ, ltb_ℤ, leb_ℤ, ◌≤ℤ◌, ◌<ℤ◌,
}
use os_hw.Text.{Text, text_eq, text_eq_iff}
use os_hw.Server.Table.{KeyVal}
use os_hw.Client.Tally.{Group, has_group, add_vote}
use os_hw.Client.Tally.Votes.{Counts, add_vote-Counts, Counts-same}
use os_hw.Client.Select.{responded, GetTally, get_round, get_loop, start_tally}
use os_hw.Client.Select.Replies.{
  count_if, count_if-snoc, count_if_zero, Passes, Passes-append, Passes-last, eqb_ℤ_iff,
}

-- A server that counts for a GET, and one that gave the value at the version.
abbrev pub voted : KeyVal → Bool
voted kv = responded kv && leb_ℤ (pos 0) kv.vno

abbrev pub gave : ℤ → Text → KeyVal → Bool
gave vno value kv = voted kv && eqb_ℤ kv.vno vno && text_eq kv.value value

abbrev pub TalliedAt : List KeyVal → ℤ → List (Group Text) → Type 0
TalliedAt seen max gs =
    Counts text_eq text_eq_iff (λ v. count_if (gave max v) seen) (λ v i. Passes (gave max v) seen i)
      gs

abbrev pub at_version : ℤ → KeyVal → Bool
at_version vno kv = voted kv && eqb_ℤ kv.vno vno

-- `max` is -1, or the version of a server that counts.
abbrev pub Reached : List KeyVal → ℤ → Type 0
Reached seen max = (max ≡ minus_one) ⊎ ((i : ℕ) × Passes (at_version max) seen i)

Reached-append :
    (seen : List KeyVal) (kv : KeyVal) (max : ℤ) → Reached seen max → Reached (seen ++ kv ∷ []) max
Reached-append seen kv max (inl e) = inl e
Reached-append seen kv max (inr (i, p)) = inr (i, Passes-append (at_version max) seen (kv ∷ []) i p)

pub record Tallied (seen : List KeyVal) (t : GetTally) : Type 0 where
  pub above : (i : ℕ) (kv : KeyVal) → get_elem? seen i ≡ some kv → voted kv ≡ true → kv.vno ≤ℤ t.max
  pub reached : Reached seen t.max
  pub counted : TalliedAt seen t.max t.groups

above-snoc :
    (seen : List KeyVal) (kv : KeyVal) (m n : ℤ)
    → ((i : ℕ) (x : KeyVal) → get_elem? seen i ≡ some x → voted x ≡ true → x.vno ≤ℤ m)
    → m ≤ℤ n
    → (voted kv ≡ true → kv.vno ≤ℤ n)
    → (i : ℕ) (x : KeyVal) → get_elem? (seen ++ kv ∷ []) i ≡ some x
    → voted x ≡ true
    → x.vno ≤ℤ n
above-snoc seen kv m n h le last i x e v = elim (get_elem?-snoc seen kv i e) [
  | inl old ↦ omega (arith, h i x old v)
  | inr same ↦ rw same (last (rw same at v))
]

-- A server that gave no value at this version changes no count.
other-TalliedAt :
    (seen : List KeyVal) (kv : KeyVal) (max : ℤ) (gs : List (Group Text))
    → ((v : Text) → gave max v kv ≡ false)
    → TalliedAt seen max gs
    → TalliedAt (seen ++ kv ∷ []) max gs
other-TalliedAt seen kv max gs h t =
    Counts-same text_eq text_eq_iff (λ v. ground (arith, count_if-snoc (gave max v) seen kv, h v))
      (λ v i. Passes-append (gave max v) seen (kv ∷ []) i) t

-- The first server with a newer version: all counts so far are of older ones.
pub newer-TalliedAt :
    (seen : List KeyVal) (kv : KeyVal) (max : ℤ)
    → ((i : ℕ) (x : KeyVal) → get_elem? seen i ≡ some x → voted x ≡ true → x.vno ≤ℤ max)
    → max <ℤ kv.vno
    → voted kv ≡ true
    → TalliedAt (seen ++ kv ∷ []) kv.vno (record { key = kv.value; idx = length seen ∷ [] } ∷ [])
unfolding has_group
newer-TalliedAt seen kv max above lt v = record {
  exact = (
    ground (
      arith,
      count_if-snoc (gave kv.vno kv.value) seen kv,
      none_yet kv.value,
      (text_eq_iff kv.value kv.value).1 refl,
    ),
    tt,
  );
  members = (
    (λ _.
        Passes-last (gave kv.vno kv.value) seen kv
          (ground (arith, (text_eq_iff kv.value kv.value).1 refl))),
    tt,
  );
  complete = λ k h. ground (arith, count_if-snoc (gave kv.vno k) seen kv, none_yet k);
}
  where
    none_yet : (k : Text) → count_if (gave kv.vno k) seen ≡ 0
    none_yet k = count_if_zero (gave kv.vno k) seen (λ i x e. elim (Bool-cases (voted x)) [
      | inl w ↦ (let le = above i x e w in ground arith)
      | inr w ↦ ground arith
    ])

same-TalliedAt :
    (seen : List KeyVal) (kv : KeyVal) (gs : List (Group Text))
    → voted kv ≡ true
    → TalliedAt seen kv.vno gs
    → TalliedAt (seen ++ kv ∷ []) kv.vno (add_vote text_eq kv.value (length seen) gs)
same-TalliedAt seen kv gs v t =
    add_vote-Counts text_eq text_eq_iff kv.value (length seen) gs
      (λ w. ground (
        arith,
        count_if-snoc (gave kv.vno w) seen kv,
        text_eq_iff kv.value w,
        text_eq_iff w kv.value,
      ))
      (λ w i. Passes-append (gave kv.vno w) seen (kv ∷ []) i)
      (Passes-last (gave kv.vno kv.value) seen kv
        (ground (arith, (text_eq_iff kv.value kv.value).1 refl)))
      t

pub get_round-Tallied :
    (seen : List KeyVal) (kv : KeyVal) (t : GetTally)
    → Tallied seen t
    → Tallied (seen ++ kv ∷ []) (get_round (length seen) kv t)
unfolding get_round
get_round-Tallied seen kv t s = elim (Bool-cases (voted kv)) [
  | inr silent ↦
      rw (get_round, silent)
        (record {
          above = above-snoc seen kv t.max t.max s.above (omega arith) (λ v. cc);
          reached = Reached-append seen kv t.max s.reached;
          counted = other-TalliedAt seen kv t.max t.groups (λ v. ground arith) s.counted;
        })
  | inl here ↦ elim (Bool-cases (ltb_ℤ t.max kv.vno)) [
    | inl newer ↦
        rw (get_round, here, newer)
          (record {
            above = above-snoc seen kv t.max kv.vno s.above (ground arith) (λ v. omega arith);
            reached = inr (length seen, Passes-last (at_version kv.vno) seen kv (ground arith));
            counted = newer-TalliedAt seen kv t.max s.above (ground arith) here;
          })
    | inr old ↦ elim (Bool-cases (eqb_ℤ kv.vno t.max)) [
      | inl same ↦
          let e : kv.vno ≡ t.max = (eqb_ℤ_iff kv.vno t.max).0 same in
          rw (get_round, here, old, same)
            (record {
              above = above-snoc seen kv t.max t.max s.above (omega arith) (λ v. ground arith);
              reached = Reached-append seen kv t.max s.reached;
              counted =
                  subst
                    (λ m.
                      TalliedAt (seen ++ kv ∷ []) m
                        (add_vote text_eq kv.value (length seen) t.groups))
                    e
                    (same-TalliedAt seen kv t.groups here
                      (subst (λ m. TalliedAt seen m t.groups) (sym e) s.counted));
            })
      | inr older ↦
          rw (get_round, here, old, older)
            (record {
              above = above-snoc seen kv t.max t.max s.above (omega arith) (λ v. ground arith);
              reached = Reached-append seen kv t.max s.reached;
              counted = other-TalliedAt seen kv t.max t.groups (λ v. ground arith) s.counted;
            })
    ]
  ]
]

pub get_loop-Tallied :
    (seen kvs : List KeyVal) (t : GetTally)
    → Tallied seen t
    → Tallied (seen ++ kvs) (get_loop (length seen) kvs t)
unfolding get_loop
get_loop-Tallied seen [] t s = rw append-nil s
get_loop-Tallied seen (kv ∷ kvs) t s =
    let t' = get_round (length seen) kv t in
    let next = get_loop-Tallied (seen ++ kv ∷ []) kvs t' (get_round-Tallied seen kv t s) in
    let at : length (seen ++ kv ∷ []) ≡ suc (length seen) =
      omega (arith, length-append {0} seen (kv ∷ [])) in
    rw (← at) (
      subst (λ l. Tallied l (get_loop (length (seen ++ kv ∷ [])) kvs t'))
        (append_assoc seen (kv ∷ []) kvs) next)

pub start_Tallied : Tallied [] start_tally
unfolding count_if
start_Tallied = record {
  above = λ i x e. cc;
  reached = inl refl;
  counted = record {
    exact = (refl, tt);
    members = ((λ p. absurd (omega arith)), tt);
    complete = λ v h. refl;
  };
}
