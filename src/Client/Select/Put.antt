-- ===== src/Client/Select/Put.antt =====
-- The choice for a PUT: a version number that most servers have.
use os_hw.Prelude.{
  ℕ, suc, ◌≤◌, ◌<◌, ◌≡◌, refl, subst, Bool, true, false, ◌&&◌, Option, none, some, List, [], ◌∷◌,
  ◌++◌, append-nil, append_assoc, arith, ltb, if◌then◌else◌, length, length-append, get_elem?,
  Bool-cases, inl, inr, ℤ, pos, eqb_ℤ,
}
use os_hw.Text.{codes, text_eq}
use os_hw.Server.Table.{KeyVal}
use os_hw.Client.Tally.{Group, count, best_from, best_group}
use os_hw.Client.Tally.Votes.{Counts, add_vote-Counts, Counts-same}
use os_hw.Client.Tally.Winner.{Winner, Counts-Winner}
use os_hw.Client.Select.{
  responded, put_round, put_loop, put_liars, selected, first_server, select_put, responses,
  select_server,
}
use os_hw.Client.Select.Replies.{
  count_if, count_if-snoc, count_if_pos, Passes, Passes-append, Passes-last, eqb_ℤ_iff,
}

-- A server answered with the version.
abbrev pub has_version : ℤ → KeyVal → Bool
has_version vno kv = responded kv && eqb_ℤ kv.vno vno

abbrev pub Tallied : List KeyVal → List (Group ℤ) → Type 0
Tallied seen gs =
    Counts eqb_ℤ eqb_ℤ_iff (λ v. count_if (has_version v) seen)
      (λ v i. Passes (has_version v) seen i) gs

pub put_round-Tallied :
    (seen : List KeyVal) (kv : KeyVal) (gs : List (Group ℤ))
    → Tallied seen gs
    → Tallied (seen ++ kv ∷ []) (put_round (length seen) kv gs)
unfolding put_round
put_round-Tallied seen kv gs t = elim (Bool-cases (responded kv)) [
  | inl here ↦
      rw (put_round, here)
        (add_vote-Counts eqb_ℤ eqb_ℤ_iff kv.vno (length seen) gs
          (λ v.
            ground (
              arith,
              count_if-snoc (has_version v) seen kv,
              eqb_ℤ_iff kv.vno v,
              eqb_ℤ_iff v kv.vno,
            ))
          (λ v i. Passes-append (has_version v) seen (kv ∷ []) i)
          (Passes-last (has_version kv.vno) seen kv (ground arith)) t)
  | inr silent ↦
      rw (put_round, silent)
        (Counts-same eqb_ℤ eqb_ℤ_iff (λ v. ground (arith, count_if-snoc (has_version v) seen kv))
          (λ v i. Passes-append (has_version v) seen (kv ∷ []) i) t)
]

pub put_loop-Tallied :
    (seen kvs : List KeyVal) (gs : List (Group ℤ))
    → Tallied seen gs
    → Tallied (seen ++ kvs) (put_loop (length seen) kvs gs)
unfolding put_loop
put_loop-Tallied seen [] gs t = rw append-nil t
put_loop-Tallied seen (kv ∷ kvs) gs t =
    let next =
      put_loop-Tallied (seen ++ kv ∷ []) kvs (put_round (length seen) kv gs)
        (put_round-Tallied seen kv gs t) in
    let at : length (seen ++ kv ∷ []) ≡ suc (length seen) =
      omega (arith, length-append {0} seen (kv ∷ [])) in
    rw (← at) (
      subst
        (λ l. Tallied l (put_loop (length (seen ++ kv ∷ [])) kvs (put_round (length seen) kv gs)))
        (append_assoc seen (kv ∷ []) kvs) next)

-- The empty group at the end is never the best.
pub best_from-empty :
    (n : ℕ) (best : Option (Group ℤ)) (gs : List (Group ℤ)) (k : ℤ)
    → best_from n best (gs ++ record { key = k; idx = [] } ∷ []) ≡ best_from n best gs
unfolding best_from
best_from-empty n best [] k = ground arith
best_from-empty n best (g ∷ gs) k =
    best_from-empty (if ltb n (count g) then count g else n)
      (if ltb n (count g) then some g else best) gs k

-- The server that a PUT takes its version from: it answered, and no version has more servers.
pub record PutChoice (kvs : List KeyVal) (i : ℕ) : Type 0 where
  pub reply : KeyVal
  pub at : get_elem? kvs i ≡ some reply
  pub answered : responded reply ≡ true
  pub most : (v : ℤ) → count_if (has_version v) kvs ≤ count_if (has_version reply.vno) kvs

pub has_version_self : (kv : KeyVal) → responded kv ≡ true → has_version kv.vno kv ≡ true
has_version_self kv h = ground arith

pub has_version-eq :
    (v : ℤ) (kv : KeyVal) → has_version v kv ≡ true → (responded kv ≡ true) × (kv.vno ≡ v)
has_version-eq v kv h = ground (arith, eqb_ℤ_iff kv.vno v)

pub start_Tallied : Tallied [] []
unfolding count_if
start_Tallied = record { exact = tt; members = tt; complete = λ v h. refl }

pub responses_pos : (kvs : List KeyVal) → 0 < responses kvs → (j : ℕ) × Passes responded kvs j
unfolding responses
responses_pos [] h = absurd (omega arith)
responses_pos (kv ∷ kvs) h = elim (Bool-cases (responded kv)) [
  | inl here ↦ (0, (kv, refl, here))
  | inr silent ↦ let (j, p) = responses_pos kvs (ground arith) in (suc j, p)
]

choice_of_group :
    (kvs : List KeyVal) (best : Option (Group ℤ)) (j : ℕ)
    → Passes responded kvs j
    → Winner (λ v. count_if (has_version v) kvs) (λ v i. Passes (has_version v) kvs i) best
    → (g : Group ℤ) × (best ≡ some g) × PutChoice kvs (first_server g)
choice_of_group kvs none j (kv, at, here) w =
    let pos_count = count_if_pos (has_version kv.vno) kvs j (kv, at, has_version_self kv here) in
    absurd (omega (arith, w kv.vno))
choice_of_group kvs (some g) j p w =
    let (kv, at, passed) = w.0 in
    let same = has_version-eq g.key kv passed in
    (g, refl, record { reply = kv; at = at; answered = same.0; most = rw same.1 (w.1) })

select_put_lem :
    (kvs : List KeyVal) (j : ℕ)
    → Passes responded kvs j
    → (i : ℕ) × (liars : List ℕ) × (select_put kvs ≡ selected i liars) × PutChoice kvs i
unfolding select_put best_group
select_put_lem kvs j p =
    let gs = put_loop 0 kvs [] in
    let (g, best, choice) =
      choice_of_group kvs (best_group gs) j p
        (Counts-Winner eqb_ℤ eqb_ℤ_iff _ _ gs (put_loop-Tallied [] kvs [] start_Tallied)) in
    (
      first_server g,
      put_liars (count g) g.key (gs ++ record { key = pos 0; idx = [] } ∷ []),
      rw (select_put, best_group, best_from-empty 0 none gs (pos 0), best),
      choice,
    )

-- With a positive write quorum among the replies, a PUT chooses a server that answered, with a
-- version that no other version outnumbers.
pub select_server-put :
    (nr nw : ℕ) (kvs : List KeyVal)
    → 0 < nw
    → nw ≤ responses kvs
    → (i : ℕ) × (liars : List ℕ) × (select_server nr nw (codes "PUT") kvs ≡ selected i liars)
      × PutChoice kvs i
unfolding select_server text_eq
select_server-put nr nw kvs h k =
    let (j, p) = responses_pos kvs (omega arith) in
    let enough : ltb (responses kvs) nw ≡ false = ground arith in
    let (i, liars, e, choice) = select_put_lem kvs j p in
    (i, liars, rw (select_server, enough) e, choice)
