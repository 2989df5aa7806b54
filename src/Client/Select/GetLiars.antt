-- ===== src/Client/Select/GetLiars.antt =====
-- The servers that a GET reports.
use os_hw.Prelude.{
  ℕ, suc, ◌≤◌, ◌≡◌, refl, ap, subst, ◌∙◌, Bool, true, false, ◌&&◌, some, List, [], ◌∷◌, ◌++◌,
  append-nil, append_assoc, arith, ltb, length, length-append, get_elem?, Bool-cases, inl, inr, ◌↔◌,
  ℤ, eqb_ℤ, ltb_ℤ,
}
use os_hw.Text.{Text, codes, text_eq, text_eq_iff}
use os_hw.Server.Table.{KeyVal}
use os_hw.Client.Tally.{Group, count, has_group}
use os_hw.Client.Tally.Counts.{AllGroups}
use os_hw.Client.Select.{
  GetTally, get_round, get_loop, get_liars, start_tally, selected, first_server, select_get,
  responses, select_server,
}
use os_hw.Client.Select.Replies.{count_if, count_if-snoc, Passes, eqb_ℤ_iff}
use os_hw.Client.Select.Passed.{contains, passes-snoc, passes_zero, passes-Passes, passes_of_Passes}
use os_hw.Client.Select.Members.{
  AreExact, other-AreExact, add_vote-AreExact, best_group-exact, has_group-passes, collect,
  contains-Collected, contains_of_Collected,
}
use os_hw.Client.Select.Get.{gave-eq, no_votes_below}
use os_hw.Client.Select.Get.Rounds.{
  voted, gave, Tallied, newer-TalliedAt, get_round-Tallied, get_loop-Tallied, start_Tallied,
}

-- The first server with a newer version stands alone in its group.
newer-AreExact :
    (seen : List KeyVal) (kv : KeyVal) (t : GetTally)
    → Tallied seen t
    → ltb_ℤ t.max kv.vno ≡ true
    → voted kv ≡ true
    → AreExact
        (gave kv.vno)
        (seen ++ kv ∷ [])
        (record { key = kv.value; idx = length seen ∷ [] } ∷ [])
newer-AreExact seen kv t s newer here =
    let one = (newer-TalliedAt seen kv t.max s.above (ground arith) here).exact.0 in
    let itself = (text_eq_iff kv.value kv.value).1 refl in
    let zero_before : count_if (gave kv.vno kv.value) seen ≡ 0 =
      ground (arith, count_if-snoc (gave kv.vno kv.value) seen kv) in
    (
      λ k. ground (
        arith,
        passes-snoc (gave kv.vno kv.value) seen kv k,
        passes_zero (gave kv.vno kv.value) seen k zero_before,
      ),
      tt,
    )

get_round-AreExact :
    (seen : List KeyVal) (kv : KeyVal) (t : GetTally)
    → Tallied seen t
    → AreExact (gave t.max) seen t.groups
    → AreExact
        (gave (get_round (length seen) kv t).max)
        (seen ++ kv ∷ [])
        (get_round (length seen) kv t).groups
unfolding get_round
get_round-AreExact seen kv t s h = elim (Bool-cases (voted kv)) [
  | inr silent ↦
      rw (get_round, silent) (other-AreExact (gave t.max) seen kv t.groups (λ v. ground arith) h)
  | inl here ↦ elim (Bool-cases (ltb_ℤ t.max kv.vno)) [
    | inl newer ↦ rw (get_round, here, newer) (newer-AreExact seen kv t s newer here)
    | inr old ↦ elim (Bool-cases (eqb_ℤ kv.vno t.max)) [
      | inl same ↦
          rw (get_round, here, old, same)
            (add_vote-AreExact (gave t.max) text_eq seen kv kv.value
              (λ v. ground (arith, text_eq_iff kv.value v, text_eq_iff v kv.value)) t.groups
              ((text_eq_iff kv.value kv.value).1 refl) (s.counted.complete kv.value) h)
      | inr older ↦
          rw (get_round, here, old, older)
            (other-AreExact (gave t.max) seen kv t.groups (λ v. ground arith) h)
    ]
  ]
]

get_loop-AreExact :
    (seen kvs : List KeyVal) (t : GetTally)
    → Tallied seen t
    → AreExact (gave t.max) seen t.groups
    → AreExact
        (gave (get_loop (length seen) kvs t).max)
        (seen ++ kvs)
        (get_loop (length seen) kvs t).groups
unfolding get_loop
get_loop-AreExact seen [] t s h = rw append-nil h
get_loop-AreExact seen (kv ∷ kvs) t s h =
    let t' = get_round (length seen) kv t in
    let next =
      get_loop-AreExact (seen ++ kv ∷ []) kvs t' (get_round-Tallied seen kv t s)
        (get_round-AreExact seen kv t s h) in
    let at : length (seen ++ kv ∷ []) ≡ suc (length seen) =
      omega (arith, length-append {0} seen (kv ∷ [])) in
    subst
      (λ n. AreExact (gave (get_loop n kvs t').max) (seen ++ kv ∷ kvs) (get_loop n kvs t').groups)
      at
      (subst
        (λ l.
          AreExact (gave (get_loop (length (seen ++ kv ∷ [])) kvs t').max) l
            (get_loop (length (seen ++ kv ∷ [])) kvs t').groups)
        (append_assoc seen (kv ∷ []) kvs) next)

-- The test of the last loop, by the key of a group.
abbrev reports : List KeyVal → ℤ → ℕ → Text → Bool
reports kvs max ret_val v = ltb (count_if (gave max v) kvs) ret_val

get_liars-collect :
    (kvs : List KeyVal) (max : ℤ) (ret_val : ℕ) (gs : List (Group Text))
    → AllGroups (λ g. count g ≡ count_if (gave max g.key) kvs) gs
    → get_liars ret_val gs ≡ collect (gave max) (reports kvs max ret_val) gs
unfolding get_liars
get_liars-collect kvs max ret_val [] h = refl
get_liars-collect kvs max ret_val (g ∷ gs) h =
    rw (h.0, get_liars-collect kvs max ret_val gs h.1) refl

-- A reply that a GET with the chosen `reply` reports: it has the same version with a value that
-- fewer servers gave.
abbrev pub get_lied : List KeyVal → KeyVal → KeyVal → Bool
get_lied kvs reply kv =
    voted kv
    && eqb_ℤ kv.vno reply.vno
    && ltb (count_if (gave reply.vno kv.value) kvs) (count_if (gave reply.vno reply.value) kvs)

get_liars_iff :
    (kvs : List KeyVal) (reply : KeyVal) (gs : List (Group Text)) (k : ℕ)
    → ((v : Text) → has_group text_eq v gs ≡ false → count_if (gave reply.vno v) kvs ≡ 0)
    → AreExact (gave reply.vno) kvs gs
    → (contains k (
          collect
            (gave reply.vno)
            (reports kvs reply.vno (count_if (gave reply.vno reply.value) kvs))
            gs)
        ≡ true)
      ↔ Passes (get_lied kvs reply) kvs k
get_liars_iff kvs reply gs k complete h =
    let p = gave reply.vno in
    let q = reports kvs reply.vno (count_if (gave reply.vno reply.value) kvs) in
    (
      λ c.
          let (v, reported, _, agrees) = contains-Collected p text_eq text_eq_iff q kvs k gs h c in
          let (kv, at, passed) = passes-Passes (p v) kvs k agrees in
          let (here, version, value) = gave-eq reply.vno v kv passed in
          let reported' : q kv.value ≡ true = rw value reported in
          (kv, at, ground (arith, eqb_ℤ_iff kv.vno reply.vno)),
      λ l.
          let (kv, at, lied) = l in
          let agrees =
            passes_of_Passes (p kv.value) kvs k
              (kv, at, ground (arith, (text_eq_iff kv.value kv.value).1 refl)) in
          contains_of_Collected p text_eq text_eq_iff q kvs k gs h (
            kv.value,
            ground arith,
            has_group-passes p text_eq kvs gs kv.value k (complete kv.value) agrees,
            agrees,
          ),
    )

-- If the read quorum answered and some answer has a version, a GET reports just those servers that
-- gave, at the version of the chosen reply, a value that fewer servers gave than the chosen one.
pub select_server-get_liars :
    (nr nw : ℕ) (kvs : List KeyVal) (j : ℕ)
    → nr ≤ responses kvs
    → Passes voted kvs j
    → (i : ℕ) × (liars : List ℕ) × (reply : KeyVal) × (select_server nr nw (codes "GET") kvs
        ≡ selected i liars)
      × (get_elem? kvs i ≡ some reply)
      × ((k : ℕ) → (contains k liars ≡ true) ↔ Passes (get_lied kvs reply) kvs k)
unfolding select_server select_get text_eq
select_server-get_liars nr nw kvs j quorum p =
    let enough : ltb (responses kvs) nr ≡ false = ground arith in
    let t = get_loop 0 kvs start_tally in
    let s = get_loop-Tallied [] kvs start_tally start_Tallied in
    let exact = get_loop-AreExact [] kvs start_tally start_Tallied (λ k. refl, tt) in
    let (g, best, (reply, there, agrees), counts) =
      best_group-exact (gave t.max) text_eq text_eq_iff kvs t.groups s.counted
        (no_votes_below kvs t j s p) in
    let (_, version, value) = gave-eq t.max g.key reply agrees in
    (
      first_server g,
      collect (gave reply.vno) (reports kvs reply.vno (count_if (gave reply.vno reply.value) kvs))
          t.groups,
      reply,
      rw (select_server, enough, select_get, best)
          (ap (selected (first_server g)) (
            get_liars-collect kvs t.max (count g) t.groups s.counted.exact
            ∙ rw (counts, version, value) refl)),
      there,
      λ k. get_liars_iff kvs reply t.groups k (rw version s.counted.complete) (rw version exact),
    )
