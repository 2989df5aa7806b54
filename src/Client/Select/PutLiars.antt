-- ===== src/Client/Select/PutLiars.antt =====
-- The servers that a PUT reports.
use os_hw.Prelude.{
  ℕ, suc, ◌≤◌, ◌<◌, ◌≡◌, refl, sym, ap, subst, ◌∙◌, Bool, true, false, not, ◌&&◌, none, some, List,
  [], ◌∷◌, ◌++◌, append-nil, append_assoc, arith, ltb, ◌==◌, length, length-append, get_elem?,
  Bool-cases, inl, inr, ◌↔◌, ℤ, pos, eqb_ℤ, ltb_ℤ,
}
use os_hw.Text.{codes, text_eq}
use os_hw.Server.Table.{KeyVal}
use os_hw.Client.Tally.{Group, count, best_group}
use os_hw.Client.Tally.Counts.{AllGroups}
use os_hw.Client.Select.{
  responded, put_round, put_loop, put_liars, selected, first_server, select_put, responses,
  select_server,
}
use os_hw.Client.Select.Replies.{count_if, count_if_pos, Passes, eqb_ℤ_iff}
use os_hw.Client.Select.Passed.{contains, passes-Passes, passes_of_Passes}
use os_hw.Client.Select.Members.{
  AreExact, other-AreExact, add_vote-AreExact, best_group-exact, has_group-passes, collect,
  contains-Collected, contains_of_Collected,
}
use os_hw.Client.Select.Put.{
  has_version, has_version_self, has_version-eq, Tallied, put_round-Tallied, put_loop-Tallied,
  start_Tallied, best_from-empty, responses_pos,
}

put_round-AreExact :
    (seen : List KeyVal) (kv : KeyVal) (gs : List (Group ℤ))
    → Tallied seen gs
    → AreExact has_version seen gs
    → AreExact has_version (seen ++ kv ∷ []) (put_round (length seen) kv gs)
unfolding put_round
put_round-AreExact seen kv gs t h = elim (Bool-cases (responded kv)) [
  | inl here ↦
      rw (put_round, here)
        (add_vote-AreExact has_version eqb_ℤ seen kv kv.vno (λ v. ground arith) gs (ground arith)
          (t.complete kv.vno) h)
  | inr silent ↦
      rw (put_round, silent) (other-AreExact has_version seen kv gs (λ v. ground arith) h)
]

put_loop-AreExact :
    (seen kvs : List KeyVal) (gs : List (Group ℤ))
    → Tallied seen gs
    → AreExact has_version seen gs
    → AreExact has_version (seen ++ kvs) (put_loop (length seen) kvs gs)
unfolding put_loop
put_loop-AreExact seen [] gs t h = rw append-nil h
put_loop-AreExact seen (kv ∷ kvs) gs t h =
    let next =
      put_loop-AreExact (seen ++ kv ∷ []) kvs (put_round (length seen) kv gs)
        (put_round-Tallied seen kv gs t) (put_round-AreExact seen kv gs t h) in
    let at : length (seen ++ kv ∷ []) ≡ suc (length seen) =
      omega (arith, length-append {0} seen (kv ∷ [])) in
    rw (← at) (
      subst
        (λ l.
          AreExact has_version l
            (put_loop (length (seen ++ kv ∷ [])) kvs (put_round (length seen) kv gs)))
        (append_assoc seen (kv ∷ []) kvs) next)

-- The test of the last loop, by the key of a group.
abbrev reports : List KeyVal → ℕ → ℤ → ℤ → Bool
reports kvs ret_val max_vno v = not (count_if (has_version v) kvs == ret_val) && ltb_ℤ max_vno v

put_liars-collect :
    (kvs : List KeyVal) (ret_val : ℕ) (max_vno : ℤ) (gs : List (Group ℤ))
    → AllGroups (λ g. count g ≡ count_if (has_version g.key) kvs) gs
    → put_liars ret_val max_vno (gs ++ record { key = pos 0; idx = [] } ∷ [])
      ≡ collect has_version (reports kvs ret_val max_vno) gs
unfolding put_liars
put_liars-collect kvs ret_val max_vno [] h = ground arith
put_liars-collect kvs ret_val max_vno (g ∷ gs) h =
    rw (h.0, put_liars-collect kvs ret_val max_vno gs h.1) refl

-- A reply that a PUT with the chosen `reply` reports: its version is newer, and not as many servers
-- have it.
abbrev pub put_lied : List KeyVal → KeyVal → KeyVal → Bool
put_lied kvs reply kv =
    responded kv
    && ltb_ℤ reply.vno kv.vno
    && not (count_if (has_version kv.vno) kvs == count_if (has_version reply.vno) kvs)

lied_of_reported :
    (kvs : List KeyVal) (reply : KeyVal) (v : ℤ) (k : ℕ)
    → reports kvs (count_if (has_version reply.vno) kvs) reply.vno v ≡ true
    → Passes (has_version v) kvs k
    → Passes (put_lied kvs reply) kvs k
lied_of_reported kvs reply v k reported (kv, at, agrees) =
    let (here, same) = has_version-eq v kv agrees in
    let reported' : reports kvs (count_if (has_version reply.vno) kvs) reply.vno kv.vno ≡ true =
      rw same reported in
    (kv, at, ground arith)

put_liars_iff :
    (kvs : List KeyVal) (reply : KeyVal) (gs : List (Group ℤ)) (k : ℕ)
    → Tallied kvs gs
    → AreExact has_version kvs gs
    → (contains k
          (collect has_version (reports kvs (count_if (has_version reply.vno) kvs) reply.vno) gs)
        ≡ true)
      ↔ Passes (put_lied kvs reply) kvs k
put_liars_iff kvs reply gs k t h =
    let q = reports kvs (count_if (has_version reply.vno) kvs) reply.vno in
    (
      λ c.
          let (v, reported, _, agrees) =
            contains-Collected has_version eqb_ℤ eqb_ℤ_iff q kvs k gs h c in
          lied_of_reported kvs reply v k reported (passes-Passes (has_version v) kvs k agrees),
      λ l.
          let (kv, at, lied) = l in
          let here : responded kv ≡ true = ground arith in
          let agrees =
            passes_of_Passes (has_version kv.vno) kvs k (kv, at, has_version_self kv here) in
          contains_of_Collected has_version eqb_ℤ eqb_ℤ_iff q kvs k gs h (
            kv.vno,
            ground arith,
            has_group-passes has_version eqb_ℤ kvs gs kv.vno k (t.complete kv.vno) agrees,
            agrees,
          ),
    )

-- With a positive write quorum among the replies, a PUT reports just those servers whose version
-- is newer than that of the chosen reply, and is not the version of as many servers: a server that
-- is up to date is reported when most others are not.
pub select_server-put_liars :
    (nr nw : ℕ) (kvs : List KeyVal)
    → 0 < nw
    → nw ≤ responses kvs
    → (i : ℕ) × (liars : List ℕ) × (reply : KeyVal) × (select_server nr nw (codes "PUT") kvs
        ≡ selected i liars)
      × (get_elem? kvs i ≡ some reply)
      × ((k : ℕ) → (contains k liars ≡ true) ↔ Passes (put_lied kvs reply) kvs k)
unfolding select_server select_put best_group text_eq
select_server-put_liars nr nw kvs h quorum =
    let (j, (kv, at, here)) = responses_pos kvs (omega arith) in
    let enough : ltb (responses kvs) nw ≡ false = ground arith in
    let gs = put_loop 0 kvs [] in
    let t = put_loop-Tallied [] kvs [] start_Tallied in
    let (g, best, (reply, there, agrees), counts) =
      best_group-exact has_version eqb_ℤ eqb_ℤ_iff kvs gs t (λ zeros.
        let one = count_if_pos (has_version kv.vno) kvs j (kv, at, has_version_self kv here) in
        omega (arith, zeros kv.vno)) in
    let (_, same) = has_version-eq g.key reply agrees in
    (
      first_server g,
      collect has_version (reports kvs (count_if (has_version reply.vno) kvs) reply.vno) gs,
      reply,
      rw (select_server, enough, select_put, best_group, best_from-empty 0 none gs (pos 0), best)
          (ap (selected (first_server g))
            (put_liars-collect kvs (count g) g.key gs t.exact ∙ rw (counts, sym same) refl)),
      there,
      λ k. put_liars_iff kvs reply gs k t (put_loop-AreExact [] kvs [] start_Tallied tt),
    )
