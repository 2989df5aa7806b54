-- ===== src/Client/Select/Get.antt =====
-- The choice for a GET: the newest version, and of its values one that most servers gave.
pub mod Rounds
pub use Rounds.{voted, gave}
use os_hw.Prelude.{
  ℕ, suc, ◌≤◌, ◌≡◌, refl, sym, subst, Bool, true, false, ◌&&◌, Option, none, some, List, [], ◌∷◌,
  ◌++◌, append-nil, append_assoc, arith, ltb, length, length-append, get_elem?, get_elem?-snoc,
  Bool-cases, ◌⊎◌, inl, inr, ℤ, pos, minus_one, eqb_ℤ, ltb_ℤ, leb_ℤ, ◌≤ℤ◌, ◌<ℤ◌,
}
use os_hw.Text.{Text, codes, text_eq, text_eq_iff}
use os_hw.Server.Table.{KeyVal}
use os_hw.Client.Tally.{Group, count, has_group, add_vote, best_group}
use os_hw.Client.Tally.Votes.{Counts, add_vote-Counts, Counts-same}
use os_hw.Client.Tally.Winner.{Winner, Counts-Winner}
use os_hw.Client.Select.{
  responded, responses, GetTally, get_round, get_loop, get_liars, selected, first_server,
  start_tally, select_get, select_server,
}
use os_hw.Client.Select.Replies.{
  count_if, count_if-snoc, count_if_pos, count_if_zero, Passes, Passes-append, Passes-last,
  eqb_ℤ_iff,
}
use os_hw.Client.Select.Get.Rounds.{at_version, Tallied, get_loop-Tallied, start_Tallied}

-- The server that a GET believes: it answered with the newest version, and no value of this
-- version comes from more servers.
pub record GetChoice (kvs : List KeyVal) (i : ℕ) : Type 0 where
  pub reply : KeyVal
  pub at : get_elem? kvs i ≡ some reply
  pub counts : voted reply ≡ true
  pub newest :
      (j : ℕ) (kv : KeyVal) → get_elem? kvs j ≡ some kv → voted kv ≡ true → kv.vno ≤ℤ reply.vno
  pub most :
      (v : Text) → count_if (gave reply.vno v) kvs ≤ count_if (gave reply.vno reply.value) kvs

pub gave-eq :
    (n : ℤ) (v : Text) (kv : KeyVal)
    → gave n v kv ≡ true
    → (voted kv ≡ true) × (kv.vno ≡ n) × (kv.value ≡ v)
gave-eq n v kv h = ground (arith, eqb_ℤ_iff kv.vno n, text_eq_iff kv.value v)

-- Some value has a vote at the highest version.
pub no_votes_below :
    (kvs : List KeyVal) (t : GetTally) (j : ℕ)
    → Tallied kvs t
    → Passes voted kvs j
    → ((v : Text) → count_if (gave t.max v) kvs ≡ 0)
    → ⊥
no_votes_below kvs t j s (kv, e, v) z = elim s.reached [
  | inl low ↦ (let le = s.above j kv e v in ground arith)
  | inr (i, (x, at, w)) ↦
      let one =
        count_if_pos (gave t.max x.value) kvs i
          (x, at, ground (arith, (text_eq_iff x.value x.value).1 refl)) in
      omega (arith, z x.value)
]

choice_of_group :
    (kvs : List KeyVal) (t : GetTally) (best : Option (Group Text)) (j : ℕ)
    → Tallied kvs t
    → Passes voted kvs j
    → Winner (λ v. count_if (gave t.max v) kvs) (λ v i. Passes (gave t.max v) kvs i) best
    → (g : Group Text) × (best ≡ some g) × GetChoice kvs (first_server g)
choice_of_group kvs t none j s p w = absurd (no_votes_below kvs t j s p w)
choice_of_group kvs t (some g) j s p w =
    let (kv, at, passed) = w.0 in
    let (counts, version, value) = gave-eq t.max g.key kv passed in
    (
      g,
      refl,
      record {
        reply = kv;
        at = at;
        counts = counts;
        newest = rw version s.above;
        most = rw (version, value) (w.1);
      },
    )

select_get_lem :
    (kvs : List KeyVal) (j : ℕ)
    → Passes voted kvs j
    → (i : ℕ) × (liars : List ℕ) × (select_get kvs ≡ selected i liars) × GetChoice kvs i
unfolding select_get
select_get_lem kvs j p =
    let t = get_loop 0 kvs start_tally in
    let s = get_loop-Tallied [] kvs start_tally start_Tallied in
    let (g, best, choice) = choice_of_group kvs t (best_group t.groups) j s p (
      Counts-Winner text_eq text_eq_iff (λ v. count_if (gave t.max v) kvs)
        (λ v i. Passes (gave t.max v) kvs i) t.groups s.counted) in
    (first_server g, get_liars (count g) t.groups, rw (select_get, best), choice)

-- If the read quorum answered and some answer has a version, a GET chooses a server whose answer
-- has the newest version of all answers and, of the values of this version, one that no other
-- outnumbers.
pub select_server-get :
    (nr nw : ℕ) (kvs : List KeyVal) (j : ℕ)
    → nr ≤ responses kvs
    → Passes voted kvs j
    → (i : ℕ) × (liars : List ℕ) × (select_server nr nw (codes "GET") kvs ≡ selected i liars)
      × GetChoice kvs i
unfolding select_server text_eq
select_server-get nr nw kvs j k p =
    let enough : ltb (responses kvs) nr ≡ false = ground arith in
    let (i, liars, e, choice) = select_get_lem kvs j p in
    (i, liars, rw (select_server, enough) e, choice)
