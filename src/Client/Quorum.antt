-- ===== src/Client/Quorum.antt =====
-- Voting: any two quorums that `main` accepts meet, and a read after a write returns what it wrote.
use os_hw.Prelude.{
  ℕ, suc, ◌+◌, ◌≤◌, ◌<◌, ◌≡◌, refl, ap, subst, Bool, true, false, ◌&&◌, some, List, [], ◌∷◌, arith,
  if◌then◌else◌, length, get_elem?, Bool-cases, inl, inr, ℤ, pos, ◌<ℤ◌, pos_part, neg_part,
}
use native.Mathlib.Nat.{add-zero, add-suc, suc-add}
use os_hw.Text.{Text, codes}
use os_hw.Server.Table.{KeyVal}
use os_hw.Client.Select.{responded, responses, selected, select_server}
use os_hw.Client.Select.Get.{select_server-get}
use os_hw.Client.Connect.{quorums_ok}

-- How many of the servers `i`, `i + 1`, ... of the list are in the set.
unfoldable pub members : (ℕ → Bool) → ℕ → List KeyVal → ℕ
members set i [] = 0
members set i (kv ∷ kvs) = (if set i then 1 else 0) + members set (suc i) kvs

-- Responders and a set that together are more than the servers have a server in common.
meet :
    (set : ℕ → Bool) (i : ℕ) (kvs : List KeyVal)
    → length kvs < responses kvs + members set i kvs
    → (j : ℕ) × (kv : KeyVal) × (get_elem? kvs j ≡ some kv)
      × (responded kv ≡ true)
      × (set (i + j) ≡ true)
unfolding members responses
meet set i [] h = absurd (omega arith)
meet set i (kv ∷ kvs) h = elim (Bool-cases (responded kv && set i)) [
  | inl both ↦ (0, kv, refl, ground arith, ground (arith, add-zero i))
  | inr apart ↦
      let (j, x, at, here, isin) = meet set (suc i) kvs (ground arith) in
      (suc j, x, at, here, rw (add-suc i j, ← suc-add i j) isin)
]

-- A write of `value` as version `vno` reached the servers of `set`: of the replies, those from
-- them give it, and all others give older versions.
pub record WroteTo (set : ℕ → Bool) (vno : ℤ) (value : Text) (kvs : List KeyVal) : Type 0 where
  pub fresh :
      (j : ℕ) (kv : KeyVal)
      → get_elem? kvs j ≡ some kv
      → responded kv ≡ true
      → set j ≡ true
      → (kv.vno ≡ vno) × (kv.value ≡ value)
  pub stale :
      (j : ℕ) (kv : KeyVal)
      → get_elem? kvs j ≡ some kv
      → responded kv ≡ true
      → set j ≡ false
      → kv.vno <ℤ vno

-- With quorums that `main` accepts: if of the answers to a GET those from a set of at least a write
-- quorum of servers give the version `vno` and the value of a write, all other answers give older
-- versions, and a read quorum answers, then the GET chooses a server that answered with the written
-- value. A server of another write that got the number `vno` too is not covered.
pub read_after_write :
    (nr nw vno : ℕ) (value : Text) (set : ℕ → Bool) (kvs : List KeyVal)
    → quorums_ok (length kvs) nr nw ≡ true
    → nw ≤ members set 0 kvs
    → WroteTo set (pos vno) value kvs
    → nr ≤ responses kvs
    → (i : ℕ) × (liars : List ℕ) × (kv : KeyVal) × (select_server nr nw (codes "GET") kvs
        ≡ selected i liars)
      × (get_elem? kvs i ≡ some kv)
      × (kv.value ≡ value)
unfolding quorums_ok
read_after_write nr nw vno value set kvs ok many wrote enough =
    let (j, x, at, here, isin) = meet set 0 kvs (ground arith) in
    let at_j : set j ≡ true = subst (λ n. set n ≡ true) (omega arith) isin in
    let (version, _) = wrote.fresh j x at here at_j in
    let (i, liars, chosen, choice) = select_server-get nr nw kvs j enough (x, at, ground arith) in
    let newest = choice.newest j x at (ground arith) in
    (
      i,
      liars,
      choice.reply,
      chosen,
      choice.at,
      elim (Bool-cases (set i)) [
        | inl new ↦ (wrote.fresh i choice.reply choice.at (ground (arith, choice.counts)) new).1
        | inr old ↦ absurd (
            omega (
              arith,
              wrote.stale i choice.reply choice.at (ground (arith, choice.counts)) old,
              ap pos_part version,
              ap neg_part version,
            ))
      ],
    )
