-- ===== src/Client/Select.antt =====
-- `selectServer` of Client.c: which server's reply counts.
pub mod Replies
pub mod Put
pub mod Get
pub mod Passed
pub mod Members
pub mod PutLiars
pub mod GetLiars
use os_hw.Prelude.{
  ℕ, suc, ◌+◌, Bool, true, false, not, ◌&&◌, Option, none, some, List, [], ◌∷◌, ◌++◌, ltb, ◌==◌,
  if◌then◌else◌, get_or, ℤ, pos, minus_one, ltb_ℤ, leb_ℤ, eqb_ℤ,
}
use os_hw.Text.{Text, codes, text_eq}
use os_hw.Server.Table.{KeyVal}
use os_hw.Client.Tally.{Group, count, add_vote, best_group}

-- `keyVals_c[i].sock != -1`: server `i` answered.
abbrev pub responded : KeyVal → Bool
responded kv = not (eqb_ℤ kv.sock minus_one)

-- `nrnwCheck`
unfoldable pub responses : List KeyVal → ℕ
responses [] = 0
responses (kv ∷ kvs) = (if responded kv then 1 else 0) + responses kvs

-- The groups up to `index`, and `max`.
pub record GetTally : Type 0 where
  pub groups : List (Group Text)
  pub max : ℤ

-- One round of the loop for GET, at server `i`.
unfoldable pub get_round : ℕ → KeyVal → GetTally → GetTally
get_round i kv t =
    if responded kv && leb_ℤ (pos 0) kv.vno
    then if ltb_ℤ t.max kv.vno
      then record { groups = record { key = kv.value; idx = i ∷ [] } ∷ []; max = kv.vno }
      else if eqb_ℤ kv.vno t.max
      then record t { groups = add_vote text_eq kv.value i t.groups }
      else t
    else t

unfoldable pub get_loop : ℕ → List KeyVal → GetTally → GetTally
get_loop i [] t = t
get_loop i (kv ∷ kvs) t = get_loop (suc i) kvs (get_round i kv t)

-- One round of the loop for PUT.
unfoldable pub put_round : ℕ → KeyVal → List (Group ℤ) → List (Group ℤ)
put_round i kv gs = if responded kv then add_vote eqb_ℤ kv.vno i gs else gs

unfoldable pub put_loop : ℕ → List KeyVal → List (Group ℤ) → List (Group ℤ)
put_loop i [] gs = gs
put_loop i (kv ∷ kvs) gs = put_loop (suc i) kvs (put_round i kv gs)

-- The servers that are reported to have lied.
unfoldable pub get_liars : ℕ → List (Group Text) → List ℕ
get_liars ret_val [] = []
get_liars ret_val (g ∷ gs) = (if ltb (count g) ret_val then g.idx else []) ++ get_liars ret_val gs

unfoldable pub put_liars : ℕ → ℤ → List (Group ℤ) → List ℕ
put_liars ret_val max_vno [] = []
put_liars ret_val max_vno (g ∷ gs) =
    (if not (count g == ret_val) && ltb_ℤ max_vno g.key then g.idx else [])
    ++ put_liars ret_val max_vno gs

-- The two exits of the quorum check, a read at `hashMap[-1]`, or a server and the reported liars.
pub data Selection : Type 0 where
  lesser_read_quorum : Selection
  lesser_write_quorum : Selection
  bad_index : Selection
  selected : ℕ → List ℕ → Selection

module _ {K : Type 0} where
  -- `hashMap[retIndex].idx[0]`; a group that is chosen has a server.
  abbrev pub first_server : Group K → ℕ
  first_server g = get_or g.idx 0 0

-- Before the first server that counts, `hashMap[0]` is empty.
abbrev pub start_tally : GetTally
start_tally = record { groups = record { key = []; idx = [] } ∷ []; max = minus_one }

unfoldable pub select_get : List KeyVal → Selection
select_get kvs =
    let gs = (get_loop 0 kvs start_tally).groups in
    elim (best_group gs) [
      | none ↦ bad_index
      | some g ↦ selected (first_server g) (get_liars (count g) gs)
    ]

-- The last loops also visit `hashMap[index]`, whose `count` is 0.
unfoldable pub select_put : List KeyVal → Selection
select_put kvs =
    let gs = put_loop 0 kvs [] ++ record { key = pos 0; idx = [] } ∷ [] in
    elim (best_group gs) [
      | none ↦ bad_index
      | some g ↦ selected (first_server g) (put_liars (count g) g.key gs)
    ]

-- `selectServer`, for the message types with which `connectThread` calls it. `nr` and `nw` are the
-- globals `Nr` and `Nw`, and the replies are the `N` elements of `keyVals_c`.
unfoldable pub select_server : (nr nw : ℕ) → Text → List KeyVal → Selection
select_server nr nw msg_type kvs =
    if text_eq msg_type (codes "GET")
    then if ltb (responses kvs) nr then lesser_read_quorum else select_get kvs
    else if ltb (responses kvs) nw
    then lesser_write_quorum
    else select_put kvs
