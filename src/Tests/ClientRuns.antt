-- ===== src/Tests/ClientRuns.antt =====
-- Client.c on a few replies.
use os_hw.Prelude.{
  ℕ, zero, suc, ◌↔◌, ◌≡◌, refl, Bool, true, false, some, List, [], ◌∷◌, arith, ltb, ℤ, pos,
  minus_one, ◌≤ℤ◌, ◌<ℤ◌, get_elem?,
}
use os_hw.Text.{Text, codes, text_eq}
use os_hw.Client.Messages.{update_msg}
use os_hw.Server.Table.{KeyVal}
use os_hw.Client.Select.{
  responded, responses, selected, select_server, select_put, put_loop, put_round, put_liars,
}
use os_hw.Client.Select.Get
use os_hw.Client.Select.Get.{GetChoice, voted}
use os_hw.Client.Select.Put
use os_hw.Client.Select.Put.{PutChoice, has_version}
use os_hw.Client.Select.Replies.{count_if, Passes}
use os_hw.Client.Select.Passed.{contains}
use os_hw.Client.Select.PutLiars
use os_hw.Client.Select.PutLiars.{put_lied}
use os_hw.Client.Select.GetLiars
use os_hw.Client.Select.GetLiars.{get_lied}
use os_hw.Client.Tally.{add_vote, has_group, join_groups, best_group, best_from}
use os_hw.Client.Connect.{connect_thread, updating, targets, quorums_ok}
use os_hw.Client.Quorum
use os_hw.Client.Quorum.{members, WroteTo}
use os_hw.Client.Versions

-- A reply, and a server that did not answer.
abbrev answer : ℤ → Text → KeyVal
answer vno value = record {
  key = codes "k";
  value = value;
  sock = pos 5;
  vno = vno;
  lock = 0;
  num_getters = pos 0;
  cond_wait_lock = 0;
}

abbrev silent : KeyVal
silent = record (answer (pos 0) []) { sock = minus_one }

abbrev old_value : Text
old_value = codes "old"

abbrev new_value : Text
new_value = codes "new"

-- The write of version 2 reached servers 0 and 1; server 1 does not answer now.
abbrev three : List KeyVal
three = answer (pos 2) new_value ∷ silent ∷ answer (pos 1) old_value ∷ []

abbrev first_two : ℕ → Bool
first_two i = ltb i 2

three-fresh :
    (j : ℕ) (kv : KeyVal)
    → get_elem? three j ≡ some kv
    → responded kv ≡ true
    → first_two j ≡ true
    → (kv.vno ≡ pos 2) × (kv.value ≡ new_value)
three-fresh zero kv e h m = ground arith
three-fresh (suc zero) kv e h m = ground arith
three-fresh (suc (suc zero)) kv e h m = ground arith
three-fresh (suc (suc (suc j))) kv e h m = ground arith

three-stale :
    (j : ℕ) (kv : KeyVal)
    → get_elem? three j ≡ some kv
    → responded kv ≡ true
    → first_two j ≡ false
    → kv.vno <ℤ pos 2
three-stale zero kv e h m = ground arith
three-stale (suc zero) kv e h m = ground arith
three-stale (suc (suc zero)) kv e h m = ground arith
three-stale (suc (suc (suc j))) kv e h m = ground arith

read_after_write_example :
    (i : ℕ) × (liars : List ℕ) × (kv : KeyVal) × (select_server 2 2 (codes "GET") three
      ≡ selected i liars)
    × (get_elem? three i ≡ some kv)
    × (kv.value ≡ new_value)
unfolding quorums_ok members responses
read_after_write_example =
    Quorum.read_after_write 2 2 2 new_value first_two three refl (omega arith)
      (record { fresh = three-fresh; stale = three-stale }) (omega arith)

select_server-get_example :
    (i : ℕ) × (liars : List ℕ) × (select_server 2 2 (codes "GET") three ≡ selected i liars)
    × GetChoice three i
unfolding responses
select_server-get_example =
    Get.select_server-get 2 2 three 0 (omega arith) (answer (pos 2) new_value, refl, refl)

-- Version 2 is at servers 0, 1 and 2; servers 3 and 4 missed it; 0 and 1 do not answer now.
abbrev five : List KeyVal
five =
    silent
    ∷ silent
    ∷ answer (pos 2) new_value
    ∷ answer (pos 1) old_value
    ∷ answer (pos 1) old_value
    ∷ []

select_server-put_example :
    (i : ℕ) × (liars : List ℕ) × (select_server 3 3 (codes "PUT") five ≡ selected i liars)
    × PutChoice five i
unfolding responses
select_server-put_example = Put.select_server-put 3 3 five (omega arith) (omega arith)

five-UpTo : Versions.UpTo (pos 2) five
five-UpTo zero kv e h = ground arith
five-UpTo (suc zero) kv e h = ground arith
five-UpTo (suc (suc zero)) kv e h = ground arith
five-UpTo (suc (suc (suc zero))) kv e h = ground arith
five-UpTo (suc (suc (suc (suc zero)))) kv e h = ground arith
five-UpTo (suc (suc (suc (suc (suc j))))) kv e h = ground arith

put_stale_version_example :
    (n : ℤ) × (connect_thread 3 3 3 (codes "PUT") (codes "k") (codes "x") five
      ≡ updating n (update_msg (codes "k") (codes "x") n) (targets 0 five))
    × (n ≤ℤ pos 2)
unfolding responses count_if
put_stale_version_example =
    Versions.put_stale_version 3 3 3 (codes "k") (codes "x") five (pos 2) (pos 1)
      (omega arith, omega arith, omega arith) five-UpTo (omega arith)

-- The server with version 2 is up to date, and is reported.
select_server-put_liars_example :
    (i : ℕ) × (liars : List ℕ) × (reply : KeyVal) × (select_server 3 3 (codes "PUT") five
      ≡ selected i liars)
    × (get_elem? five i ≡ some reply)
    × ((k : ℕ) → (contains k liars ≡ true) ↔ Passes (put_lied five reply) five k)
unfolding responses
select_server-put_liars_example =
    PutLiars.select_server-put_liars 3 3 five (omega arith) (omega arith)

up_to_date_reported : select_server 3 3 (codes "PUT") five ≡ selected 3 (2 ∷ [])
unfolding select_server select_put responses put_loop put_round put_liars add_vote has_group
    join_groups best_group best_from text_eq
up_to_date_reported = refl

-- Server 2 has another value at the version.
abbrev one_differs : List KeyVal
one_differs = answer (pos 2) new_value ∷ answer (pos 2) new_value ∷ answer (pos 2) old_value ∷ []

select_server-get_liars_example :
    (i : ℕ) × (liars : List ℕ) × (reply : KeyVal) × (select_server 2 2 (codes "GET") one_differs
      ≡ selected i liars)
    × (get_elem? one_differs i ≡ some reply)
    × ((k : ℕ) → (contains k liars ≡ true) ↔ Passes (get_lied one_differs reply) one_differs k)
unfolding responses
select_server-get_liars_example =
    GetLiars.select_server-get_liars 2 2 one_differs 0 (omega arith)
      (answer (pos 2) new_value, refl, refl)
