-- ===== src/Server/Exclusion/Race.antt =====
-- The test and the write of `lock` in `putResponse` of Server.c, with a step of its own for each:
-- the `lll_lock` around them stands in a comment.
use os_hw.Prelude.{
  ◌≡◌, refl, ◌&&◌, Bool, true, false, List, [], ◌∷◌, arith, ◌==◌, if◌then◌else◌, pos, eqb_ℤ,
}
use os_hw.Server.Table.{KeyVal, write_lock}

-- Where a thread stands: before the test, before the write, behind it, or turned away.
pub data Voter : Type 0 where
  at_test : Voter
  at_write : Voter
  voted : Voter
  refused : Voter

-- A step of a thread: the entry, and where the thread stands afterwards.
unfoldable pub vote_step : KeyVal → Voter → KeyVal × Voter
vote_step kv at_test =
    (kv, if kv.lock == 0 && eqb_ℤ kv.num_getters (pos 0) then at_write else refused)
vote_step kv at_write = (write_lock 1 kv, voted)
vote_step kv voted = (kv, voted)
vote_step kv refused = (kv, refused)

-- Two threads on one entry: `false` is a step of the first, `true` one of the second.
unfoldable pub vote_run : KeyVal → Voter → Voter → List Bool → KeyVal × (Voter × Voter)
vote_run kv a b [] = (kv, (a, b))
vote_run kv a b (false ∷ sch) = vote_run (vote_step kv a).0 (vote_step kv a).1 b sch
vote_run kv a b (true ∷ sch) = vote_run (vote_step kv b).0 a (vote_step kv b).1 sch

-- Once both have passed the test, or voted, neither is turned away.
abbrev pub IsIn : Voter → Type 0
IsIn at_test = ⊥
IsIn at_write = Unit
IsIn voted = Unit
IsIn refused = ⊥

vote_step-IsIn : (kv : KeyVal) (t : Voter) → IsIn t → IsIn (vote_step kv t).1
unfolding vote_step
vote_step-IsIn kv at_test h = absurd h
vote_step-IsIn kv at_write h = tt
vote_step-IsIn kv voted h = tt
vote_step-IsIn kv refused h = absurd h

vote_run-IsIn :
    (kv : KeyVal) (a b : Voter) (sch : List Bool)
    → IsIn a
    → IsIn b
    → IsIn (vote_run kv a b sch).1.0 × IsIn (vote_run kv a b sch).1.1
unfolding vote_run
vote_run-IsIn kv a b [] h k = (h, k)
vote_run-IsIn kv a b (false ∷ sch) h k =
    vote_run-IsIn (vote_step kv a).0 (vote_step kv a).1 b sch (vote_step-IsIn kv a h) k
vote_run-IsIn kv a b (true ∷ sch) h k =
    vote_run-IsIn (vote_step kv b).0 a (vote_step kv b).1 sch h (vote_step-IsIn kv b k)

vote_run-settled :
    (kv : KeyVal) (sch : List Bool) → vote_run kv voted refused sch ≡ (kv, (voted, refused))
unfolding vote_run vote_step
vote_run-settled kv [] = refl
vote_run-settled kv (false ∷ sch) = vote_run-settled kv sch
vote_run-settled kv (true ∷ sch) = vote_run-settled kv sch

test_free :
    (kv : KeyVal) → kv.lock ≡ 0 → kv.num_getters ≡ pos 0 → vote_step kv at_test ≡ (kv, at_write)
unfolding vote_step
test_free kv free idle = ground arith

both_test :
    (kv : KeyVal) (sch : List Bool)
    → kv.lock ≡ 0
    → kv.num_getters ≡ pos 0
    → vote_run kv at_test at_test (false ∷ true ∷ sch) ≡ vote_run kv at_write at_write sch
unfolding vote_run
both_test kv sch free idle = rw (vote_run, test_free kv free idle, test_free kv free idle)

second_fails :
    (kv : KeyVal) (sch : List Bool)
    → vote_run kv at_write at_test (false ∷ true ∷ sch)
      ≡ vote_run (write_lock 1 kv) voted refused sch
unfolding vote_run vote_step
second_fails kv sch = refl

first_writes :
    (kv : KeyVal) (sch : List Bool)
    → kv.lock ≡ 0
    → kv.num_getters ≡ pos 0
    → vote_run kv at_test at_test (false ∷ false ∷ true ∷ sch)
      ≡ vote_run (write_lock 1 kv) voted refused sch
unfolding vote_run
first_writes kv sch free idle = rw (vote_run, test_free kv free idle) (second_fails kv sch)

-- Two PUTs of a free entry: if the second tests the lock before the first writes it, then neither
-- is ever turned away, however they go on; if the first tests and writes undisturbed, the second
-- is turned away at its test and the first has voted.
pub vote_race :
    (kv : KeyVal) (sch : List Bool)
    → kv.lock ≡ 0
    → kv.num_getters ≡ pos 0
    → IsIn (vote_run kv at_test at_test (false ∷ true ∷ sch)).1.0
      × IsIn (vote_run kv at_test at_test (false ∷ true ∷ sch)).1.1
      × (vote_run kv at_test at_test (false ∷ false ∷ true ∷ sch)
          ≡ (write_lock 1 kv, (voted, refused)))
vote_race kv sch free idle =
    rw (both_test kv sch free idle, first_writes kv sch free idle)
      (
        (vote_run-IsIn kv at_write at_write sch tt tt).0,
        (vote_run-IsIn kv at_write at_write sch tt tt).1,
        vote_run-settled (write_lock 1 kv) sch,
      )
