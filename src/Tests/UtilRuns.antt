-- ===== src/Tests/UtilRuns.antt =====
-- Util.c on three threads.
use os_hw.Prelude.{ℕ, ◌≡◌, refl, some, List, [], ◌∷◌, get_elem?, replicate, pos, ◌+ℤ◌, inl}
use os_hw.Util.{
  AtomicThread, swapping, returned, atomic_incr, atomic_decr, atomic_step, LockThread, outside,
  spinning, grabbing, lock_step, Shared, run, turn, compare_and_swap,
}
use os_hw.Util.Counter
use os_hw.Util.Counter.{added}
use os_hw.Util.Lock
use os_hw.Util.Lock.{IsExclusive, holders}

abbrev counting : Shared AtomicThread
counting = record { var = pos 5; threads = atomic_incr ∷ atomic_decr ∷ atomic_incr ∷ [] }

-- Both increments read 5; the second one is late, and tries again. The decrement waits.
abbrev late : List ℕ
late = 0 ∷ 2 ∷ 0 ∷ 2 ∷ 2 ∷ 2 ∷ []

both_counted : (run atomic_step late counting).var ≡ pos 7
unfolding run turn atomic_step compare_and_swap ◌+ℤ◌
both_counted = refl

run_no_lost_update_example :
    (run atomic_step late counting).var +ℤ added counting.threads
    ≡ pos 5 +ℤ added (run atomic_step late counting).threads
run_no_lost_update_example = Counter.run_no_lost_update late counting

-- A thread whose `compare_and_swap` will fail.
abbrev stale : Shared AtomicThread
stale = record { var = pos 6; threads = swapping (pos 1) (pos 5) ∷ atomic_decr ∷ [] }

atomic_returns_example :
    (get_elem? (run atomic_step (replicate 3 0) stale).threads 0 ≡ some (returned (pos 1)))
    × ((run atomic_step (replicate 3 0) stale).var ≡ pos 6 +ℤ pos 1)
atomic_returns_example = Counter.atomic_returns 0 stale (swapping (pos 1) (pos 5)) refl

abbrev unlocked : Shared LockThread
unlocked = record { var = pos 1; threads = outside ∷ spinning ∷ grabbing ∷ [] }

run-IsExclusive_example : IsExclusive (run lock_step (0 ∷ 1 ∷ 0 ∷ 2 ∷ 1 ∷ 0 ∷ 2 ∷ 1 ∷ []) unlocked)
unfolding holders
run-IsExclusive_example =
    Lock.run-IsExclusive (0 ∷ 1 ∷ 0 ∷ 2 ∷ 1 ∷ 0 ∷ 2 ∷ 1 ∷ []) unlocked (inl (refl, refl))
