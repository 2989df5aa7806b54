-- ===== src/Util/Lock.antt =====
-- The spin lock of Util.c in every interleaving: mutual exclusion, and a free lock can be taken.
use os_hw.Prelude.{
  ℕ, zero, suc, ◌+◌, ◌≤◌, ◌≡◌, refl, some, List, [], ◌∷◌, ◌⊎◌, arith, get_elem?, modify, replicate,
  ℤ, pos, Option-cases, inl, inr,
}
use os_hw.Util.{
  LockThread, spinning, grabbing, holding, outside, compare_and_swap, lock_step, Shared, turn, run,
}
use os_hw.Util.Solo.{solo, run_alone}

abbrev pub holds : LockThread → ℕ
holds holding = 1
holds spinning = 0
holds grabbing = 0
holds outside = 0

-- How many threads are between `lll_lock` and `lll_unlock`.
unfoldable pub holders : List LockThread → ℕ
holders [] = 0
holders (t ∷ ts) = holds t + holders ts

-- The lock is free and nobody holds it, or it is taken and one thread holds it.
abbrev pub IsExclusive : Shared LockThread → Type 0
IsExclusive s =
    ((s.var ≡ pos 1) × (holders s.threads ≡ 0)) ⊎ ((s.var ≡ pos 0) × (holders s.threads ≡ 1))

holders-modify :
    (ts : List LockThread) (i : ℕ) (t t' : LockThread)
    → get_elem? ts i ≡ some t
    → holders (modify ts i (λ _. t')) + holds t ≡ holders ts + holds t'
unfolding holders
holders-modify [] i t t' h = cc
holders-modify (x ∷ ts) zero t t' h = ground arith
holders-modify (x ∷ ts) (suc i) t t' h = omega (arith, holders-modify ts i t t' h)

lock_step-IsExclusive :
    (v : ℤ) (t : LockThread) (n m : ℕ)
    → m + holds t ≡ n + holds (lock_step v t).1
    → holds t ≤ n
    → ((v ≡ pos 1) × (n ≡ 0)) ⊎ ((v ≡ pos 0) × (n ≡ 1))
    → (((lock_step v t).0 ≡ pos 1) × (m ≡ 0)) ⊎ (((lock_step v t).0 ≡ pos 0) × (m ≡ 1))
unfolding lock_step compare_and_swap
lock_step-IsExclusive v spinning n m h k e = ground arith
lock_step-IsExclusive v grabbing n m h k e = ground arith
lock_step-IsExclusive v holding n m h k e = ground arith
lock_step-IsExclusive v outside n m h k e = ground arith

holds-holders :
    (ts : List LockThread) (i : ℕ) (t : LockThread) → get_elem? ts i ≡ some t → holds t ≤ holders ts
unfolding holders
holds-holders [] i t h = cc
holds-holders (x ∷ ts) zero t h = ground arith
holds-holders (x ∷ ts) (suc i) t h = omega (arith, holds-holders ts i t h)

turn-IsExclusive :
    (i : ℕ) (s : Shared LockThread) → IsExclusive s → IsExclusive (turn lock_step i s)
unfolding turn
turn-IsExclusive i s h = elim (Option-cases (get_elem? s.threads i)) [
  | inl gone ↦ rw (turn, gone) h
  | inr (t, there) ↦
      let t' = (lock_step s.var t).1 in
      rw (turn, there)
        (lock_step-IsExclusive s.var t (holders s.threads) (holders (modify s.threads i (λ _. t')))
          (holders-modify s.threads i t t' there) (holds-holders s.threads i t there) h)
]

-- However the threads that use a lock are interleaved, the lock is free and no thread holds it, or
-- it is taken and exactly one thread is between its `lll_lock` and its `lll_unlock`.
pub run-IsExclusive :
    (is : List ℕ) (s : Shared LockThread) → IsExclusive s → IsExclusive (run lock_step is s)
unfolding run
run-IsExclusive [] s h = h
run-IsExclusive (i ∷ is) s h = run-IsExclusive is (turn lock_step i s) (turn-IsExclusive i s h)

-- How many steps a thread is away from the lock.
abbrev pub steps_left : LockThread → ℕ
steps_left outside = 3
steps_left spinning = 2
steps_left grabbing = 1
steps_left holding = 0

solo_lock : (v : ℤ) (t : LockThread) → v ≡ pos 1 → (solo lock_step (steps_left t) v t).1 ≡ holding
unfolding solo lock_step compare_and_swap
solo_lock v spinning h = rw h
solo_lock v grabbing h = rw h
solo_lock v holding h = refl
solo_lock v outside h = rw h

-- If the lock is free, a thread that is not disturbed holds it after at most three steps.
pub lock_taken :
    (i : ℕ) (s : Shared LockThread) (t : LockThread)
    → get_elem? s.threads i ≡ some t
    → s.var ≡ pos 1
    → get_elem? (run lock_step (replicate (steps_left t) i) s).threads i ≡ some holding
lock_taken i s t h free =
    rw ((run_alone lock_step (steps_left t) i s t h).0, solo_lock s.var t free)
