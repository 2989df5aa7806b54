-- ===== src/Util/Counter.antt =====
-- The counters of Util.c in every interleaving: no update is lost, and a thread that is not
-- disturbed returns.
use os_hw.Prelude.{
  ℕ, zero, suc, ◌+◌, ◌≡◌, refl, ap, ◌∙◌, some, List, [], ◌∷◌, arith, get_elem?, get_or_of_get_elem?,
  subst, modify, replicate, ℤ, pos, pos_part, neg_part, ◌+ℤ◌, +ℤ_parts, eq_of_parts, Option-cases,
  inl, inr,
}
use os_hw.Util.{
  AtomicThread, reading, swapping, returned, compare_and_swap, atomic_step, Shared, turn, run,
}
use os_hw.Util.Solo.{solo, run_alone}

-- What a thread has to add, and what it has added.
abbrev pub delta : AtomicThread → ℤ
delta (reading d) = d
delta (swapping d tmp) = d
delta (returned d) = d

abbrev pub done : AtomicThread → ℤ
done (reading d) = pos 0
done (swapping d tmp) = pos 0
done (returned d) = d

unfoldable pub added : List AtomicThread → ℤ
added [] = pos 0
added (t ∷ ts) = done t +ℤ added ts

-- a + b = c + d
abbrev SameSum : (a b c d : ℤ) → Type 0
SameSum a b c d =
    pos_part a + pos_part b + neg_part c + neg_part d
    ≡ pos_part c + pos_part d + neg_part a + neg_part b

atomic_step-SameSum :
    (v : ℤ) (t : AtomicThread) → SameSum (atomic_step v t).0 (done t) v (done (atomic_step v t).1)
unfolding atomic_step compare_and_swap
atomic_step-SameSum v (reading d) = refl
atomic_step-SameSum v (swapping d tmp) = ground (arith, +ℤ_parts tmp d)
atomic_step-SameSum v (returned d) = refl

added-modify :
    (ts : List AtomicThread) (i : ℕ) (t t' : AtomicThread)
    → get_elem? ts i ≡ some t
    → SameSum (added (modify ts i (λ _. t'))) (done t) (added ts) (done t')
unfolding added
added-modify [] i t t' h = cc
added-modify (x ∷ ts) zero t t' h =
    subst (λ y. SameSum (added (t' ∷ ts)) (done y) (added (x ∷ ts)) (done t'))
      (get_or_of_get_elem? (x ∷ ts) 0 x h)
      (omega (arith, +ℤ_parts (done t') (added ts), +ℤ_parts (done x) (added ts)))
added-modify (x ∷ ts) (suc i) t t' h = omega (
  arith,
  added-modify ts i t t' h,
  +ℤ_parts (done x) (added ts),
  +ℤ_parts (done x) (added (modify ts i (λ _. t'))),
)

turn-SameSum :
    (i : ℕ) (s : Shared AtomicThread)
    → SameSum
        (turn atomic_step i s).var
        (added s.threads)
        s.var
        (added (turn atomic_step i s).threads)
unfolding turn
turn-SameSum i s = elim (Option-cases (get_elem? s.threads i)) [
  | inl gone ↦ rw (turn, gone) refl
  | inr (t, there) ↦
      let t' = (atomic_step s.var t).1 in
      rw (turn, there)
        (omega (arith, atomic_step-SameSum s.var t, added-modify s.threads i t t' there))
]

run-SameSum :
    (is : List ℕ) (s : Shared AtomicThread)
    → SameSum
        (run atomic_step is s).var
        (added s.threads)
        s.var
        (added (run atomic_step is s).threads)
unfolding run
run-SameSum [] s = refl
run-SameSum (i ∷ is) s = omega (arith, turn-SameSum i s, run-SameSum is (turn atomic_step i s))

-- Threads in `atomicIncr` and `atomicDecr` that run in any order, from any point on: the variable
-- moves by what the threads that have returned since have added, and by nothing else.
pub run_no_lost_update :
    (is : List ℕ) (s : Shared AtomicThread)
    → (run atomic_step is s).var +ℤ added s.threads ≡ s.var +ℤ added (run atomic_step is s).threads
run_no_lost_update is s =
    let z = run atomic_step is s in
    eq_of_parts (z.var +ℤ added s.threads) (s.var +ℤ added z.threads) (
      omega (
        arith,
        run-SameSum is s,
        +ℤ_parts z.var (added s.threads),
        +ℤ_parts s.var (added z.threads),
      ))

-- What a thread has still to add.
abbrev pub pending : AtomicThread → ℤ
pending (reading d) = d
pending (swapping d tmp) = d
pending (returned d) = pos 0

solo_returns : (v : ℤ) (t : AtomicThread) → (solo atomic_step 3 v t).1 ≡ returned (delta t)
unfolding solo atomic_step compare_and_swap
solo_returns v (reading d) = ground arith
solo_returns v (swapping d tmp) = ground arith
solo_returns v (returned d) = refl

solo-SameSum :
    (n : ℕ) (v : ℤ) (t : AtomicThread)
    → SameSum (solo atomic_step n v t).0 (done t) v (done (solo atomic_step n v t).1)
unfolding solo
solo-SameSum zero v t = refl
solo-SameSum (suc n) v t =
    omega (arith, atomic_step-SameSum v t, solo-SameSum n (atomic_step v t).0 (atomic_step v t).1)

pending_lem : (x v : ℤ) (t : AtomicThread) → SameSum x (done t) v (delta t) → x ≡ v +ℤ pending t
pending_lem x v (reading d) h = eq_of_parts x (v +ℤ d) (omega (arith, +ℤ_parts v d))
pending_lem x v (swapping d tmp) h = eq_of_parts x (v +ℤ d) (omega (arith, +ℤ_parts v d))
pending_lem x v (returned d) h = eq_of_parts x (v +ℤ pos 0) (omega (arith, +ℤ_parts v (pos 0)))

-- Whatever the others did before, a thread in `atomicIncr` or `atomicDecr` that makes three steps
-- undisturbed has returned; if it had not returned before, the variable has moved by just what the
-- thread had to add, and else it has not moved, also if the thread's first `compare_and_swap` comes
-- too late and fails.
pub atomic_returns :
    (i : ℕ) (s : Shared AtomicThread) (t : AtomicThread)
    → get_elem? s.threads i ≡ some t
    → (get_elem? (run atomic_step (replicate 3 i) s).threads i ≡ some (returned (delta t)))
      × ((run atomic_step (replicate 3 i) s).var ≡ s.var +ℤ pending t)
atomic_returns i s t h =
    let (there, moved) = run_alone atomic_step 3 i s t h in
    let back = solo_returns s.var t in
    let sum =
      subst (λ u. SameSum (solo atomic_step 3 s.var t).0 (done t) s.var (done u)) back
        (solo-SameSum 3 s.var t) in
    (there ∙ ap some back, moved ∙ pending_lem (solo atomic_step 3 s.var t).0 s.var t sum)
