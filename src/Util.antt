-- ===== src/Util.antt =====
-- Util.c and myatomic.h: the atomic counters and the spin lock, as steps of threads that share one
-- `int`.
pub mod Solo
pub mod Counter
pub mod Lock
pub mod Receive
pub mod Itoa
use os_hw.Prelude.{
  ℕ, Option, none, some, List, [], ◌∷◌, if◌then◌else◌, get_elem?, modify, ℤ, pos, minus_one, ◌+ℤ◌,
  eqb_ℤ,
}

-- `compare_and_swap`: the new content of the memory, and the old one, which it returns.
unfoldable pub compare_and_swap : (mem newval oldval : ℤ) → ℤ × ℤ
compare_and_swap mem newval oldval = (if eqb_ℤ mem oldval then newval else mem, mem)

-- A thread in `atomicIncr` or `atomicDecr`, which add `d`: before it reads `*var`, before its
-- `compare_and_swap`, and back. The first of the two reads of `atomicIncr` is not used.
pub data AtomicThread : Type 0 where
  reading : ℤ → AtomicThread
  swapping : (d tmp : ℤ) → AtomicThread
  returned : ℤ → AtomicThread

abbrev pub atomic_incr : AtomicThread
atomic_incr = reading (pos 1)

abbrev pub atomic_decr : AtomicThread
atomic_decr = reading minus_one

unfoldable pub atomic_step : ℤ → AtomicThread → ℤ × AtomicThread
atomic_step var (reading d) = (var, swapping d var)
atomic_step var (swapping d tmp) =
    let (var', old) = compare_and_swap var (tmp +ℤ d) tmp in
    (var', if eqb_ℤ old tmp then returned d else reading d)
atomic_step var (returned d) = (var, returned d)

-- A thread that calls `lll_lock` and `lll_unlock` in turn: in the inner loop, before its
-- `compare_and_swap`, between the two calls, and before the next `lll_lock`.
pub data LockThread : Type 0 where
  spinning : LockThread
  grabbing : LockThread
  holding : LockThread
  outside : LockThread

unfoldable pub lock_step : ℤ → LockThread → ℤ × LockThread
lock_step lll_val spinning = (lll_val, if eqb_ℤ lll_val (pos 1) then grabbing else spinning)
lock_step lll_val grabbing =
    let (lll_val', old) = compare_and_swap lll_val (pos 0) (pos 1) in
    (lll_val', if eqb_ℤ old (pos 0) then spinning else holding)
lock_step lll_val holding = (pos 1, outside)
lock_step lll_val outside = (lll_val, spinning)

-- Threads that share an `int`.
pub record Shared (T : Type 0) : Type 0 where
  pub var : ℤ
  pub threads : List T

module _ {T : Type 0} (step : ℤ → T → ℤ × T) where
  -- Thread `i` makes a step.
  unfoldable pub turn : ℕ → Shared T → Shared T
  turn i s = elim (get_elem? s.threads i) [
    | none ↦ s
    | some t ↦ record {
      var = (step s.var t).0;
      threads = modify s.threads i (λ _. (step s.var t).1);
    }
  ]

  -- The threads make steps in the order of a list.
  unfoldable pub run : List ℕ → Shared T → Shared T
  run [] s = s
  run (i ∷ is) s = run is (turn i s)
