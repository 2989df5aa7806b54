-- ===== src/Server/Accept/Slots.antt =====
-- Where the connections of `tcpServer` of Server.c go, and the elements of `threadID` that it uses.
use os_hw.Prelude.{
  ℕ, suc, ◌+◌, ◌%◌, ◌≡◌, refl, sym, ap, ◌∙◌, Bool, true, false, Option, none, some, List, [], ◌∷◌,
  ◌++◌, append-nil, append_assoc, arith, if◌then◌else◌, length,
}
use os_hw.Server.Accept.{
  Round, Started, Listener, init_listener, max_parallel_connections, is_reply, next_slot, serve_fd,
  accept_fd, accept_round, accept_loop,
}

-- The connections that are to be answered, in order, each with whether its thread can be created.
unfoldable pub attempts : (below : ℕ → Bool) → List Round → List (ℕ × Bool)
attempts below [] = []
attempts below (r ∷ rs) =
    let rest = attempts below rs in
    elim r.new_fd [
      | none ↦ rest
      | some fd ↦ if below (r.rand % 1024) then (fd, r.creates) ∷ rest else rest
    ]

-- The connections that are not.
unfoldable pub ignored : (below : ℕ → Bool) → List Round → List ℕ
ignored below [] = []
ignored below (r ∷ rs) =
    let rest = ignored below rs in
    elim r.new_fd [ none ↦ rest | some fd ↦ if below (r.rand % 1024) then rest else fd ∷ rest ]

abbrev pub at_slot : (slot fd : ℕ) → Started
at_slot slot fd = record { slot = slot; fd = fd }

-- The threads that are created, if the first attempt has number `k`.
unfoldable pub threads : (k : ℕ) → List (ℕ × Bool) → List Started
threads k [] = []
threads k ((fd, true) ∷ more) = at_slot (k % max_parallel_connections) fd ∷ threads (suc k) more
threads k ((fd, false) ∷ more) = threads (suc k) more

-- The connections whose thread cannot be created.
unfoldable pub failures : List (ℕ × Bool) → List ℕ
failures [] = []
failures ((fd, true) ∷ more) = failures more
failures ((fd, false) ∷ more) = fd ∷ failures more

-- From the listener `l`, after `k` attempts, to the listener `z`.
abbrev Served : (below : ℕ → Bool) → List Round → ℕ → (l z : Listener) → Type 0
Served below rs k l z =
    (z.thread_count ≡ (k + length (attempts below rs)) % max_parallel_connections)
    × (z.started ≡ l.started ++ threads k (attempts below rs))
    × (z.dropped ≡ l.dropped ++ ignored below rs)
    × (z.left_open ≡ l.left_open ++ failures (attempts below rs))

snoc {ℓ} : {A : Type ℓ} (xs : List A) (x : A) (ys : List A) → (xs ++ x ∷ []) ++ ys ≡ xs ++ x ∷ ys
snoc xs x ys = append_assoc xs (x ∷ []) ys

-- One round more, in front of others.
module _ (below : ℕ → Bool) (rs : List Round)
    (ih : (k : ℕ) (l : Listener)
      → l.thread_count ≡ k % max_parallel_connections
      → Served below rs k l (accept_loop below rs l))
    (k : ℕ) (l : Listener) (at : l.thread_count ≡ k % max_parallel_connections) (x : ℕ) where
  Served-serve_fd :
      (fd : ℕ) (reply creates : Bool)
      → let tried = (if reply then (fd, creates) ∷ attempts below rs else attempts below rs) in
        let left = (if reply then ignored below rs else fd ∷ ignored below rs) in
        let z = accept_loop below rs (serve_fd reply creates fd l) in
        (z.thread_count ≡ (k + length tried) % max_parallel_connections)
        × (z.started ≡ l.started ++ threads k tried)
        × (z.dropped ≡ l.dropped ++ left)
        × (z.left_open ≡ l.left_open ++ failures tried)
  unfolding serve_fd threads failures
  Served-serve_fd fd false creates =
      let h = ih k (record l { dropped = l.dropped ++ fd ∷ [] }) at in
      (h.0, h.1, h.2 ∙ snoc l.dropped fd (ignored below rs), h.3)
  Served-serve_fd fd true true =
      let t = at_slot l.thread_count fd in
      let next : Listener = record l {
        thread_count = next_slot l.thread_count;
        started = l.started ++ t ∷ [];
      } in
      let h = ih (suc k) next (omega (arith, at)) in
      (
        h.0 ∙ omega arith,
        h.1
            ∙ snoc l.started t (threads (suc k) (attempts below rs))
            ∙ ap (λ n. l.started ++ at_slot n fd ∷ threads (suc k) (attempts below rs)) at,
        h.2,
        h.3,
      )
  Served-serve_fd fd true false =
      let next : Listener = record l {
        thread_count = next_slot l.thread_count;
        left_open = l.left_open ++ fd ∷ [];
      } in
      let h = ih (suc k) next (omega (arith, at)) in
      (h.0 ∙ omega arith, h.1, h.2, h.3 ∙ snoc l.left_open fd (failures (attempts below rs)))

  Served-round :
      (new_fd : Option ℕ) (creates : Bool)
      → let r : Round = record { new_fd = new_fd; rand = x; creates = creates } in
        Served below (r ∷ rs) k l (accept_loop below (r ∷ rs) l)
  unfolding accept_loop accept_round accept_fd is_reply attempts ignored
  Served-round none creates = ih k l at
  Served-round (some fd) creates = Served-serve_fd fd (below (x % 1024)) creates

accept_loop-Served :
    (below : ℕ → Bool) (rs : List Round) (k : ℕ) (l : Listener)
    → l.thread_count ≡ k % max_parallel_connections
    → Served below rs k l (accept_loop below rs l)
unfolding accept_loop attempts ignored threads failures
accept_loop-Served below [] k l at = (
  at ∙ omega arith,
  sym (append-nil l.started),
  sym (append-nil l.dropped),
  sym (append-nil l.left_open),
)
accept_loop-Served below (r ∷ rs) k l at =
    Served-round below rs (accept_loop-Served below rs) k l at r.rand r.new_fd r.creates

-- From the start, whatever the system answers: the connections for which `isReply` gives 1 are
-- attempted in order; the `k`-th attempt, from 0 on, has a thread at element `k` modulo the size of
-- `threadID` if the thread can be created, and its connection is left open if not; the other
-- connections are closed without an answer; and `threadCount` is the number of attempts modulo the
-- size.
pub accept_loop_serves :
    (below : ℕ → Bool) (rs : List Round)
    → let z = accept_loop below rs init_listener in
      (z.started ≡ threads 0 (attempts below rs))
      × (z.left_open ≡ failures (attempts below rs))
      × (z.dropped ≡ ignored below rs)
      × (z.thread_count ≡ length (attempts below rs) % max_parallel_connections)
accept_loop_serves below rs =
    let (count, started, dropped, left_open) = accept_loop-Served below rs 0 init_listener refl in
    (started, left_open, dropped, count ∙ omega arith)
