-- ===== src/Server/Accept.antt =====
-- The loop of `tcpServer` and `isReply` of Server.c, from the point where the socket listens: which
-- connections get a thread, and where its identity is stored.
pub mod Slots
use os_hw.Prelude.{ℕ, suc, ◌+◌, ◌%◌, Bool, true, false, Option, none, some, List, [], ◌∷◌, ◌++◌}

-- MAX_PARALLEL_CONNECTIONS
abbrev pub max_parallel_connections : ℕ
max_parallel_connections = 100

-- One round: what `accept` returns, `none` for -1, what `rand` returns, and whether
-- `pthread_create` succeeds. The last two are read only if the round gets so far.
pub record Round : Type 0 where
  pub new_fd : Option ℕ
  pub rand : ℕ
  pub creates : Bool

-- A thread: its place in `threadID`, and its socket.
pub record Started : Type 0 where
  pub slot : ℕ
  pub fd : ℕ

-- `threadCount`, the threads that were started, the sockets that were closed without an answer, and
-- those that were left open for want of a thread, each in order.
pub record Listener : Type 0 where
  pub thread_count : ℕ
  pub started : List Started
  pub dropped : List ℕ
  pub left_open : List ℕ

abbrev pub init_listener : Listener
init_listener = record { thread_count = 0; started = []; dropped = []; left_open = [] }

-- `isReply`: `below x` is `x / 1024.0 < replyProbability`.
unfoldable pub is_reply : (below : ℕ → Bool) → (rand : ℕ) → Bool
is_reply below rand = below (rand % 1024)

abbrev pub next_slot : ℕ → ℕ
next_slot n = (n + 1) % max_parallel_connections

-- What becomes of a connection, from what `isReply` gives and whether the thread is created.
unfoldable pub serve_fd : (reply creates : Bool) → ℕ → Listener → Listener
serve_fd false creates fd l = record l { dropped = l.dropped ++ fd ∷ [] }
serve_fd true true fd l = record l {
  thread_count = next_slot l.thread_count;
  started = l.started ++ record { slot = l.thread_count; fd = fd } ∷ [];
}
serve_fd true false fd l = record l {
  thread_count = next_slot l.thread_count;
  left_open = l.left_open ++ fd ∷ [];
}

unfoldable pub accept_fd : (below : ℕ → Bool) → Round → ℕ → Listener → Listener
accept_fd below r fd l = serve_fd (is_reply below r.rand) r.creates fd l

unfoldable pub accept_round : (below : ℕ → Bool) → Round → Listener → Listener
accept_round below r l = elim r.new_fd [ none ↦ l | some fd ↦ accept_fd below r fd l ]

unfoldable pub accept_loop : (below : ℕ → Bool) → List Round → Listener → Listener
accept_loop below [] l = l
accept_loop below (r ∷ rs) l = accept_loop below rs (accept_round below r l)
