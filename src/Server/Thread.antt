-- ===== src/Server/Thread.antt =====
-- `serverThread` of Server.c, and the server as its threads run it: each takes its connection from
-- one receive to the next, in any order.
use os_hw.Prelude.{ℕ, ◌≡◌, Option, none, some, List, [], ◌∷◌, ◌++◌, if◌then◌else◌, ◌==◌}
use os_hw.Text.{Text}
use os_hw.Server.Table.{Server}
use os_hw.Server.Handlers.{
  Locals, Thread, accepted, await_update, await_release, closed, crashed, Outcome, put_on_update,
  put_on_release, response_server,
}

-- What a thread does with what it receives: `none` if the receive fails or times out. The locals
-- that it finds on its stack are `l` and `junk`.
unfoldable pub server_thread : Locals → Locals → Server → Thread → Option Text → Outcome
server_thread l junk s accepted none = record { server = s; sent = []; thread = closed }
server_thread l junk s accepted (some msg) = response_server s l junk msg
server_thread l junk s (await_update key i r) m = put_on_update s key i r m
server_thread l junk s (await_release key r) m = put_on_release s key r m
server_thread l junk s closed m = record { server = s; sent = []; thread = closed }
server_thread l junk s crashed m = record { server = s; sent = []; thread = crashed }

-- One connection that no other interrupts: the last state, all that was sent, and the thread.
unfoldable pub session : Locals → Locals → Server → Thread → List (Option Text) → Outcome
session l junk s t [] = record { server = s; sent = []; thread = t }
session l junk s t (m ∷ ms) =
    let o = server_thread l junk s t m in
    let rest = session l junk o.server o.thread ms in record rest { sent = o.sent ++ rest.sent }

-- The first receive, and the rest.
pub session-cons :
    (l junk : Locals) (s : Server) (t : Thread) (m : Option Text) (ms : List (Option Text))
    {o : Outcome}
    → server_thread l junk s t m ≡ o
    → session l junk s t (m ∷ ms) ≡ record (session l junk o.server o.thread ms) {
      sent = o.sent ++ (session l junk o.server o.thread ms).sent;
    }
unfolding session
session-cons l junk s t m ms e = rw e

-- All connections: thread `i` of the family receives `m`.
pub record System : Type 0 where
  pub server : Server
  pub thread : ℕ → Thread

-- A thread goes from one receive to the next before another goes on. So the count of readers that
-- `getResponse` raises and lowers again is never seen raised, and the races of `numGetters++`, of
-- `atomicDecr` and of the test in `putResponse` are not in these steps.
pub data Step (l junk : Locals) (y : System) : System → Type 0 where
  receive :
      (i : ℕ) (m : Option Text) {o : Outcome}
      → server_thread l junk y.server (y.thread i) m ≡ o
      → Step l junk y
          (record { server = o.server; thread = λ j. if i == j then o.thread else y.thread j })

pub data Reach (l junk : Locals) (y : System) : System → Type 0 where
  here : Reach l junk y y
  next : {u v : System} → Reach l junk y u → Step l junk u v → Reach l junk y v
