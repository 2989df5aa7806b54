-- ===== src/Tcpclient.antt =====
-- tcpclient.c: what is typed goes to a server, and what comes back is printed. What is typed and
-- what the server sends are arguments.
pub mod Quit
use os_hw.Prelude.{
  ℕ, ◌+◌, Bool, true, false, not, ◌||◌, Option, none, some, List, [], ◌∷◌, ◌++◌, ltb, if◌then◌else◌,
  length,
}
use os_hw.Text.{Text, codes, text_eq}

-- "q" or "Q"
abbrev pub is_quit : Text → Bool
is_quit s = text_eq s (codes "q") || text_eq s (codes "Q")

-- The socket, what was sent on it, and what was printed.
pub record Chat : Type 0 where
  pub is_open : Bool
  pub sent : List Text
  pub printed : List Text

-- One round has what `gets` reads, and what an open socket receives: an error, or some bytes.
pub record Round : Type 0 where
  pub typed : Text
  pub received : Option Text

-- The chat waits for more input, or has written outside of `send_data` or `recv_data`.
pub data Ended : Type 0 where
  waiting : Chat → Ended
  out_of_bounds : Chat → Ended

-- `send` does nothing on a closed socket.
unfoldable pub send_line : Text → Chat → Chat
send_line typed c = if c.is_open then record c { sent = c.sent ++ typed ∷ [] } else c

-- The test of what was typed.
unfoldable pub after_typed : Text → Chat → Chat
after_typed typed c =
    if is_quit typed then record (send_line typed c) { is_open = false } else send_line typed c

-- `recv` fails on a closed socket.
abbrev pub recv : Chat → Round → Option Text
recv c r = if c.is_open then r.received else none

-- The byte behind what was received is cleared: `recv_data[-1]` after an error.
unfoldable pub after_received : Option Text → Chat → Ended
after_received none c = out_of_bounds c
after_received (some data') c =
    if ltb 1023 (length data')
    then out_of_bounds c
    else if is_quit data'
    then waiting (record c { is_open = false })
    else waiting (record c { printed = c.printed ++ data' ∷ [] })

-- The body of the loop.
unfoldable pub chat_round : Round → Chat → Ended
chat_round r c =
    let c' = after_typed r.typed c in
    if ltb 1023 (length r.typed) then out_of_bounds c else after_received (recv c' r) c'

-- The loop, which nothing ends.
unfoldable pub chat_loop : List Round → Ended → Ended
chat_loop [] e = e
chat_loop (r ∷ rs) (out_of_bounds c) = out_of_bounds c
chat_loop (r ∷ rs) (waiting c) = chat_loop rs (chat_round r c)

-- The ends of `main`.
pub data Outcome : Type 0 where
  exited : ℕ → Outcome
  chatted : Ended → Outcome

abbrev pub new_chat : Chat
new_chat = record { is_open = true; sent = []; printed = [] }

-- `main`, by whether `socket` and `connect` succeed.
unfoldable pub main : (socket connect : Bool) → List Round → Outcome
main socket connect rs =
    let ended = chat_loop rs (waiting new_chat) in
    if not socket then exited 1 else if not connect then exited 1 else chatted ended
