-- ===== src/Tests/ExclusionRuns.antt =====
-- Two writers of one key, at Server.c on the table that `main` sets up, and two readers of an entry.
use os_hw.Prelude.{
  [], true, false, ◌∷◌, some, [], ◌≡◌, refl, arith, ◌==◌, if◌then◌else◌, pos, minus_one, inr,
}
use os_hw.Text.{Text, codes, text_eq, words, is_space}
use os_hw.Client.Messages.{put_msg}
use os_hw.Server.Table.{init_server, init_key_val, write_lock, search_key}
use os_hw.Server.Handlers.{
  Locals, Outcome, accepted, closed, first_vote, response_server, scan_request, put_response,
  put_lock,
}
use os_hw.Server.Thread.{server_thread, System}
use os_hw.Server.Exclusion.{held}
use os_hw.Server.Exclusion.NewKey
use os_hw.Server.Exclusion.NewKey.{earlier, later}
use os_hw.Server.Exclusion.Race
use os_hw.Server.Exclusion.Race.{vote_run, IsIn, at_test, voted, refused}
use os_hw.Server.Exclusion.Runs
use os_hw.Server.Exclusion.Runs.{Exclusive, PoliteReach, here, next, receive}

-- What a run computes with.
program : Unit {0}
unfolding search_key text_eq is_space
program = tt

abbrev junk : Locals
junk = record { msg_type = []; key = []; value = []; vno = minus_one }

abbrev start : System
start = record { server = init_server (pos 0); thread = λ n. accepted }

abbrev key1 : Text
key1 = codes "key1"

abbrev v2 : Text
v2 = codes "v2"

abbrev first : Outcome
first = server_thread junk junk start.server accepted (some (put_msg key1 v2))

abbrev one_writer : System
one_writer = record {
  server = first.server;
  thread = λ n. if 0 == n then first.thread else accepted;
}

abbrev second : Outcome
second = server_thread junk junk first.server accepted (some (put_msg key1 v2))

abbrev two_writers : System
two_writers = record {
  server = second.server;
  thread = λ n. if 1 == n then second.thread else one_writer.thread n;
}

start-Exclusive : Exclusive start
start-Exclusive = record { holds = λ n. tt; alone = λ n j k has has'. cc has }

two_puts : PoliteReach junk junk start two_writers
unfolding program server_thread response_server scan_request words put_response put_lock
two_puts =
    next
      (next here (
        receive 0 (some (put_msg key1 v2))
          (inr (key1, v2, 0, ground arith, ground arith, refl, refl)) refl))
      (receive 1 (some (put_msg key1 v2))
        (inr (key1, v2, 0, ground arith, ground arith, refl, refl)) refl)

-- The second writer is turned away.
second_closed : second.thread ≡ closed
unfolding program server_thread response_server scan_request words put_response put_lock
second_closed = refl

PoliteReach-Exclusive_example : Exclusive two_writers
PoliteReach-Exclusive_example = Runs.PoliteReach-Exclusive two_puts start-Exclusive

abbrev key2 : Text
key2 = codes "key2"

new_key_shared_example :
    (held (earlier start.server junk junk key2 v2).thread ≡ some key2)
    × (held (later start.server junk junk key2 v2 (codes "v3")).thread ≡ some key2)
    × ((earlier start.server junk junk key2 v2).sent ≡ first_vote start.server ∷ [])
    × ((later start.server junk junk key2 v2 (codes "v3")).sent ≡ first_vote start.server ∷ [])
unfolding program
new_key_shared_example =
    NewKey.new_key_shared start.server junk junk key2 v2 (codes "v3") (ground arith) (ground arith)
      (ground arith) refl (omega arith)

vote_race_example :
    IsIn (vote_run init_key_val at_test at_test (false ∷ true ∷ false ∷ [])).1.0
    × IsIn (vote_run init_key_val at_test at_test (false ∷ true ∷ false ∷ [])).1.1
    × (vote_run init_key_val at_test at_test (false ∷ false ∷ true ∷ false ∷ [])
        ≡ (write_lock 1 init_key_val, (voted, refused)))
vote_race_example = Race.vote_race init_key_val (false ∷ []) refl refl
