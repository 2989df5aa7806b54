-- ===== src/Tests/ServerRuns.antt =====
-- Server.c on the table that `main` sets up.
use os_hw.Prelude.{
  true, false, ◌≡◌, refl, some, [], ◌∷◌, ◌++◌, arith, ◌==◌, if◌then◌else◌, pos, minus_one,
}
use os_hw.Text.{Text, codes, text_eq, words, is_space}
use os_hw.Client.Messages.{get_msg, put_msg}
use os_hw.Client.Connect.{connect_to}
use os_hw.Client.Contact
use os_hw.Client.Contact.{answer}
use os_hw.Server.Table.{KeyVal, Server, init_server, init_key_val, search_key, write_lock}
use os_hw.Server.Table.Search.{lookup}
use os_hw.Server.Handlers.{
  Locals, Outcome, accepted, closed, response_server, first_vote, updatedone_msg, add_getters,
  get_response, scan_request, scan_number,
}
use os_hw.Server.Thread.{server_thread, session, System, Reach, here, next, receive}
use os_hw.Server.Get
use os_hw.Server.Put.{written}
use os_hw.Server.Put.Vote.{vote, old_entry}
use os_hw.Server.Put.Session
use os_hw.Server.Put.Session.{put_messages}
use os_hw.Server.Put.Timeout
use os_hw.Server.Put.Timeout.{silent_messages}
use os_hw.Server.Readers.{Lower}
use os_hw.Server.Readers.Starvation

-- What a run computes with.
program : Unit {0}
unfolding search_key lookup text_eq is_space
program = tt

abbrev junk : Locals
junk = record { msg_type = []; key = []; value = []; vno = minus_one }

abbrev start : Server
start = init_server (pos 0)

abbrev key1 : Text
key1 = codes "key1"

abbrev key2 : Text
key2 = codes "key2"

abbrev v2 : Text
v2 = codes "v2"

abbrev entry1 : KeyVal
entry1 = record {
  key = key1;
  value = codes "value1";
  sock = pos 0;
  vno = pos 1;
  lock = 0;
  num_getters = pos 0;
  cond_wait_lock = 1;
}

abbrev done : Outcome
done = session junk junk start accepted (put_messages key1 v2 (pos 2))

put_session_example :
    (done.thread ≡ closed)
    × (done.sent ≡ vote start (lookup key1 start.key_vals) ∷ updatedone_msg key1 ∷ [])
    × (done.server.lier ≡ start.lier)
    × ((j : Text)
        → lookup j done.server.key_vals ≡ (
            if text_eq j key1
            then some (written key1 v2 (pos 2) (old_entry (lookup key1 start.key_vals)))
            else lookup j start.key_vals))
unfolding program
put_session_example =
    Session.put_session start junk junk key1 v2 (pos 2) (ground arith) (ground arith) (refl, refl)

put_timeout_new_example : session junk junk start accepted (silent_messages key2 v2) ≡ record {
  server = record start { key_vals = start.key_vals ++ write_lock 1 init_key_val ∷ [] };
  sent = first_vote start ∷ [];
  thread = closed;
}
unfolding program
put_timeout_new_example =
    Timeout.put_timeout_new start junk junk key2 v2 (ground arith) (ground arith) refl (omega arith)

connect_to-response_server_example :
    connect_to false true
      (pos 7)
      (codes "GET")
      (get_msg key1)
      key1
      []
      (answer start junk junk (get_msg key1))
      init_key_val
    ≡ record {
      reply = record init_key_val { sock = pos 7; vno = pos 1; key = key1; value = codes "value1" };
      counted = true;
      sent = get_msg key1 ∷ [];
    }
unfolding program
connect_to-response_server_example =
    Contact.connect_to-response_server start junk junk key1 key1 [] (pos 7) init_key_val
      (ground arith) refl refl (ground arith) refl

abbrev busy : Server
busy = record start { key_vals = write_lock 1 entry1 ∷ [] }

get_locked_example :
    ((response_server busy junk junk (get_msg key1)).sent ≡ [])
    × ((j : Text)
        → lookup j (response_server busy junk junk (get_msg key1)).server.key_vals ≡ (
            if text_eq j key1
            then some (add_getters minus_one (write_lock 1 entry1))
            else lookup j busy.key_vals))
unfolding program
get_locked_example = Get.get_locked busy junk junk key1 (ground arith) refl (omega arith)

-- A reader came while the key was locked, and the lock was given back.
abbrev starved : System
starved = record {
  server = record start { key_vals = record entry1 { num_getters = minus_one } ∷ [] };
  thread = λ _. accepted;
}

abbrev later : Outcome
later = server_thread junk junk starved.server accepted (some (get_msg key1))

abbrev starved_later : System
starved_later = record {
  server = later.server;
  thread = λ j. if 0 == j then later.thread else accepted;
}

Reach-starved : Reach junk junk starved starved_later
Reach-starved = next here (receive 0 (some (get_msg key1)) refl)

starved_forever_example :
    response_server starved_later.server junk junk (put_msg key1 v2)
    ≡ record { server = starved_later.server; sent = []; thread = closed }
unfolding program server_thread response_server get_response scan_request words scan_number
starved_forever_example =
    Starvation.starved_forever 0 key1 v2 (omega arith) Reach-starved (ground arith) (ground arith)
      refl

Reach-Lower_example : Lower starved.server.key_vals starved_later.server.key_vals
Reach-Lower_example = Starvation.Reach-Lower Reach-starved
