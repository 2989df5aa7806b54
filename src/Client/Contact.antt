-- ===== src/Client/Contact.antt =====
-- A reader's thread of Client.c and the handler of Server.c that it talks to.
use os_hw.Prelude.{◌≡◌, sym, true, false, Option, some, List, [], ◌∷◌, ℤ, pos, get_elem?, arith}
use os_hw.Text.{Text, codes, text_eq, text_eq→eq, IsWord}
use os_hw.Server.Table.{KeyVal, Server}
use os_hw.Server.Table.Search.{lookup}
use os_hw.Server.Handlers.{Locals, response_server}
use os_hw.Server.Get
use os_hw.Client.Messages.{get_msg}
use os_hw.Client.Connect.{after_reply, connect_to}
use os_hw.Client.Votes.{scan_reply-sendvno_msg}

-- What a server sends back on the message that opens a connection, if it sends anything.
abbrev pub answer : Server → (l junk : Locals) → Text → Option Text
answer s l junk msg = get_elem? (response_server s l junk msg).sent 0

pub lookup-key :
    (key : Text) (kvs : List KeyVal) {kv : KeyVal} → lookup key kvs ≡ some kv → key ≡ kv.key
unfolding lookup
lookup-key key [] h = cc
lookup-key key (x ∷ kvs) {kv} h = ground (arith, text_eq→eq key x.key, lookup-key key kvs {kv = kv})

-- A thread of the client that asks a truthful server for a key that is not locked counts in
-- `responsesG`, sends nothing else, and fills its reply with the version, the key and the value of
-- the server's entry and with its socket.
pub connect_to-response_server :
    (s : Server) (l junk : Locals) (key key_g ret_msg : Text) (sock : ℤ) (old : KeyVal)
    {kv : KeyVal}
    → IsWord key
    → lookup key s.key_vals ≡ some kv
    → kv.lock ≡ 0
    → IsWord kv.value
    → s.lier ≡ pos 0
    → connect_to false true sock
        (codes "GET")
        (get_msg key)
        key_g
        ret_msg
        (answer s l junk (get_msg key))
        old
      ≡ record {
        reply = record old { sock = sock; vno = kv.vno; key = key; value = kv.value };
        counted = true;
        sent = get_msg key ∷ [];
      }
unfolding connect_to after_reply text_eq
connect_to-response_server s l junk key key_g ret_msg sock old {kv} word named free val honest =
    let same = lookup-key key s.key_vals named in
    rw (
      Get.get_free s l junk key word named free,
      honest,
      sym same,
      scan_reply-sendvno_msg old kv.vno key kv.value word val,
    )
