-- ===== src/Server/Handlers.antt =====
-- The handlers of Server.c. A handler returns the new state and the messages that it sends; what
-- `putResponse` does is cut where it waits for the client.
use os_hw.Prelude.{
  ℕ, zero, suc, ◌&&◌, Option, none, some, List, [], ◌∷◌, ◌++◌, ltb, ◌==◌, if◌then◌else◌, length,
  get_or, modify, ℤ, pos, ◌+ℤ◌, eqb_ℤ, minus_one,
}
use os_hw.Text.{Text, codes, text_eq, words, print_int, scan_int}
use os_hw.Server.Table.{
  KeyVal, Server, max_keys, lier_vno_incr, init_key_val, search_key, entry, write_key, write_lock,
  update_key,
}

-- The local variables that `sscanf` fills. What it cannot read keeps its old content, which is
-- indeterminate at first.
pub record Locals : Type 0 where
  pub msg_type : Text
  pub key : Text
  pub value : Text
  pub vno : ℤ

-- "%d %s %s" and "%d %s %slie"
abbrev pub sendvno_msg : ℤ → Text → Text → Text
sendvno_msg vno key value = print_int vno ++ b' ' ∷ (key ++ b' ' ∷ value)

abbrev pub lie : Text → Text
lie value = value ++ codes "lie"

-- "updatedone %s"
abbrev pub updatedone_msg : Text → Text
updatedone_msg key = codes "updatedone" ++ b' ' ∷ key

-- Word `i` of a message, or the old content.
abbrev pub scan_word : Text → ℕ → Text → Text
scan_word msg i old = get_or (words msg) i old

-- `%d` at word `i`
unfoldable pub scan_number : List Text → ℕ → ℤ → ℤ
scan_number [] i old = old
scan_number (w ∷ ws) zero old = elim (scan_int w) [ none ↦ old | some n ↦ n ]
scan_number (w ∷ ws) (suc i) old = scan_number ws i old

-- `sscanf(msg, "%s ", msgType)`, and `sscanf(msg, "%*s %s %s %d", keyNew, valNew, &vno)`
unfoldable pub scan_type : Locals → Text → Locals
scan_type l msg = record l { msg_type = scan_word msg 0 l.msg_type }

unfoldable pub scan_update : Locals → Text → Locals
scan_update l msg = record l {
  key = scan_word msg 1 l.key;
  value = scan_word msg 2 l.value;
  vno = scan_number (words msg) 3 l.vno;
}

-- `numGetters` of entry `i` moves by `d`.
abbrev pub add_getters : ℤ → KeyVal → KeyVal
add_getters d kv = record kv { num_getters = kv.num_getters +ℤ d }

unfoldable pub get_response : Server → Text → Server × List Text
get_response s key = elim (search_key key s.key_vals) [
  | none ↦ (s, [])
  | some i ↦
      let kv = entry s.key_vals i in
      let counted =
        if kv.lock == 0 then modify s.key_vals i (add_getters (pos 1)) else s.key_vals in
      let sent =
        if kv.lock == 0
        then if eqb_ℤ s.lier (pos 0)
          then sendvno_msg kv.vno kv.key kv.value ∷ []
          else sendvno_msg kv.vno kv.key (lie kv.value) ∷ []
        else [] in
      (record s { key_vals = modify counted i (add_getters minus_one) }, sent)
]

unfoldable pub update_response : Server → Text → Text → ℤ → Server × List Text
update_response s key val vno =
    let (kvs, res) = update_key s.key_vals key val vno in
    (record s { key_vals = kvs }, if eqb_ℤ res (pos 0) then updatedone_msg key ∷ [] else [])

unfoldable pub releaselock_response : Server → Text → Server
releaselock_response s key = elim (search_key key s.key_vals) [
  | none ↦ s
  | some i ↦ record s { key_vals = modify s.key_vals i (write_lock 0) }
]

-- What a thread does next: wait in `serverThread`, at one of the two waits of `putResponse`, or
-- nothing. `crashed` stands for a write past the end of `keyVals`.
pub data Thread : Type 0 where
  accepted : Thread
  await_update : (key : Text) (i : ℕ) (l : Locals) → Thread
  await_release : (key : Text) (l : Locals) → Thread
  closed : Thread
  crashed : Thread

pub record Outcome : Type 0 where
  pub server : Server
  pub sent : List Text
  pub thread : Thread

-- The reply to a PUT of a new key, and of a known one.
unfoldable pub first_vote : Server → Text
first_vote s =
    if eqb_ℤ s.lier (pos 0)
    then codes "0"
    else sendvno_msg (init_key_val.vno +ℤ lier_vno_incr) init_key_val.key (lie init_key_val.value)

unfoldable pub known_vote : Server → KeyVal → Text
known_vote s kv =
    if eqb_ℤ s.lier (pos 0)
    then sendvno_msg kv.vno kv.key kv.value
    else sendvno_msg (kv.vno +ℤ lier_vno_incr) kv.key kv.value

-- Lock the entry and vote, or hang up.
unfoldable pub put_lock : Server → Locals → Text → ℕ → Text → Outcome
put_lock s l key i res_msg =
    let kv = entry s.key_vals i in
    if kv.lock == 0 && eqb_ℤ kv.num_getters (pos 0)
    then record {
      server = record s { key_vals = modify s.key_vals i (write_lock 1) };
      sent = res_msg ∷ [];
      thread = await_update key i l;
    }
    else record { server = s; sent = []; thread = closed }

-- `putResponse` up to its first wait.
unfoldable pub put_response : Server → Locals → Text → Outcome
put_response s l key = elim (search_key key s.key_vals) [
  | none ↦
      if ltb (length s.key_vals) max_keys
      then put_lock (record s { key_vals = s.key_vals ++ init_key_val ∷ [] }) l key
          (length s.key_vals) (first_vote s)
      else record { server = s; sent = []; thread = crashed }
  | some i ↦ put_lock s l key i (known_vote s (entry s.key_vals i))
]

abbrev pub hang_up : Server → Text → Outcome
hang_up s key = record { server = releaselock_response s key; sent = []; thread = closed }

-- From the first wait to the second. `none` is a time-out or an error of `recvTimeout`.
unfoldable pub put_on_update : Server → Text → ℕ → Locals → Option Text → Outcome
put_on_update s key i l none = hang_up s key
put_on_update s key i l (some msg) =
    let l' = scan_update (scan_type l msg) msg in
    let named = record s { key_vals = modify s.key_vals i (write_key l'.key) } in
    let done = update_response named l'.key l'.value l'.vno in
    if text_eq (scan_type l msg).msg_type (codes "update")
    then record { server = done.0; sent = done.1; thread = await_release key l' }
    else hang_up s key

-- From the second wait to the end.
unfoldable pub put_on_release : Server → Text → Locals → Option Text → Outcome
put_on_release s key l none = hang_up s key
put_on_release s key l (some msg) =
    if text_eq (scan_type l msg).msg_type (codes "releaselock")
    then hang_up s l.key
    else hang_up s key

-- The scans of `responseServer`, into its own locals: only what the message type asks for is read
-- afterwards.
unfoldable pub scan_request : Locals → Text → Locals
scan_request l msg = record {
  msg_type = scan_word msg 0 l.msg_type;
  key = scan_word msg 1 l.key;
  value = scan_word msg 2 l.value;
  vno = scan_number (words msg) 3 minus_one;
}

-- `responseServer`. The locals of `putResponse` are its own, `junk`.
unfoldable pub response_server : Server → Locals → Locals → Text → Outcome
response_server s l junk msg =
    let r = scan_request l msg in
    let got = get_response s r.key in
    let updated = update_response s r.key r.value r.vno in
    if text_eq r.msg_type (codes "GET")
    then record { server = got.0; sent = got.1; thread = closed }
    else if text_eq r.msg_type (codes "PUT")
    then put_response s junk r.key
    else if text_eq r.msg_type (codes "update")
    then record { server = updated.0; sent = updated.1; thread = closed }
    else if text_eq r.msg_type (codes "releaselock")
    then hang_up s r.key
    else record { server = s; sent = []; thread = closed }
