-- ===== src/Client/Connect.antt =====
-- `connectTo`, `connectThread` and `main` of Client.c: the votes, and what follows from the choice.
use os_hw.Prelude.{
  ℕ, suc, ◌+◌, ◌*◌, Bool, true, false, not, ◌&&◌, Option, none, some, List, [], ◌∷◌, ◌++◌, ltb,
  if◌then◌else◌, get_or, ℤ, pos, minus_one, ◌+ℤ◌,
}
use os_hw.Text.{Text, codes, text_eq, words, push_word, scan_int, after_int}
use os_hw.Server.Table.{KeyVal, init_key_val}
use os_hw.Client.Messages.{update_msg, releaselock_msg}
use os_hw.Client.Select.{
  responded, Selection, lesser_read_quorum, lesser_write_quorum, bad_index, selected, select_server,
}

-- `sscanf(recv_data, "%d %s %s", ...)` into an element of `keyVals_c`. It stops at the first
-- conversion that fails, and what it does not fill stays.
unfoldable pub scan_fields : KeyVal → List Text → KeyVal
scan_fields old ws = record old { key = get_or ws 0 old.key; value = get_or ws 1 old.value }

unfoldable pub scan_first : KeyVal → List Text → KeyVal
scan_first old [] = old
scan_first old (w ∷ ws) = elim (scan_int w) [
  | none ↦ old
  | some n ↦ scan_fields (record old { vno = n }) (push_word (after_int w) ws)
]

unfoldable pub scan_reply : KeyVal → Text → KeyVal
scan_reply old msg = scan_first old (words msg)

-- What a thread leaves: its element of `keyVals_c`, whether it counted in `responsesG`, and what it
-- sent.
pub record Contact : Type 0 where
  pub reply : KeyVal
  pub counted : Bool
  pub sent : List Text

-- What it sends once a reply is in; `ret_msg` is the old content of `retMsg`.
unfoldable pub after_reply : (msg_type msg key ret_msg : Text) → List Text → List Text
after_reply msg_type msg key ret_msg ws =
    if text_eq msg_type (codes "PUT") && text_eq (get_or ws 0 ret_msg) (codes "updatedone")
    then msg ∷ releaselock_msg key ∷ []
    else msg ∷ []

-- `connectTo`: `connection_exists` and `sock` are of its `sockDes`, `msg` and `key` are `msgG` and
-- `keyG`. `connected` is what `connect` returns if it is called, and `recv_data` what is received,
-- `none` for a time-out or an error.
unfoldable pub connect_to :
    (connection_exists connected : Bool) (sock : ℤ) (msg_type msg key ret_msg : Text)
    (recv_data : Option Text)
    → KeyVal
    → Contact
connect_to connection_exists connected sock msg_type msg key ret_msg recv_data old =
    let lost = record old { sock = minus_one } in
    if not connection_exists && not connected
    then record { reply = lost; counted = false; sent = [] }
    else elim recv_data [
      | none ↦ record { reply = lost; counted = false; sent = msg ∷ [] }
      | some text ↦ record {
        reply = record (scan_reply old text) { sock = sock };
        counted = true;
        sent = after_reply msg_type msg key ret_msg (words text);
      }
    ]

-- The servers to which an update goes: those whose `sock` is not -1.
unfoldable pub targets : ℕ → List KeyVal → List ℕ
targets i [] = []
targets i (kv ∷ kvs) = (if responded kv then i ∷ [] else []) ++ targets (suc i) kvs

-- The ends of `connectThread`, after the votes are in.
pub data Result : Type 0 where
  below_read_quorum : Result
  below_write_quorum : Result
  fault : Result
  reading : (key value : Text) → Result
  updating : (vno : ℤ) (msg : Text) (servers : List ℕ) → Result
  nothing : Result

unfoldable pub read_choice : List KeyVal → Selection → Result
read_choice kvs lesser_read_quorum = below_read_quorum
read_choice kvs lesser_write_quorum = below_write_quorum
read_choice kvs bad_index = fault
read_choice kvs (selected i liars) =
    reading (get_or kvs i init_key_val).key (get_or kvs i init_key_val).value

unfoldable pub write_choice : Text → Text → List KeyVal → Selection → Result
write_choice key val kvs lesser_read_quorum = below_read_quorum
write_choice key val kvs lesser_write_quorum = below_write_quorum
write_choice key val kvs bad_index = fault
write_choice key val kvs (selected i liars) =
    let new_vno = (get_or kvs i init_key_val).vno +ℤ pos 1 in
    updating new_vno (update_msg key val new_vno) (targets 0 kvs)

-- `connectThread` after the votes: `responses_g` is `responsesG`, `kvs` are the `N` elements of
-- `keyVals_c`.
unfoldable pub connect_thread :
    (nr nw responses_g : ℕ) (msg_type key val : Text) → List KeyVal → Result
connect_thread nr nw responses_g msg_type key val kvs =
    if text_eq msg_type (codes "GET")
    then if ltb responses_g nr
      then below_read_quorum
      else read_choice kvs (select_server nr nw msg_type kvs)
    else if text_eq msg_type (codes "PUT")
    then if ltb responses_g nw
      then below_write_quorum
      else write_choice key val kvs (select_server nr nw msg_type kvs)
    else nothing

-- The test of `main`: `Nr + Nw > N` and `Nw > N / 2.0`.
unfoldable pub quorums_ok : (n nr nw : ℕ) → Bool
quorums_ok n nr nw = ltb n (nr + nw) && ltb n (2 * nw)
