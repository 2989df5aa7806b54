-- ===== src/Server/Put/Vote.antt =====
-- The first part of a PUT connection: the lock and the vote, by the state of the key.
use os_hw.Prelude.{
  ℕ, ◌<◌, ◌≡◌, ap, ◌∙◌, Option, none, some, [], ◌∷◌, ◌++◌, length, modify, modify-append_length,
  get_or-append_length, pos, minus_one, lt→ltb,
}
use os_hw.Text.{Text, codes, text_eq, IsWord}
use os_hw.Client.Messages.{put_msg, words-put_msg}
use os_hw.Server.Table.{KeyVal, Server, max_keys, init_key_val, search_key, entry, write_lock}
use os_hw.Server.Handlers.{
  Locals, await_update, response_server, scan_request, put_response, put_lock, scan_number,
  first_vote, known_vote,
}

-- A writer can have the key: its entry is not locked and no reader is counted, or it is new and
-- the table has room.
abbrev pub IsFree : Server → Option KeyVal → Type 0
IsFree s none = length s.key_vals < max_keys
IsFree s (some kv) = (kv.lock ≡ 0) × (kv.num_getters ≡ pos 0)

-- The vote for an entry, and the entry that a write starts from.
abbrev pub vote : Server → Option KeyVal → Text
vote s none = first_vote s
vote s (some kv) = known_vote s kv

abbrev pub old_entry : Option KeyVal → KeyVal
old_entry none = init_key_val
old_entry (some kv) = kv

scan_request-put_msg :
    (l : Locals) (key value : Text)
    → IsWord key
    → IsWord value
    → scan_request l (put_msg key value)
      ≡ record { msg_type = codes "PUT"; key = key; value = value; vno = minus_one }
unfolding scan_request scan_number
scan_request-put_msg l key value h k = rw (words-put_msg key value h k, scan_number)

pub response_server-put_msg :
    (s : Server) (l junk : Locals) (key value : Text)
    → IsWord key
    → IsWord value
    → response_server s l junk (put_msg key value) ≡ put_response s junk key
unfolding response_server text_eq
response_server-put_msg s l junk key value h k = rw (scan_request-put_msg l key value h k)

pub put_lock_lem :
    (s : Server) (l : Locals) (key : Text) (i : ℕ) (msg : Text)
    → (entry s.key_vals i).lock ≡ 0
    → (entry s.key_vals i).num_getters ≡ pos 0
    → put_lock s l key i msg ≡ record {
      server = record s { key_vals = modify s.key_vals i (write_lock 1) };
      sent = msg ∷ [];
      thread = await_update key i l;
    }
unfolding put_lock
put_lock_lem s l key i msg h k = rw (h, k)

module _ (s : Server) (l : Locals) (key : Text) where
  -- A known key that is free: its entry is locked.
  pub put_response_known :
      (i : ℕ)
      → search_key key s.key_vals ≡ some i
      → IsFree s (some (entry s.key_vals i))
      → put_response s l key ≡ record {
        server = record s { key_vals = modify s.key_vals i (write_lock 1) };
        sent = known_vote s (entry s.key_vals i) ∷ [];
        thread = await_update key i l;
      }
  unfolding put_response
  put_response_known i found free =
      rw (put_response, found)
        (put_lock_lem s l key i (known_vote s (entry s.key_vals i)) free.0 free.1)

  -- A new key, with room in the table: a locked entry with no key goes to its end.
  pub put_response_new :
      search_key key s.key_vals ≡ none
      → length s.key_vals < max_keys
      → put_response s l key ≡ record {
        server = record s { key_vals = s.key_vals ++ write_lock 1 init_key_val ∷ [] };
        sent = first_vote s ∷ [];
        thread = await_update key (length s.key_vals) l;
      }
  unfolding put_response
  put_response_new missing room =
      let kvs = s.key_vals in
      let grown = record s { key_vals = kvs ++ init_key_val ∷ [] } in
      let last = get_or-append_length kvs init_key_val init_key_val in
      rw (put_response, missing, lt→ltb _ _ room)
        (put_lock_lem grown l key (length kvs) (first_vote s) (ap (λ kv. kv.lock) last)
            (ap (λ kv. kv.num_getters) last)
          ∙ (rw (modify-append_length kvs init_key_val (write_lock 1))))
