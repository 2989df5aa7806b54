-- ===== src/Server/Put/Timeout.antt =====
-- A PUT whose client goes silent after the vote.
use os_hw.Prelude.{
  ℕ, zero, suc, ◌<◌, ◌≡◌, refl, sym, ap, subst, ◌∙◌, Option, none, some, List, [], ◌∷◌, ◌++◌,
  length, modify, modify-modify, Option-cases, inl, inr,
}
use os_hw.Text.{Text, text_eq, IsWord}
use os_hw.Client.Messages.{put_msg}
use os_hw.Server.Table.{KeyVal, Server, max_keys, init_key_val, search_key, entry, write_lock}
use os_hw.Server.Table.Search.{
  lookup, lookup_of_none, search_key-some, search_key-modify, search_key-append,
}
use os_hw.Server.Handlers.{
  Locals, accepted, await_update, closed, put_response, put_on_update, releaselock_response,
  first_vote, known_vote,
}
use os_hw.Server.Thread.{server_thread, session, session-cons}
use os_hw.Server.Put.{releaselock_response_lem}
use os_hw.Server.Put.Vote.{IsFree, response_server-put_msg, put_response_known, put_response_new}

write_lock_back : (kv : KeyVal) → kv.lock ≡ 0 → write_lock 0 (write_lock 1 kv) ≡ kv
write_lock_back kv h = λ i. record kv { lock = sym h i }

-- Only the element that is written need stay.
modify_same :
    (kvs : List KeyVal) (i : ℕ) (f : KeyVal → KeyVal)
    → f (entry kvs i) ≡ entry kvs i
    → modify kvs i f ≡ kvs
modify_same [] i f h = refl
modify_same (x ∷ xs) zero f h = ap (λ y. y ∷ xs) h
modify_same (x ∷ xs) (suc i) f h = ap (◌∷◌ x) (modify_same xs i f h)

releaselock_response-none :
    (s : Server) (key : Text) → search_key key s.key_vals ≡ none → releaselock_response s key ≡ s
unfolding releaselock_response
releaselock_response-none s key missing = rw (missing, releaselock_response)

-- A word is not the empty key of a new entry.
pub still_missing :
    (key : Text) (kvs : List KeyVal)
    → IsWord key
    → search_key key kvs ≡ none
    → search_key key (kvs ++ write_lock 1 init_key_val ∷ []) ≡ none
unfolding text_eq
still_missing [] kvs h missing = absurd h
still_missing (c ∷ key) kvs h missing =
    search_key-append (c ∷ key) kvs (write_lock 1 init_key_val) missing

-- The request, and the time-out of the first wait.
abbrev pub silent_messages : Text → Text → List (Option Text)
silent_messages key value = some (put_msg key value) ∷ none ∷ []

module _ (s : Server) (l junk : Locals) (key value : Text) (h : IsWord key) (k : IsWord value) where
  silent_lem :
      (kvs : List KeyVal) (i : ℕ) (msg : Text)
      → put_response s junk key ≡ record {
        server = record s { key_vals = kvs };
        sent = msg ∷ [];
        thread = await_update key i junk;
      }
      → session l junk s accepted (silent_messages key value) ≡ record {
        server = releaselock_response (record s { key_vals = kvs }) key;
        sent = msg ∷ [];
        thread = closed;
      }
  unfolding session server_thread put_on_update
  silent_lem kvs i msg e =
      session-cons l junk s accepted (some (put_msg key value)) (none ∷ [])
        (response_server-put_msg s l junk key value h k ∙ e)

  -- If the key is known and free, the time-out undoes the lock: the server is as it was.
  pub put_timeout_known :
      {kv : KeyVal}
      → lookup key s.key_vals ≡ some kv
      → IsFree s (some kv)
      → session l junk s accepted (silent_messages key value)
        ≡ record { server = s; sent = known_vote s kv ∷ []; thread = closed }
  put_timeout_known {kv} named free = elim (Option-cases (search_key key s.key_vals)) [
    | inl missing ↦ cc (lookup_of_none key s.key_vals missing)
    | inr (i, found) ↦
        let locked = modify s.key_vals i (write_lock 1) in
        let same : some kv ≡ some (entry s.key_vals i) =
          sym named ∙ (search_key-some key s.key_vals found).2 in
        let same' : kv ≡ entry s.key_vals i = cc in
        let free' = subst (IsFree s) same free in
        rw same' (
          silent_lem locked i (known_vote s (entry s.key_vals i))
            (put_response_known s junk key i found free')
          ∙ (rw (
            releaselock_response_lem (record s { key_vals = locked }) key
                (search_key-modify key s.key_vals i (write_lock 1) refl ∙ found),
            modify-modify s.key_vals i (write_lock 1) (write_lock 0),
            modify_same s.key_vals i (λ e. write_lock 0 (write_lock 1 e))
                (write_lock_back (entry s.key_vals i) free'.0),
          )))
  ]

  -- If the key is new, the time-out does not undo the lock: no search finds the key, and a locked
  -- entry without a key stays at the end of the table.
  pub put_timeout_new :
      search_key key s.key_vals ≡ none
      → length s.key_vals < max_keys
      → session l junk s accepted (silent_messages key value) ≡ record {
        server = record s { key_vals = s.key_vals ++ write_lock 1 init_key_val ∷ [] };
        sent = first_vote s ∷ [];
        thread = closed;
      }
  put_timeout_new missing room =
      let leaked = s.key_vals ++ write_lock 1 init_key_val ∷ [] in
      silent_lem leaked (length s.key_vals) (first_vote s)
        (put_response_new s junk key missing room)
      ∙ (rw (
          releaselock_response-none (record s { key_vals = leaked }) key
            (still_missing key s.key_vals h missing)))
