-- ===== src/Server/Put/Session.antt =====
-- A complete PUT, and the GET after it, against the map from keys to entries.
use os_hw.Prelude.{
  ℕ, ◌<◌, ◌≡◌, refl, sym, ap, subst, ◌∙◌, Option, none, some, List, [], ◌∷◌, ◌++◌, arith,
  if◌then◌else◌, length, modify, length-append, modify-append_length, get_or-append_length,
  get_or-modify_self, length-modify, modify-modify, ℤ, Option-cases, inl, inr,
}
use os_hw.Text.{Text, text_eq, text_eq_refl, IsWord}
use os_hw.Client.Messages.{put_msg, update_msg, releaselock_msg}
use os_hw.Server.Table.{
  KeyVal, Server, max_keys, init_key_val, search_key, entry, write_key, write_lock,
}
use os_hw.Server.Table.Search.{
  lookup, lookup_of_none, search_key-some, search_key-modify, search_key-append, lookup-modify,
  lookup-append,
}
use os_hw.Server.Handlers.{
  Locals, accepted, await_update, closed, put_response, first_vote, known_vote, updatedone_msg,
}
use os_hw.Server.Thread.{server_thread, session, session-cons}
use os_hw.Server.Put.Vote.{
  IsFree, vote, old_entry, response_server-put_msg, put_response_known, put_response_new,
}
use os_hw.Server.Put.{written, finish_lem}

-- The three messages of a writer, in order.
abbrev pub put_messages : Text → Text → ℤ → List (Option Text)
put_messages key value vno =
    some (put_msg key value) ∷ some (update_msg key value vno) ∷ some (releaselock_msg key) ∷ []

module _ (s : Server) (l junk : Locals) (key value : Text) (vno : ℤ) (h : IsWord key)
    (k : IsWord value) where
  -- The rest of the messages, once the entry `i` of the table `kvs` is locked.
  session_locked :
      (kvs : List KeyVal) (i : ℕ) (msg : Text)
      → put_response s junk key ≡ record {
        server = record s { key_vals = kvs };
        sent = msg ∷ [];
        thread = await_update key i junk;
      }
      → i < length kvs
      → search_key key (modify kvs i (write_key key)) ≡ some i
      → (entry kvs i).lock ≡ 1
      → session l junk s accepted (put_messages key value vno) ≡ record {
        server = record s { key_vals = modify kvs i (written key value vno) };
        sent = msg ∷ updatedone_msg key ∷ [];
        thread = closed;
      }
  unfolding server_thread
  session_locked kvs i msg e lt found locked =
      session-cons l junk s accepted _ _ (response_server-put_msg s l junk key value h k ∙ e)
      ∙ (rw (
          finish_lem (record s { key_vals = kvs }) key value vno i junk h k lt found locked l junk))

  session_known :
      (i : ℕ)
      → search_key key s.key_vals ≡ some i
      → IsFree s (some (entry s.key_vals i))
      → session l junk s accepted (put_messages key value vno) ≡ record {
        server = record s { key_vals = modify s.key_vals i (written key value vno) };
        sent = known_vote s (entry s.key_vals i) ∷ updatedone_msg key ∷ [];
        thread = closed;
      }
  session_known i found free =
      let (lt, same, _) = search_key-some key s.key_vals found in
      let locked = modify s.key_vals i (write_lock 1) in
      let at = get_or-modify_self s.key_vals i (write_lock 1) init_key_val lt in
      let lt' = subst (λ n. i < n) (sym (length-modify s.key_vals i (write_lock 1))) lt in
      let found1 = search_key-modify key s.key_vals i (write_lock 1) refl ∙ found in
      let found2 =
        search_key-modify key locked i (write_key key) (sym (ap (λ kv. kv.key) at ∙ same))
        ∙ found1 in
      session_locked locked i (known_vote s (entry s.key_vals i))
        (put_response_known s junk key i found free) lt' found2 (ap (λ kv. kv.lock) at)
      ∙ (rw (modify-modify s.key_vals i (write_lock 1) (written key value vno)))

  session_new :
      search_key key s.key_vals ≡ none
      → length s.key_vals < max_keys
      → session l junk s accepted (put_messages key value vno) ≡ record {
        server = record s { key_vals = s.key_vals ++ written key value vno init_key_val ∷ [] };
        sent = first_vote s ∷ updatedone_msg key ∷ [];
        thread = closed;
      }
  session_new missing room =
      let kvs = s.key_vals in
      let fresh = write_lock 1 init_key_val in
      let inside : length kvs < length (kvs ++ fresh ∷ []) =
        omega (arith, length-append {0} kvs (fresh ∷ [])) in
      let found =
        ap (search_key key) (modify-append_length kvs fresh (write_key key))
        ∙ search_key-append key kvs (write_key key fresh) missing
        ∙ (rw (text_eq_refl key)) in
      session_locked (kvs ++ fresh ∷ []) (length kvs) (first_vote s)
        (put_response_new s junk key missing room) inside found
        (ap (λ kv. kv.lock) (get_or-append_length kvs fresh init_key_val))
      ∙ (rw (modify-append_length kvs fresh (written key value vno)))

  -- A complete PUT of a free key answers with a vote and an acknowledgement and ends; afterwards
  -- the key names the written value and version, free for the next writer, and every other key
  -- names what it named before.
  pub put_session :
      IsFree s (lookup key s.key_vals)
      → ((session l junk s accepted (put_messages key value vno)).thread ≡ closed)
        × ((session l junk s accepted (put_messages key value vno)).sent
            ≡ vote s (lookup key s.key_vals) ∷ updatedone_msg key ∷ [])
        × ((session l junk s accepted (put_messages key value vno)).server.lier ≡ s.lier)
        × ((j : Text)
            → lookup j (session l junk s accepted (put_messages key value vno)).server.key_vals ≡ (
                if text_eq j key
                then some (written key value vno (old_entry (lookup key s.key_vals)))
                else lookup j s.key_vals))
  put_session free = elim (Option-cases (search_key key s.key_vals)) [
    | inl missing ↦
        let none_named = lookup_of_none key s.key_vals missing in
        rw (session_new missing (subst (IsFree s) none_named free), none_named)
          (
            refl,
            refl,
            refl,
            λ j. lookup-append j s.key_vals (written key value vno init_key_val) none_named,
          )
    | inr (i, found) ↦
        let named = (search_key-some key s.key_vals found).2 in
        let free' = subst (IsFree s) named free in
        rw (session_known i found free', named)
          (refl, refl, refl, λ j. lookup-modify j key s.key_vals (written key value vno) found refl)
  ]
