-- ===== src/Server/Put/Progress.antt =====
-- A PUT connection up to its second wait.
use os_hw.Prelude.{
  ℕ, ◌<◌, ◌≡◌, refl, sym, ap, subst, ◌∙◌, some, [], ◌∷◌, modify, length-modify, get_or-modify_self,
  ℤ, Option-cases, inl, inr,
}
use os_hw.Text.{Text, IsWord}
use os_hw.Client.Messages.{put_msg, update_msg}
use os_hw.Server.Table.{KeyVal, Server, init_key_val, search_key, entry, write_key, write_lock}
use os_hw.Server.Table.Search.{lookup, lookup_of_none, search_key-some, search_key-modify}
use os_hw.Server.Handlers.{Locals, accepted, known_vote, updatedone_msg, response_server}
use os_hw.Server.Thread.{server_thread, session, session-cons}
use os_hw.Server.Put.{put_on_update_lem}
use os_hw.Server.Put.Vote.{IsFree, response_server-put_msg, put_response_known}

some_inj : {a b : KeyVal} → some a ≡ some b → a ≡ b
some_inj e = cc

module _ (s : Server) (l junk : Locals) (key value : Text) {kv : KeyVal} (h : IsWord key)
    (k : IsWord value) (named : lookup key s.key_vals ≡ some kv) (free : IsFree s (some kv)) where
  located : (i : ℕ) × (search_key key s.key_vals ≡ some i) × (entry s.key_vals i ≡ kv)
  located = elim (Option-cases (search_key key s.key_vals)) [
    | inl missing ↦ cc (lookup_of_none key s.key_vals missing)
    | inr (i, found) ↦ (i, found, some_inj (sym (search_key-some key s.key_vals found).2 ∙ named))
  ]

  -- The first reply is the vote.
  pub put_voted : (response_server s l junk (put_msg key value)).sent ≡ known_vote s kv ∷ []
  put_voted =
      let (i, found, same) = located in
      rw
        (
          response_server-put_msg s l junk key value h k,
          put_response_known s junk key i found (subst (λ x. IsFree s (some x)) (sym same) free),
          same,
        )
        refl

  -- The second reply is the acknowledgement.
  pub put_acknowledged :
      (vno : ℤ)
      → (session l junk s accepted
          (some (put_msg key value) ∷ some (update_msg key value vno) ∷ [])).sent
        ≡ known_vote s kv ∷ updatedone_msg key ∷ []
  unfolding session server_thread
  put_acknowledged vno =
      let (i, found, same) = located in
      let (lt, has_key, _) = search_key-some key s.key_vals found in
      let locked = modify s.key_vals i (write_lock 1) in
      let at = get_or-modify_self s.key_vals i (write_lock 1) init_key_val lt in
      let lt' = subst (λ n. i < n) (sym (length-modify s.key_vals i (write_lock 1))) lt in
      let at' = get_or-modify_self locked i (write_key key) init_key_val lt' in
      let found1 = search_key-modify key s.key_vals i (write_lock 1) refl ∙ found in
      let found2 =
        search_key-modify key locked i (write_key key) (sym (ap (λ e. e.key) at ∙ has_key))
        ∙ found1 in
      let free' = subst (λ x. IsFree s (some x)) (sym same) free in
      let vote =
        response_server-put_msg s l junk key value h k
        ∙ put_response_known s junk key i found free' in
      ap (λ o. o.sent)
        (session-cons l junk s accepted (some (put_msg key value))
          (some (update_msg key value vno) ∷ []) vote)
      ∙ (rw (
        put_on_update_lem (record s { key_vals = locked }) key value vno i junk h k found2
            (ap (λ e. e.lock) at' ∙ ap (λ e. e.lock) at),
        same,
      ))
