-- ===== src/Server/Exclusion/Effects.antt =====
-- Each receive of `serverThread`, from a client that keeps to the protocol, as an `Effect`.
use os_hw.Prelude.{
  ℕ, ◌≡◌, refl, sym, ap, ◌∙◌, ◌⊎◌, ◌&&◌, true, Option, none, some, List, arith, ◌==◌, modify,
  modify-modify, ℤ, pos, minus_one, eqb_ℤ, Option-cases, Bool-cases, inl, inr,
}
use os_hw.Text.{Text, codes, text_eq_refl, IsWord}
use os_hw.Client.Messages.{update_msg, releaselock_msg}
use os_hw.Server.Table.{KeyVal, Server, search_key, entry, write_value, write_key, write_lock}
use os_hw.Server.Table.Search.{search_key-some, search_key-modify}
use os_hw.Server.Handlers.{
  Locals, Thread, accepted, await_update, await_release, closed, crashed, get_response,
  put_response, put_lock, put_on_update, put_on_release, hang_up, add_getters,
}
use os_hw.Server.Thread.{server_thread}
use os_hw.Server.Get.{response_server-get_msg}
use os_hw.Server.Put.{
  filled, releaselock_response_lem, put_on_update_lem, scan_type-releaselock_msg,
}
use os_hw.Server.Put.Vote.{response_server-put_msg}
use os_hw.Server.Exclusion.{Polite, held, Holds, Effect, modify-others, modify-locks, modify-entry}

-- The locks are left as they are, and no key is held afterwards.
Effect-idle :
    (kvs : List KeyVal) (t : Thread) (kvs' : List KeyVal) {t' : Thread}
    → ((k : Text) → search_key k kvs' ≡ search_key k kvs)
    → ((i : ℕ) → (entry kvs' i).lock ≡ (entry kvs i).lock)
    → Holds kvs' t'
    → held t' ≡ none
    → Effect kvs t kvs' t'
Effect-idle kvs t kvs' same locks holds idle = record {
  search = same;
  others = λ k i found away away'. locks i;
  holds = holds;
  fresh = λ k i has found. cc (idle, has);
}

-- A write to the entry of the thread's own key.
Effect-own :
    (kvs : List KeyVal) (t : Thread) (key : Text) (i : ℕ) (f : KeyVal → KeyVal) {t' : Thread}
    → search_key key kvs ≡ some i
    → (f (entry kvs i)).key ≡ (entry kvs i).key
    → (held t ≡ some key) ⊎ (held t' ≡ some key)
    → Holds (modify kvs i f) t'
    → ((k : Text) (j : ℕ)
        → held t' ≡ some k
        → search_key k kvs ≡ some j
        → (held t ≡ some k) ⊎ ((entry kvs j).lock ≡ 0))
    → Effect kvs t (modify kvs i f) t'
Effect-own kvs t key i f found keep own holds fresh = record {
  search = λ k. search_key-modify k kvs i f keep;
  others = λ k j found' away away'.
      modify-others kvs key k i j f found found'
        (elim own [ inl o ↦ λ e. away (o ∙ ap some e) | inr o ↦ λ e. away' (o ∙ ap some e) ]);
  holds = holds;
  fresh = fresh;
}

Effect-hang_up :
    (s : Server) (t : Thread) (key : Text) (i : ℕ)
    → search_key key s.key_vals ≡ some i
    → held t ≡ some key
    → Effect s.key_vals t (hang_up s key).server.key_vals closed
Effect-hang_up s t key i found own = rw (releaselock_response_lem s key found) (
    Effect-own s.key_vals t key i (write_lock 0) {t' = closed} found refl (inl own) _
      (λ k j has found'. cc has))

-- A GET moves a count of readers at most.
get_response-Effect :
    (s : Server) (t : Thread) (key : Text)
    → Effect s.key_vals t (get_response s key).0.key_vals closed
unfolding get_response
get_response-Effect s t key = elim (Option-cases (search_key key s.key_vals)) [
  | inl missing ↦
      rw (get_response, missing)
        (Effect-idle s.key_vals t s.key_vals {t' = closed} (λ k. refl) (λ i. refl) _ refl)
  | inr (i, found) ↦
      rw (get_response, found)
        (elim (Bool-cases ((entry s.key_vals i).lock == 0)) [
          | inl free ↦
              rw (free, modify-modify s.key_vals i (add_getters (pos 1)) (add_getters minus_one))
                (counted i (λ kv. add_getters minus_one (add_getters (pos 1) kv)) (λ kv. refl)
                  (λ kv. refl))
          | inr shut ↦ rw shut (counted i (add_getters minus_one) (λ kv. refl) (λ kv. refl))
        ])
]
  where
    counted :
        (i : ℕ) (f : KeyVal → KeyVal)
        → ((kv : KeyVal) → (f kv).key ≡ kv.key)
        → ((kv : KeyVal) → (f kv).lock ≡ kv.lock)
        → Effect s.key_vals t (modify s.key_vals i f) closed
    counted i f keys locks =
        Effect-idle s.key_vals t (modify s.key_vals i f) {t' = closed}
          (λ k. search_key-modify k s.key_vals i f (keys (entry s.key_vals i)))
          (λ j. modify-locks s.key_vals i j f locks) _ refl

-- A PUT of a known key takes its lock, or hangs up.
put_response-Effect :
    (s : Server) (l : Locals) (key : Text) (i : ℕ)
    → IsWord key
    → search_key key s.key_vals ≡ some i
    → Effect s.key_vals accepted
        (put_response s l key).server.key_vals
        (put_response s l key).thread
unfolding put_response put_lock
put_response-Effect s l key i h found =
    rw (put_response, found)
      (elim (Bool-cases
        ((entry s.key_vals i).lock == 0 && eqb_ℤ (entry s.key_vals i).num_getters (pos 0))) [
          | inl free ↦ rw free (
              Effect-own s.key_vals accepted key i (write_lock 1) {t' = await_update key i l} found
                refl (inr refl)
                (
                  h,
                  search_key-modify key s.key_vals i (write_lock 1) refl ∙ found,
                  ap (λ kv. kv.lock) (modify-entry s.key_vals key (write_lock 1) found),
                )
                (λ k j has found'. inr (is_free free k j has found')))
          | inr busy ↦ rw busy (
              Effect-idle s.key_vals accepted s.key_vals {t' = closed} (λ k. refl) (λ i. refl) _
                refl)
        ])
  where
    is_free :
        ((entry s.key_vals i).lock == 0 && eqb_ℤ (entry s.key_vals i).num_getters (pos 0)) ≡ true
        → (k : Text) (j : ℕ) → some key ≡ some k
        → search_key k s.key_vals ≡ some j
        → (entry s.key_vals j).lock ≡ 0
    is_free free k j has found' =
        let same : some j ≡ some i = cc (found, found', has) in
        let same' : j ≡ i = cc in rw same' (ground arith)

-- The update of a held key keeps the lock.
put_on_update-Effect :
    (s : Server) (key : Text) (i : ℕ) (l : Locals) (value : Text) (vno : ℤ)
    → IsWord key
    → IsWord value
    → search_key key s.key_vals ≡ some i
    → (entry s.key_vals i).lock ≡ 1
    → Effect s.key_vals
        (await_update key i l)
        (put_on_update s key i l (some (update_msg key value vno))).server.key_vals
        (put_on_update s key i l (some (update_msg key value vno))).thread
put_on_update-Effect s key i l value vno h k found locked =
    let at = modify-entry s.key_vals key (write_key key) found in
    let same : key ≡ (entry s.key_vals i).key = sym (search_key-some key s.key_vals found).1 in
    let found' = search_key-modify key s.key_vals i (write_key key) same ∙ found in
    let both : KeyVal → KeyVal = λ kv. write_value value vno (write_key key kv) in
    rw
      (
        put_on_update_lem s key value vno i l h k found' (ap (λ kv. kv.lock) at ∙ locked),
        modify-modify s.key_vals i (write_key key) (write_value value vno),
      )
      (Effect-own s.key_vals (await_update key i l) key i both
        {t' = await_release key (filled key value vno)} found same (inl refl)
        (
          h,
          refl,
          (
            i,
            search_key-modify key s.key_vals i both same ∙ found,
            ap (λ kv. kv.lock) (modify-entry s.key_vals key both found) ∙ locked,
          ),
        )
        (λ k j has found'. inl has))

put_on_release-Effect :
    (s : Server) (key : Text) (l : Locals) (i : ℕ)
    → IsWord key
    → l.key ≡ key
    → search_key key s.key_vals ≡ some i
    → Effect s.key_vals
        (await_release key l)
        (put_on_release s key l (some (releaselock_msg key))).server.key_vals
        (put_on_release s key l (some (releaselock_msg key))).thread
unfolding put_on_release
put_on_release-Effect s key l i h same found =
    rw (put_on_release, scan_type-releaselock_msg l key h, text_eq_refl (codes "releaselock"))
      (Effect-hang_up s (await_release key l) l.key i
        (ap (λ x. search_key x s.key_vals) same ∙ found) (ap some (sym same)))

-- Any receive.
pub server_thread-Effect :
    (l junk : Locals) (s : Server) (t : Thread) (m : Option Text)
    → Polite s t m
    → Holds s.key_vals t
    → Effect s.key_vals t
        (server_thread l junk s t m).server.key_vals
        (server_thread l junk s t m).thread
unfolding server_thread put_on_update put_on_release
server_thread-Effect l junk s accepted none polite holds =
    Effect-idle s.key_vals accepted s.key_vals {t' = closed} (λ k. refl) (λ i. refl) _ refl
server_thread-Effect l junk s accepted (some msg) (inl (key, h, same)) holds =
    rw (same, response_server-get_msg s l junk key h) (get_response-Effect s accepted key)
server_thread-Effect l junk s accepted (some msg) (inr (key, value, i, h, k, found, same)) holds =
    rw (same, response_server-put_msg s l junk key value h k)
      (put_response-Effect s junk key i h found)
server_thread-Effect l junk s (await_update key i r) none polite (h, found, locked) =
    Effect-hang_up s (await_update key i r) key i found refl
server_thread-Effect l junk s (await_update key i r) (some msg) (value, vno, k, same)
      (h, found, locked) =
    rw same (put_on_update-Effect s key i r value vno h k found locked)
server_thread-Effect l junk s (await_release key r) none polite (h, same, (i, found, locked)) =
    Effect-hang_up s (await_release key r) key i found refl
server_thread-Effect l junk s (await_release key r) (some msg) polite
      (h, same, (i, found, locked)) =
    rw polite (put_on_release-Effect s key r i h same found)
server_thread-Effect l junk s closed m polite holds =
    Effect-idle s.key_vals closed s.key_vals {t' = closed} (λ k. refl) (λ i. refl) _ refl
server_thread-Effect l junk s crashed m polite holds =
    Effect-idle s.key_vals crashed s.key_vals {t' = crashed} (λ k. refl) (λ i. refl) _ refl
