-- ===== src/Server/Readers.antt =====
-- No handler of Server.c that runs undisturbed leaves the count of readers (`numGetters`) higher than
-- it found it.
pub mod Starvation
pub mod Race
use os_hw.Prelude.{
  ℕ, zero, suc, ◌<◌, ◌≡◌, refl, sym, ap, subst, ◌∙◌, ◌≢◌, true, false, Option, none, some, List, [],
  ◌∷◌, ◌++◌, arith, ◌==◌, ◌&&◌, ltb, if◌then◌else◌, length, modify, modify-modify, ℤ, pos, negsuc,
  minus_one, ◌+ℤ◌, ◌≤ℤ◌, ◌<ℤ◌, +ℤ_parts, int_laws, eqb_ℤ, Option-cases, Bool-cases, inl, inr,
}
use os_hw.Text.{Text, codes, text_eq, IsWord}
use os_hw.Client.Messages.{put_msg}
use os_hw.Server.Table.{
  KeyVal, Server, max_keys, init_key_val, search_key, entry, write_value, write_key, write_lock,
  update_key,
}
use os_hw.Server.Handlers.{
  Locals, Outcome, Thread, accepted, await_update, await_release, closed, crashed, add_getters,
  get_response, update_response, releaselock_response, put_lock, put_response, put_on_update,
  put_on_release, response_server, scan_type, scan_request, scan_update, known_vote, first_vote,
}
use os_hw.Server.Thread.{server_thread, System, Step, receive, Reach, here, next}
use os_hw.Server.Put.Vote.{response_server-put_msg}

-- No entry goes away, and no count of readers is higher than before.
abbrev pub Lower : List KeyVal → List KeyVal → Type 0
Lower [] kvs' = Unit
Lower (kv ∷ kvs) [] = ⊥
Lower (kv ∷ kvs) (kv' ∷ kvs') = (kv'.num_getters ≤ℤ kv.num_getters) × Lower kvs kvs'

Lower-refl : (kvs : List KeyVal) → Lower kvs kvs
Lower-refl [] = tt
Lower-refl (kv ∷ kvs) = (omega arith, Lower-refl kvs)

Lower-trans : (a b c : List KeyVal) → Lower a b → Lower b c → Lower a c
Lower-trans [] b c h k = tt
Lower-trans (x ∷ a) [] c h k = absurd h
Lower-trans (x ∷ a) (y ∷ b) [] h k = absurd k
Lower-trans (x ∷ a) (y ∷ b) (z ∷ c) h k = (omega arith, Lower-trans a b c h.1 k.1)

Lower-modify :
    (kvs : List KeyVal) (i : ℕ) (f : KeyVal → KeyVal)
    → ((kv : KeyVal) → (f kv).num_getters ≤ℤ kv.num_getters)
    → Lower kvs (modify kvs i f)
Lower-modify [] i f h = tt
Lower-modify (kv ∷ kvs) zero f h = (h kv, Lower-refl kvs)
Lower-modify (kv ∷ kvs) (suc i) f h = (omega arith, Lower-modify kvs i f h)

Lower-append : (kvs : List KeyVal) (kv : KeyVal) → Lower kvs (kvs ++ kv ∷ [])
Lower-append [] kv = tt
Lower-append (x ∷ kvs) kv = (omega arith, Lower-append kvs kv)

get_response-Lower : (s : Server) (key : Text) → Lower s.key_vals (get_response s key).0.key_vals
unfolding get_response
get_response-Lower s key = elim (Option-cases (search_key key s.key_vals)) [
  | inl missing ↦ rw (missing, get_response) (Lower-refl s.key_vals)
  | inr (i, found) ↦ elim (Bool-cases ((entry s.key_vals i).lock == 0)) [
    | inl free ↦
        rw
          (
            found,
            get_response,
            free,
            modify-modify s.key_vals i (add_getters (pos 1)) (add_getters minus_one),
          )
          (Lower-modify s.key_vals i _ (λ kv. omega int_laws))
    | inr locked ↦
        rw (found, get_response, locked)
          (Lower-modify s.key_vals i (add_getters minus_one) (λ kv. omega int_laws))
  ]
]

releaselock_response-Lower :
    (s : Server) (key : Text) → Lower s.key_vals (releaselock_response s key).key_vals
unfolding releaselock_response
releaselock_response-Lower s key = elim (Option-cases (search_key key s.key_vals)) [
  | inl missing ↦ rw (missing, releaselock_response) (Lower-refl s.key_vals)
  | inr (i, found) ↦
      rw (found, releaselock_response)
        (Lower-modify s.key_vals i (write_lock 0) (λ kv. omega arith))
]

update_key-Lower :
    (kvs : List KeyVal) (key value : Text) (vno : ℤ) → Lower kvs (update_key kvs key value vno).0
unfolding update_key
update_key-Lower kvs key value vno = elim (Option-cases (search_key key kvs)) [
  | inl missing ↦ rw (missing, update_key) (Lower-refl kvs)
  | inr (i, found) ↦ elim (Bool-cases ((entry kvs i).lock == 0)) [
    | inl free ↦ rw (found, update_key, free) (Lower-refl kvs)
    | inr locked ↦
        rw (found, update_key, locked)
          (Lower-modify kvs i (write_value value vno) (λ kv. omega arith))
  ]
]

put_lock-Lower :
    (s : Server) (l : Locals) (key : Text) (i : ℕ) (msg : Text)
    → Lower s.key_vals (put_lock s l key i msg).server.key_vals
unfolding put_lock
put_lock-Lower s l key i msg =
    elim (Bool-cases
      ((entry s.key_vals i).lock == 0 && eqb_ℤ (entry s.key_vals i).num_getters (pos 0))) [
        | inl free ↦
            rw (put_lock, free) (Lower-modify s.key_vals i (write_lock 1) (λ kv. omega arith))
        | inr busy ↦ rw (put_lock, busy) (Lower-refl s.key_vals)
      ]

put_response-Lower :
    (s : Server) (l : Locals) (key : Text) → Lower s.key_vals (put_response s l key).server.key_vals
unfolding put_response
put_response-Lower s l key = elim (Option-cases (search_key key s.key_vals)) [
  | inl missing ↦ elim (Bool-cases (ltb (length s.key_vals) max_keys)) [
    | inl room ↦
        let grown = record s { key_vals = s.key_vals ++ init_key_val ∷ [] } in
        rw (missing, put_response, room)
          (Lower-trans s.key_vals grown.key_vals
            (put_lock grown l key (length s.key_vals) (first_vote s)).server.key_vals
            (Lower-append s.key_vals init_key_val)
            (put_lock-Lower grown l key (length s.key_vals) (first_vote s)))
    | inr full ↦ rw (missing, put_response, full) (Lower-refl s.key_vals)
  ]
  | inr (i, found) ↦
      rw (found, put_response) (put_lock-Lower s l key i (known_vote s (entry s.key_vals i)))
]
