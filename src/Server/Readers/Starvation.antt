-- ===== src/Server/Readers/Starvation.antt =====
-- What a negative count of readers means for the writers, in all runs of the server whose threads go
-- from one receive to the next undisturbed.
use os_hw.Prelude.{
  ℕ, zero, suc, ◌≡◌, subst, Option, none, some, List, [], ◌∷◌, arith, modify, ℤ, pos, ◌<ℤ◌,
  Bool-cases, inl, inr,
}
use os_hw.Text.{Text, codes, text_eq, IsWord}
use os_hw.Client.Messages.{put_msg}
use os_hw.Server.Table.{KeyVal, Server, search_key, entry, write_key}
use os_hw.Server.Handlers.{
  Locals, Thread, accepted, await_update, await_release, closed, crashed, update_response, put_lock,
  put_response, put_on_update, put_on_release, response_server, scan_type, scan_request,
  scan_update, known_vote,
}
use os_hw.Server.Thread.{server_thread, System, receive, Reach, here, next}
use os_hw.Server.Put.Vote.{response_server-put_msg}
use os_hw.Server.Readers.{
  Lower, Lower-refl, Lower-trans, Lower-modify, get_response-Lower, releaselock_response-Lower,
  update_key-Lower, put_response-Lower,
}

update_response-Lower :
    (s : Server) (key value : Text) (vno : ℤ)
    → Lower s.key_vals (update_response s key value vno).0.key_vals
unfolding update_response
update_response-Lower s key value vno = update_key-Lower s.key_vals key value vno

put_on_update-Lower :
    (s : Server) (key : Text) (i : ℕ) (l : Locals) (m : Option Text)
    → Lower s.key_vals (put_on_update s key i l m).server.key_vals
unfolding put_on_update
put_on_update-Lower s key i l none = releaselock_response-Lower s key
put_on_update-Lower s key i l (some msg) =
    elim (Bool-cases (text_eq (scan_type l msg).msg_type (codes "update"))) [
      | inl update ↦
          let l' = scan_update (scan_type l msg) msg in
          let named = record s { key_vals = modify s.key_vals i (write_key l'.key) } in
          rw (put_on_update, update)
            (Lower-trans s.key_vals named.key_vals
              (update_response named l'.key l'.value l'.vno).0.key_vals
              (Lower-modify s.key_vals i (write_key l'.key) (λ kv. omega arith))
              (update_response-Lower named l'.key l'.value l'.vno))
      | inr other ↦ rw (put_on_update, other) (releaselock_response-Lower s key)
    ]

put_on_release-Lower :
    (s : Server) (key : Text) (l : Locals) (m : Option Text)
    → Lower s.key_vals (put_on_release s key l m).server.key_vals
unfolding put_on_release
put_on_release-Lower s key l none = releaselock_response-Lower s key
put_on_release-Lower s key l (some msg) =
    elim (Bool-cases (text_eq (scan_type l msg).msg_type (codes "releaselock"))) [
      | inl release ↦ rw (put_on_release, release) (releaselock_response-Lower s l.key)
      | inr other ↦ rw (put_on_release, other) (releaselock_response-Lower s key)
    ]

response_server-Lower :
    (s : Server) (l junk : Locals) (msg : Text)
    → Lower s.key_vals (response_server s l junk msg).server.key_vals
unfolding response_server
response_server-Lower s l junk msg =
    let r = scan_request l msg in
    elim (Bool-cases (text_eq r.msg_type (codes "GET"))) [
      | inl get ↦ rw (response_server, get) (get_response-Lower s r.key)
      | inr no_get ↦ elim (Bool-cases (text_eq r.msg_type (codes "PUT"))) [
        | inl put ↦ rw (response_server, no_get, put) (put_response-Lower s junk r.key)
        | inr no_put ↦ elim (Bool-cases (text_eq r.msg_type (codes "update"))) [
          | inl update ↦
              rw (response_server, no_get, no_put, update)
                (update_response-Lower s r.key r.value r.vno)
          | inr no_update ↦ elim (Bool-cases (text_eq r.msg_type (codes "releaselock"))) [
            | inl release ↦
                rw (response_server, no_get, no_put, no_update, release)
                  (releaselock_response-Lower s r.key)
            | inr other ↦
                rw (response_server, no_get, no_put, no_update, other) (Lower-refl s.key_vals)
          ]
        ]
      ]
    ]

server_thread-Lower :
    (l junk : Locals) (s : Server) (t : Thread) (m : Option Text)
    → Lower s.key_vals (server_thread l junk s t m).server.key_vals
unfolding server_thread
server_thread-Lower l junk s accepted none = Lower-refl s.key_vals
server_thread-Lower l junk s accepted (some msg) = response_server-Lower s l junk msg
server_thread-Lower l junk s (await_update key i r) m = put_on_update-Lower s key i r m
server_thread-Lower l junk s (await_release key r) m = put_on_release-Lower s key r m
server_thread-Lower l junk s closed m = Lower-refl s.key_vals
server_thread-Lower l junk s crashed m = Lower-refl s.key_vals

-- Whatever the clients send, and in whatever order, if a thread that has received runs until it
-- waits again before another goes on, then between these runs no entry is lost and no count of
-- readers is higher than it was.
pub Reach-Lower :
    {l junk : Locals} {y z : System} → Reach l junk y z → Lower y.server.key_vals z.server.key_vals
Reach-Lower {y} here = Lower-refl y.server.key_vals
Reach-Lower {l} {junk} {y} (next {u} r (receive i m {o} e)) =
    Lower-trans y.server.key_vals u.server.key_vals o.server.key_vals (Reach-Lower r) (
      subst (λ p. Lower u.server.key_vals p.server.key_vals) e
        (server_thread-Lower l junk u.server (u.thread i) m))

Lower-entry :
    (kvs kvs' : List KeyVal) (i : ℕ)
    → Lower kvs kvs'
    → (entry kvs i).num_getters <ℤ pos 0
    → (entry kvs' i).num_getters <ℤ pos 0
Lower-entry [] kvs' i h k = absurd (omega arith)
Lower-entry (kv ∷ kvs) [] i h k = absurd h
Lower-entry (kv ∷ kvs) (kv' ∷ kvs') zero h k = omega arith
Lower-entry (kv ∷ kvs) (kv' ∷ kvs') (suc i) h k = Lower-entry kvs kvs' i h.1 k

put_lock_refused :
    (s : Server) (l : Locals) (key : Text) (i : ℕ) (msg : Text)
    → (entry s.key_vals i).num_getters <ℤ pos 0
    → put_lock s l key i msg ≡ record { server = s; sent = []; thread = closed }
unfolding put_lock
put_lock_refused s l key i msg h = ground arith

-- If a thread that has received runs until it waits again before another goes on, then, once the
-- count of readers of an entry is negative, the entry is not given to a writer again: in every state
-- that can be reached so, a PUT whose key is found at that entry gets no vote and changes nothing.
pub starved_forever :
    {l junk : Locals} {y z : System} (i : ℕ) (key value : Text)
    → (entry y.server.key_vals i).num_getters <ℤ pos 0
    → Reach l junk y z
    → IsWord key
    → IsWord value
    → search_key key z.server.key_vals ≡ some i
    → response_server z.server l junk (put_msg key value)
      ≡ record { server = z.server; sent = []; thread = closed }
unfolding put_response
starved_forever {l} {junk} {y} {z} i key value h r k v found =
    let low = Lower-entry y.server.key_vals z.server.key_vals i (Reach-Lower r) h in
    rw (
      response_server-put_msg z.server l junk key value k v,
      put_response,
      found,
      put_lock_refused z.server junk key i (known_vote z.server (entry z.server.key_vals i)) low,
    )
