-- ===== src/Server/Put.antt =====
-- A whole PUT connection, from the request to the release, that no other connection interrupts.
pub mod Vote
pub mod Session
pub mod Timeout
pub mod Progress
use os_hw.Prelude.{
  ℕ, ◌<◌, ◌≡◌, refl, ap, ◌∙◌, Bool, true, false, Option, none, some, List, [], ◌∷◌, ◌++◌, arith,
  ◌==◌, if◌then◌else◌, length, modify, length-modify, get_or-modify_self, get_or-append_length,
  modify-append_length, modify-modify, ℤ, pos, negsuc, minus_one, ltb, lt→ltb,
}
use os_hw.Text.{
  Text, codes, text_eq, text_eq_refl, IsWord, words, print_int, scan_int, scan_int-print_int,
}
use os_hw.Client.Messages.{
  get_msg, put_msg, update_msg, releaselock_msg, words-get_msg, words-put_msg, words-update_msg,
  words-releaselock_msg,
}
use os_hw.Server.Table.{
  KeyVal, Server, max_keys, init_key_val, search_key, entry, write_value, write_key, write_lock,
  update_key,
}
use os_hw.Server.Table.Search.{
  lookup, search_key-some, search_key-modify, search_key-append, lookup-modify, lookup-append,
  lookup_of_none,
}
use os_hw.Server.Thread.{server_thread, session}
use os_hw.Server.Handlers.{
  Locals, Outcome, Thread, scan_type, scan_update, scan_number, await_update, await_release, closed,
  put_on_update, put_on_release, update_response, releaselock_response, updatedone_msg, hang_up,
}

-- The entry that a complete write leaves.
abbrev pub written : Text → Text → ℤ → KeyVal → KeyVal
written key value vno kv = record kv { key = key; value = value; vno = vno; lock = 0 }

pub releaselock_response_lem :
    (s : Server) (key : Text) {i : ℕ}
    → search_key key s.key_vals ≡ some i
    → releaselock_response s key ≡ record s { key_vals = modify s.key_vals i (write_lock 0) }
unfolding releaselock_response
releaselock_response_lem s key h = rw (h, releaselock_response)

update_response_lem :
    (s : Server) (key value : Text) (vno : ℤ) {i : ℕ}
    → search_key key s.key_vals ≡ some i
    → (entry s.key_vals i).lock ≡ 1
    → update_response s key value vno ≡ (
      record s { key_vals = modify s.key_vals i (write_value value vno) },
      updatedone_msg key ∷ [],
    )
unfolding update_response update_key
update_response_lem s key value vno h k = rw (h, k, update_response, update_key)

-- What the scans leave of the client's messages.
abbrev pub filled : Text → Text → ℤ → Locals
filled key value vno = record { msg_type = codes "update"; key = key; value = value; vno = vno }

scan_type-update_msg :
    (l : Locals) (key value : Text) (vno : ℤ)
    → IsWord key
    → IsWord value
    → scan_type l (update_msg key value vno) ≡ record l { msg_type = codes "update" }
unfolding scan_type
scan_type-update_msg l key value vno h k = rw (words-update_msg key value vno h k)

scan_update-update_msg :
    (l : Locals) (key value : Text) (vno : ℤ)
    → IsWord key
    → IsWord value
    → scan_update (record l { msg_type = codes "update" }) (update_msg key value vno)
      ≡ filled key value vno
unfolding scan_update scan_number
scan_update-update_msg l key value vno h k =
    rw (words-update_msg key value vno h k, scan_number, scan_int-print_int vno)

pub scan_type-releaselock_msg :
    (l : Locals) (key : Text)
    → IsWord key
    → scan_type l (releaselock_msg key) ≡ record l { msg_type = codes "releaselock" }
unfolding scan_type
scan_type-releaselock_msg l key h = rw (words-releaselock_msg key h)

put_on_release_lem :
    (s : Server) (key value : Text) (vno : ℤ) {i : ℕ}
    → IsWord key
    → search_key key s.key_vals ≡ some i
    → put_on_release s key (filled key value vno) (some (releaselock_msg key)) ≡ record {
      server = record s { key_vals = modify s.key_vals i (write_lock 0) };
      sent = [];
      thread = closed;
    }
unfolding put_on_release
put_on_release_lem s key value vno h found = rw (
  put_on_release,
  scan_type-releaselock_msg (filled key value vno) key h,
  text_eq_refl (codes "releaselock"),
  releaselock_response_lem s key found,
)

module _ (s : Server) (key value : Text) (vno : ℤ) (i : ℕ) (l : Locals) (h : IsWord key)
    (k : IsWord value) where
  abbrev named : List KeyVal
  named = modify s.key_vals i (write_key key)

  pub put_on_update_lem :
      search_key key named ≡ some i
      → (entry named i).lock ≡ 1
      → put_on_update s key i l (some (update_msg key value vno)) ≡ record {
        server = record s { key_vals = modify named i (write_value value vno) };
        sent = updatedone_msg key ∷ [];
        thread = await_release key (filled key value vno);
      }
  unfolding put_on_update
  put_on_update_lem found locked = rw (
    put_on_update,
    scan_type-update_msg l key value vno h k,
    scan_update-update_msg l key value vno h k,
    text_eq_refl (codes "update"),
    update_response_lem (record s { key_vals = named }) key value vno found locked,
  )

  -- From a locked entry, the update and the release write the entry and free it.
  finish_lem :
      i < length s.key_vals
      → search_key key named ≡ some i
      → (entry s.key_vals i).lock ≡ 1
      → (stack junk : Locals)
      → session stack junk s
          (await_update key i l)
          (some (update_msg key value vno) ∷ some (releaselock_msg key) ∷ [])
        ≡ record {
          server = record s { key_vals = modify s.key_vals i (written key value vno) };
          sent = updatedone_msg key ∷ [];
          thread = closed;
        }
  unfolding session server_thread
  finish_lem lt found locked stack junk =
      let locked' = get_or-modify_self s.key_vals i (write_key key) init_key_val lt in
      let wrote = modify named i (write_value value vno) in
      let found' = search_key-modify key named i (write_value value vno) refl ∙ found in
      rw (
        put_on_update_lem found (ap (λ kv. kv.lock) locked' ∙ locked),
        put_on_release_lem (record s { key_vals = wrote }) key value vno h found',
        modify-modify s.key_vals i (write_key key) (write_value value vno),
        modify-modify s.key_vals i _ (write_lock 0),
      )
