-- ===== src/Server/Exclusion/NewKey.antt =====
-- Two writers of a key that is not in the table.
use os_hw.Prelude.{suc, ◌<◌, ◌≡◌, refl, none, some, [], ◌∷◌, ◌++◌, arith, length, length-append}
use os_hw.Text.{Text, IsWord}
use os_hw.Client.Messages.{put_msg}
use os_hw.Server.Table.{Server, max_keys, init_key_val, search_key, write_lock}
use os_hw.Server.Handlers.{Locals, Outcome, accepted, first_vote}
use os_hw.Server.Thread.{server_thread}
use os_hw.Server.Put.Vote.{response_server-put_msg, put_response_new}
use os_hw.Server.Put.Timeout.{still_missing}
use os_hw.Server.Exclusion.{held}

-- A first request, and one that arrives on another connection behind it.
abbrev pub earlier : Server → Locals → Locals → Text → Text → Outcome
earlier s l junk key value = server_thread l junk s accepted (some (put_msg key value))

abbrev pub later : Server → Locals → Locals → Text → Text → Text → Outcome
later s l junk key value value' = earlier (earlier s l junk key value).server l junk key value'

-- The first of two PUTs of a new key does not keep the second away: if the table has room for two
-- entries, both get a vote, and both threads wait for the update of the key.
pub new_key_shared :
    (s : Server) (l junk : Locals) (key value value' : Text)
    → IsWord key
    → IsWord value
    → IsWord value'
    → search_key key s.key_vals ≡ none
    → suc (length s.key_vals) < max_keys
    → (held (earlier s l junk key value).thread ≡ some key)
      × (held (later s l junk key value value').thread ≡ some key)
      × ((earlier s l junk key value).sent ≡ first_vote s ∷ [])
      × ((later s l junk key value value').sent ≡ first_vote s ∷ [])
unfolding server_thread first_vote
new_key_shared s l junk key value value' h k k' missing room =
    let fresh = write_lock 1 init_key_val in
    let grown = record s { key_vals = s.key_vals ++ fresh ∷ [] } in
    let room1 : length s.key_vals < max_keys = omega arith in
    let room2 : length grown.key_vals < max_keys =
      omega (arith, length-append {0} s.key_vals (fresh ∷ [])) in
    rw
      (
        server_thread,
        response_server-put_msg s l junk key value h k,
        put_response_new s junk key missing room1,
        response_server-put_msg grown l junk key value' h k',
        put_response_new grown junk key (still_missing key s.key_vals h missing) room2,
      )
      (refl, refl, refl, refl)
