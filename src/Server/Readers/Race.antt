-- ===== src/Server/Readers/Race.antt =====
-- `numGetters++` and `atomicDecr` in `getResponse` of Server.c, with a step of its own for each access
-- to the entry, and what two GETs at once leave to a PUT.
use os_hw.Prelude.{Bool, true, false, List, [], ◌∷◌, ◌==◌, if◌then◌else◌, ℤ, pos, minus_one, ◌+ℤ◌}
use os_hw.Server.Table.{KeyVal}
use os_hw.Server.Handlers.{add_getters}
use os_hw.Server.Exclusion.Race.{Voter, at_test, vote_step}

-- Where a thread stands: before it tests the lock, reads the count, writes the count that it read
-- and raised, or lowers the count, and behind that.
pub data Reader : Type 0 where
  get_test : Reader
  get_read : Reader
  get_write : ℤ → Reader
  get_leave : Reader
  get_done : Reader

abbrev pub set_getters : ℤ → KeyVal → KeyVal
set_getters n kv = record kv { num_getters = n }

-- A step of a thread: the entry, and where the thread stands afterwards. A thread that finds the
-- lock taken does not count itself, but lowers the count. The reply is sent in front of `get_leave`,
-- where `atomicDecr` takes effect in one step.
unfoldable pub get_step : KeyVal → Reader → KeyVal × Reader
get_step kv get_test = (kv, if kv.lock == 0 then get_read else get_leave)
get_step kv get_read = (kv, get_write kv.num_getters)
get_step kv (get_write tmp) = (set_getters (tmp +ℤ pos 1) kv, get_leave)
get_step kv get_leave = (add_getters minus_one kv, get_done)
get_step kv get_done = (kv, get_done)

-- Two threads on one entry: `false` is a step of the first, `true` one of the second.
unfoldable pub get_run : KeyVal → Reader → Reader → List Bool → KeyVal × (Reader × Reader)
get_run kv a b [] = (kv, (a, b))
get_run kv a b (false ∷ sch) = get_run (get_step kv a).0 (get_step kv a).1 b sch
get_run kv a b (true ∷ sch) = get_run (get_step kv b).0 a (get_step kv b).1 sch

-- One after the other.
abbrev pub apart : List Bool
apart = false ∷ false ∷ false ∷ false ∷ true ∷ true ∷ true ∷ true ∷ []

-- Both read the count before either writes it.
abbrev pub both_read : List Bool
both_read = false ∷ true ∷ false ∷ true ∷ false ∷ true ∷ false ∷ true ∷ []

-- The first lowers the count between the read and the write of the second.
abbrev pub lowered_between : List Bool
lowered_between = false ∷ false ∷ false ∷ true ∷ true ∷ false ∷ true ∷ true ∷ []

-- A PUT that tests the entry when both are through.
abbrev pub put_after : KeyVal → List Bool → Voter
put_after kv sch = (vote_step (get_run kv get_test get_test sch).0 at_test).1

abbrev idle : KeyVal → KeyVal
idle kv = record kv { lock = 0; num_getters = pos 0 }
