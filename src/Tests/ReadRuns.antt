-- ===== src/Tests/ReadRuns.antt =====
-- A GET and a PUT of Client.c at three servers of Server.c, one of which cannot be reached.
use os_hw.Prelude.{
  ℕ, zero, suc, ◌<◌, ◌≡◌, refl, ◌⊎◌, Bool, true, false, [], ◌∷◌, arith, pos, minus_one, ◌≤ℤ◌,
}
use os_hw.Text.{atoi, scan_int, skip_space, Text, codes, text_eq, is_space}
use os_hw.Server.Table.{KeyVal, init_key_val, write_value, search_key}
use os_hw.Server.Table.Search.{lookup}
use os_hw.Server.Handlers.{Locals}
use os_hw.Client.Connect.{below_read_quorum, reading, quorums_ok}
use os_hw.Client.Coordination.{tabulate, main, coordinated}
use os_hw.Client.Coordination.Hosts.{Host, asked, Truthful, reached, contact}
use os_hw.Client.Coordination.Reads
use os_hw.Client.Coordination.Writers
use os_hw.Client.Coordination.Writers.{Writable}
use os_hw.Client.Coordination.Writes

-- What a run computes with.
program : Unit {0}
unfolding search_key lookup text_eq is_space
program = tt

abbrev junk : Locals
junk = record { msg_type = []; key = []; value = []; vno = minus_one }

abbrev pub key1 : Text
key1 = codes "key1"

abbrev pub entry1 : KeyVal
entry1 = record {
  key = key1;
  value = codes "value1";
  sock = pos 0;
  vno = pos 1;
  lock = 0;
  num_getters = pos 0;
  cond_wait_lock = 1;
}

abbrev pub newer : KeyVal
newer = write_value (codes "v2") (pos 2) entry1

abbrev pub host_of : KeyVal → Bool → Host
host_of kv up = record {
  server = record { key_vals = kv ∷ []; lier = pos 0 };
  stack = junk;
  junk = junk;
  reachable = up;
  sock = pos 7;
  old = init_key_val;
  ret_msg = [];
}

abbrev host : ℕ → Host
host zero = host_of entry1 true
host (suc zero) = host_of newer true
host (suc (suc i)) = host_of newer false

host-Truthful : (i : ℕ) → i < 3 → Truthful key1 (host i)
unfolding program
host-Truthful zero lt = record {
  kv = entry1;
  named = refl;
  free = refl;
  word = ground arith;
  version = omega arith;
  honest = refl;
  open_sock = λ e. cc e;
}
host-Truthful (suc zero) lt = record {
  kv = newer;
  named = refl;
  free = refl;
  word = ground arith;
  version = omega arith;
  honest = refl;
  open_sock = λ e. cc e;
}
host-Truthful (suc (suc i)) lt = record {
  kv = newer;
  named = refl;
  free = refl;
  word = ground arith;
  version = omega arith;
  honest = refl;
  open_sock = λ e. cc e;
}

client_get_example :
    ((reached 0 3 host < 2)
      × (main
            (codes "3" ∷ codes "2" ∷ codes "2" ∷ codes "GET" ∷ key1 ∷ [])
            (λ i. asked key1 (host i))
          ≡ coordinated (tabulate 0 3 (contact key1 host), below_read_quorum)))
    ⊎ ((i : ℕ) × (lt : i < 3) × ((host i).reachable ≡ true)
        × (main
              (codes "3" ∷ codes "2" ∷ codes "2" ∷ codes "GET" ∷ key1 ∷ [])
              (λ i. asked key1 (host i))
            ≡ coordinated
                (tabulate 0 3 (contact key1 host), reading key1 (host-Truthful i lt).kv.value))
        × ((j : ℕ) (lt' : j < 3)
            → (host j).reachable ≡ true
            → (host-Truthful j lt').kv.vno ≤ℤ (host-Truthful i lt).kv.vno))
unfolding program atoi scan_int skip_space quorums_ok
client_get_example =
    Reads.client_get key1 3 2 2 host (ground arith) host-Truthful (codes "3") (codes "2")
      (codes "2") refl refl refl refl (omega arith)

abbrev pub v3 : Text
v3 = codes "v3"

host-Writable : (i : ℕ) → i < 3 → Writable key1 (host i)
unfolding program
host-Writable zero lt = record {
  kv = entry1;
  named = refl;
  free = (refl, refl);
  word = ground arith;
  honest = refl;
  open_sock = λ e. cc e;
}
host-Writable (suc zero) lt = record {
  kv = newer;
  named = refl;
  free = (refl, refl);
  word = ground arith;
  honest = refl;
  open_sock = λ e. cc e;
}
host-Writable (suc (suc i)) lt = record {
  kv = newer;
  named = refl;
  free = (refl, refl);
  word = ground arith;
  honest = refl;
  open_sock = λ e. cc e;
}
