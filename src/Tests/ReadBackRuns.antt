-- ===== src/Tests/ReadBackRuns.antt =====
-- A PUT of Client.c that misses a server of Server.c, and a GET that misses another.
use os_hw.Prelude.{
  ◌+ℤ◌, ℕ, zero, suc, ◌<◌, ◌≡◌, ◌≢◌, refl, true, false, [], ◌∷◌, arith, pos, minus_one, ◌≤ℤ◌, inl,
  inr, subst,
}
use os_hw.Text.{atoi, scan_int, skip_space, codes, text_eq, is_space}
use os_hw.Server.Table.{search_key}
use os_hw.Server.Table.Search.{lookup}
use os_hw.Client.Connect.{updating, reading, quorums_ok}
use os_hw.Client.Coordination.{tabulate, main, coordinated}
use os_hw.Client.Coordination.Hosts.{Host, asked, contact, reached}
use os_hw.Client.Coordination.Writers
use os_hw.Client.Coordination.Writers.{Writable, asked_put}
use os_hw.Client.Coordination.Writes
use os_hw.Client.Coordination.Writes.{reached_list}
use os_hw.Client.Coordination.After.{server_after}
use os_hw.Client.Coordination.ReadBack.{client_put_get}
use os_hw.Client.Messages.{update_msg}
use os_hw.Tests.ReadRuns.{key1, v3, entry1, newer, host_of}

-- What a run computes with.
program : Unit {0}
unfolding search_key lookup text_eq is_space
program = tt

-- The first server is out of date, and the PUT misses it.
abbrev host : ℕ → Host
host zero = host_of entry1 false
host (suc i) = host_of newer true

host-Writable : (i : ℕ) → i < 3 → Writable key1 (host i)
unfolding program
host-Writable zero lt = record {
  kv = entry1;
  named = refl;
  free = (refl, refl);
  word = ground arith;
  honest = refl;
  open_sock = λ e. cc e;
}
host-Writable (suc i) lt = record {
  kv = newer;
  named = refl;
  free = (refl, refl);
  word = ground arith;
  honest = refl;
  open_sock = λ e. cc e;
}

-- The GET reaches the first server, and misses the last.
abbrev later : ℕ → Host
later zero = record (host_of entry1 true) { server = server_after key1 v3 (pos 3) (host 0) }
later (suc zero) = record (host_of entry1 true) { server = server_after key1 v3 (pos 3) (host 1) }
later (suc (suc i)) = record (host_of entry1 false) {
  server = server_after key1 v3 (pos 3) (host (suc (suc i)));
}

known : (i : ℕ) (lt : i < 3) → pos 0 ≤ℤ (host-Writable i lt).kv.vno
unfolding host-Writable
known zero lt = omega arith
known (suc i) lt = omega arith

newest :
    (i j : ℕ) (lt : i < 3) (lt' : j < 3)
    → (host i).reachable ≡ true
    → (host-Writable j lt').kv.vno ≤ℤ (host-Writable i lt).kv.vno
unfolding host-Writable
newest zero j lt lt' up = absurd (cc)
newest (suc i) zero lt lt' up = omega arith
newest (suc i) (suc j) lt lt' up = omega arith

after : (i : ℕ) → i < 3 → (later i).server ≡ server_after key1 v3 (pos 3) (host i)
after zero lt = refl
after (suc zero) lt = refl
after (suc (suc i)) lt = refl

open_sock : (i : ℕ) → i < 3 → (later i).sock ≢ minus_one
open_sock zero lt = λ e. cc e
open_sock (suc zero) lt = λ e. cc e
open_sock (suc (suc i)) lt = λ e. cc e

next :
    (i : ℕ) (lt : i < 3) → (host i).reachable ≡ true → (host-Writable i lt).kv.vno +ℤ pos 1 ≡ pos 3
unfolding host-Writable ◌+ℤ◌
next zero lt up = absurd (cc)
next (suc i) lt up = refl

put :
    main
      (codes "3" ∷ codes "2" ∷ codes "2" ∷ codes "PUT" ∷ key1 ∷ v3 ∷ [])
      (λ i. asked_put key1 v3 (host i))
    ≡ coordinated (
      tabulate 0 3 (Writers.contact key1 v3 host),
      updating (pos 3) (update_msg key1 v3 (pos 3)) (reached_list 0 3 host),
    )
unfolding program atoi scan_int skip_space quorums_ok reached
put =
    elim (Writes.client_put key1 v3 3 2 2 host (ground arith) (ground arith) host-Writable
      (codes "3") (codes "2") (codes "2") refl refl refl refl) [
        | inl few ↦ absurd (omega (arith, few.0))
        | inr sent ↦
            let (i, lt, up, e, _) = sent in
            subst
              (λ v.
                main (codes "3" ∷ codes "2" ∷ codes "2" ∷ codes "PUT" ∷ key1 ∷ v3 ∷ [])
                  (λ i. asked_put key1 v3 (host i))
                ≡ coordinated (
                  tabulate 0 3 (Writers.contact key1 v3 host),
                  updating v (update_msg key1 v3 v) (reached_list 0 3 host),
                ))
              (next i lt up) e
      ]

client_put_get_example :
    main (codes "3" ∷ codes "2" ∷ codes "2" ∷ codes "GET" ∷ key1 ∷ []) (λ i. asked key1 (later i))
    ≡ coordinated (tabulate 0 3 (contact key1 later), reading key1 v3)
unfolding program atoi scan_int skip_space quorums_ok reached
client_put_get_example =
    client_put_get key1 v3 3 2 2 host later (pos 3) (ground arith) (ground arith) host-Writable
      known newest after open_sock (codes "3") (codes "2") (codes "2") refl refl refl refl put
      (omega arith)
