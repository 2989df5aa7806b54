-- ===== src/Client/Coordination/ReadBack.antt =====
-- A PUT and the GET of its key after it: `main` of Client.c run twice, and the servers between.
use os_hw.Prelude.{
  ℕ, zero, suc, ◌+◌, ◌≤◌, ◌<◌, ◌≡◌, ◌≢◌, sym, subst, true, ◌&&◌, [], ◌∷◌, arith, if◌then◌else◌,
  Bool-cases, inl, inr, ℤ, pos, minus_one, ◌+ℤ◌, ◌≤ℤ◌, ◌<ℤ◌, +ℤ_parts,
}
use os_hw.Text.{atoi, Text, codes, IsWord}
use os_hw.Server.Put.{written}
use os_hw.Client.Messages.{update_msg}
use os_hw.Client.Connect.{updating, reading, quorums_ok}
use os_hw.Client.Coordination.{tabulate, coordinated, main}
use os_hw.Client.Coordination.Hosts
use os_hw.Client.Coordination.Hosts.{Host, Truthful, asked, reached}
use os_hw.Client.Coordination.Reads
use os_hw.Client.Coordination.Writers.{Writable, asked_put, contact}
use os_hw.Client.Coordination.Writes.{reached_list, reached_of_updating, version_of_updating}
use os_hw.Client.Coordination.After.{server_after, new_value, truthful_after}

-- Two sets of servers that can be reached, together more than all servers, have one in common.
meet :
    (i n : ℕ) (host host' : ℕ → Host)
    → n < reached i n host + reached i n host'
    → (j : ℕ) × (j < i + n) × ((host j).reachable ≡ true) × ((host' j).reachable ≡ true)
unfolding reached
meet i zero host host' h = absurd (omega arith)
meet i (suc n) host host' h = elim (Bool-cases ((host i).reachable && (host' i).reachable)) [
  | inl both ↦ (i, omega arith, ground arith, ground arith)
  | inr apart ↦
      let (j, lt, up, up') = meet (suc i) n host host' (ground arith) in
      (j, omega (arith, lt), up, up')
]

common :
    (n nr nw : ℕ) (host host' : ℕ → Host)
    → quorums_ok n nr nw ≡ true
    → nw ≤ reached 0 n host
    → nr ≤ reached 0 n host'
    → (j : ℕ) × (j < n) × ((host j).reachable ≡ true) × ((host' j).reachable ≡ true)
unfolding quorums_ok
common n nr nw host host' ok many enough =
    let (j, lt, up, up') = meet 0 n host host' (ground arith) in (j, omega (arith, lt), up, up')

below_next : (x v w : ℤ) → x ≤ℤ v → w ≡ v +ℤ pos 1 → x <ℤ w
below_next x v w le e = subst (λ u. x <ℤ u) (sym e) (omega (arith, +ℤ_parts v (pos 1), le))

reached_le : (i n : ℕ) (host : ℕ → Host) → reached i n host ≤ n
unfolding reached
reached_le i zero host = omega arith
reached_le i (suc n) host = let le = reached_le (suc i) n host in ground arith

module _ (key val : Text) (n nr nw : ℕ) (host host' : ℕ → Host) (vno : ℤ) (word : IsWord key)
    (word' : IsWord val) (writable : (i : ℕ) → i < n → Writable key (host i))
    (known : (i : ℕ) (lt : i < n) → pos 0 ≤ℤ (writable i lt).kv.vno)
    (newest : (i j : ℕ) (lt : i < n) (lt' : j < n)
      → (host i).reachable ≡ true
      → (writable j lt').kv.vno ≤ℤ (writable i lt).kv.vno)
    (after : (i : ℕ) → i < n → (host' i).server ≡ server_after key val vno (host i))
    (open_sock : (i : ℕ) → i < n → (host' i).sock ≢ minus_one) where
  truthful : pos 0 ≤ℤ vno → (i : ℕ) → i < n → Truthful key (host' i)
  truthful le i lt =
      truthful_after key val vno (host i) (writable i lt) word word' (host' i) (after i lt)
        (open_sock i lt) (known i lt) le

  -- A server whose entry is now as new as that of one that the PUT reached, and was older than
  -- the PUT, has its value.
  value_lem :
      (le : pos 0 ≤ℤ vno) (i j : ℕ) (lt : i < n) (lt' : j < n)
      → (host j).reachable ≡ true
      → (writable i lt).kv.vno <ℤ vno
      → (truthful le j lt').kv.vno ≤ℤ (truthful le i lt).kv.vno
      → (truthful le i lt).kv.value ≡ val
  unfolding truthful truthful_after
  value_lem le i j lt lt' up older newer =
      let kv = (writable j lt').kv in
      new_value key val vno (host i) (writable i lt).kv older (
        subst (λ b. (if b then written key val vno kv else kv).vno ≤ℤ (truthful le i lt).kv.vno) up
          newer)

  -- With numbers that `main` accepts, a key and a value that are words, and truthful servers that
  -- all have the key free, at versions from 0 on, none newer than that of any server that a PUT
  -- reaches: if the PUT sends its update, and then, with nothing else between them, a GET reaches a
  -- read quorum of the servers, whichever they are, on valid sockets, the GET reads the value of
  -- the PUT.
  pub client_put_get :
      (an anr anw : Text)
      → atoi an ≡ pos n
      → atoi anr ≡ pos nr
      → atoi anw ≡ pos nw
      → quorums_ok n nr nw ≡ true
      → main (an ∷ anr ∷ anw ∷ codes "PUT" ∷ key ∷ val ∷ []) (λ i. asked_put key val (host i))
        ≡ coordinated (
          tabulate 0 n (contact key val host),
          updating vno (update_msg key val vno) (reached_list 0 n host),
        )
      → nr ≤ reached 0 n host'
      → main (an ∷ anr ∷ anw ∷ codes "GET" ∷ key ∷ []) (λ i. asked key (host' i))
        ≡ coordinated (tabulate 0 n (Hosts.contact key host'), reading key val)
  unfolding quorums_ok
  client_put_get an anr anw en enr enw ok wrote enough =
      let written_to =
        reached_of_updating key val n nr nw host word word' writable an anr anw en enr enw ok
          wrote in
      let bound = reached_le 0 n host in
      let (k, ltk, upk, vno_lem) =
        version_of_updating key val n nr nw host word word' writable an anr anw en enr enw ok
          wrote in
      let older = λ (x : ℤ) (le : x ≤ℤ (writable k ltk).kv.vno).
        below_next x (writable k ltk).kv.vno vno le vno_lem in
      let le : pos 0 ≤ℤ vno = omega (arith, older (pos 0) (known k ltk)) in
      let (j, ltj, up, up') = common n nr nw host host' ok written_to enough in
      elim (Reads.client_get key n nr nw host' word (truthful le) an anr anw en enr enw ok
        (ground arith)) [
          | inl few ↦ absurd (omega (arith, few.0))
          | inr read ↦
              let (i, lt, _, e, newest') = read in
              let value =
                value_lem le i j lt ltj up (older (writable i lt).kv.vno (newest k i ltk lt upk))
                  (newest' j ltj up') in
              subst
                (λ v.
                  main (an ∷ anr ∷ anw ∷ codes "GET" ∷ key ∷ []) (λ i. asked key (host' i))
                  ≡ coordinated (tabulate 0 n (Hosts.contact key host'), reading key v))
                value e
        ]
