-- ===== src/Client/Coordination/Reads.antt =====
-- A whole GET: `main` of Client.c, its threads, and the servers that they ask.
use os_hw.Prelude.{
  ℕ, ◌≤◌, ◌<◌, ◌≡◌, refl, sym, ap, subst, ◌∙◌, true, false, some, List, [], ◌∷◌, arith, get_elem?,
  get_or_of_get_elem?, ltb, Bool-cases, ◌⊎◌, inl, inr, pos, ◌≤ℤ◌, leb_ℤ,
}
use os_hw.Text.{atoi, Text, codes, text_eq, IsWord}
use os_hw.Server.Table.{KeyVal, init_key_val}
use os_hw.Client.Select.{responded, responses}
use os_hw.Client.Select.Put.{responses_pos}
use os_hw.Client.Select.Get.{voted, select_server-get}
use os_hw.Client.Connect.{below_read_quorum, reading, connect_thread, read_choice, quorums_ok}
use os_hw.Client.Coordination.Hosts.{
  Host, asked, Truthful, reached, count_votes-tabulate, responses-tabulate, get_request, contact,
  contact_up, contact_counts,
}
use os_hw.Client.Coordination.Tabulate.{map-tabulate, get_elem?-tabulate, tabulate-get_elem?}
use os_hw.Client.Coordination.{
  read_request, tabulate, first_contact, count_votes, reply_of, coordinate, coordinated,
  check_numbers, main,
}

module _ (key : Text) (n nr nw : ℕ) (host : ℕ → Host) (word : IsWord key)
    (truthful : (i : ℕ) → i < n → Truthful key (host i)) where
  abbrev replies : List KeyVal
  replies = tabulate 0 n (λ i. (contact key host i).reply)

  counted_lem : count_votes (tabulate 0 n (contact key host)) ≡ reached 0 n host
  counted_lem =
      count_votes-tabulate 0 n (contact key host) host
        (λ j le lt. (contact_counts key (host j) word (truthful j (omega (arith, lt)))).0)

  responses_lem : responses replies ≡ reached 0 n host
  responses_lem =
      responses-tabulate 0 n (λ i. (contact key host i).reply) host
        (λ j le lt. (contact_counts key (host j) word (truthful j (omega (arith, lt)))).1)

  coordinate_lem : coordinate n nr nw (get_request key) (λ i. asked key (host i)) ≡ (
    tabulate 0 n (contact key host),
    connect_thread nr nw (reached 0 n host) (codes "GET") [] [] replies,
  )
  unfolding coordinate read_request
  coordinate_lem =
      rw
        (
          coordinate,
          map-tabulate (first_contact (get_request key)) 0 n (λ i. asked key (host i)),
          map-tabulate reply_of 0 n (contact key host),
          counted_lem,
        )
        refl

  few_lem :
      reached 0 n host < nr
      → connect_thread nr nw (reached 0 n host) (codes "GET") [] [] replies ≡ below_read_quorum
  unfolding connect_thread text_eq
  few_lem few =
      let less : ltb (reached 0 n host) nr ≡ true = ground arith in rw (connect_thread, less)

  -- A reply that counts comes from a server that was reached, and gives its entry.
  reply_lem :
      (j : ℕ) (x : KeyVal)
      → get_elem? replies j ≡ some x
      → responded x ≡ true
      → (lt : j < n) × ((host j).reachable ≡ true)
        × (x.vno ≡ (truthful j lt).kv.vno)
        × (x.key ≡ key)
        × (x.value ≡ (truthful j lt).kv.value)
  reply_lem j x at here =
      let (lt, is) = get_elem?-tabulate n (λ i. (contact key host i).reply) j at in
      let t = truthful j lt in
      let up : (host j).reachable ≡ true =
        sym (contact_counts key (host j) word t).1 ∙ ap responded is ∙ here in
      let is' = sym is ∙ ap reply_of (contact_up key (host j) t word up) in
      (lt, up, ap (λ kv. kv.vno) is', ap (λ kv. kv.key) is', ap (λ kv. kv.value) is')

  -- A server that was reached has such a reply.
  voted_lem :
      (j : ℕ) (lt : j < n)
      → (host j).reachable ≡ true
      → (x : KeyVal) × (get_elem? replies j ≡ some x)
        × (voted x ≡ true)
        × (x.vno ≡ (truthful j lt).kv.vno)
  voted_lem j lt up =
      let t = truthful j lt in
      let is = ap reply_of (contact_up key (host j) t word up) in
      let here = (contact_counts key (host j) word t).1 ∙ up in
      let vno = ap (λ kv. kv.vno) is in
      let newer : leb_ℤ (pos 0) (contact key host j).reply.vno ≡ true =
        rw vno (ground (arith, t.version)) in
      (
        (contact key host j).reply,
        tabulate-get_elem? n (λ i. (contact key host i).reply) j lt,
        rw (here, newer) refl,
        vno,
      )

  read_lem :
      0 < nr
      → nr ≤ reached 0 n host
      → (i : ℕ) × (lt : i < n) × ((host i).reachable ≡ true)
        × (connect_thread nr nw (reached 0 n host) (codes "GET") [] [] replies
            ≡ reading key (truthful i lt).kv.value)
        × ((j : ℕ) (lt' : j < n)
            → (host j).reachable ≡ true
            → (truthful j lt').kv.vno ≤ℤ (truthful i lt).kv.vno)
  unfolding connect_thread text_eq read_choice
  read_lem some_votes many =
      let enough : ltb (reached 0 n host) nr ≡ false = ground arith in
      let (j, (x, at, here)) = responses_pos replies (omega (arith, responses_lem)) in
      let (ltj, upj, _, _, _) = reply_lem j x at here in
      let (y, aty, votedy, samey) = voted_lem j ltj upj in
      let (i, liars, chosen, choice) =
        select_server-get nr nw replies j (omega (arith, responses_lem)) (y, aty, votedy) in
      let (lt, up, vno, has_key, value) =
        reply_lem i choice.reply choice.at (ground (arith, choice.counts)) in
      (
        i,
        lt,
        up,
        rw
            (
              connect_thread,
              enough,
              chosen,
              read_choice,
              get_or_of_get_elem? replies i init_key_val choice.at,
              has_key,
              value,
            )
            refl,
        λ k lt' up'.
            let (z, atz, votedz, samez) = voted_lem k lt' up' in
            subst (λ v. v ≤ℤ (truthful i lt).kv.vno) samez
              (subst (λ v. z.vno ≤ℤ v) vno (choice.newest k z atz votedz)),
      )

  -- A GET of a key that is a word, with numbers that `main` accepts and a read quorum that is not
  -- 0, at servers that are all truthful, and that all name an entry under the key that is not
  -- locked, with a value that is a word and a version from 0 on: if fewer servers than the read
  -- quorum can be reached, it ends for lack of votes; else it reads the value of a server that was
  -- reached and whose version is the newest of all that were.
  pub client_get :
      (an anr anw : Text)
      → atoi an ≡ pos n
      → atoi anr ≡ pos nr
      → atoi anw ≡ pos nw
      → quorums_ok n nr nw ≡ true
      → 0 < nr
      → ((reached 0 n host < nr)
          × (main (an ∷ anr ∷ anw ∷ codes "GET" ∷ key ∷ []) (λ i. asked key (host i))
              ≡ coordinated (tabulate 0 n (contact key host), below_read_quorum)))
        ⊎ ((i : ℕ) × (lt : i < n) × ((host i).reachable ≡ true)
            × (main (an ∷ anr ∷ anw ∷ codes "GET" ∷ key ∷ []) (λ i. asked key (host i))
                ≡ coordinated
                    (tabulate 0 n (contact key host), reading key (truthful i lt).kv.value))
            × ((j : ℕ) (lt' : j < n)
                → (host j).reachable ≡ true
                → (truthful j lt').kv.vno ≤ℤ (truthful i lt).kv.vno))
  unfolding main check_numbers
  client_get an anr anw en enr enw ok some_votes = elim (Bool-cases (ltb (reached 0 n host) nr)) [
    | inl few ↦
        let few' : reached 0 n host < nr = ground arith in
        inl (few', rw (en, enr, enw, ok, coordinate_lem, few_lem few'))
    | inr many ↦
        let (i, lt, up, e, newest) = read_lem some_votes (ground arith) in
        inr (i, lt, up, rw (en, enr, enw, ok, coordinate_lem, e), newest)
  ]
