-- ===== src/Client/Coordination/Writes.antt =====
-- A whole PUT: `main` of Client.c, both rounds of its threads, and the servers that they ask.
use os_hw.Prelude.{
  ℕ, zero, suc, ◌+◌, ◌≤◌, ◌<◌, ◌≡◌, refl, sym, ap, ◌∙◌, true, some, List, [], ◌∷◌, ◌++◌, map, arith,
  if◌then◌else◌, ltb, Bool-cases, ◌⊎◌, inl, inr, ℤ, pos, ◌+ℤ◌,
}
use os_hw.Text.{atoi, Text, codes, text_eq, IsWord}
use os_hw.Server.Table.{KeyVal}
use os_hw.Server.Table.Search.{lookup}
use os_hw.Server.Handlers.{accepted}
use os_hw.Server.Thread.{session}
use os_hw.Server.Put.{written}
use os_hw.Client.Messages.{update_msg}
use os_hw.Client.Select.{responded, responses}
use os_hw.Client.Versions.{put_update}
use os_hw.Client.Connect.{below_write_quorum, updating, connect_thread, targets, quorums_ok}
use os_hw.Client.Coordination.{
  read_request, tabulate, first_contact, count_votes, reply_of, coordinate, coordinated,
  check_numbers, main,
}
use os_hw.Client.Coordination.Tabulate.{map-tabulate, get_elem?-tabulate}
use os_hw.Client.Coordination.Hosts.{Host, reached, count_votes-tabulate, responses-tabulate}
use os_hw.Client.Coordination.Writers.{
  Writable, put_request, asked_put, contact, vote_up, vote_counts, messages, messages_write,
}

-- The servers that can be reached.
unfoldable pub reached_list : ℕ → ℕ → (ℕ → Host) → List ℕ
reached_list i zero host = []
reached_list i (suc n) host =
    (if (host i).reachable then i ∷ [] else []) ++ reached_list (suc i) n host

targets-tabulate :
    (i n : ℕ) (f : ℕ → KeyVal) (host : ℕ → Host)
    → ((j : ℕ) → i ≤ j → j < i + n → responded (f j) ≡ (host j).reachable)
    → targets i (tabulate i n f) ≡ reached_list i n host
unfolding tabulate targets reached_list
targets-tabulate i zero f host h = refl
targets-tabulate i (suc n) f host h = rw (
  h i (omega arith) (omega arith),
  targets-tabulate (suc i) n f host (λ j le lt. h j (omega arith) (omega arith)),
)

-- Server `h` after the messages of the client.
abbrev pub key_vals_after : (key val : Text) → ℤ → Host → List KeyVal
key_vals_after key val vno h =
    (session h.stack h.junk h.server accepted (map some (messages key val vno h))).server.key_vals

module _ (key val : Text) (n nr nw : ℕ) (host : ℕ → Host) (word : IsWord key) (word' : IsWord val)
    (writable : (i : ℕ) → i < n → Writable key (host i)) where
  abbrev replies : List KeyVal
  replies = tabulate 0 n (λ i. (contact key val host i).reply)

  counts :
      (j : ℕ)
      → j < n
      → ((contact key val host j).counted ≡ (host j).reachable)
        × (responded (contact key val host j).reply ≡ (host j).reachable)
  counts j lt = vote_counts key val (host j) (writable j lt) word word'

  counted_lem : count_votes (tabulate 0 n (contact key val host)) ≡ reached 0 n host
  counted_lem =
      count_votes-tabulate 0 n (contact key val host) host
        (λ j le lt. (counts j (omega (arith, lt))).0)

  responses_lem : responses replies ≡ reached 0 n host
  responses_lem =
      responses-tabulate 0 n (λ i. (contact key val host i).reply) host
        (λ j le lt. (counts j (omega (arith, lt))).1)

  targets_lem : targets 0 replies ≡ reached_list 0 n host
  targets_lem =
      targets-tabulate 0 n (λ i. (contact key val host i).reply) host
        (λ j le lt. (counts j (omega (arith, lt))).1)

  coordinate_lem : coordinate n nr nw (put_request key val) (λ i. asked_put key val (host i)) ≡ (
    tabulate 0 n (contact key val host),
    connect_thread nr nw (reached 0 n host) (codes "PUT") key val replies,
  )
  unfolding coordinate read_request
  coordinate_lem =
      rw
        (
          coordinate,
          map-tabulate (first_contact (put_request key val)) 0 n (λ i. asked_put key val (host i)),
          map-tabulate reply_of 0 n (contact key val host),
          counted_lem,
        )
        refl

  few_lem :
      reached 0 n host < nw
      → connect_thread nr nw (reached 0 n host) (codes "PUT") key val replies ≡ below_write_quorum
  unfolding connect_thread text_eq
  few_lem few =
      let less : ltb (reached 0 n host) nw ≡ true = ground arith in rw (connect_thread, less)

  -- The version is the one after that of a server that was reached.
  update_lem :
      0 < nw
      → nw ≤ reached 0 n host
      → (i : ℕ) × (lt : i < n) × ((host i).reachable ≡ true)
        × (connect_thread nr nw (reached 0 n host) (codes "PUT") key val replies
            ≡ updating
                ((writable i lt).kv.vno +ℤ pos 1)
                (update_msg key val ((writable i lt).kv.vno +ℤ pos 1))
                (reached_list 0 n host))
  update_lem some_votes many =
      let quorum : nw ≤ responses replies = omega (arith, responses_lem) in
      let (i, choice, e) =
        put_update nr nw (reached 0 n host) key val replies (some_votes, quorum, many) in
      let (lt, is) = get_elem?-tabulate n (λ i. (contact key val host i).reply) i choice.at in
      let up : (host i).reachable ≡ true =
        sym (counts i lt).1 ∙ ap responded is ∙ choice.answered in
      let vno : choice.reply.vno ≡ (writable i lt).kv.vno =
        ap (λ x. x.vno)
          (sym is ∙ ap reply_of (vote_up key val (host i) (writable i lt) word word' up)) in
      (i, lt, up, e ∙ (rw (vno, targets_lem)))

  few_main :
      (an anr anw : Text)
      → atoi an ≡ pos n
      → atoi anr ≡ pos nr
      → atoi anw ≡ pos nw
      → quorums_ok n nr nw ≡ true
      → reached 0 n host < nw
      → main (an ∷ anr ∷ anw ∷ codes "PUT" ∷ key ∷ val ∷ []) (λ i. asked_put key val (host i))
        ≡ coordinated (tabulate 0 n (contact key val host), below_write_quorum)
  unfolding main check_numbers quorums_ok
  few_main an anr anw en enr enw ok few = rw (en, enr, enw, ok, coordinate_lem, few_lem few)

  -- A PUT that sent the update has reached a write quorum.
  pub reached_of_updating :
      (an anr anw : Text)
      → atoi an ≡ pos n
      → atoi anr ≡ pos nr
      → atoi anw ≡ pos nw
      → quorums_ok n nr nw ≡ true
      → {vno : ℤ} {msg : Text} {to : List ℕ}
      → main (an ∷ anr ∷ anw ∷ codes "PUT" ∷ key ∷ val ∷ []) (λ i. asked_put key val (host i))
        ≡ coordinated (tabulate 0 n (contact key val host), updating vno msg to)
      → nw ≤ reached 0 n host
  reached_of_updating an anr anw en enr enw ok wrote =
      elim (Bool-cases (ltb (reached 0 n host) nw)) [
        | inl few ↦ let ended = few_main an anr anw en enr enw ok (ground arith) in absurd (cc)
        | inr many ↦ ground arith
      ]

  pub client_put :
      (an anr anw : Text)
      → atoi an ≡ pos n
      → atoi anr ≡ pos nr
      → atoi anw ≡ pos nw
      → quorums_ok n nr nw ≡ true
      → ((reached 0 n host < nw)
          × (main (an ∷ anr ∷ anw ∷ codes "PUT" ∷ key ∷ val ∷ []) (λ i. asked_put key val (host i))
              ≡ coordinated (tabulate 0 n (contact key val host), below_write_quorum)))
        ⊎ ((i : ℕ) × (lt : i < n) × ((host i).reachable ≡ true)
            × (main
                  (an ∷ anr ∷ anw ∷ codes "PUT" ∷ key ∷ val ∷ [])
                  (λ i. asked_put key val (host i))
                ≡ coordinated (
                  tabulate 0 n (contact key val host),
                  updating
                      ((writable i lt).kv.vno +ℤ pos 1)
                      (update_msg key val ((writable i lt).kv.vno +ℤ pos 1))
                      (reached_list 0 n host),
                ))
            × ((j : ℕ) (lt' : j < n)
                → (host j).reachable ≡ true
                → lookup key (key_vals_after key val ((writable i lt).kv.vno +ℤ pos 1) (host j))
                  ≡ some (written key val ((writable i lt).kv.vno +ℤ pos 1) (writable j lt').kv)))
  unfolding main check_numbers quorums_ok
  client_put an anr anw en enr enw ok = elim (Bool-cases (ltb (reached 0 n host) nw)) [
    | inl few ↦
        let few' : reached 0 n host < nw = ground arith in
        inl (few', few_main an anr anw en enr enw ok few')
    | inr many ↦
        let (i, lt, up, e) = update_lem (ground arith) (ground arith) in
        inr (
          i,
          lt,
          up,
          rw (en, enr, enw, ok, coordinate_lem, e),
          λ j lt' up'.
              messages_write key val (host j) (writable j lt') word word'
                ((writable i lt).kv.vno +ℤ pos 1) up',
        )
  ]

  -- The version of an update that was sent.
  pub version_of_updating :
      (an anr anw : Text)
      → atoi an ≡ pos n
      → atoi anr ≡ pos nr
      → atoi anw ≡ pos nw
      → quorums_ok n nr nw ≡ true
      → {vno : ℤ} {msg : Text} {to : List ℕ}
      → main (an ∷ anr ∷ anw ∷ codes "PUT" ∷ key ∷ val ∷ []) (λ i. asked_put key val (host i))
        ≡ coordinated (tabulate 0 n (contact key val host), updating vno msg to)
      → (i : ℕ) × (lt : i < n) × ((host i).reachable ≡ true)
        × (vno ≡ (writable i lt).kv.vno +ℤ pos 1)
  version_of_updating an anr anw en enr enw ok wrote = elim (client_put an anr anw en enr enw ok) [
    | inl few ↦ let ended = few.1 in absurd (cc)
    | inr sent ↦ let (i, lt, up, e, _) = sent in (i, lt, up, cc)
  ]
