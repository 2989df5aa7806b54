-- ===== src/Client/Coordination/Writers.antt =====
-- A writer's two threads for one server of Server.c, and what the server makes of their messages.
use os_hw.Prelude.{
  ℕ, ◌≡◌, ◌≢◌, refl, sym, ap, subst, ◌∙◌, true, false, none, some, List, [], ◌∷◌, ◌++◌, map, arith,
  get_elem?, Bool-cases, inl, inr, ℤ, pos, minus_one, eqb_ℤ,
}
use os_hw.Text.{
  Text, codes, text_eq, text_eq→eq, text_eq_refl, IsWord, is_space, words, words-append_space,
  words_single, print_int, print_int-IsWord, scan_int, scan_int-print_int,
}
use os_hw.Server.Table.{KeyVal}
use os_hw.Server.Table.Search.{lookup}
use os_hw.Server.Handlers.{accepted, updatedone_msg, sendvno_msg, known_vote}
use os_hw.Server.Thread.{session}
use os_hw.Server.Put.{written}
use os_hw.Server.Put.Vote.{IsFree}
use os_hw.Server.Put.Progress.{put_voted, put_acknowledged}
use os_hw.Server.Put.Session.{put_messages, put_session}
use os_hw.Client.Messages.{put_msg, update_msg}
use os_hw.Client.Votes.{scan_reply-sendvno_msg}
use os_hw.Client.Select.{responded}
use os_hw.Client.Select.Replies.{eqb_ℤ_iff}
use os_hw.Client.Connect.{Contact, connect_to, after_reply}
use os_hw.Client.Contact.{answer, lookup-key}
use os_hw.Client.Coordination.{Peer, Request, read_request, first_contact, update_contact}
use os_hw.Client.Coordination.Hosts.{Host}

-- The server is no lier, and has a version of the key that nobody writes or reads.
pub record Writable (key : Text) (h : Host) : Type 0 where
  pub kv : KeyVal
  pub named : lookup key h.server.key_vals ≡ some kv
  pub free : IsFree h.server (some kv)
  pub word : IsWord kv.value
  pub honest : h.server.lier ≡ pos 0
  pub open_sock : h.sock ≢ minus_one

abbrev pub put_request : (key val : Text) → Request
put_request key val = read_request (codes "PUT") key (val ∷ [])

-- What the thread that asks for the vote meets, and what it leaves.
abbrev pub asked_put : (key val : Text) → Host → Peer
asked_put key val h = record {
  connected = h.reachable;
  sock = h.sock;
  recv_data = answer h.server h.stack h.junk (put_msg key val);
  old = h.old;
  ret_msg = h.ret_msg;
}

abbrev pub vote_contact : (key val : Text) → Host → Contact
vote_contact key val h = first_contact (put_request key val) (asked_put key val h)

-- Thread `i` of the first round.
abbrev pub contact : (key val : Text) → (ℕ → Host) → ℕ → Contact
contact key val host i = vote_contact key val (host i)

-- The same for the thread that sends the update: the server has had the request before it.
abbrev pub update_peer : (key val : Text) → ℤ → Host → Peer
update_peer key val vno h = record {
  connected = h.reachable;
  sock = h.sock;
  recv_data =
      get_elem?
        (session h.stack h.junk h.server accepted
          (some (put_msg key val) ∷ some (update_msg key val vno) ∷ [])).sent
        1;
  old = (vote_contact key val h).reply;
  ret_msg = h.ret_msg;
}

-- All that the client sends to the server.
abbrev pub messages : (key val : Text) → ℤ → Host → List Text
messages key val vno h =
    (vote_contact key val h).sent
    ++ (update_contact (put_request key val) (update_msg key val vno)
        (update_peer key val vno h)).sent

not_updatedone : (n : ℤ) → text_eq (print_int n) (codes "updatedone") ≡ false
unfolding scan_int
not_updatedone n = elim (Bool-cases (text_eq (print_int n) (codes "updatedone"))) [
  | inl same ↦
      let e : scan_int (print_int n) ≡ none =
        ap scan_int (text_eq→eq (print_int n) (codes "updatedone") same) in
      absurd (cc (scan_int-print_int n))
  | inr other ↦ other
]

words-sendvno_msg :
    (vno : ℤ) (key value : Text)
    → IsWord key
    → IsWord value
    → words (sendvno_msg vno key value) ≡ print_int vno ∷ key ∷ value ∷ []
words-sendvno_msg vno key value h k =
    rw
      (
        words-append_space (print_int vno) (key ++ b' ' ∷ value) (print_int-IsWord vno),
        words-append_space key value h,
        words_single value k,
      )
      refl

words-updatedone_msg :
    (key : Text) → IsWord key → words (updatedone_msg key) ≡ codes "updatedone" ∷ key ∷ []
unfolding is_space
words-updatedone_msg key h =
    rw (words-append_space (codes "updatedone") key (ground arith), words_single key h) refl

module _ (key val : Text) (h : Host) (t : Writable key h) (word : IsWord key)
    (word' : IsWord val) where
  -- The thread that asks for the vote counts it and fills its reply with the server's entry.
  pub vote_up :
      h.reachable ≡ true
      → vote_contact key val h ≡ record {
        reply = record h.old { sock = h.sock; vno = t.kv.vno; key = key; value = t.kv.value };
        counted = true;
        sent = put_msg key val ∷ [];
      }
  unfolding connect_to after_reply read_request known_vote
  vote_up up =
      let same = lookup-key key h.server.key_vals t.named in
      rw
        (
          up,
          put_voted h.server h.stack h.junk key val word word' t.named t.free,
          t.honest,
          sym same,
          scan_reply-sendvno_msg h.old t.kv.vno key t.kv.value word t.word,
          words-sendvno_msg t.kv.vno key t.kv.value word t.word,
          text_eq_refl (codes "PUT"),
          not_updatedone t.kv.vno,
        )
        refl

  pub vote_down :
      h.reachable ≡ false
      → vote_contact key val h
        ≡ record { reply = record h.old { sock = minus_one }; counted = false; sent = [] }
  unfolding connect_to
  vote_down down = rw (connect_to, down)

  pub vote_counts :
      ((vote_contact key val h).counted ≡ h.reachable)
      × (responded (vote_contact key val h).reply ≡ h.reachable)
  vote_counts = elim (Bool-cases h.reachable) [
    | inl up ↦
        let shut : eqb_ℤ h.sock minus_one ≡ false =
          ground (arith, t.open_sock, eqb_ℤ_iff h.sock minus_one) in
        rw (vote_up up, up, shut) (refl, refl)
    | inr down ↦ rw (vote_down down, down) (refl, refl)
  ]

  -- With both threads, the server gets the three messages of a PUT.
  messages_lem :
      (vno : ℤ) → h.reachable ≡ true → map some (messages key val vno h) ≡ put_messages key val vno
  unfolding connect_to after_reply read_request
  messages_lem vno up =
      rw
        (
          vote_up up,
          put_acknowledged h.server h.stack h.junk key val word word' t.named t.free vno,
          words-updatedone_msg key word,
          text_eq_refl (codes "PUT"),
          text_eq_refl (codes "updatedone"),
        )
        refl

  -- The server has written the value and the version, and has freed the key.
  pub messages_write :
      (vno : ℤ)
      → h.reachable ≡ true
      → lookup key
          (session h.stack h.junk h.server accepted
            (map some (messages key val vno h))).server.key_vals
        ≡ some (written key val vno t.kv)
  messages_write vno up =
      let (_, _, _, wrote) =
        put_session h.server h.stack h.junk key val vno word word'
          (subst (IsFree h.server) (sym t.named) t.free) in
      rw (messages_lem vno up) (wrote key ∙ (rw (text_eq_refl key, t.named)))

  -- It is as truthful as before.
  pub messages_lier :
      (vno : ℤ)
      → h.reachable ≡ true
      → (session h.stack h.junk h.server accepted (map some (messages key val vno h))).server.lier
        ≡ h.server.lier
  messages_lier vno up =
      let (_, _, same, _) =
        put_session h.server h.stack h.junk key val vno word word'
          (subst (IsFree h.server) (sym t.named) t.free) in
      rw (messages_lem vno up) same
