-- ===== src/Client/Coordination/Hosts.antt =====
-- The servers of Server.c that a reader's threads ask, and what each of them adds to the votes.
use os_hw.Prelude.{
  ℕ, zero, suc, ◌+◌, ◌≤◌, ◌<◌, ◌≡◌, ◌≢◌, refl, Bool, true, false, some, [], ◌∷◌, arith,
  if◌then◌else◌, Bool-cases, inl, inr, ℤ, pos, minus_one, ◌≤ℤ◌, eqb_ℤ,
}
use os_hw.Text.{Text, codes, IsWord}
use os_hw.Server.Table.{KeyVal, Server}
use os_hw.Server.Table.Search.{lookup}
use os_hw.Server.Handlers.{Locals}
use os_hw.Client.Messages.{get_msg}
use os_hw.Client.Select.{responded, responses}
use os_hw.Client.Select.Replies.{eqb_ℤ_iff}
use os_hw.Client.Connect.{Contact, connect_to}
use os_hw.Client.Contact.{answer, connect_to-response_server}
use os_hw.Client.Coordination.{Peer, Request, read_request, tabulate, first_contact, count_votes}

-- A server as a thread of the client finds it.
pub record Host : Type 0 where
  pub server : Server
  pub stack : Locals
  pub junk : Locals
  pub reachable : Bool
  pub sock : ℤ
  pub old : KeyVal
  pub ret_msg : Text

abbrev pub asked : Text → Host → Peer
asked key h = record {
  connected = h.reachable;
  sock = h.sock;
  recv_data = answer h.server h.stack h.junk (get_msg key);
  old = h.old;
  ret_msg = h.ret_msg;
}

-- The server is no lier, and has a version of the key that no writer has locked.
pub record Truthful (key : Text) (h : Host) : Type 0 where
  pub kv : KeyVal
  pub named : lookup key h.server.key_vals ≡ some kv
  pub free : kv.lock ≡ 0
  pub word : IsWord kv.value
  pub version : pos 0 ≤ℤ kv.vno
  pub honest : h.server.lier ≡ pos 0
  pub open_sock : h.sock ≢ minus_one

-- How many of the servers `i`, `i + 1`, ..., `n` of them, can be reached.
unfoldable pub reached : ℕ → ℕ → (ℕ → Host) → ℕ
reached i zero host = 0
reached i (suc n) host = (if (host i).reachable then 1 else 0) + reached (suc i) n host

-- Both counts of votes agree with the servers that can be reached.
pub count_votes-tabulate :
    (i n : ℕ) (c : ℕ → Contact) (host : ℕ → Host)
    → ((j : ℕ) → i ≤ j → j < i + n → (c j).counted ≡ (host j).reachable)
    → count_votes (tabulate i n c) ≡ reached i n host
unfolding tabulate count_votes reached
count_votes-tabulate i zero c host h = refl
count_votes-tabulate i (suc n) c host h = rw (
  h i (omega arith) (omega arith),
  count_votes-tabulate (suc i) n c host (λ j le lt. h j (omega arith) (omega arith)),
)

pub responses-tabulate :
    (i n : ℕ) (f : ℕ → KeyVal) (host : ℕ → Host)
    → ((j : ℕ) → i ≤ j → j < i + n → responded (f j) ≡ (host j).reachable)
    → responses (tabulate i n f) ≡ reached i n host
unfolding tabulate responses reached
responses-tabulate i zero f host h = refl
responses-tabulate i (suc n) f host h = rw (
  h i (omega arith) (omega arith),
  responses-tabulate (suc i) n f host (λ j le lt. h j (omega arith) (omega arith)),
)

abbrev pub get_request : Text → Request
get_request key = read_request (codes "GET") key []

-- Thread `i` of a reader.
abbrev pub contact : Text → (ℕ → Host) → ℕ → Contact
contact key host i = first_contact (get_request key) (asked key (host i))

-- What the thread of a server that can be reached leaves, and of one that cannot.
pub contact_up :
    (key : Text) (h : Host) (t : Truthful key h)
    → IsWord key
    → h.reachable ≡ true
    → first_contact (get_request key) (asked key h) ≡ record {
      reply = record h.old { sock = h.sock; vno = t.kv.vno; key = key; value = t.kv.value };
      counted = true;
      sent = get_msg key ∷ [];
    }
unfolding read_request
contact_up key h t word up = rw up (
    connect_to-response_server h.server h.stack h.junk key [] h.ret_msg h.sock h.old word t.named
      t.free t.word t.honest)

contact_down :
    (key : Text) (h : Host)
    → h.reachable ≡ false
    → first_contact (get_request key) (asked key h)
      ≡ record { reply = record h.old { sock = minus_one }; counted = false; sent = [] }
unfolding connect_to
contact_down key h down = rw (connect_to, down)

pub contact_counts :
    (key : Text) (h : Host)
    → IsWord key
    → Truthful key h
    → ((first_contact (get_request key) (asked key h)).counted ≡ h.reachable)
      × (responded (first_contact (get_request key) (asked key h)).reply ≡ h.reachable)
contact_counts key h word t = elim (Bool-cases h.reachable) [
  | inl up ↦
      let shut : eqb_ℤ h.sock minus_one ≡ false =
        ground (arith, t.open_sock, eqb_ℤ_iff h.sock minus_one) in
      rw (contact_up key h t word up, up, shut) (refl, refl)
  | inr down ↦ rw (contact_down key h down, down) (refl, refl)
]
