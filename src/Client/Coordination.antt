-- ===== src/Client/Coordination.antt =====
-- `main` of Client.c with the loops of `connectThread`: the request, the contacts with all servers,
-- the choice, and the contacts for the update.
pub mod Tabulate
pub mod Hosts
pub mod Writers
pub mod Reads
pub mod Writes
pub mod After
pub mod ReadBack
use os_hw.Prelude.{
  ℕ, zero, suc, ◌+◌, Bool, true, false, Option, none, some, List, [], ◌∷◌, ◌++◌, map, if◌then◌else◌,
  ℤ, pos, negsuc,
}
use os_hw.Text.{Text, atoi}
use os_hw.Server.Table.{KeyVal}
use os_hw.Client.Connect.{Contact, connect_to, Result, updating, connect_thread, quorums_ok}

-- What one thread meets: whether `connect` succeeds, the socket, what is received, and the old
-- content of its element of `keyVals_c` and of `retMsg`.
pub record Peer : Type 0 where
  pub connected : Bool
  pub sock : ℤ
  pub recv_data : Option Text
  pub old : KeyVal
  pub ret_msg : Text

-- The globals `msgType`, `msgG`, `keyG` and `valG` after `main` has read its arguments.
pub record Request : Type 0 where
  pub msg_type : Text
  pub msg : Text
  pub key : Text
  pub val : Text

-- From argv[4] on; `keyG` and `valG` are empty unless there is a value.
unfoldable pub read_request : (msg_type key : Text) → List Text → Request
read_request msg_type key [] = record {
  msg_type = msg_type;
  msg = msg_type ++ b' ' ∷ key;
  key = [];
  val = [];
}
read_request msg_type key (val ∷ more) = record {
  msg_type = msg_type;
  msg = msg_type ++ b' ' ∷ (key ++ b' ' ∷ val);
  key = key;
  val = val;
}

-- `f(i)`, `f(i + 1)`, ...: `n` of them.
unfoldable pub tabulate {ℓ} : {A : Type ℓ} → ℕ → ℕ → (ℕ → A) → List A
tabulate i zero f = []
tabulate i (suc n) f = f i ∷ tabulate (suc i) n f

-- The thread that asks for a vote, and the one that sends the update on the connection there is.
abbrev pub first_contact : Request → Peer → Contact
first_contact r p =
    connect_to false p.connected p.sock r.msg_type r.msg r.key p.ret_msg p.recv_data p.old

abbrev pub update_contact : Request → (msg : Text) → Peer → Contact
update_contact r msg p =
    connect_to true p.connected p.sock r.msg_type msg r.key p.ret_msg p.recv_data p.old

-- `responsesG` once all threads have ended.
unfoldable pub count_votes : List Contact → ℕ
count_votes [] = 0
count_votes (c ∷ cs) = (if c.counted then 1 else 0) + count_votes cs

abbrev pub reply_of : Contact → KeyVal
reply_of c = c.reply

-- `connectThread`: the servers are the first `n` lines of server_loc.txt, and thread `i` meets
-- `peer i`.
unfoldable pub coordinate : (n nr nw : ℕ) → Request → (ℕ → Peer) → List Contact × Result
coordinate n nr nw r peer =
    let cs = map (first_contact r) (tabulate 0 n peer) in
    (cs, connect_thread nr nw (count_votes cs) r.msg_type r.key r.val (map reply_of cs))

-- The threads that it starts for an update; thread `i` meets `peer i`.
unfoldable pub update_round : Request → (msg : Text) → (ℕ → Peer) → List ℕ → List Contact
update_round r msg peer [] = []
update_round r msg peer (i ∷ is) = update_contact r msg (peer i) ∷ update_round r msg peer is

-- How `main` ends: it reads behind the arguments, it refuses the numbers, or it coordinates. Runs
-- with a negative number are not followed.
pub data MainEnd : Type 0 where
  fault : MainEnd
  negative : MainEnd
  wrong_conditions : MainEnd
  coordinated : List Contact × Result → MainEnd

unfoldable pub check_numbers : (n nr nw : ℤ) → Request → (ℕ → Peer) → MainEnd
check_numbers (pos n) (pos nr) (pos nw) r peer =
    if quorums_ok n nr nw then coordinated (coordinate n nr nw r peer) else wrong_conditions
check_numbers (pos n) (pos nr) (negsuc nw) r peer = negative
check_numbers (pos n) (negsuc nr) nw r peer = negative
check_numbers (negsuc n) nr nw r peer = negative

-- The arguments from argv[1] on.
unfoldable pub main : List Text → (ℕ → Peer) → MainEnd
main (n ∷ nr ∷ nw ∷ msg_type ∷ key ∷ more) peer =
    check_numbers (atoi n) (atoi nr) (atoi nw) (read_request msg_type key more) peer
main [] peer = fault
main (n ∷ []) peer = fault
main (n ∷ nr ∷ []) peer = fault
main (n ∷ nr ∷ nw ∷ []) peer = fault
main (n ∷ nr ∷ nw ∷ msg_type ∷ []) peer = fault
