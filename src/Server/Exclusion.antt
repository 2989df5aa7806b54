-- ===== src/Server/Exclusion.antt =====
-- Writers of known keys: which messages they send, and which locks they hold.
pub mod Effects
pub mod Runs
pub mod NewKey
pub mod Race
use os_hw.Prelude.{
  ℕ, zero, suc, ◌<◌, ◌≡◌, ◌≢◌, refl, sym, ap, ◌∙◌, ◌⊎◌, Option, none, some, List, [], ◌∷◌, arith,
  modify, length, get_or, get_or-modify_self, get_or-modify_ne, ℤ,
}
use os_hw.Text.{Text, IsWord}
use os_hw.Client.Messages.{get_msg, put_msg, update_msg, releaselock_msg}
use os_hw.Server.Table.{KeyVal, Server, init_key_val, search_key, entry}
use os_hw.Server.Table.Search.{search_key-some, search_key-modify}
use os_hw.Server.Handlers.{Locals, Thread, accepted, await_update, await_release, closed, crashed}

-- What a client sends that asks for known keys only, and keeps to the key of its PUT; at any point
-- it may fall silent.
abbrev pub Polite : Server → Thread → Option Text → Type 0
Polite s t none = Unit
Polite s accepted (some msg) =
    ((key : Text) × IsWord key × (msg ≡ get_msg key))
    ⊎ ((key value : Text) × (i : ℕ) × IsWord key
        × IsWord value
        × (search_key key s.key_vals ≡ some i)
        × (msg ≡ put_msg key value))
Polite s (await_update key i l) (some msg) =
    (value : Text) × (vno : ℤ) × IsWord value × (msg ≡ update_msg key value vno)
Polite s (await_release key l) (some msg) = msg ≡ releaselock_msg key
Polite s closed (some msg) = Unit
Polite s crashed (some msg) = Unit

-- The key that a thread has voted for.
abbrev pub held : Thread → Option Text
held accepted = none
held (await_update key i l) = some key
held (await_release key l) = some key
held closed = none
held crashed = none

-- The entry of this key is locked, and is where the thread takes it to be.
abbrev pub Holds : List KeyVal → Thread → Type 0
Holds kvs accepted = Unit
Holds kvs (await_update key i l) =
    IsWord key × (search_key key kvs ≡ some i) × ((entry kvs i).lock ≡ 1)
Holds kvs (await_release key l) =
    IsWord key
    × (l.key ≡ key)
    × ((i : ℕ) × (search_key key kvs ≡ some i) × ((entry kvs i).lock ≡ 1))
Holds kvs closed = Unit
Holds kvs crashed = Unit

-- What a step of a thread does to the locks: every key stays where it is, only the lock of the
-- thread's own key changes, and the thread takes a key only if it was free.
pub record Effect (kvs : List KeyVal) (t : Thread) (kvs' : List KeyVal) (t' : Thread) : Type 0 where
  pub search : (k : Text) → search_key k kvs' ≡ search_key k kvs
  pub others :
      (k : Text) (i : ℕ)
      → search_key k kvs ≡ some i
      → held t ≢ some k
      → held t' ≢ some k
      → (entry kvs' i).lock ≡ (entry kvs i).lock
  pub holds : Holds kvs' t'
  pub fresh :
      (k : Text) (i : ℕ)
      → held t' ≡ some k
      → search_key k kvs ≡ some i
      → (held t ≡ some k) ⊎ ((entry kvs i).lock ≡ 0)

-- Two keys that are found at one place are one.
found_apart :
    (kvs : List KeyVal) (k key : Text) {i j : ℕ}
    → search_key k kvs ≡ some i
    → search_key key kvs ≡ some j
    → i ≡ j
    → k ≡ key
found_apart kvs k key {i} {j} h h' e =
    sym (search_key-some k kvs h).1 ∙ ap (λ n. (entry kvs n).key) e ∙ (search_key-some key kvs h').1

-- A write to the entry of a key leaves the locks of the other keys.
pub modify-others :
    (kvs : List KeyVal) (key k : Text) (i j : ℕ) (f : KeyVal → KeyVal)
    → search_key key kvs ≡ some i
    → search_key k kvs ≡ some j
    → key ≢ k
    → (entry (modify kvs i f) j).lock ≡ (entry kvs j).lock
modify-others kvs key k i j f found found' apart =
    ap (λ kv. kv.lock)
      (get_or-modify_ne kvs i j f init_key_val (λ e. apart (found_apart kvs key k found found' e)))

-- A write that leaves the lock of its entry leaves all locks.
pub modify-locks :
    (kvs : List KeyVal) (i j : ℕ) (f : KeyVal → KeyVal)
    → ((kv : KeyVal) → (f kv).lock ≡ kv.lock)
    → (entry (modify kvs i f) j).lock ≡ (entry kvs j).lock
modify-locks [] i j f h = refl
modify-locks (kv ∷ kvs) zero zero f h = h kv
modify-locks (kv ∷ kvs) zero (suc j) f h = refl
modify-locks (kv ∷ kvs) (suc i) zero f h = refl
modify-locks (kv ∷ kvs) (suc i) (suc j) f h = modify-locks kvs i j f h

pub modify-entry :
    (kvs : List KeyVal) (key : Text) {i : ℕ} (f : KeyVal → KeyVal)
    → search_key key kvs ≡ some i
    → entry (modify kvs i f) i ≡ f (entry kvs i)
modify-entry kvs key {i} f found =
    get_or-modify_self kvs i f init_key_val (search_key-some key kvs found).0
