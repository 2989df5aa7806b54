-- ===== src/Server/Exclusion/Runs.antt =====
-- All connections of a server whose clients keep to the protocol, in any interleaving.
use os_hw.Prelude.{
  ℕ, ◌≡◌, ◌≢◌, refl, sym, ap, subst, ◌∙◌, ◌⊎◌, Option, some, List, arith, ◌==◌, if◌then◌else◌,
  Bool-cases, inl, inr,
}
use os_hw.Text.{Text}
use os_hw.Server.Table.{KeyVal, search_key, entry}
use os_hw.Server.Handlers.{
  Locals, Thread, Outcome, accepted, await_update, await_release, closed, crashed,
}
use os_hw.Server.Thread.{System, server_thread}
use os_hw.Server.Exclusion.{Polite, held, Holds, Effect}
use os_hw.Server.Exclusion.Effects.{server_thread-Effect}

-- One receive of one thread, and any number of them.
pub data PoliteStep (l junk : Locals) (y : System) : System → Type 0 where
  receive :
      (n : ℕ) (m : Option Text) {o : Outcome}
      → Polite y.server (y.thread n) m
      → server_thread l junk y.server (y.thread n) m ≡ o
      → PoliteStep l junk y
          (record { server = o.server; thread = λ j. if n == j then o.thread else y.thread j })

pub data PoliteReach (l junk : Locals) (y : System) : System → Type 0 where
  here : PoliteReach l junk y y
  next : {u v : System} → PoliteReach l junk y u → PoliteStep l junk u v → PoliteReach l junk y v

-- Each key that a thread has voted for is locked, and no other thread has voted for it.
pub record Exclusive (y : System) : Type 0 where
  pub holds : (n : ℕ) → Holds y.server.key_vals (y.thread n)
  pub alone : (n j : ℕ) (k : Text) → held (y.thread n) ≡ some k → held (y.thread j) ≡ some k → n ≡ j

some_inj : {a b : Text} → some a ≡ some b → a ≡ b
some_inj e = cc

held-Holds :
    (kvs : List KeyVal) (t : Thread) (k : Text)
    → held t ≡ some k
    → Holds kvs t
    → (i : ℕ) × (search_key k kvs ≡ some i) × ((entry kvs i).lock ≡ 1)
held-Holds kvs accepted k has holds = cc has
held-Holds kvs (await_update key i l) k has (h, found, locked) =
    (i, ap (λ x. search_key x kvs) (sym (some_inj has)) ∙ found, locked)
held-Holds kvs (await_release key l) k has (h, same, (i, found, locked)) =
    (i, ap (λ x. search_key x kvs) (sym (some_inj has)) ∙ found, locked)
held-Holds kvs closed k has holds = cc has
held-Holds kvs crashed k has holds = cc has

-- What a thread holds stays, if its lock does.
Holds-kept :
    (kvs kvs' : List KeyVal) (t : Thread)
    → ((k : Text) → search_key k kvs' ≡ search_key k kvs)
    → ((k : Text) (i : ℕ)
        → held t ≡ some k
        → search_key k kvs ≡ some i
        → (entry kvs' i).lock ≡ (entry kvs i).lock)
    → Holds kvs t
    → Holds kvs' t
Holds-kept kvs kvs' accepted search locks holds = holds
Holds-kept kvs kvs' (await_update key i l) search locks (h, found, locked) =
    (h, search key ∙ found, locks key i refl found ∙ locked)
Holds-kept kvs kvs' (await_release key l) search locks (h, same, (i, found, locked)) =
    (h, same, (i, search key ∙ found, locks key i refl found ∙ locked))
Holds-kept kvs kvs' closed search locks holds = holds
Holds-kept kvs kvs' crashed search locks holds = holds

-- The thread `n` of an exclusive system becomes `t'`.
module _ (y : System) (e : Exclusive y) (n : ℕ) (kvs' : List KeyVal) (t' : Thread)
    (effect : Effect y.server.key_vals (y.thread n) kvs' t') where
  -- It neither has nor takes what another thread holds.
  apart : (j : ℕ) (k : Text) → n ≢ j → held (y.thread j) ≡ some k → held (y.thread n) ≢ some k
  apart j k other has mine = other (e.alone n j k mine has)

  not_taken : (j : ℕ) (k : Text) → n ≢ j → held (y.thread j) ≡ some k → held t' ≢ some k
  not_taken j k other has mine =
      let (i, found, locked) = held-Holds y.server.key_vals (y.thread j) k has (e.holds j) in
      elim (effect.fresh k i mine found) [
        | inl before ↦ apart j k other has before
        | inr free ↦ absurd (omega (arith, locked, free))
      ]

  abbrev after : ℕ → Thread
  after j = if n == j then t' else y.thread j

  after-cases : (j : ℕ) → ((n ≡ j) × (after j ≡ t')) ⊎ ((n ≢ j) × (after j ≡ y.thread j))
  after-cases j = elim (Bool-cases (n == j)) [
    | inl same ↦ inl (ground arith, rw same)
    | inr other ↦ inr (ground arith, rw other)
  ]

  not_both :
      (j p : ℕ) (k : Text)
      → n ≢ p
      → after j ≡ t'
      → held (after j) ≡ some k
      → held (y.thread p) ≢ some k
  not_both j p k other is has has' = not_taken p k other has' (sym (ap held is) ∙ has)

  alone_after : (j p : ℕ) (k : Text) → held (after j) ≡ some k → held (after p) ≡ some k → j ≡ p
  alone_after j p k has has' = elim (after-cases j) [
    | inl (same, is) ↦ elim (after-cases p) [
      | inl (same', is') ↦ sym same ∙ same'
      | inr (other, is') ↦ absurd (not_both j p k other is has (sym (ap held is') ∙ has'))
    ]
    | inr (other, is) ↦ elim (after-cases p) [
      | inl (same', is') ↦ absurd (not_both p j k other is' has' (sym (ap held is) ∙ has))
      | inr (other', is') ↦ e.alone j p k (sym (ap held is) ∙ has) (sym (ap held is') ∙ has')
    ]
  ]

  holds_after : (j : ℕ) → Holds kvs' (after j)
  holds_after j = elim (after-cases j) [
    | inl (same, is) ↦ subst (Holds kvs') (sym is) effect.holds
    | inr (other, is) ↦ subst (Holds kvs') (sym is) (
        Holds-kept y.server.key_vals kvs' (y.thread j) effect.search
          (λ k i has found. effect.others k i found (apart j k other has) (not_taken j k other has))
          (e.holds j))
  ]

PoliteStep-Exclusive :
    {l junk : Locals} {y z : System} → PoliteStep l junk y z → Exclusive y → Exclusive z
PoliteStep-Exclusive {l} {junk} {y} (receive n m {o} polite is) e =
    let effect =
      subst (λ r. Effect y.server.key_vals (y.thread n) r.server.key_vals r.thread) is
        (server_thread-Effect l junk y.server (y.thread n) m polite (e.holds n)) in
    record {
      holds = holds_after y e n o.server.key_vals o.thread effect;
      alone = alone_after y e n o.server.key_vals o.thread effect;
    }

-- If every client asks for known keys only and keeps to the key of its PUT, and a thread that has
-- received runs until it waits again before another goes on, then in whatever order the threads
-- receive, each key that some thread has voted for stays locked, and no two threads have voted for
-- one key: writers of a key exclude each other.
pub PoliteReach-Exclusive :
    {l junk : Locals} {y z : System} → PoliteReach l junk y z → Exclusive y → Exclusive z
PoliteReach-Exclusive here e = e
PoliteReach-Exclusive (next reach step) e =
    PoliteStep-Exclusive step (PoliteReach-Exclusive reach e)
