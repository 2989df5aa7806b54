-- ===== src/Client/Select/Replies.antt =====
-- What the replies say: how many servers agree, and which replies are among them.
use os_hw.Prelude.{
  ℕ, zero, suc, ◌+◌, ◌<◌, ◌≡◌, refl, ◌↔◌, Bool, true, false, some, List, [], ◌∷◌, ◌++◌, arith,
  if◌then◌else◌, get_elem?, get_elem?-append_left, get_elem?-append_length, length, ℤ, eqb_ℤ,
}
use os_hw.Server.Table.{KeyVal}

-- The replies that pass a test.
unfoldable pub count_if : (KeyVal → Bool) → List KeyVal → ℕ
count_if p [] = 0
count_if p (kv ∷ kvs) = (if p kv then 1 else 0) + count_if p kvs

pub count_if-snoc :
    (p : KeyVal → Bool) (kvs : List KeyVal) (kv : KeyVal)
    → count_if p (kvs ++ kv ∷ []) ≡ count_if p kvs + (if p kv then 1 else 0)
unfolding count_if
count_if-snoc p [] kv = omega arith
count_if-snoc p (x ∷ kvs) kv = omega (arith, count_if-snoc p kvs kv)

-- Reply `i` is there and passes the test.
abbrev pub Passes : (KeyVal → Bool) → List KeyVal → ℕ → Type 0
Passes p kvs i = (kv : KeyVal) × (get_elem? kvs i ≡ some kv) × (p kv ≡ true)

pub count_if_pos :
    (p : KeyVal → Bool) (kvs : List KeyVal) (i : ℕ) → Passes p kvs i → 0 < count_if p kvs
unfolding count_if
count_if_pos p [] i h = absurd (cc (h.1))
count_if_pos p (x ∷ kvs) zero (kv, e, h) = ground arith
count_if_pos p (x ∷ kvs) (suc i) h = omega (arith, count_if_pos p kvs i h)

pub eqb_ℤ_iff : (a b : ℤ) → (eqb_ℤ a b ≡ true) ↔ (a ≡ b)
eqb_ℤ_iff a b = ground arith

pub Passes-append :
    (p : KeyVal → Bool) (kvs : List KeyVal) (more : List KeyVal) (i : ℕ)
    → Passes p kvs i
    → Passes p (kvs ++ more) i
Passes-append p kvs more i (kv, e, h) = (kv, get_elem?-append_left kvs more i e, h)

pub Passes-last :
    (p : KeyVal → Bool) (kvs : List KeyVal) (kv : KeyVal)
    → p kv ≡ true
    → Passes p (kvs ++ kv ∷ []) (length kvs)
Passes-last p kvs kv h = (kv, get_elem?-append_length kvs kv, h)

pub count_if_zero :
    (p : KeyVal → Bool) (kvs : List KeyVal)
    → ((i : ℕ) (kv : KeyVal) → get_elem? kvs i ≡ some kv → p kv ≡ false)
    → count_if p kvs ≡ 0
unfolding count_if
count_if_zero p [] h = refl
count_if_zero p (kv ∷ kvs) h = ground (arith, h 0 kv refl, count_if_zero p kvs (λ i. h (suc i)))
