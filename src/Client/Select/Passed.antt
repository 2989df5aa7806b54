-- ===== src/Client/Select/Passed.antt =====
-- The servers whose replies pass a test, by index, and lists of servers.
use os_hw.Prelude.{
  ℕ, zero, suc, ◌≡◌, refl, Bool, true, false, ◌&&◌, ◌||◌, List, [], ◌∷◌, ◌++◌, arith, ◌==◌, length,
}
use os_hw.Server.Table.{KeyVal}
use os_hw.Client.Select.Replies.{count_if, Passes}

abbrev pub contains : ℕ → List ℕ → Bool
contains k [] = false
contains k (i ∷ is) = k == i || contains k is

pub contains-append :
    (k : ℕ) (is js : List ℕ) → contains k (is ++ js) ≡ (contains k is || contains k js)
contains-append k [] js = refl
contains-append k (i ∷ is) js = ground (arith, contains-append k is js)

-- Reply `k` is there and passes the test.
abbrev pub passes : (KeyVal → Bool) → List KeyVal → ℕ → Bool
passes p [] k = false
passes p (kv ∷ kvs) zero = p kv
passes p (kv ∷ kvs) (suc k) = passes p kvs k

pub passes-snoc :
    (p : KeyVal → Bool) (kvs : List KeyVal) (kv : KeyVal) (k : ℕ)
    → passes p (kvs ++ kv ∷ []) k ≡ (passes p kvs k || (k == length kvs && p kv))
passes-snoc p [] kv zero = ground arith
passes-snoc p [] kv (suc k) = ground arith
passes-snoc p (x ∷ kvs) kv zero = ground arith
passes-snoc p (x ∷ kvs) kv (suc k) = ground (arith, passes-snoc p kvs kv k)

pub passes_zero :
    (p : KeyVal → Bool) (kvs : List KeyVal) (k : ℕ) → count_if p kvs ≡ 0 → passes p kvs k ≡ false
unfolding count_if
passes_zero p [] k h = refl
passes_zero p (kv ∷ kvs) zero h = ground arith
passes_zero p (kv ∷ kvs) (suc k) h = passes_zero p kvs k (omega arith)

pub passes-Passes :
    (p : KeyVal → Bool) (kvs : List KeyVal) (k : ℕ) → passes p kvs k ≡ true → Passes p kvs k
passes-Passes p [] k h = cc h
passes-Passes p (kv ∷ kvs) zero h = (kv, refl, h)
passes-Passes p (kv ∷ kvs) (suc k) h = passes-Passes p kvs k h

pub passes_of_Passes :
    (p : KeyVal → Bool) (kvs : List KeyVal) (k : ℕ) → Passes p kvs k → passes p kvs k ≡ true
passes_of_Passes p [] k (kv, at, h) = cc at
passes_of_Passes p (x ∷ kvs) zero (kv, at, h) = cc (at, h)
passes_of_Passes p (x ∷ kvs) (suc k) h = passes_of_Passes p kvs k h
