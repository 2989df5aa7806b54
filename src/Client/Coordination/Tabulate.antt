-- ===== src/Client/Coordination/Tabulate.antt =====
-- The list of the first values of a function, by position.
use os_hw.Prelude.{ℕ, zero, suc, ◌+◌, ◌<◌, ◌≡◌, refl, ap, subst, some, ◌∷◌, map, arith, get_elem?}
use os_hw.Client.Coordination.{tabulate}

pub map-tabulate {ℓ ℓ'} :
    {A : Type ℓ} {B : Type ℓ'} (g : A → B) (i n : ℕ) (f : ℕ → A)
    → map g (tabulate i n f) ≡ tabulate i n (λ j. g (f j))
unfolding tabulate
map-tabulate g i zero f = refl
map-tabulate g i (suc n) f = ap (◌∷◌ (g (f i))) (map-tabulate g (suc i) n f)

get_elem?-tabulate_from {ℓ} :
    {A : Type ℓ} (i n : ℕ) (f : ℕ → A) (j : ℕ) {x : A}
    → get_elem? (tabulate i n f) j ≡ some x
    → (j < n) × (f (i + j) ≡ x)
unfolding tabulate
get_elem?-tabulate_from i zero f j h = cc
get_elem?-tabulate_from i (suc n) f zero {x} h =
    let e : i + 0 ≡ i = omega arith in (omega arith, rw e cc)
get_elem?-tabulate_from i (suc n) f (suc j) h =
    let (lt, at) = get_elem?-tabulate_from (suc i) n f j h in
    let e : i + suc j ≡ suc i + j = omega arith in (omega arith, rw e at)

tabulate_from-get_elem? {ℓ} :
    {A : Type ℓ} (i n : ℕ) (f : ℕ → A) (j : ℕ)
    → j < n
    → get_elem? (tabulate i n f) j ≡ some (f (i + j))
unfolding tabulate
tabulate_from-get_elem? i zero f j h = absurd (omega arith)
tabulate_from-get_elem? i (suc n) f zero h = let e : i + 0 ≡ i = omega arith in rw e refl
tabulate_from-get_elem? i (suc n) f (suc j) h =
    let e : i + suc j ≡ suc i + j = omega arith in
    rw e (tabulate_from-get_elem? (suc i) n f j (omega arith))

pub get_elem?-tabulate {ℓ} :
    {A : Type ℓ} (n : ℕ) (f : ℕ → A) (j : ℕ) {x : A}
    → get_elem? (tabulate 0 n f) j ≡ some x
    → (j < n) × (f j ≡ x)
get_elem?-tabulate n f j {x} h =
    let (lt, at) = get_elem?-tabulate_from 0 n f j h in
    let e : 0 + j ≡ j = omega arith in (lt, subst (λ k. f k ≡ x) e at)

pub tabulate-get_elem? {ℓ} :
    {A : Type ℓ} (n : ℕ) (f : ℕ → A) (j : ℕ) → j < n → get_elem? (tabulate 0 n f) j ≡ some (f j)
tabulate-get_elem? n f j lt =
    let e : 0 + j ≡ j = omega arith in
    subst (λ k. get_elem? (tabulate 0 n f) j ≡ some (f k)) e (tabulate_from-get_elem? 0 n f j lt)
