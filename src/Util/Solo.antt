-- ===== src/Util/Solo.antt =====
-- A thread that makes its steps undisturbed by the others.
use os_hw.Prelude.{ℕ, zero, suc, ◌≡◌, refl, some, List, [], ◌∷◌, get_elem?, modify, replicate, ℤ}
use os_hw.Util.{Shared, turn, run}

get_elem?-modify {ℓ} :
    {A : Type ℓ} (xs : List A) (i : ℕ) (f : A → A) {a : A}
    → get_elem? xs i ≡ some a
    → get_elem? (modify xs i f) i ≡ some (f a)
get_elem?-modify [] i f h = cc
get_elem?-modify (x ∷ xs) zero f h = cc
get_elem?-modify (x ∷ xs) (suc i) f h = get_elem?-modify xs i f h

module _ {T : Type 0} (step : ℤ → T → ℤ × T) where
  -- `n` steps of one thread.
  unfoldable pub solo : ℕ → ℤ → T → ℤ × T
  solo zero v t = (v, t)
  solo (suc n) v t = solo n (step v t).0 (step v t).1

  turn_known :
      (i : ℕ) (s : Shared T) (t : T)
      → get_elem? s.threads i ≡ some t
      → turn step i s
        ≡ record { var = (step s.var t).0; threads = modify s.threads i (λ _. (step s.var t).1) }
  unfolding turn
  turn_known i s t h = rw (turn, h)

  pub run_alone :
      (n i : ℕ) (s : Shared T) (t : T)
      → get_elem? s.threads i ≡ some t
      → (get_elem? (run step (replicate n i) s).threads i ≡ some (solo n s.var t).1)
        × ((run step (replicate n i) s).var ≡ (solo n s.var t).0)
  unfolding solo run
  run_alone zero i s t h = (h, refl)
  run_alone (suc n) i s t h =
      let t' = (step s.var t).1 in
      rw (run, turn_known i s t h)
        (run_alone n i (record { var = (step s.var t).0; threads = modify s.threads i (λ _. t') })
          t' (get_elem?-modify s.threads i (λ _. t') h))
