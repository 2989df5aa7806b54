-- ===== src/Text/Length.antt =====
-- How many digits a number has.
use os_hw.Prelude.{
  ℕ, zero, suc, ◌+◌, ◌/◌, ◌%◌, ◌^◌, ◌≤◌, ◌<◌, ◌≡◌, refl, ◌↔◌, true, false, [], ◌∷◌, arith, ltb,
  length, length-append, Bool-cases, inl, inr,
}
use os_hw.Text.Decimal.{digits_fuel, print_nat}

digits_fuel-small : (f n : ℕ) → n < 10 → length (digits_fuel (suc f) n) ≡ 1
unfolding digits_fuel
digits_fuel-small f n h = let small : ltb n 10 ≡ true = ground arith in rw small refl

digits_fuel-large :
    (f n : ℕ) → 10 ≤ n → length (digits_fuel (suc f) n) ≡ length (digits_fuel f (n / 10)) + 1
unfolding digits_fuel
digits_fuel-large f n h =
    let large : ltb n 10 ≡ false = ground arith in
    rw (large, length-append {0} (digits_fuel f (n / 10)) ((b'0' + n % 10) ∷ [])) refl

-- With `k + 1` digits a number is below the power of ten.
digits_at_most : (k f n : ℕ) → n < 10 ^ suc k → length (digits_fuel f n) ≤ suc k
unfolding digits_fuel
digits_at_most k zero n h = omega arith
digits_at_most zero (suc f) n h = omega (arith, digits_fuel-small f n (omega arith))
digits_at_most (suc k) (suc f) n h = elim (Bool-cases (ltb n 10)) [
  | inl small ↦ omega (arith, digits_fuel-small f n (ground arith))
  | inr large ↦
      omega (arith, digits_fuel-large f n (ground arith), digits_at_most k f (n / 10) (omega arith))
]

pow_pos : (k : ℕ) → 1 ≤ 10 ^ k
pow_pos zero = omega arith
pow_pos (suc k) = omega (arith, pow_pos k)

digits_more_than : (k f n : ℕ) → 10 ^ k ≤ n → n < f → k < length (digits_fuel f n)
digits_more_than k zero n h lt = absurd (omega arith)
digits_more_than zero (suc f) n h lt = elim (Bool-cases (ltb n 10)) [
  | inl small ↦ omega (arith, digits_fuel-small f n (ground arith))
  | inr large ↦ omega (arith, digits_fuel-large f n (ground arith))
]
digits_more_than (suc k) (suc f) n h lt =
    let large : 10 ≤ n = omega (arith, pow_pos k) in
    omega (
      arith,
      digits_fuel-large f n large,
      digits_more_than k f (n / 10) (omega (arith, pow_pos k)) (omega (arith, large)),
    )

-- A number has at most `k + 1` digits exactly if it is below the power of ten.
pub length-print_nat : (k n : ℕ) → (length (print_nat n) ≤ suc k) ↔ (n < 10 ^ suc k)
unfolding print_nat
length-print_nat k n = (
  λ h. elim (Bool-cases (ltb n (10 ^ suc k))) [
    | inl below ↦ ground arith
    | inr above ↦
        absurd (omega (arith, h, digits_more_than (suc k) (suc n) n (ground arith) (omega arith)))
  ],
  digits_at_most k (suc n) n,
)
