-- ===== src/Util/Itoa.antt =====
-- `itoa` of Util.c.
use os_hw.Prelude.{ℕ, suc, ◌+◌, ◌^◌, ◌≤◌, ◌<◌, ◌↔◌, arith, length, ℤ, pos, negsuc, ◌<ℤ◌}
use os_hw.Text.{Text, print_int, length-print_nat}

-- The bytes that `malloc` gives, and the string that `sprintf` writes there.
abbrev pub itoa_size : ℕ
itoa_size = 5

abbrev pub itoa : ℤ → Text
itoa num = print_int num

-- The bytes that are written, with the NUL byte.
abbrev pub itoa_bytes : ℤ → ℕ
itoa_bytes num = length (itoa num) + 1

-- `itoa` stays inside of its memory exactly for the numbers from -999 to 9999.
pub itoa_bounds :
    (num : ℤ) → (itoa_bytes num ≤ itoa_size) ↔ ((negsuc 999 <ℤ num) × (num <ℤ pos 10000))
unfolding print_int
itoa_bounds (pos n) =
    let (small, fits) = length-print_nat 3 n in
    (
      λ h. let lt : n < 10 ^ 4 = small (omega (arith, h)) in (omega arith, omega (arith, lt)),
      λ h. omega (arith, fits (omega (arith, h.1))),
    )
itoa_bounds (negsuc n) =
    let (small, fits) = length-print_nat 2 (suc n) in
    (
      λ h. let lt : suc n < 10 ^ 3 = small (omega (arith, h)) in (omega (arith, lt), omega arith),
      λ h. omega (arith, fits (omega (arith, h.0))),
    )
