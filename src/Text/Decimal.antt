-- ===== src/Text/Decimal.antt =====
-- `%d` of `sprintf` and of `sscanf`.
use os_hw.Prelude.{
  ℕ, zero, suc, ◌+◌, ◌-◌, ◌*◌, ◌/◌, ◌%◌, ◌≤◌, ◌<◌, ◌≡◌, refl, Bool, ◌&&◌, ◌||◌, Option, none, some,
  [], ◌∷◌, ◌++◌, arith, ltb, leb, ◌==◌, if◌then◌else◌, ℤ, pos, negsuc, Bool-cases, inl, inr,
}
use os_hw.Text.Words.{Text, is_space, NoSpace, IsWord}

-- The digits of `n`, most significant first, with fuel above the number of digits.
unfoldable pub digits_fuel : ℕ → ℕ → Text
digits_fuel zero n = []
digits_fuel (suc f) n =
    let rest = digits_fuel f (n / 10) ++ (b'0' + n % 10) ∷ [] in
    if ltb n 10 then (b'0' + n) ∷ [] else rest

unfoldable pub print_nat : ℕ → Text
unfolding digits_fuel
print_nat n = digits_fuel (suc n) n

-- `sprintf("%d")`
unfoldable pub print_int : ℤ → Text
unfolding print_nat
print_int (pos n) = print_nat n
print_int (negsuc n) = b'-' ∷ print_nat (suc n)

abbrev is_digit : ℕ → Bool
is_digit c = leb b'0' c && leb c b'9'

-- The longest run of digits, with the value `acc` of those before it.
scan_digits : ℕ → Text → ℕ
scan_digits acc [] = acc
scan_digits acc (c ∷ s) =
    let rest = scan_digits (acc * 10 + (c - b'0')) s in if is_digit c then rest else acc

-- At least one digit must stand there.
scan_nat : Text → Option ℕ
unfolding scan_digits
scan_nat [] = none
scan_nat (c ∷ s) = if is_digit c then some (scan_digits 0 (c ∷ s)) else none

abbrev negate : ℕ → ℤ
negate zero = pos 0
negate (suc n) = negsuc n

-- `%d` of `sscanf` at a word: an optional sign and digits; what follows them is left.
unfoldable pub scan_int : Text → Option ℤ
unfolding scan_nat
scan_int [] = none
scan_int (c ∷ s) =
    if c == b'-'
    then elim (scan_nat s) [ none ↦ none | some n ↦ some (negate n) ]
    else if c == b'+'
    then elim (scan_nat s) [ none ↦ none | some n ↦ some (pos n) ]
    else elim (scan_nat (c ∷ s)) [ none ↦ none | some n ↦ some (pos n) ]

-- Every byte is a digit.
abbrev Digits : Text → Type 0
Digits [] = Unit
Digits (c ∷ s) = (b'0' ≤ c) × (c ≤ b'9') × Digits s

Digits-append : (s t : Text) → Digits s → Digits t → Digits (s ++ t)
Digits-append [] t hs ht = ht
Digits-append (c ∷ s) t hs ht = (hs.0, hs.1, Digits-append s t hs.2 ht)

digits_fuel-Digits : (f n : ℕ) → Digits (digits_fuel f n)
unfolding digits_fuel
digits_fuel-Digits zero n = tt
digits_fuel-Digits (suc f) n = elim (Bool-cases (ltb n 10)) [
  | inl small ↦ rw small (ground arith)
  | inr large ↦
      rw large
        (Digits-append (digits_fuel f (n / 10)) _ (digits_fuel-Digits f (n / 10)) (omega arith))
]

scan_digits-append :
    (acc d : ℕ) (s : Text)
    → Digits s
    → d < 10
    → scan_digits acc (s ++ (b'0' + d) ∷ []) ≡ scan_digits acc s * 10 + d
unfolding scan_digits
scan_digits-append acc d [] h lt = ground arith
scan_digits-append acc d (c ∷ s) h lt =
    ground (arith, scan_digits-append (acc * 10 + (c - b'0')) d s h.2 lt)

scan_digits-digits_fuel : (f n : ℕ) → n < f → scan_digits 0 (digits_fuel f n) ≡ n
unfolding digits_fuel scan_digits
scan_digits-digits_fuel zero n h = elim h [ ]
scan_digits-digits_fuel (suc f) n h = elim (Bool-cases (ltb n 10)) [
  | inl small ↦ rw small (ground arith)
  | inr large ↦
      rw
        (
          large,
          scan_digits-append 0 (n % 10) (digits_fuel f (n / 10)) (digits_fuel-Digits f (n / 10))
              (omega arith),
          scan_digits-digits_fuel f (n / 10) (ground arith),
        )
        (omega arith)
]

-- What begins with a digit.
abbrev StartsWithDigit : Text → Type 0
StartsWithDigit [] = ⊥
StartsWithDigit (c ∷ s) = (b'0' ≤ c) × (c ≤ b'9')

StartsWithDigit-append : (s t : Text) → StartsWithDigit s → StartsWithDigit (s ++ t)
StartsWithDigit-append [] t h = absurd h
StartsWithDigit-append (c ∷ s) t h = h

digits_fuel-StartsWithDigit : (f n : ℕ) → n < f → StartsWithDigit (digits_fuel f n)
unfolding digits_fuel
digits_fuel-StartsWithDigit zero n h = elim h [ ]
digits_fuel-StartsWithDigit (suc f) n h = elim (Bool-cases (ltb n 10)) [
  | inl small ↦ rw small (ground arith)
  | inr large ↦ rw large (
      StartsWithDigit-append (digits_fuel f (n / 10)) _
        (digits_fuel-StartsWithDigit f (n / 10) (ground arith)))
]

scan_nat_of_digits : (s : Text) → StartsWithDigit s → scan_nat s ≡ some (scan_digits 0 s)
unfolding scan_nat
scan_nat_of_digits [] h = absurd h
scan_nat_of_digits (c ∷ s) h = ground arith

scan_nat-print_nat : (n : ℕ) → scan_nat (print_nat n) ≡ some n
unfolding print_nat
scan_nat-print_nat n = rw (
  scan_nat_of_digits _ (digits_fuel-StartsWithDigit (suc n) n (omega arith)),
  scan_digits-digits_fuel (suc n) n (omega arith),
)

scan_int_of_digits :
    (s : Text) {n : ℕ} → StartsWithDigit s → scan_nat s ≡ some n → scan_int s ≡ some (pos n)
unfolding scan_int
scan_int_of_digits [] h e = absurd h
scan_int_of_digits (c ∷ s) h e = ground arith

-- Every integer is read back as it was printed.
pub scan_int-print_int : (n : ℤ) → scan_int (print_int n) ≡ some n
unfolding print_int
scan_int-print_int (pos n) =
    scan_int_of_digits (print_nat n) (digits_fuel-StartsWithDigit (suc n) n (omega arith))
      (scan_nat-print_nat n)
scan_int-print_int (negsuc n) = unfold scan_int in rw (scan_nat-print_nat (suc n))

Digits-NoSpace : (s : Text) → Digits s → NoSpace s
unfolding is_space
Digits-NoSpace [] h = tt
Digits-NoSpace (c ∷ s) h = (ground arith, Digits-NoSpace s h.2)

Digits-IsWord : (s : Text) → Digits s → StartsWithDigit s → IsWord s
Digits-IsWord [] d h = absurd h
Digits-IsWord (c ∷ s) d h = Digits-NoSpace (c ∷ s) d

pub print_int-IsWord : (n : ℤ) → IsWord (print_int n)
unfolding print_int is_space
print_int-IsWord (pos n) =
    Digits-IsWord (print_nat n) (digits_fuel-Digits (suc n) n)
      (digits_fuel-StartsWithDigit (suc n) n (omega arith))
print_int-IsWord (negsuc n) =
    (refl, Digits-NoSpace (print_nat (suc n)) (digits_fuel-Digits (suc (suc n)) (suc n)))

-- What `%d` leaves of a word: the bytes after the sign and the digits.
drop_digits : Text → Text
drop_digits [] = []
drop_digits (c ∷ s) = let rest = drop_digits s in if is_digit c then rest else c ∷ s

unfoldable pub after_int : Text → Text
unfolding drop_digits
after_int [] = []
after_int (c ∷ s) = if c == b'-' || c == b'+' then drop_digits s else drop_digits (c ∷ s)

drop_digits-Digits : (s : Text) → Digits s → drop_digits s ≡ []
unfolding drop_digits
drop_digits-Digits [] h = refl
drop_digits-Digits (c ∷ s) h = ground (arith, drop_digits-Digits s h.2)

after_int_word : (s : Text) → Digits s → after_int s ≡ []
unfolding after_int drop_digits
after_int_word [] h = refl
after_int_word (c ∷ s) h = ground (arith, drop_digits-Digits s h.2)

-- Of a printed integer nothing is left.
pub after_int-print_int : (n : ℤ) → after_int (print_int n) ≡ []
unfolding print_int print_nat
after_int-print_int (pos n) = after_int_word (print_nat n) (digits_fuel-Digits (suc n) n)
after_int-print_int (negsuc n) =
    unfold after_int in
    drop_digits-Digits (print_nat (suc n)) (digits_fuel-Digits (suc (suc n)) (suc n))
