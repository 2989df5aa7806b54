-- ===== src/Text/Scan.antt =====
-- `sscanf` with literals in the format: each conversion returns what it read and the rest.
use os_hw.Prelude.{
  ℕ, ◌≡◌, refl, true, Option, none, some, [], ◌∷◌, ◌++◌, arith, ◌==◌, if◌then◌else◌, ℤ, pos,
}
use os_hw.Text.Words.{Text, is_space, NoSpace, IsWord}
use os_hw.Text.Decimal.{
  print_int, scan_int, after_int, scan_int-print_int, print_int-IsWord, after_int-print_int,
}

-- White space in a format, and in front of a conversion.
unfoldable pub skip_space : Text → Text
skip_space [] = []
skip_space (c ∷ s) = let rest = skip_space s in if is_space c then rest else c ∷ s

-- The bytes up to the first white space, and the rest.
unfoldable pub span_word : Text → Text × Text
span_word [] = ([], [])
span_word (c ∷ s) = let (w, r) = span_word s in if is_space c then ([], c ∷ s) else (c ∷ w, r)

-- A literal without white space.
unfoldable pub expect : Text → Text → Option Text
expect [] s = some s
expect (c ∷ l) [] = none
expect (c ∷ l) (d ∷ s) = let rest = expect l s in if c == d then rest else none

some_word : Text × Text → Option (Text × Text)
some_word ([], r) = none
some_word (c ∷ w, r) = some (c ∷ w, r)

-- `%s`
unfoldable pub take_word : Text → Option (Text × Text)
unfolding some_word
take_word s = some_word (span_word (skip_space s))

-- `%d` at a word: what it does not read of the word is left.
int_at : Text × Text → Option (ℤ × Text)
int_at (w, r) = elim (scan_int w) [ none ↦ none | some n ↦ some (n, after_int w ++ r) ]

unfoldable pub take_int : Text → Option (ℤ × Text)
unfolding int_at
take_int s = int_at (span_word (skip_space s))

-- `atoi`
unfoldable pub atoi : Text → ℤ
atoi s = elim (scan_int (skip_space s)) [ none ↦ pos 0 | some n ↦ n ]

span_word-append :
    (w s : Text) (c : ℕ) → NoSpace w → is_space c ≡ true → span_word (w ++ c ∷ s) ≡ (w, c ∷ s)
unfolding span_word
span_word-append [] s c h k = rw k
span_word-append (d ∷ w) s c h k = rw (span_word-append w s c h.1 k, h.0)

skip_space_word : (w s : Text) → IsWord w → skip_space (w ++ s) ≡ w ++ s
unfolding skip_space
skip_space_word [] s h = absurd h
skip_space_word (c ∷ w) s h = rw h.0

pub skip_space_one :
    (c : ℕ) (w s : Text) → is_space c ≡ true → IsWord w → skip_space (c ∷ (w ++ s)) ≡ w ++ s
unfolding skip_space
skip_space_one c w s k h = rw (k, skip_space_word w s h)

pub expect_append : (l s : Text) → expect l (l ++ s) ≡ some s
unfolding expect
expect_append [] s = refl
expect_append (c ∷ l) s = ground (arith, expect_append l s)

pub take_word_append :
    (w s : Text) (c : ℕ) → IsWord w → is_space c ≡ true → take_word (w ++ c ∷ s) ≡ some (w, c ∷ s)
unfolding take_word some_word
take_word_append [] s c h k = absurd h
take_word_append (d ∷ w) s c h k =
    rw (take_word, skip_space_word (d ∷ w) (c ∷ s) h, span_word-append (d ∷ w) s c h k)

IsWord-NoSpace : (w : Text) → IsWord w → NoSpace w
IsWord-NoSpace [] h = tt
IsWord-NoSpace (c ∷ w) h = h

int_at_lem :
    (w r : Text) (n : ℤ) → scan_int w ≡ some n → after_int w ≡ [] → int_at (w, r) ≡ some (n, r)
unfolding int_at
int_at_lem w r n h k = rw (int_at, h, k)

pub take_int-print_int :
    (n : ℤ) (s : Text) (c : ℕ)
    → is_space c ≡ true
    → take_int (print_int n ++ c ∷ s) ≡ some (n, c ∷ s)
unfolding take_int
take_int-print_int n s c k =
    let word = print_int-IsWord n in
    rw (
      take_int,
      skip_space_word (print_int n) (c ∷ s) word,
      span_word-append (print_int n) s c (IsWord-NoSpace (print_int n) word) k,
      int_at_lem (print_int n) (c ∷ s) n (scan_int-print_int n) (after_int-print_int n),
    )

-- White space in front of a conversion is skipped.
pub take_word-space : (c : ℕ) (s : Text) → is_space c ≡ true → take_word (c ∷ s) ≡ take_word s
unfolding take_word skip_space
take_word-space c s h = rw (take_word, skip_space, h) refl

pub take_int-space : (c : ℕ) (s : Text) → is_space c ≡ true → take_int (c ∷ s) ≡ take_int s
unfolding take_int skip_space
take_int-space c s h = rw (take_int, skip_space, h) refl
