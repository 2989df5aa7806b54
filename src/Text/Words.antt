-- ===== src/Text/Words.antt =====
-- Comparison of texts, and their division into the words that `%s` reads.
use Prim.Native.Char.{code}
use Prim.Native.String.{String}
use os_hw.Prelude.{
  ℕ, ◌≡◌, refl, ◌↔◌, Bool, true, false, ◌&&◌, ◌||◌, List, [], ◌∷◌, ◌++◌, arith, leb, ◌==◌,
  if◌then◌else◌,
}

abbrev pub Text : Type 0
Text = List ℕ

abbrev pub newline : ℕ
newline = 10

-- A literal of the source. `String` has its own `[]` and `∷`.
abbrev pub codes : String → Text
codes String.[] = []
codes (String.◌∷◌ c s) = code c ∷ codes s

-- `strcmp(s, t) == 0`
unfoldable pub text_eq : Text → Text → Bool
text_eq [] [] = true
text_eq [] (y ∷ t) = false
text_eq (x ∷ s) [] = false
text_eq (x ∷ s) (y ∷ t) = x == y && text_eq s t

pub text_eq→eq : (s t : Text) → text_eq s t ≡ true → s ≡ t
unfolding text_eq
text_eq→eq [] [] h = refl
text_eq→eq [] (y ∷ t) h = ground arith
text_eq→eq (x ∷ s) [] h = ground arith
text_eq→eq (x ∷ s) (y ∷ t) h = ground (arith, text_eq→eq s t)

pub text_eq_refl : (s : Text) → text_eq s s ≡ true
unfolding text_eq
text_eq_refl [] = refl
text_eq_refl (x ∷ s) = ground (arith, text_eq_refl s)

pub text_eq_iff : (s t : Text) → (text_eq s t ≡ true) ↔ (s ≡ t)
text_eq_iff s t = (text_eq→eq s t, λ e. rw e (text_eq_refl t))

-- `isspace` in the C locale.
unfoldable pub is_space : ℕ → Bool
is_space c = c == b' ' || (leb 9 c && leb c 13)

-- A word that `%s` can read back: not empty, with no white space.
abbrev pub NoSpace : Text → Type 0
NoSpace [] = Unit
NoSpace (c ∷ w) = (is_space c ≡ false) × NoSpace w

abbrev pub push_word : Text → List Text → List Text
push_word [] ws = ws
push_word (c ∷ w) ws = (c ∷ w) ∷ ws

-- The bytes before the first white space, and the words after it.
split_word : Text → Text × List Text
split_word [] = ([], [])
split_word (c ∷ s) =
    let (w, ws) = split_word s in if is_space c then ([], push_word w ws) else (c ∷ w, ws)

-- What `sscanf(s, "%s %s ...")` reads, conversion by conversion.
unfoldable pub words : Text → List Text
unfolding split_word
words s = push_word (split_word s).0 (split_word s).1

split_word-append_space : (w s : Text) → NoSpace w → split_word (w ++ b' ' ∷ s) ≡ (w, words s)
unfolding split_word words is_space
split_word-append_space [] s h = refl
split_word-append_space (c ∷ w) s h = rw (split_word-append_space w s h.1, h.0)

split_word_lem : (w : Text) → NoSpace w → split_word w ≡ (w, [])
unfolding split_word
split_word_lem [] h = refl
split_word_lem (c ∷ w) h = rw (split_word_lem w h.1, h.0)

-- What `%s` reads back: a word is not empty and has no white space.
abbrev pub IsWord : Text → Type 0
IsWord [] = ⊥
IsWord (c ∷ w) = NoSpace (c ∷ w)

-- A word and a blank in front of a text are its first word.
pub words-append_space : (w s : Text) → IsWord w → words (w ++ b' ' ∷ s) ≡ w ∷ words s
words-append_space [] s h = absurd h
words-append_space (c ∷ w) s h = unfold words in rw (split_word-append_space (c ∷ w) s h)

-- A single word.
pub words_single : (w : Text) → IsWord w → words w ≡ w ∷ []
unfolding words
words_single [] h = absurd h
words_single (c ∷ w) h = rw (split_word_lem (c ∷ w) h)
