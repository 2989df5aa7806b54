-- ===== src/Client/Messages.antt =====
-- The messages that Client.c sends, and their words as the server reads them.
use os_hw.Prelude.{◌≡◌, [], ◌∷◌, ◌++◌, arith, ℤ}
use os_hw.Text.{
  Text, codes, words, is_space, IsWord, words-append_space, words_single, print_int,
  print_int-IsWord,
}

-- "GET key" and "PUT key value", as `main` puts them together from the arguments
abbrev pub get_msg : Text → Text
get_msg key = codes "GET" ++ b' ' ∷ key

abbrev pub put_msg : Text → Text → Text
put_msg key value = codes "PUT" ++ b' ' ∷ (key ++ b' ' ∷ value)

-- "update %s %s %d" of `connectThread`
abbrev pub update_msg : Text → Text → ℤ → Text
update_msg key value vno = codes "update" ++ b' ' ∷ (key ++ b' ' ∷ (value ++ b' ' ∷ print_int vno))

-- "releaselock" and the key, in `connectTo`
abbrev pub releaselock_msg : Text → Text
releaselock_msg key = codes "releaselock" ++ b' ' ∷ key

pub words-get_msg : (key : Text) → IsWord key → words (get_msg key) ≡ codes "GET" ∷ key ∷ []
unfolding is_space
words-get_msg key h = rw (words-append_space (codes "GET") key (ground arith), words_single key h)

pub words-put_msg :
    (key value : Text)
    → IsWord key
    → IsWord value
    → words (put_msg key value) ≡ codes "PUT" ∷ key ∷ value ∷ []
unfolding is_space
words-put_msg key value h k = rw (
  words-append_space (codes "PUT") (key ++ b' ' ∷ value) (ground arith),
  words-append_space key value h,
  words_single value k,
)

pub words-update_msg :
    (key value : Text) (vno : ℤ)
    → IsWord key
    → IsWord value
    → words (update_msg key value vno) ≡ codes "update" ∷ key ∷ value ∷ print_int vno ∷ []
unfolding is_space
words-update_msg key value vno h k = rw (
  words-append_space (codes "update") (key ++ b' ' ∷ (value ++ b' ' ∷ print_int vno))
      (ground arith),
  words-append_space key (value ++ b' ' ∷ print_int vno) h,
  words-append_space value (print_int vno) k,
  words_single (print_int vno) (print_int-IsWord vno),
)

pub words-releaselock_msg :
    (key : Text) → IsWord key → words (releaselock_msg key) ≡ codes "releaselock" ∷ key ∷ []
unfolding is_space
words-releaselock_msg key h =
    rw (words-append_space (codes "releaselock") key (ground arith), words_single key h)
