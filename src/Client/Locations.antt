-- ===== src/Client/Locations.antt =====
-- server_loc.txt, as `tcpServer` of Server.c writes it and `connectThread` of Client.c reads it.
use os_hw.Prelude.{
  ℕ, zero, suc, ◌≡◌, refl, sym, ◌∙◌, Option, none, some, List, [], ◌∷◌, ◌++◌, append_assoc, length,
  ◌⊎◌, Bool-cases, inl, inr, eqb_ℤ, pos, minus_one, append-nil,
}
use os_hw.Text.{
  Text, newline, is_space, IsWord, print_int, take_word, take_int, take_word_append,
  take_word-space, take_int-space, take_int-print_int,
}
use os_hw.Server.Start.{Location, location_line, Startup, tcp_start, returned, exited, listening}

-- `fscanf(server_loc, "%s %d", ...)`, and the rest of the file. `none` if a conversion fails: then
-- the client goes on with indeterminate memory.
unfoldable pub scan_location : Text → Option (Location × Text)
scan_location s = elim (take_word s) [
  | none ↦ none
  | some (w, r) ↦ elim (take_int r) [
    | none ↦ none
    | some (n, r') ↦ some (record { name = w; port = n }, r')
  ]
]

-- The loop over the first `n` servers.
unfoldable pub read_locations : ℕ → Text → Option (List Location)
read_locations zero s = some []
read_locations (suc n) s = elim (scan_location s) [
  | none ↦ none
  | some (l, r) ↦ elim (read_locations n r) [ none ↦ none | some ls ↦ some (l ∷ ls) ]
]

-- The file after the servers have started one after the other, each of them as the system answers.
unfoldable pub start_all : List (Startup × Location) → (server_loc : Text) → Text
start_all [] server_loc = server_loc
start_all ((sys, l) ∷ more) server_loc = elim (tcp_start sys l server_loc) [
  | returned n ↦ start_all more server_loc
  | exited n ↦ start_all more server_loc
  | listening server_loc' ↦ start_all more server_loc'
]

-- The servers that come to listen.
unfoldable pub listeners : List (Startup × Location) → List Location
listeners [] = []
listeners ((sys, l) ∷ more) = elim (tcp_start sys l []) [
  | returned n ↦ listeners more
  | exited n ↦ listeners more
  | listening server_loc ↦ l ∷ listeners more
]

-- The lines of these servers.
unfoldable lines : List Location → Text
lines [] = []
lines (l ∷ ls) = l.name ++ b' ' ∷ (print_int l.port ++ newline ∷ lines ls)

abbrev pub AllWords : List Location → Type 0
AllWords [] = Unit
AllWords (l ∷ ls) = IsWord l.name × AllWords ls

scan_location-line :
    (l : Location) (s : Text)
    → IsWord l.name
    → scan_location (l.name ++ b' ' ∷ (print_int l.port ++ newline ∷ s)) ≡ some (l, newline ∷ s)
unfolding scan_location is_space
scan_location-line l s h =
    rw
      (
        scan_location,
        take_word_append l.name (print_int l.port ++ newline ∷ s) b' ' h refl,
        take_int-space b' ' (print_int l.port ++ newline ∷ s) refl,
        take_int-print_int l.port s newline refl,
      )
      refl

read_locations-newline : (n : ℕ) (s : Text) → read_locations n (newline ∷ s) ≡ read_locations n s
unfolding read_locations scan_location is_space
read_locations-newline zero s = refl
read_locations-newline (suc n) s =
    rw (read_locations, scan_location, take_word-space newline s refl) refl

read_locations-lines :
    (ls : List Location) → AllWords ls → read_locations (length ls) (lines ls) ≡ some ls
unfolding read_locations lines
read_locations-lines [] h = refl
read_locations-lines (l ∷ ls) h =
    rw
      (
        read_locations,
        scan_location-line l (lines ls) h.0,
        read_locations-newline (length ls) (lines ls),
        read_locations-lines ls h.1,
      )
      refl

line_append :
    (file : Text) (l : Location) (ls : List Location)
    → (file ++ location_line l) ++ lines ls ≡ file ++ lines (l ∷ ls)
unfolding lines
line_append file l ls = simp (append_assoc)

-- What `tcp_start` does does not depend on what the file held.
start_cases :
    (sys : Startup) (l : Location)
    → ((file : Text) → tcp_start sys l file ≡ listening (file ++ location_line l))
      ⊎ ((n : ℕ) × ((file : Text) → tcp_start sys l file ≡ returned n))
      ⊎ ((n : ℕ) × ((file : Text) → tcp_start sys l file ≡ exited n))
unfolding tcp_start
start_cases sys l = elim (Bool-cases (eqb_ℤ sys.getaddrinfo (pos 0))) [
  | inl named ↦ elim (Bool-cases (eqb_ℤ sys.setsockopt minus_one)) [
    | inl e ↦ inr (inr (1, λ file. rw (tcp_start, named, e) refl))
    | inr e ↦ elim (Bool-cases (eqb_ℤ sys.listen minus_one)) [
      | inl e' ↦ inr (inr (1, λ file. rw (tcp_start, named, e, e') refl))
      | inr e' ↦ elim (Bool-cases sys.opens) [
        | inl e'' ↦ inl (λ file. rw (tcp_start, named, e, e', e'') refl)
        | inr e'' ↦ inr (inr (1, λ file. rw (tcp_start, named, e, e', e'') refl))
      ]
    ]
  ]
  | inr failed ↦ inr (inl (1, λ file. rw (tcp_start, failed) refl))
]

start_all-lines :
    (ss : List (Startup × Location)) (file : Text)
    → start_all ss file ≡ file ++ lines (listeners ss)
unfolding start_all listeners lines
start_all-lines [] file = sym (append-nil file)
start_all-lines ((sys, l) ∷ ss) file = elim (start_cases sys l) [
  | inl up ↦
      rw (start_all, listeners, up file, up [])
        (start_all-lines ss (file ++ location_line l) ∙ line_append file l (listeners ss))
  | inr (inl (n, down)) ↦ rw (start_all, listeners, down file, down []) (start_all-lines ss file)
  | inr (inr (n, down)) ↦ rw (start_all, listeners, down file, down []) (start_all-lines ss file)
]

-- If the host names are words, a client for as many servers as came to listen, whatever the system
-- answered when they and others were started, reads just their hosts and ports, in order, from the
-- file that was empty at first.
pub read_locations-start_all :
    (ss : List (Startup × Location))
    → AllWords (listeners ss)
    → read_locations (length (listeners ss)) (start_all ss []) ≡ some (listeners ss)
read_locations-start_all ss h = rw (start_all-lines ss []) (read_locations-lines (listeners ss) h)
