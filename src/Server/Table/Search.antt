-- ===== src/Server/Table/Search.antt =====
-- `searchKey` and the writes through its result, as a map from keys to entries.
use os_hw.Prelude.{
  ℕ, zero, suc, ◌<◌, ◌≡◌, refl, Option, none, some, List, [], ◌∷◌, ◌++◌, arith, if◌then◌else◌,
  length, modify, Bool-cases, Option-cases, inl, inr,
}
use os_hw.Text.{Text, text_eq, text_eq_iff, text_eq→eq}
use os_hw.Server.Table.{KeyVal, search_key, entry}

-- The abstract view: the entry that a key names.
unfoldable pub lookup : Text → List KeyVal → Option KeyVal
lookup key [] = none
lookup key (kv ∷ kvs) = if text_eq key kv.key then some kv else lookup key kvs

pub lookup_of_none :
    (key : Text) (kvs : List KeyVal) → search_key key kvs ≡ none → lookup key kvs ≡ none
unfolding lookup search_key
lookup_of_none key [] h = refl
lookup_of_none key (kv ∷ kvs) h = ground (arith, lookup_of_none key kvs)

-- A search returns a position of the table, whose entry has the key, and is what the key names.
pub search_key-some :
    (key : Text) (kvs : List KeyVal) {i : ℕ}
    → search_key key kvs ≡ some i
    → (i < length kvs) × ((entry kvs i).key ≡ key) × (lookup key kvs ≡ some (entry kvs i))
unfolding lookup search_key
search_key-some key [] h = cc
search_key-some key (kv ∷ kvs) {i} h = elim (Bool-cases (text_eq key kv.key)) [
  | inl e ↦ ground (arith, text_eq→eq key kv.key e)
  | inr e ↦ elim (Option-cases (search_key key kvs)) [
    | inl m ↦ ground arith
    | inr (j, m) ↦ ground (arith, search_key-some key kvs m)
  ]
]

-- A write that keeps the key of the entry moves nothing.
pub search_key-modify :
    (key : Text) (kvs : List KeyVal) (i : ℕ) (f : KeyVal → KeyVal)
    → (f (entry kvs i)).key ≡ (entry kvs i).key
    → search_key key (modify kvs i f) ≡ search_key key kvs
unfolding search_key
search_key-modify key [] i f h = refl
search_key-modify key (kv ∷ kvs) zero f h = rw h
search_key-modify key (kv ∷ kvs) (suc i) f h = rw (search_key-modify key kvs i f h)

pub search_key-append :
    (key : Text) (kvs : List KeyVal) (kv : KeyVal)
    → search_key key kvs ≡ none
    → search_key key (kvs ++ kv ∷ []) ≡ (if text_eq key kv.key then some (length kvs) else none)
unfolding search_key
search_key-append key [] kv h = refl
search_key-append key (x ∷ kvs) kv h = ground (arith, search_key-append key kvs kv)

-- A write through a search result that keeps the key changes what this key names, and no other.
pub lookup-modify :
    (j key : Text) (kvs : List KeyVal) {i : ℕ} (f : KeyVal → KeyVal)
    → search_key key kvs ≡ some i
    → (f (entry kvs i)).key ≡ key
    → lookup j (modify kvs i f) ≡ (if text_eq j key then some (f (entry kvs i)) else lookup j kvs)
unfolding lookup search_key
lookup-modify j key [] f h e = cc
lookup-modify j key (kv ∷ kvs) {i} f h e = elim (Bool-cases (text_eq key kv.key)) [
  | inl m ↦ ground (arith, text_eq→eq key kv.key m)
  | inr m ↦ elim (Option-cases (search_key key kvs)) [
    | inl n ↦ ground arith
    | inr (p, n) ↦ ground (
      arith,
      lookup-modify j key kvs {i = p} f n,
      text_eq_iff j key,
      text_eq_iff j kv.key,
      text_eq_iff key kv.key,
    )
  ]
]

-- A new entry at the end answers for its key, if no other did.
pub lookup-append :
    (j : Text) (kvs : List KeyVal) (kv : KeyVal)
    → lookup kv.key kvs ≡ none
    → lookup j (kvs ++ kv ∷ []) ≡ (if text_eq j kv.key then some kv else lookup j kvs)
unfolding lookup
lookup-append j [] kv h = refl
lookup-append j (x ∷ kvs) kv h = ground (
  arith,
  lookup-append j kvs kv,
  text_eq_iff j kv.key,
  text_eq_iff j x.key,
  text_eq_iff kv.key x.key,
)
