-- ===== src/Server/Table/Update.antt =====
-- `updateKey` of Server.c on its three branches.
use os_hw.Prelude.{
  ◌≡◌, ◌≢◌, none, some, List, arith, ◌==◌, if◌then◌else◌, ℤ, pos, negsuc, Option-cases, Bool-cases,
  inl, inr, ◌⊎◌,
}
use os_hw.Text.{Text, text_eq}
use os_hw.Server.Table.{KeyVal, search_key, entry, write_value, update_key}
use os_hw.Server.Table.Search.{lookup, lookup_of_none, search_key-some, lookup-modify}

-- An update returns -1 and changes nothing if the key has no entry, returns -2 and changes nothing
-- if the entry is not locked, and else returns 0 and changes the value and version of the key's
-- entry and what no other key names.
pub update_key_lem :
    (kvs : List KeyVal) (key val : Text) (vno : ℤ)
    → ((lookup key kvs ≡ none) × (update_key kvs key val vno ≡ (kvs, negsuc 0)))
      ⊎ ((kv : KeyVal) × (lookup key kvs ≡ some kv)
          × (kv.lock ≡ 0)
          × (update_key kvs key val vno ≡ (kvs, negsuc 1)))
      ⊎ ((kv : KeyVal) × (lookup key kvs ≡ some kv)
          × (kv.lock ≢ 0)
          × ((update_key kvs key val vno).1 ≡ pos 0)
          × ((j : Text)
              → lookup j (update_key kvs key val vno).0
                ≡ (if text_eq j key then some (write_value val vno kv) else lookup j kvs)))
unfolding update_key
update_key_lem kvs key val vno = elim (Option-cases (search_key key kvs)) [
  | inl missing ↦ inl (lookup_of_none key kvs missing, rw (update_key, missing))
  | inr (i, found) ↦
      let (_, has_key, named) = search_key-some key kvs found in
      elim (Bool-cases ((entry kvs i).lock == 0)) [
        | inl free ↦ inr (inl (entry kvs i, named, ground arith, rw (update_key, found, free)))
        | inr locked ↦ inr (
            inr (
              entry kvs i,
              named,
              ground arith,
              rw (update_key, found, locked),
              rw (update_key, found, locked)
                  (λ j. lookup-modify j key kvs (write_value val vno) found has_key),
            ))
      ]
]
