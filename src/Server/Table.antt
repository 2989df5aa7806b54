-- ===== src/Server/Table.antt =====
-- The key table of Server.c (`keyVals`, `numKeys`) with `searchKey`, `updateKey` and
-- `initKeyValStruct`. A `keyval_t *` into the table is an index.
pub mod Search
pub mod Update
use os_hw.Prelude.{
  ℕ, suc, Option, none, some, List, [], ◌∷◌, ◌==◌, if◌then◌else◌, get_or, modify, ℤ, pos, minus_one,
  negsuc,
}
use os_hw.Text.{Text, codes, text_eq}

-- `keyval_t`. The texts stand in arrays of KEYSIZE and VALSIZE bytes: an overflow of these is not
-- modelled.
pub record KeyVal : Type 0 where
  pub key : Text
  pub value : Text
  pub sock : ℤ
  pub vno : ℤ
  pub lock : ℕ
  pub num_getters : ℤ
  pub cond_wait_lock : ℕ

-- The globals: the first `numKeys` elements of `keyVals`, and `lier`.
pub record Server : Type 0 where
  pub key_vals : List KeyVal
  pub lier : ℤ

-- MAXKEYS
abbrev pub max_keys : ℕ
max_keys = 1000

-- LIER_VNO_INCR
abbrev pub lier_vno_incr : ℤ
lier_vno_incr = pos 10

abbrev pub init_key_val : KeyVal
init_key_val = record {
  key = [];
  value = [];
  sock = minus_one;
  vno = pos 0;
  lock = 0;
  num_getters = pos 0;
  cond_wait_lock = 1;
}

abbrev pub shift : Option ℕ → Option ℕ
shift none = none
shift (some i) = some (suc i)

-- The first entry with the key.
unfoldable pub search_key : Text → List KeyVal → Option ℕ
search_key key [] = none
search_key key (kv ∷ kvs) = if text_eq key kv.key then some 0 else shift (search_key key kvs)

-- `keyVals[i]`; the indices that are used lie in the table.
abbrev pub entry : List KeyVal → ℕ → KeyVal
entry kvs i = get_or kvs i init_key_val

abbrev pub write_value : Text → ℤ → KeyVal → KeyVal
write_value val vno kv = record kv { value = val; vno = vno }

abbrev pub write_key : Text → KeyVal → KeyVal
write_key key kv = record kv { key = key }

abbrev pub write_lock : ℕ → KeyVal → KeyVal
write_lock lock kv = record kv { lock = lock }

-- The new table and the result: -1 for a key that is not there, -2 for one that is not locked.
unfoldable pub update_key : List KeyVal → Text → Text → ℤ → List KeyVal × ℤ
update_key kvs key val vno = elim (search_key key kvs) [
  | none ↦ (kvs, negsuc 0)
  | some i ↦
      if (entry kvs i).lock == 0
      then (kvs, negsuc 1)
      else (modify kvs i (write_value val vno), pos 0)
]

-- The globals that `main` sets before it serves; what it does not set is 0.
abbrev pub init_server : ℤ → Server
init_server lier = record {
  key_vals =
      record {
        key = codes "key1";
        value = codes "value1";
        sock = pos 0;
        vno = pos 1;
        lock = 0;
        num_getters = pos 0;
        cond_wait_lock = 1;
      }
      ∷ [];
  lier = lier;
}
