-- ===== src/FileSystem/LoadPath.antt =====
-- The global `load_path` of lfs_fuse.c: nothing that is found, read or written depends on it.
pub mod Truncation
pub mod Growth
use os_hw.Prelude.{
  ℕ, suc, ◌+◌, ◌*◌, ◌≡◌, refl, sym, ap, subst, ◌∙◌, Option, none, some, List, [], ◌∷◌, ◌++◌, arith,
  length, length-append, ltb, if◌then◌else◌, modify, ℤ, pos, Option-cases, Bool-cases, inl, inr,
  ◌⊎◌,
}
use os_hw.Text.{Text}
use os_hw.Cache.{
  Cache, block, FreeResult, normal, write_back, get_free_cache_block, update_lru,
  find_meta_data_block,
}
use os_hw.Cache.Chunks.{Junk, write_buffer_to_disk}
use os_hw.FileSystem.Metadata.{Loaded, parse_failed, past_end, loaded, read_metadata}
use os_hw.FileSystem.Operations.{
  Fs, load_path_root, flush_metadata, Lookup, exited, null_block, fault, mapped, fill, load_into,
  evict, mdata_from_disk_to_memory, metadata_block, Reply, died, replied, attr_size, found_size,
  lfs_getattr,
}
use os_hw.FileSystem.Write.{
  spill, evict_buffer, new_buffer, point_block, buffer_block, make_room, append_block, write_to,
  write_found, extend_load_path, lfs_write,
}
use os_hw.FileSystem.Calls.{Answer, lfs_truncate, lfs_unlink}

abbrev pub at_path : Text → Fs → Fs
at_path p s = record s { load_path = p }

-- The same end, with another `load_path`.
abbrev pub move : Text → Lookup → Lookup
move p exited = exited
move p null_block = null_block
move p fault = fault
move p (mapped i a s) = mapped i a (at_path p s)

abbrev pub move_reply : {A : Type 0} → Text → Reply A → Reply A
move_reply p died = died
move_reply p (replied x s) = replied x (at_path p s)

abbrev pub move_some : Text → Option Fs → Option Fs
move_some p none = none
move_some p (some s) = some (at_path p s)

abbrev pub move_pair : Text → Option (ℕ × Fs) → Option (ℕ × Fs)
move_pair p none = none
move_pair p (some (j, s)) = some (j, at_path p s)

fill-at_path :
    (p : Text) (s : Fs) (i a : ℕ) (r : Loaded) → fill (at_path p s) i a r ≡ move p (fill s i a r)
unfolding fill
fill-at_path p s i a parse_failed = refl
fill-at_path p s i a past_end = refl
fill-at_path p s i a (loaded m) = refl

load_into-at_path :
    (p : Text) (s : Fs) (stack name : Text) (i a : ℕ)
    → load_into (at_path p s) stack name i a ≡ move p (load_into s stack name i a)
unfolding load_into
load_into-at_path p s stack name i a = elim (Option-cases (s.metadata_dir name)) [
  | inl missing ↦ rw (load_into, missing)
  | inr (content, file) ↦ rw (load_into, file) (fill-at_path p s i a (read_metadata content stack))
]

evict-at_path :
    (p : Text) (s : Fs) (a : ℕ) (r : FreeResult) → evict (at_path p s) a r ≡ at_path p (evict s a r)
unfolding evict flush_metadata
evict-at_path p s a normal = refl
evict-at_path p s a write_back = refl

mdata_from_disk_to_memory-at_path :
    (p : Text) (s : Fs) (stack name : Text)
    → mdata_from_disk_to_memory (at_path p s) stack name
      ≡ move p (mdata_from_disk_to_memory s stack name)
unfolding mdata_from_disk_to_memory
mdata_from_disk_to_memory-at_path p s stack name =
    elim (Option-cases (get_free_cache_block s.meta_data_cache)) [
      | inl empty ↦ rw (mdata_from_disk_to_memory, empty)
      | inr ((c, i, r), free) ↦ elim (Option-cases (block c i).mdata) [
        | inl null ↦ rw (mdata_from_disk_to_memory, free, null)
        | inr (a, at) ↦
            let s1 = record s { meta_data_cache = c } in
            rw (mdata_from_disk_to_memory, free, at, evict-at_path p s1 a r)
              (load_into-at_path p (evict s1 a r) stack name i a)
      ]
    ]

pub metadata_block-at_path :
    (p : Text) (s : Fs) (stack name : Text)
    → metadata_block (at_path p s) stack name ≡ move p (metadata_block s stack name)
unfolding metadata_block
metadata_block-at_path p s stack name =
    elim (Option-cases (find_meta_data_block s.store s.meta_data_cache name)) [
      | inl missing ↦
          rw (metadata_block, missing) (mdata_from_disk_to_memory-at_path p s stack name)
      | inr (i, found) ↦ elim (Option-cases (block s.meta_data_cache i).mdata) [
        | inl null ↦ rw (metadata_block, found, null)
        | inr (a, at) ↦ rw (metadata_block, found, at)
      ]
    ]

spill-at_path :
    (junk : Junk) (p : Text) (s : Fs) (j : ℕ)
    → spill junk (at_path p s) j ≡ move_some p (spill junk s j)
unfolding spill flush_metadata
spill-at_path junk p s j = elim (Option-cases (block s.buffer_cache j).mdata) [
  | inl null ↦ rw (spill, null)
  | inr (a, at) ↦ rw (spill, at)
]

evict_buffer-at_path :
    (junk : Junk) (p : Text) (s : Fs) (j : ℕ) (r : FreeResult)
    → evict_buffer junk (at_path p s) j r ≡ move_some p (evict_buffer junk s j r)
unfolding evict_buffer
evict_buffer-at_path junk p s j normal = refl
evict_buffer-at_path junk p s j write_back = spill-at_path junk p s j

new_buffer-at_path :
    (junk : Junk) (p : Text) (s : Fs) (a : ℕ)
    → new_buffer junk (at_path p s) a ≡ move_pair p (new_buffer junk s a)
unfolding new_buffer
new_buffer-at_path junk p s a = elim (Option-cases (get_free_cache_block s.buffer_cache)) [
  | inl empty ↦ rw (new_buffer, empty)
  | inr ((c, j, r), free) ↦
      let s1 = record s { buffer_cache = c } in
      elim (Option-cases (evict_buffer junk s1 j r)) [
        | inl null ↦ rw (new_buffer, free, evict_buffer-at_path junk p s1 j r, null)
        | inr (s2, spilled) ↦ rw (new_buffer, free, evict_buffer-at_path junk p s1 j r, spilled)
      ]
]

buffer_block-at_path :
    (junk : Junk) (p : Text) (s : Fs) (name : Text) (a : ℕ)
    → buffer_block junk (at_path p s) name a ≡ move_pair p (buffer_block junk s name a)
unfolding buffer_block
buffer_block-at_path junk p s name a =
    elim (Option-cases (find_meta_data_block s.store s.buffer_cache name)) [
      | inl missing ↦ rw (buffer_block, missing) (new_buffer-at_path junk p s a)
      | inr (j, found) ↦ rw (buffer_block, found)
    ]

make_room-at_path :
    (junk : Junk) (p : Text) (s : Fs) (j : ℕ) (text : Text)
    → make_room junk (at_path p s) j text ≡ move_some p (make_room junk s j text)
unfolding make_room
make_room-at_path junk p s j text =
    elim (Bool-cases
      (ltb s.buffer_cache.cache_block_size ((block s.buffer_cache j).offset + length text))) [
        | inl full ↦ rw (make_room, full) (spill-at_path junk p s j)
        | inr room ↦ rw (make_room, room)
      ]

pub write_to-at_path :
    (junk : Junk) (p : Text) (s : Fs) (name : Text) (a : ℕ) (text : Text)
    → write_to junk (at_path p s) name a text ≡ move_reply p (write_to junk s name a text)
unfolding write_to append_block
write_to-at_path junk p s name a text = elim (Option-cases (buffer_block junk s name a)) [
  | inl empty ↦ rw (write_to, buffer_block-at_path junk p s name a, empty)
  | inr ((j, s1), found) ↦ elim (Option-cases (make_room junk s1 j text)) [
    | inl null ↦ rw (
      write_to,
      buffer_block-at_path junk p s name a,
      found,
      make_room-at_path junk p s1 j text,
      null,
    )
    | inr (s2, room) ↦ rw (
      write_to,
      buffer_block-at_path junk p s name a,
      found,
      make_room-at_path junk p s1 j text,
      room,
    )
  ]
]

attr_size-at_path :
    (p : Text) (s : Fs) (name : Text) (a : ℕ)
    → attr_size (at_path p s) name a ≡ move_reply p (attr_size s name a)
unfolding attr_size
attr_size-at_path p s name a =
    elim (Option-cases (find_meta_data_block s.store s.buffer_cache name)) [
      | inl missing ↦ rw (attr_size, missing)
      | inr (j, found) ↦ rw (attr_size, found)
    ]

found_size-at_path :
    (p name : Text) (found : Lookup)
    → found_size name (move p found) ≡ move_reply p (found_size name found)
unfolding found_size
found_size-at_path p name exited = refl
found_size-at_path p name null_block = refl
found_size-at_path p name fault = refl
found_size-at_path p name (mapped i a s) = attr_size-at_path p s name a

pub lfs_getattr-at_path :
    (p : Text) (s : Fs) (stack name : Text)
    → lfs_getattr (at_path p s) stack name ≡ move_reply p (lfs_getattr s stack name)
unfolding lfs_getattr
lfs_getattr-at_path p s stack name =
    rw (lfs_getattr, metadata_block-at_path p s stack name)
      (found_size-at_path p name (metadata_block s stack name))
