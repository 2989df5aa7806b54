-- ===== src/Fusexmp/Unread.antt =====
-- fusexmp.c does not read the metadata files that it writes: they begin with "Filename:", and
-- `mdata_from_disk_to_memory` looks for "FileName:".
use os_hw.Prelude.{
  ℕ, ◌≡◌, refl, ap, subst, ◌∙◌, ◌⊎◌, inl, inr, none, some, List, [], ◌∷◌, ◌++◌, pos_part,
  Option-cases, Bool-cases,
}
use os_hw.Text.{Text, codes, expect, text_eq}
use os_hw.Cache.{MData, Cache, block, FreeResult, normal, write_back, get_free_cache_block}
use os_hw.FileSystem.Metadata.{overwrite, take_paths}
use os_hw.FileSystem.Operations.{Fs, put_store, old_content}
use os_hw.FileSystem.Spilled.{put_store_self}
use os_hw.Fusexmp.Metadata.{
  print_metadata, write_metadata_to_disk, scan_metadata, fill_paths, read_metadata,
}
use os_hw.Fusexmp.Operations.{
  flush_metadata, fault, no_value, fill, load_into, evict, mdata_from_disk_to_memory,
}

abbrev rest_of : Text → Text
rest_of [] = []
rest_of (c ∷ s) = s

overwrite-cons :
    (c : ℕ) (new old : Text) → overwrite (c ∷ new) old ≡ c ∷ overwrite new (rest_of old)
unfolding overwrite
overwrite-cons c [] [] = refl
overwrite-cons c (d ∷ new) [] = refl
overwrite-cons c new (d ∷ old) = refl

-- The first five bytes are those of what is written.
overwrite-Filen :
    (new old : Text)
    → (more : Text) × (overwrite (codes "Filen" ++ new) old ≡ codes "Filen" ++ more)
overwrite-Filen new old =
    let r1 = rest_of old in
    let r2 = rest_of r1 in
    let r3 = rest_of r2 in
    let r4 = rest_of r3 in
    (
      overwrite new (rest_of r4),
      overwrite-cons b'F' (codes "ilen" ++ new) old
          ∙ ap (λ s. b'F' ∷ s) (overwrite-cons b'i' (codes "len" ++ new) r1)
          ∙ ap (λ s. codes "Fi" ++ s) (overwrite-cons b'l' (codes "en" ++ new) r2)
          ∙ ap (λ s. codes "Fil" ++ s) (overwrite-cons b'e' (codes "n" ++ new) r3)
          ∙ ap (λ s. codes "File" ++ s) (overwrite-cons b'n' new r4),
    )

-- Nothing is stored.
scan_metadata_unread :
    (m m' : MData) (old stack paths : Text)
    → scan_metadata (write_metadata_to_disk m old ++ stack) m' paths ≡ (m', paths)
unfolding scan_metadata print_metadata expect
scan_metadata_unread m m' old stack paths =
    let new = rest_of (rest_of (rest_of (rest_of (rest_of (print_metadata m))))) in
    ap (λ s. scan_metadata (s ++ stack) m' paths) (overwrite-Filen new old).1

-- The metadata keep their name, their number of paths and their size, and the loop over the paths
-- may run out of what stood in `paths`.
fill_paths_lem :
    (m : MData) (paths : Text)
    → (fill_paths (m, paths) ≡ none)
      ⊎ ((path : List Text) × (fill_paths (m, paths) ≡ some (record m { path = path })))
unfolding fill_paths
fill_paths_lem m paths = elim (Option-cases (take_paths (pos_part m.num_paths) paths)) [
  | inl short ↦ inl (rw (fill_paths, short) refl)
  | inr (path, taken) ↦ inr (path, rw (fill_paths, taken) refl)
]

read_metadata_lem :
    (m m' : MData) (old stack paths : Text)
    → (read_metadata (write_metadata_to_disk m old) stack paths m' ≡ none)
      ⊎ ((path : List Text) × (read_metadata (write_metadata_to_disk m old) stack paths m'
            ≡ some (record m' { path = path })))
unfolding read_metadata
read_metadata_lem m m' old stack paths =
    rw (read_metadata, scan_metadata_unread m m' old stack paths) (fill_paths_lem m' paths)

-- The eviction of a block leaves the metadata in memory, and a file that was written before as one
-- that was written.
evict-written :
    (s : Fs) (a : ℕ) (result : FreeResult) (name : Text) (m : MData) (old : Text)
    → s.metadata_dir name ≡ some (write_metadata_to_disk m old)
    → ((evict s a result).store ≡ s.store)
      × ((m1 : MData) × (old1 : Text) × ((evict s a result).metadata_dir name
            ≡ some (write_metadata_to_disk m1 old1)))
unfolding evict flush_metadata
evict-written s a normal name m old there = (refl, (m, old, there))
evict-written s a write_back name m old there =
    elim (Bool-cases (text_eq name (s.store a).file_name)) [
      | inl same ↦ rw same (refl, (s.store a, old_content (s.metadata_dir name), refl))
      | inr other ↦ rw other (refl, (m, old, there))
    ]

load_into_lem :
    (s : Fs) (stack paths name : Text) (a : ℕ) (m : MData) (old : Text)
    → s.metadata_dir name ≡ some (write_metadata_to_disk m old)
    → (load_into s stack paths name a ≡ fault)
      ⊎ ((s' : Fs) × (load_into s stack paths name a ≡ no_value s')
          × ((path : List Text) × (s'.store a ≡ record (s.store a) { path = path })))
unfolding load_into fill
load_into_lem s stack paths name a m old there =
    elim (read_metadata_lem m (s.store a) old stack paths) [
      | inl short ↦ inl (rw (load_into, there, short) refl)
      | inr (path, read) ↦
          let m' = record (s.store a) { path = path } in
          inr (
            record s { store = put_store s.store a m' },
            rw (load_into, there, read) refl,
            (path, put_store_self s.store a m'),
          )
    ]

-- A lookup of metadata that `write_metadata_to_disk` has written, of any file and over any old
-- content, never gives the block their name, number of paths or size: it runs past the end of an
-- array, or the metadata in the block that was taken keep all but the paths.
pub mdata_from_disk_unread :
    (s : Fs) (stack paths name : Text) (c : Cache) (i a : ℕ) (result : FreeResult) (m : MData)
    (old : Text)
    → get_free_cache_block s.meta_data_cache ≡ some (c, i, result)
    → (block c i).mdata ≡ some a
    → s.metadata_dir name ≡ some (write_metadata_to_disk m old)
    → (mdata_from_disk_to_memory s stack paths name ≡ fault)
      ⊎ ((s' : Fs) × (mdata_from_disk_to_memory s stack paths name ≡ no_value s')
          × ((path : List Text) × (s'.store a ≡ record (s.store a) { path = path })))
unfolding mdata_from_disk_to_memory
mdata_from_disk_unread s stack paths name c i a result m old free at there =
    let s1 = record s { meta_data_cache = c } in
    let (same, (m1, old1, there1)) = evict-written s1 a result name m old there in
    rw (mdata_from_disk_to_memory, free, at)
      (subst
        (λ store.
          (load_into (evict s1 a result) stack paths name a ≡ fault)
          ⊎ ((s' : Fs) × (load_into (evict s1 a result) stack paths name a ≡ no_value s')
              × ((path : List Text) × (s'.store a ≡ record (store a) { path = path }))))
        same (load_into_lem (evict s1 a result) stack paths name a m1 old1 there1))
