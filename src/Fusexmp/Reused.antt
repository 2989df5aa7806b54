-- ===== src/Fusexmp/Reused.antt =====
-- A block of the metadata cache that fusexmp.c takes does not count as used, and is taken again.
use os_hw.Prelude.{
  ℕ, zero, suc, ◌≡◌, ◌≢◌, arith, refl, ap, subst, ◌∙◌, Option, none, some, List, [], ◌∷◌, modify,
  modify-modify, ltb, if◌then◌else◌, Option-cases, inl, inr, ℤ,
}
use os_hw.Text.{Text}
use os_hw.Cache.{
  CacheBlock, Cache, block, allocate, FreeResult, normal, write_back, free_loop,
  get_free_cache_block, MData, Store,
}
use os_hw.FileSystem.Operations.{Fs, put_store, replied}
use os_hw.FileSystem.Spilled.{put_store_self}
use os_hw.FileSystem.Calls.{status}
use os_hw.FileSystem.Nodes.{regular, NodeCalls, close_opened}
use os_hw.Fusexmp.Calls.{set_load_path}
use os_hw.Fusexmp.Operations.{flush_metadata, renamed, take_metadata, made_node, xmp_mknod}

free_loop-allocate :
    (k : ℕ) (best : Option (ℕ × ℕ)) (bs : List CacheBlock) (i : ℕ)
    → free_loop k best (modify bs i allocate) ≡ free_loop k best bs
unfolding free_loop
free_loop-allocate k none [] i = refl
free_loop-allocate k (some (max, index)) [] i = refl
free_loop-allocate k none (b ∷ bs) zero = refl
free_loop-allocate k (some (max, index)) (b ∷ bs) zero = refl
free_loop-allocate k none (b ∷ bs) (suc i) =
    free_loop-allocate (suc k) (some (b.lru_counter, k)) bs i
free_loop-allocate k (some (max, index)) (b ∷ bs) (suc i) =
    free_loop-allocate (suc k)
      (if ltb max b.lru_counter then some (b.lru_counter, k) else some (max, index)) bs i

-- The cache that `get_free_cache_block` leaves gives the same block again, and stays.
get_free_again :
    (c0 c : Cache) (i : ℕ) (result : FreeResult)
    → get_free_cache_block c0 ≡ some (c, i, result)
    → get_free_cache_block c ≡ some (c, i, if (block c i).free_flag then normal else write_back)
unfolding get_free_cache_block
get_free_again c0 c i result got = elim (Option-cases (free_loop 0 none c0.cblocks)) [
  | inl empty ↦ cc (rw (get_free_cache_block, empty) at got)
  | inr ((max, index), found) ↦
      let got' = rw (get_free_cache_block, found) at got in
      let taken : record c0 { cblocks = modify c0.cblocks index allocate } ≡ c = cc got' in
      let same : index ≡ i = cc got' in
      let c' = record c0 { cblocks = modify c0.cblocks index allocate } in
      let again : get_free_cache_block c'
          ≡ some (c', index, if (block c' index).free_flag then normal else write_back) =
        rw
          (
            get_free_cache_block,
            free_loop-allocate 0 none c0.cblocks index,
            found,
            modify-modify c0.cblocks index allocate allocate,
          )
          refl in
      subst
        (λ c.
          get_free_cache_block c
          ≡ some (c, i, if (block c i).free_flag then normal else write_back))
        taken
        (subst
          (λ i.
            get_free_cache_block c'
            ≡ some (c', i, if (block c' i).free_flag then normal else write_back))
          same again)
]

-- The state after `xmp_mknod` took the metadata at `a`.
abbrev after_mknod : Fs → (name : Text) → Cache → ℕ → Fs
after_mknod s name c a =
    flush_metadata
      (record (set_load_path (b'/' ∷ name) s) {
        meta_data_cache = c;
        store = put_store s.store a (renamed name (s.store a));
      })
      a

xmp_mknod_regular :
    (sys : NodeCalls) (s : Fs) (name : Text) (c : Cache) (i a : ℕ) (result : FreeResult)
    → get_free_cache_block s.meta_data_cache ≡ some (c, i, result)
    → (block c i).mdata ≡ some a
    → (r : ℤ) × (xmp_mknod sys regular name s ≡ replied r (after_mknod s name c a))
unfolding xmp_mknod made_node take_metadata
xmp_mknod_regular sys s name c i a result got at =
    let s1 = after_mknod s name c a in
    (
      status (close_opened sys.close (sys.open_new s1.load_path)),
      rw (xmp_mknod, take_metadata, got, at) refl,
    )

put_store_ne : (store : Store) (a : ℕ) (m : MData) (b : ℕ) → b ≢ a → put_store store a m b ≡ store b
put_store_ne store a m b ne = ground arith

-- Two regular files that are made one after the other, whatever the system answers, get the same
-- metadata in the cache: these have the first name and then the second, the cache is the same after
-- both calls, and no other metadata change.
pub xmp_mknod_reuses :
    (sys : NodeCalls) (s : Fs) (name name' : Text) (c : Cache) (i a : ℕ) (result : FreeResult)
    → get_free_cache_block s.meta_data_cache ≡ some (c, i, result)
    → (block c i).mdata ≡ some a
    → (r r' : ℤ) × (s1 s2 : Fs) × (xmp_mknod sys regular name s ≡ replied r s1)
      × (xmp_mknod sys regular name' s1 ≡ replied r' s2)
      × (s2.meta_data_cache ≡ s1.meta_data_cache)
      × ((s1.store a).file_name ≡ name)
      × ((s2.store a).file_name ≡ name')
      × ((b : ℕ) → b ≢ a → s2.store b ≡ s.store b)
unfolding flush_metadata
xmp_mknod_reuses sys s name name' c i a result got at =
    let s1 = after_mknod s name c a in
    let (r, first) = xmp_mknod_regular sys s name c i a result got at in
    let (r', second) =
      xmp_mknod_regular sys s1 name' c i a (if (block c i).free_flag then normal else write_back)
        (get_free_again s.meta_data_cache c i result got) at in
    let m = renamed name (s.store a) in
    (
      r,
      r',
      s1,
      after_mknod s1 name' c a,
      first,
      second,
      refl,
      ap (λ m. m.file_name) (put_store_self s.store a m),
      ap (λ m. m.file_name) (put_store_self s1.store a (renamed name' (s1.store a))),
      λ b ne.
          put_store_ne s1.store a (renamed name' (s1.store a)) b ne ∙ put_store_ne s.store a m b ne,
    )
