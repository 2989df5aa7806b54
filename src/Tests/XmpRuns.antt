-- ===== src/Tests/XmpRuns.antt =====
-- fusexmp.c on a metadata cache with two blocks.
use os_hw.Prelude.{◌≡◌, ◌≢◌, ◌⊎◌, refl, true, false, none, some, List, [], ◌∷◌, ℕ, ℤ, pos}
use os_hw.Text.{Text, codes}
use os_hw.Cache.{
  MData, CacheBlock, metadata_cache, write_buffer, normal, free_loop, get_free_cache_block,
}
use os_hw.FileSystem.Operations.{Fs, fresh_metadata, replied}
use os_hw.FileSystem.Nodes.{NodeCalls, regular}
use os_hw.Fusexmp.Metadata.{write_metadata_to_disk}
use os_hw.Fusexmp.Operations.{fault, no_value, mdata_from_disk_to_memory, xmp_mknod}
use os_hw.Fusexmp.Unread
use os_hw.Fusexmp.Reused

abbrev free_block : ℕ → CacheBlock
free_block a = record { mdata = some a; free_flag = true; buf = []; offset = 0; lru_counter = 0 }

abbrev log : MData
log = record { file_name = codes "log"; num_paths = pos 1; path = codes "c1" ∷ []; size = pos 5 }

-- The file log has metadata on disk only.
abbrev start : Fs
start = record {
  load_path = [];
  meta_data_cache = record {
    cblocks = free_block 0 ∷ free_block 1 ∷ [];
    cache_block_size = 1;
    type = metadata_cache;
  };
  buffer_cache = record { cblocks = []; cache_block_size = 64; type = write_buffer };
  store = λ a. fresh_metadata [];
  metadata_dir = λ name. some (write_metadata_to_disk log []);
  files = λ path. none;
  folders = λ p. false;
}

mdata_from_disk_unread_example :
    (mdata_from_disk_to_memory start [] [] (codes "log") ≡ fault)
    ⊎ ((s' : Fs) × (mdata_from_disk_to_memory start [] [] (codes "log") ≡ no_value s')
        × ((path : List Text) × (s'.store 0 ≡ record (fresh_metadata []) { path = path })))
unfolding get_free_cache_block free_loop
mdata_from_disk_unread_example =
    Unread.mdata_from_disk_unread start [] [] (codes "log")
      (record start.meta_data_cache {
        cblocks = record (free_block 0) { free_flag = false } ∷ free_block 1 ∷ [];
      })
      0 0 normal log [] refl refl refl

abbrev agreeing : NodeCalls
agreeing = record {
  open_new = λ path. record { res = pos 3; errno = 0 };
  close = λ fd. record { res = pos 0; errno = 0 };
  mkfifo = λ path. record { res = pos 0; errno = 0 };
  mknod = λ path. record { res = pos 0; errno = 0 };
}

xmp_mknod_reuses_example :
    (r r' : ℤ) × (s1 s2 : Fs) × (xmp_mknod agreeing regular (codes "a") start ≡ replied r s1)
    × (xmp_mknod agreeing regular (codes "b") s1 ≡ replied r' s2)
    × (s2.meta_data_cache ≡ s1.meta_data_cache)
    × ((s1.store 0).file_name ≡ codes "a")
    × ((s2.store 0).file_name ≡ codes "b")
    × ((b : ℕ) → b ≢ 0 → s2.store b ≡ start.store b)
unfolding get_free_cache_block free_loop
xmp_mknod_reuses_example =
    Reused.xmp_mknod_reuses agreeing start (codes "a") (codes "b")
      (record start.meta_data_cache {
        cblocks = record (free_block 0) { free_flag = false } ∷ free_block 1 ∷ [];
      })
      0 0 normal refl refl
