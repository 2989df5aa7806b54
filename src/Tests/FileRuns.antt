-- ===== src/Tests/FileRuns.antt =====
-- lfs_fuse.c on a file system with two files.
use os_hw.Prelude.{
  ℕ, zero, suc, ◌≡◌, refl, false, Option, none, some, [], ◌∷◌, arith, length, if◌then◌else◌, pos,
  minus_one,
}
use os_hw.Text.{Text, codes, text_eq, is_space, IsWord}
use os_hw.Cache.{
  MData, CacheBlock, Cache, block, metadata_cache, write_buffer, Store, write_back, free_loop,
  get_free_cache_block, find_from, find_meta_data_block, update_lru,
}
use os_hw.FileSystem.Metadata.{write_metadata_to_disk, loaded, read_metadata}
use os_hw.FileSystem.RoundTrip
use os_hw.FileSystem.Paths.{ArePaths}
use os_hw.FileSystem.Operations.{
  Fs, mapped, metadata_block, fresh_metadata, died, replied, lfs_mknod, lfs_getattr, lfs_read,
}
use os_hw.FileSystem.Reload
use os_hw.FileSystem.Mknod
use os_hw.FileSystem.Nodes.{NodeCalls}
use os_hw.FileSystem.Sizes
use os_hw.FileSystem.Sizes.{IsConsistent}

-- One chunk of five bytes.
abbrev log : MData
log = record { file_name = codes "log"; num_paths = pos 1; path = codes "c1" ∷ []; size = pos 5 }

log-IsWord : IsWord (codes "log")
unfolding is_space
log-IsWord = (refl, (refl, (refl, tt)))

log_paths : ArePaths log.path
unfolding is_space
log_paths = ((refl, refl, (refl, refl, tt)), tt)

abbrev old : Text
old = codes "Filename:log and a long old content of the file, of which the end remains"

read_metadata_example : read_metadata (write_metadata_to_disk log old) (codes "x") ≡ loaded log
read_metadata_example =
    RoundTrip.read_metadata-write_metadata_to_disk log old (codes "x") log-IsWord refl
      (λ e. absurd cc) log_paths

-- Metadata blocks 0 and 1, for the files a and b; b was not used for longer, and has a buffer.
abbrev memory : Store
memory zero = fresh_metadata (codes "a")
memory (suc n) = fresh_metadata (codes "b")

abbrev used_block : ℕ → ℕ → CacheBlock
used_block a n = record {
  mdata = some a;
  free_flag = false;
  buf = codes "xy";
  offset = 2;
  lru_counter = n;
}

abbrev chunk_files : Text → Option Text
chunk_files path = if text_eq path (codes "c1") then some (codes "hello") else none

abbrev two_files : Text → Fs
two_files content = record {
  load_path = [];
  meta_data_cache = record {
    cblocks = used_block 0 0 ∷ used_block 1 1 ∷ [];
    cache_block_size = 0;
    type = metadata_cache;
  };
  buffer_cache = record {
    cblocks = used_block 1 0 ∷ [];
    cache_block_size = 4096;
    type = write_buffer;
  };
  store = memory;
  metadata_dir = λ name. if text_eq name (codes "log") then some content else none;
  files = chunk_files;
  folders = λ path. false;
}

abbrev allocated : Cache
allocated = (two_files []).meta_data_cache

metadata_block_reload_example :
    (s' : Fs) × (metadata_block
        (two_files (write_metadata_to_disk log old))
        (codes "x")
        (codes "log")
      ≡ mapped 1 1 s')
    × (s'.store 1 ≡ log)
unfolding find_meta_data_block find_from text_eq get_free_cache_block free_loop
metadata_block_reload_example =
    Reload.metadata_block_reload (two_files (write_metadata_to_disk log old)) (codes "x") allocated
      1 write_back 1 log old refl refl refl (λ e. refl) refl log-IsWord refl (λ e. absurd cc)
      log_paths

lfs_getattr_fresh_example :
    lfs_getattr
      (two_files (write_metadata_to_disk (fresh_metadata (codes "log")) []))
      []
      (codes "log")
    ≡ died
unfolding find_meta_data_block find_from text_eq get_free_cache_block free_loop
lfs_getattr_fresh_example =
    Reload.lfs_getattr_fresh (two_files (write_metadata_to_disk (fresh_metadata (codes "log")) []))
      (codes "log") allocated 1 write_back 1 refl refl refl (λ e. refl) refl log-IsWord

lfs_mknod_adopts_buffer_example :
    (s' : Fs) × (k : ℕ) × (lfs_mknod (two_files []) (codes "log") ≡ some s')
    × (find_meta_data_block s'.store s'.buffer_cache (codes "log") ≡ some k)
unfolding get_free_cache_block free_loop
lfs_mknod_adopts_buffer_example =
    Mknod.lfs_mknod_adopts_buffer (two_files []) (codes "log") allocated 1 write_back 1 0 refl refl
      (omega arith) refl refl

-- The file is there already: EEXIST.
abbrev refusing : NodeCalls
refusing = record {
  open_new = λ path. record { res = minus_one; errno = 17 };
  close = λ fd. record { res = pos 0; errno = 0 };
  mkfifo = λ path. record { res = minus_one; errno = 17 };
  mknod = λ path. record { res = minus_one; errno = 17 };
}

-- The log is in the caches, with two bytes in its write buffer.
abbrev cached : Fs
cached = record (two_files []) { store = λ a. log }

abbrev cached_next : Fs
cached_next = record cached { meta_data_cache = update_lru cached.meta_data_cache 0 }

cached-IsConsistent : IsConsistent cached_next (codes "log") 0
unfolding text_eq
cached-IsConsistent = record {
  bytes = 5;
  chunks = (codes "hello", 0, refl, refl, refl);
  size = refl;
  num_paths = refl;
  offset = offset;
}
  where
    offset :
        (j : ℕ)
        → find_meta_data_block cached_next.store cached_next.buffer_cache (codes "log") ≡ some j
        → (block cached_next.buffer_cache j).offset ≡ length (block cached_next.buffer_cache j).buf
    offset zero e = refl
    offset (suc j) e = refl

lfs_getattr-lfs_read_example :
    (text : Text) × (t : Fs) × (lfs_read cached [] (codes "log") ≡ replied text cached_next)
    × (lfs_getattr cached [] (codes "log") ≡ replied (pos (length text)) t)
unfolding metadata_block find_meta_data_block find_from text_eq
lfs_getattr-lfs_read_example =
    Sizes.lfs_getattr-lfs_read cached cached_next [] (codes "log") 0 0 refl cached-IsConsistent
