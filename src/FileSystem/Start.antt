-- ===== src/FileSystem/Start.antt =====
-- `main` of lfs_fuse.c: the caches that the file system starts with.
use os_hw.Prelude.{Bool, ℕ, ◌*◌, ◌%◌, ◌≡◌, ◌≢◌, refl, ◌⊎◌, Option, [], inl, inr, arith}
use os_hw.Text.{Text}
use os_hw.Cache.{
  Cache, metadata_cache, write_buffer, Created, exit, division_by_zero, created, create_cache,
  Store,
}
use os_hw.Cache.Create.{IsFresh, make_cache-IsFresh, create_write_buffer}
use os_hw.FileSystem.Operations.{Fs}

-- What is there before: the memory, and the files.
pub record Before : Type 0 where
  pub store : Store
  pub metadata_dir : Text → Option Text
  pub files : Text → Option Text
  pub folders : Text → Bool

-- The process ends, or `fuse_main` serves with these globals.
pub data Started : Type 0 where
  exited : ℕ → Started
  fault : Started
  serving : Fs → Started

-- The globals of the new file system.
abbrev pub served : Before → (buffers metadata : Cache) → Fs
served before buffers metadata = record {
  load_path = [];
  meta_data_cache = metadata;
  buffer_cache = buffers;
  store = before.store;
  metadata_dir = before.metadata_dir;
  files = before.files;
  folders = before.folders;
}

unfoldable pub with_metadata : Before → Cache → Created → Started
with_metadata before buffers (exit n) = exited n
with_metadata before buffers division_by_zero = fault
with_metadata before buffers (created metadata) = serving (served before buffers metadata)

unfoldable pub with_buffers : (page_size addr : ℕ) → (junk : Text) → Before → Created → Started
with_buffers page_size addr junk before (exit n) = exited n
with_buffers page_size addr junk before division_by_zero = fault
with_buffers page_size addr junk before (created buffers) =
    with_metadata before buffers (create_cache page_size 100 1 metadata_cache addr junk)

-- `addr` is where the metadata of the cache will stand, `junk` what stands in fresh memory.
unfoldable pub main : (page_size addr : ℕ) → (junk : Text) → Before → Started
main page_size addr junk before =
    with_buffers page_size addr junk before
      (create_cache page_size (4096 * 10) 4096 write_buffer addr junk)

-- With pages that do not divide 4096 bytes the file system exits with 2; else it serves, with ten
-- fresh write buffers of 4096 bytes and a hundred fresh blocks for metadata.
pub main_lem :
    (page_size addr : ℕ) (junk : Text) (before : Before)
    → ((4096 % page_size ≢ 0) × (main page_size addr junk before ≡ exited 2))
      ⊎ ((4096 % page_size ≡ 0)
          × ((s : Fs) × (main page_size addr junk before ≡ serving s)
              × IsFresh s.buffer_cache 10 4096
              × IsFresh s.meta_data_cache 100 1))
unfolding main with_buffers with_metadata create_cache
main_lem page_size addr junk before =
    elim (create_write_buffer page_size (4096 * 10) 4096 addr junk) [
      | inl (odd, e) ↦ inl (odd, rw (main, e) refl)
      | inr (inl (paged, zero_size, e)) ↦ absurd (omega (arith, zero_size))
      | inr (inr (inl (paged, some_size, odd, e))) ↦ absurd (omega (arith, odd))
      | inr (inr (inr (paged, some_size, fits, (buffers, e, fresh)))) ↦
          let (metadata, e', fresh') = make_cache-IsFresh 100 1 metadata_cache addr junk in
          inr (
            paged,
            (served before buffers metadata, rw (main, e, with_buffers, e') refl, fresh, fresh'),
          )
    ]
