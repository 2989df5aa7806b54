-- ===== src/FileSystem/Nodes/Existing.antt =====
-- `lfs_mknod` of lfs_fuse.c where the file cannot be made, as it is there already.
use os_hw.Prelude.{true, ℕ, ◌≡◌, refl, some, minus_one, ◌==◌, arith, ◌∷◌, ◌++◌}
use os_hw.Text.{Text, text_eq_refl}
use os_hw.Cache.{Cache, block, get_free_cache_block, FreeResult, update_lru}
use os_hw.FileSystem.Metadata.{write_metadata_to_disk}
use os_hw.FileSystem.Operations.{
  Fs, load_path_root, put_store, old_content, flush_metadata, fresh_metadata, lfs_mknod, replied,
}
use os_hw.FileSystem.Calls.{negate_errno}
use os_hw.FileSystem.Nodes.{NodeCalls, regular, mknod_call}

-- If the system refuses to make a regular file, `lfs_mknod` returns the error, but the metadata file
-- of the name has been written over with the metadata of an empty file.
pub mknod_call_existing :
    (sys : NodeCalls) (s : Fs) (name : Text) (c : Cache) (i : ℕ) (result : FreeResult) (a : ℕ)
    → get_free_cache_block s.meta_data_cache ≡ some (c, i, result)
    → (block c i).mdata ≡ some a
    → (sys.open_new (load_path_root ++ b'/' ∷ name)).res ≡ minus_one
    → (s' : Fs) × (mknod_call sys regular name s
        ≡ replied (negate_errno (sys.open_new (load_path_root ++ b'/' ∷ name)).errno) s')
      × (s'.metadata_dir name
          ≡ some (write_metadata_to_disk (fresh_metadata name) (old_content (s.metadata_dir name))))
unfolding mknod_call lfs_mknod flush_metadata
mknod_call_existing sys s name c i result a free at refused =
    let made = record s {
      load_path = load_path_root ++ b'/' ∷ name;
      meta_data_cache = update_lru c i;
      store = put_store s.store a (fresh_metadata name);
    } in
    let here : (a == a) ≡ true = ground arith in
    (
      flush_metadata made a,
      rw (mknod_call, lfs_mknod, free, at, refused) refl,
      rw (flush_metadata, here, text_eq_refl name) refl,
    )
