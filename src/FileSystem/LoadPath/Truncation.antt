-- ===== src/FileSystem/LoadPath/Truncation.antt =====
-- `lfs_truncate` and `lfs_unlink` of lfs_fuse.c against the metadata.
use os_hw.Prelude.{ℕ, ◌≡◌, ap, ◌∙◌, ◌++◌, ℤ}
use os_hw.Text.{Text}
use os_hw.FileSystem.Operations.{Fs, load_path_root, replied, lfs_getattr}
use os_hw.FileSystem.Calls.{Answer, lfs_truncate, lfs_unlink}
use os_hw.FileSystem.LoadPath.{at_path, move_reply, lfs_getattr-at_path}

-- The caches do not hear of a truncation or a removal: whatever the system answers, `lfs_getattr`
-- gives the size that it gave before.
pub lfs_getattr-lfs_truncate :
    (truncate : Text → ℕ → Answer) (unlink : Text → Answer) (path : Text) (size : ℕ) (s t : Fs)
    (stack name : Text) (n : ℤ)
    → lfs_getattr s stack name ≡ replied n t
    → (lfs_getattr (lfs_truncate truncate path size s).0 stack name
        ≡ replied n (at_path (load_path_root ++ path) t))
      × (lfs_getattr (lfs_unlink unlink path s).0 stack name
          ≡ replied n (at_path (load_path_root ++ path) t))
unfolding lfs_truncate lfs_unlink
lfs_getattr-lfs_truncate truncate unlink path size s t stack name n before =
    let p = load_path_root ++ path in
    let after = lfs_getattr-at_path p s stack name ∙ ap (move_reply p) before in (after, after)
