-- ===== src/Cache/Lost.antt =====
-- `write_buffer_to_disk` where `mkdir` fails: its result and that of `open` are not tested.
use os_hw.Prelude.{◌≡◌, false, Option}
use os_hw.Text.{Text}
use os_hw.Cache.Chunks.{Writer, Junk}

module _ (junk : Junk) (path : Text) (files : Text → Option Text)
    (fails : (q : Text) → junk.makes q ≡ false) where
  -- No folder is there, and the chunk files are those of the start.
  IsLost : Writer → Type 0
  IsLost w = ((q : Text) → w.folders q ≡ false) × ((p : Text) → w.files p ≡ files p)
