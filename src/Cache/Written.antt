-- ===== src/Cache/Written.antt =====
-- `write_buffer_to_disk` against the runs of the lines in its buffer.
use os_hw.Prelude.{◌≡◌, true, List, ◌∷◌, ◌++◌}
use os_hw.Text.{Text}
use os_hw.Cache.Chunks.{Writer, chunk_file_name, Junk}
use os_hw.Cache.Runs.{bytes, bytes_for}

module _ (junk : Junk) (path file_name : Text) (makes : (q : Text) → junk.makes q ≡ true)
    (p : Text) where
  -- The bytes of the file when the open run goes on with `more`, and others follow.
  abbrev with_runs : Writer → Text × List (Text × Text) → Text
  with_runs w (more, others) =
      bytes (w.files p) ++ bytes_for p ((chunk_file_name path w, w.segment ++ more) ∷ others)
