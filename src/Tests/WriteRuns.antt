-- ===== src/Tests/WriteRuns.antt =====
-- `lfs_write` on a file system with two files.
use os_hw.Prelude.{
  List, true, ℕ, zero, suc, ◌≡◌, ◌<◌, refl, false, none, some, [], ◌∷◌, ◌++◌, arith, length,
}
use os_hw.Text.{
  Text, codes, newline, text_eq, is_space, skip_space, take_int, scan_int, span_word, after_int,
}
use os_hw.Cache.{
  CacheBlock, Cache, block, metadata_cache, write_buffer, free_loop, get_free_cache_block,
  find_from, find_meta_data_block, update_lru,
}
use os_hw.Cache.Timestamps.{
  span_until, take_until, scan_timestamp, skip_fields, scan_date, is_dates_equal,
}
use os_hw.Cache.Chunks.{Junk, grow, split_lines}
use os_hw.FileSystem.Operations.{
  Fs, metadata_block, fresh_metadata, replied, lfs_read, read_chunks, read_result,
}
use os_hw.FileSystem.Write.{lfs_write, extend_load_path}
use os_hw.FileSystem.Appends
use os_hw.FileSystem.LoadPath.Growth.{lfs_writes}
use os_hw.FileSystem.Eviction
use os_hw.FileSystem.Overflow

abbrev empty : Junk
empty = record { equal = false; text = []; makes = λ path. true }

abbrev line1 : Text
line1 = codes "INFO|Sat Jan 26 12:00:00 IST 2013|up"

abbrev rest : Text
rest = codes "INFO|Sun"

-- The files a and b are in the metadata cache, and b has a write buffer of 64 bytes.
abbrev metadata_of : ℕ → CacheBlock
metadata_of a = record { mdata = some a; free_flag = false; buf = []; offset = 0; lru_counter = a }

abbrev buffer_of_b : CacheBlock
buffer_of_b = record {
  mdata = some 1;
  free_flag = false;
  buf = line1 ++ newline ∷ rest;
  offset = 45;
  lru_counter = 0;
}

abbrev buffers : Cache
buffers = record { cblocks = buffer_of_b ∷ []; cache_block_size = 64; type = write_buffer }

abbrev start : Fs
start = record {
  load_path = [];
  meta_data_cache = record {
    cblocks = metadata_of 0 ∷ metadata_of 1 ∷ [];
    cache_block_size = 1;
    type = metadata_cache;
  };
  buffer_cache = buffers;
  store = λ a. fresh_metadata (elim a [ zero ↦ codes "a" | suc n ↦ codes "b" ]);
  metadata_dir = λ name. none;
  files = λ path. none;
  folders = λ p. false;
}

abbrev found_b : Fs
found_b = record start { meta_data_cache = update_lru start.meta_data_cache 1 }

abbrev read_b : Text
read_b = line1 ++ newline ∷ rest

abbrev texts : List Text
texts = codes "hello" ∷ codes ", " ∷ codes "world" ∷ []

lfs_read-lfs_writes_example :
    (u v : Fs) × (lfs_writes empty [] start (codes "b") texts ≡ replied tt u)
    × (lfs_read u [] (codes "b") ≡ replied (read_b ++ codes "hello, world") v)
unfolding find_meta_data_block find_from text_eq metadata_block lfs_read read_result read_chunks
lfs_read-lfs_writes_example =
    Appends.lfs_read-lfs_writes empty [] start found_b (codes "b") read_b texts 1 1 0 refl refl refl
      (omega arith) refl

abbrev found_a : Fs
found_a = record (extend_load_path (codes "/a") start) {
  meta_data_cache = update_lru start.meta_data_cache 0;
}

-- The text that is written to a stands behind the incomplete line of b.
lfs_write_adopts_line_example :
    (u : Fs) × (lfs_write empty [] start (codes "a") (codes "hello")
      ≡ replied (length (codes "hello")) u)
    × ((block u.buffer_cache 0).mdata ≡ some 0)
    × ((block u.buffer_cache 0).buf ≡ rest ++ codes "hello")
unfolding find_meta_data_block find_from text_eq metadata_block free_loop get_free_cache_block
    split_lines grow scan_timestamp take_until span_until
lfs_write_adopts_line_example =
    Eviction.lfs_write_adopts_line empty [] start found_a (codes "a") (codes "hello") buffers 0 0 0
      1 0 line1 [] rest refl refl refl (omega arith) refl refl refl
      ((codes "Sat Jan 26 12:00:00 IST 2013", refl), tt) (omega arith)

abbrev line2 : Text
line2 = codes "INFO|Sat Jan 26 12:00:01 IST 2013|on"

abbrev text_of_b : Text
text_of_b = line1 ++ newline ∷ (line2 ++ newline ∷ [])

abbrev more_text : Text
more_text = line1 ++ newline ∷ []

-- The buffer of b has two lines, and no room for a third and what follows it.
abbrev filled : Fs
filled = record start {
  buffer_cache = record {
    cblocks =
        record { mdata = some 1; free_flag = false; buf = text_of_b; offset = 74; lru_counter = 0 }
        ∷ [];
    cache_block_size = 111;
    type = write_buffer;
  };
}

-- The second line is read twice.
lfs_read-lfs_write_full_example :
    (u v : Fs) × (lfs_write empty [] filled (codes "b") (more_text ++ codes "x") ≡ replied 38 u)
    × (lfs_read u [] (codes "b")
        ≡ replied (text_of_b ++ newline ∷ (line2 ++ (more_text ++ codes "x"))) v)
    × ((block u.buffer_cache 0).buf ≡ line2 ++ (more_text ++ codes "x"))
    × (length (block u.buffer_cache 0).buf < u.buffer_cache.cache_block_size)
unfolding find_meta_data_block find_from text_eq split_lines grow scan_timestamp take_until
    span_until is_dates_equal scan_date skip_fields is_space skip_space take_int scan_int span_word
    after_int
lfs_read-lfs_write_full_example =
    Overflow.lfs_read-lfs_write_full empty [] filled (codes "b") (more_text ++ codes "x") 1 1 0
      (codes "Sat Jan 26 12:00:00 IST 2013") line1 (line2 ∷ []) [] refl refl refl refl refl
      (omega arith) (λ q. refl) refl refl ((codes "Sat Jan 26 12:00:01 IST 2013", refl, refl), tt)
      refl (omega arith) (omega arith)
