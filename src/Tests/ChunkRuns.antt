-- ===== src/Tests/ChunkRuns.antt =====
-- Cache.c on a write buffer with lines of two dates.
use os_hw.Prelude.{true, ◌+◌, ◌≡◌, refl, false, Option, none, some, [], ◌∷◌, ◌++◌, length, pos}
use os_hw.Text.{
  Text, codes, newline, is_space, skip_space, take_word, span_word, text_eq, take_int, scan_int,
  after_int,
}
use os_hw.Cache.{MData, CacheBlock}
use os_hw.Cache.Timestamps.{
  span_until, take_until, scan_timestamp, skip_fields, scan_field, scan_year, date_folder,
  scan_date, is_dates_equal,
}
use os_hw.Cache.Chunks.{Junk, grow, split_lines, write_buffer_to_disk}
use os_hw.Cache.Consumed
use os_hw.Cache.Written
use os_hw.Cache.Lost
use os_hw.Cache.Runs.{runs_after, runs}
use os_hw.Cache.Consumed.{AreStamped, total}

abbrev line1 : Text
line1 = codes "INFO|Sat Jan 26 12:00:00 IST 2013|up"

abbrev line2 : Text
line2 = codes "INFO|Sun Jan 27 09:30:00 IST 2013|down"

date_folder_example : date_folder (codes "Sat Jan 26 12:00:00 IST 2013") [] ≡ codes "Jan-26-2013"
unfolding date_folder scan_field scan_year skip_fields span_until take_until is_space skip_space
    take_word span_word
date_folder_example = refl

abbrev log : MData
log = record { file_name = codes "log"; num_paths = pos 0; path = []; size = pos 0 }

abbrev full : CacheBlock
full = record {
  mdata = some 0;
  free_flag = false;
  buf = line1 ++ newline ∷ (line2 ++ newline ∷ []);
  offset = 76;
  lru_counter = 0;
}

abbrev empty : Junk
empty = record { equal = false; text = []; makes = λ path. true }

abbrev no_files : Text → Option Text
no_files p = none

-- The last line is complete, and stays in the buffer.
write_buffer_to_disk_example :
    ((write_buffer_to_disk empty (codes "Chunks/") no_files (λ p. false) log full).0.mdata.size
      ≡ pos 76)
    × ((write_buffer_to_disk empty (codes "Chunks/") no_files (λ p. false) log full).1.buf ≡ line2)
    × ((write_buffer_to_disk empty (codes "Chunks/") no_files (λ p. false) log full).1.offset
        ≡ length line2)
    × (total (line1 ∷ line2 ∷ []) + 0 ≡ length full.buf)
unfolding split_lines grow scan_timestamp take_until span_until
write_buffer_to_disk_example =
    Consumed.write_buffer_to_disk_lem empty (codes "Chunks/") no_files (λ p. false) log full 0 line1
      (line2 ∷ []) [] refl refl
      (
        (codes "Sat Jan 26 12:00:00 IST 2013", refl),
        ((codes "Sun Jan 27 09:30:00 IST 2013", refl), tt),
      )

abbrev both : Text
both = line1 ++ newline ∷ (line2 ++ newline ∷ [])

-- The runs themselves.
runs_test :
    runs empty (codes "Chunks/") (codes "log") line1 (line2 ∷ [])
    ≡ (codes "Chunks/Jan-26-2013/log-12:00:00", line1 ++ newline ∷ [])
      ∷ (codes "Chunks/Jan-27-2013/log-09:30:00", line2 ++ newline ∷ [])
      ∷ []
unfolding runs_after is_dates_equal scan_date date_folder scan_timestamp scan_field scan_year
    skip_fields span_until take_until is_space skip_space take_word span_word text_eq take_int
    scan_int after_int
runs_test = refl

abbrev no_mkdir : Junk
no_mkdir = record empty { makes = λ p. false }
