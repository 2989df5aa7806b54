-- ===== src/Cache/OneDate.antt =====
-- `write_buffer_to_disk` when all lines of the buffer have one date: one chunk file.
use os_hw.Prelude.{
  ◌≡◌, refl, ap, sym, ◌∙◌, Bool, true, Option, some, List, [], ◌∷◌, ◌++◌, append-nil, length, pos,
  ◌+ℤ◌,
}
use os_hw.Text.{Text, newline}
use os_hw.Cache.{MData, CacheBlock}
use os_hw.Cache.Timestamps.{scan_timestamp, scan_timestamp-nil, scan_field, is_dates_equal}
use os_hw.Cache.Chunks.{
  Writer, add_path, write_file, write_segment, Junk, next_segment, add_line, take_line, write_loop,
  first_line, write_lines, split_lines, start_writer, write_text, write_buffer_to_disk,
}
use os_hw.Cache.Consumed.{last_line, kept}
use os_hw.Cache.Runs.{all_lines, file_of}
use os_hw.Cache.Folders.{add_line_text, IsReady, next_segment-IsReady, IsReady-file}

-- The lines have timestamps of the date of `stamp`.
abbrev pub AreDated : Junk → (stamp : Text) → List Text → Type 0
AreDated junk stamp [] = Unit
AreDated junk stamp (l ∷ ls) =
    ((t : Text) × (scan_timestamp l ≡ some t) × (is_dates_equal junk.equal t stamp ≡ true))
    × AreDated junk stamp ls

write_loop-AreDated :
    (junk : Junk) (path : Text) (w : Writer) (ls : List Text) (rest : Text)
    → AreDated junk w.last_seen_date ls
    → write_loop junk path w ls rest
      ≡ record w { segment = w.segment ++ all_lines ls; line = kept (last_line w.line ls) rest }
unfolding write_loop add_line take_line
write_loop-AreDated junk path w [] [] dated =
    ap (λ s. record w { segment = s }) (sym (append-nil w.segment))
write_loop-AreDated junk path w [] (c ∷ rest) dated =
    ap (λ s. record w { segment = s; line = c ∷ rest }) (sym (append-nil w.segment))
write_loop-AreDated junk path w ([] ∷ ls) rest dated = cc (sym dated.0.1 ∙ scan_timestamp-nil)
write_loop-AreDated junk path w ((x ∷ l) ∷ ls) rest ((t, stamp, same), dated) =
    rw (write_loop, stamp, take_line, same)
      (write_loop-AreDated junk path (add_line (x ∷ l) newline w) ls rest dated
        ∙ ap (λ s. record w { segment = s; line = kept (last_line (x ∷ l) ls) rest })
            (add_line_text w.segment (x ∷ l) (all_lines ls)))

module _ (junk : Junk) (path : Text) (files : Text → Option Text) (folders : Text → Bool)
    (m : MData) (t : Text) where
  -- The writer in front of the only segment, without the segment.
  abbrev dated : Writer
  dated = next_segment junk path t (start_writer junk files folders m)

  write_lines-AreDated :
      (l : Text) (ls : List Text) (rest : Text)
      → scan_timestamp l ≡ some t
      → AreDated junk t ls
      → write_lines junk path (start_writer junk files folders m) (l ∷ ls) rest
        ≡ record dated { segment = all_lines (l ∷ ls); line = kept (last_line l ls) rest }
  unfolding write_lines first_line next_segment add_line
  write_lines-AreDated [] ls rest stamp h = cc (sym stamp ∙ scan_timestamp-nil)
  write_lines-AreDated (x ∷ l) ls rest stamp h =
      rw (write_lines, first_line, stamp)
        (write_loop-AreDated junk path (add_line (x ∷ l) newline dated) ls rest h
          ∙ ap (λ s. record dated { segment = s; line = kept (last_line (x ∷ l) ls) rest })
              (add_line_text [] (x ∷ l) (all_lines ls)))

  abbrev pub dated_file : Text
  dated_file = file_of junk path m.file_name t (scan_field 3 t junk.text)

  -- All complete lines go to one file, and the metadata get its path if it is new.
  pub write_buffer_to_disk-AreDated :
      (b : CacheBlock) (l : Text) (ls : List Text) (rest : Text)
      → ((q : Text) → junk.makes q ≡ true)
      → split_lines b.buf ≡ (l ∷ ls, rest)
      → scan_timestamp l ≡ some t
      → AreDated junk t ls
      → ((p : Text)
          → (write_buffer_to_disk junk path files folders m b).0.files p
            ≡ write_file true dated_file (all_lines (l ∷ ls)) files p)
        × ((write_buffer_to_disk junk path files folders m b).0.mdata
            ≡ record (add_path (files dated_file) dated_file m) {
              size =
                  (add_path (files dated_file) dated_file m).size
                  +ℤ pos (length (all_lines (l ∷ ls)));
            })
        × ((write_buffer_to_disk junk path files folders m b).1 ≡ record b {
          buf = kept (last_line l ls) rest;
          offset = length (kept (last_line l ls) rest);
        })
  unfolding write_buffer_to_disk write_text write_segment IsReady next_segment
  write_buffer_to_disk-AreDated b l ls rest makes lines stamp h =
      let ready =
        next_segment-IsReady junk path m.file_name makes t (start_writer junk files folders m)
          refl in
      let name = IsReady-file junk path m.file_name makes dated ready in
      rw (write_text, lines, write_lines-AreDated l ls rest stamp h)
        (λ p. rw (ready.0, name) refl, rw name refl, refl)
