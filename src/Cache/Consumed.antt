-- ===== src/Cache/Consumed.antt =====
-- What `write_buffer_to_disk` takes out of a write buffer, and what it leaves in it.
use os_hw.Prelude.{
  ℕ, suc, ◌+◌, ◌≡◌, refl, ap, sym, subst, Bool, ◌∙◌, Option, none, some, List, [], ◌∷◌, ◌++◌, arith,
  ◌==◌, length, length-append, pos, +ℤ_pos, Bool-cases, Option-cases, inl, inr,
}
use os_hw.Text.{Text, newline}
use os_hw.Cache.{MData, CacheBlock}
use os_hw.Cache.Timestamps.{scan_timestamp, scan_timestamp-nil, is_dates_equal}
use os_hw.Cache.Chunks.{
  Writer, chunk_file_name, add_path, write_segment, Junk, next_segment, add_line, take_line,
  write_loop, first_line, write_lines, grow, split_lines, start_writer, write_text,
  write_buffer_to_disk,
}

-- Every line has a timestamp, and so is not empty.
abbrev pub AreStamped : List Text → Type 0
AreStamped [] = Unit
AreStamped (l ∷ ls) = ((t : Text) × (scan_timestamp l ≡ some t)) × AreStamped ls

-- The bytes of complete lines.
abbrev pub total : List Text → ℕ
total [] = 0
total (l ∷ ls) = length l + 1 + total ls

abbrev pub last_line : Text → List Text → Text
last_line l [] = l
last_line l (l' ∷ ls) = last_line l' ls

-- What is left in the buffer: the incomplete line, or else the last complete one.
abbrev pub kept : Text → Text → Text
kept l [] = l
kept l (c ∷ rest) = c ∷ rest

add_path-size : (o : Option Text) (name : Text) (m : MData) → (add_path o name m).size ≡ m.size
unfolding add_path
add_path-size none name m = refl
add_path-size (some content) name m = refl

-- `size` and the segment of a writer count `n` bytes together.
abbrev Counts : Writer → ℕ → Type 0
Counts w n = (k : ℕ) × (w.mdata.size ≡ pos k) × (k + length w.segment ≡ n)

write_segment-size :
    (path : Text) (w : Writer) (n : ℕ) → Counts w n → (write_segment path w).mdata.size ≡ pos n
unfolding write_segment
write_segment-size path w n (k, size, sum) =
    let name = chunk_file_name path w in
    rw (add_path-size (w.files name) name w.mdata, size, +ℤ_pos k (length w.segment)) (ap pos sum)

write_segment-Counts :
    (path : Text) (w : Writer) (n : ℕ) → Counts w n → Counts (write_segment path w) n
unfolding write_segment
write_segment-Counts path w n h = (n, write_segment-size path w n h, omega arith)

next_segment-Counts :
    (junk : Junk) (path t : Text) (w : Writer) (n : ℕ)
    → Counts w n
    → Counts (next_segment junk path t w) n
unfolding next_segment
next_segment-Counts junk path t w n h = h

add_line-Counts :
    (l : Text) (e : ℕ) (w : Writer) (n : ℕ)
    → Counts w n
    → Counts (add_line l e w) (n + (length l + 1))
unfolding add_line
add_line-Counts l e w n (k, size, sum) =
    (k, size, omega (arith, length-append w.segment (l ++ e ∷ []), length-append l (e ∷ [])))

take_line-Counts :
    (junk : Junk) (path t l : Text) (w : Writer) (n : ℕ)
    → Counts w n
    → Counts (take_line junk path t l w) (n + (length l + 1))
unfolding take_line
take_line-Counts junk path t l w n h =
    elim (Bool-cases (is_dates_equal junk.equal t w.last_seen_date)) [
      | inl same ↦ rw (take_line, same) (add_line-Counts l newline w n h)
      | inr new ↦
          let written = write_segment path w in
          rw (take_line, new)
            (add_line-Counts l newline (next_segment junk path t written) n
              (next_segment-Counts junk path t written n (write_segment-Counts path w n h)))
    ]

write_loop-Counts :
    (junk : Junk) (path : Text) (w : Writer) (ls : List Text) (rest : Text) (n : ℕ)
    → AreStamped ls
    → Counts w n
    → Counts (write_loop junk path w ls rest) (n + total ls)
      × ((write_loop junk path w ls rest).line ≡ kept (last_line w.line ls) rest)
unfolding write_loop take_line add_line
write_loop-Counts junk path w [] [] n h (k, size, sum) = ((k, size, omega arith), refl)
write_loop-Counts junk path w [] (c ∷ rest) n h (k, size, sum) = ((k, size, omega arith), refl)
write_loop-Counts junk path w ([] ∷ ls) rest n h c = cc (sym h.0.1 ∙ scan_timestamp-nil)
write_loop-Counts junk path w ((x ∷ l) ∷ ls) rest n ((t, stamped), h) c =
    let next = take_line junk path t (x ∷ l) w in
    let ((k, size, sum), line) =
      write_loop-Counts junk path next ls rest (n + (length (x ∷ l) + 1)) h
        (take_line-Counts junk path t (x ∷ l) w n c) in
    rw (write_loop, stamped) ((k, size, omega arith), line)

first_line-Counts :
    (junk : Junk) (path l : Text) (e : ℕ) (w : Writer) (n : ℕ)
    → Counts w n
    → Counts (first_line junk path l e w) (n + (length l + 1))
      × ((first_line junk path l e w).line ≡ l)
unfolding first_line next_segment add_line
first_line-Counts junk path l e w n h = elim (Option-cases (scan_timestamp l)) [
  | inl missing ↦ rw (first_line, missing) (add_line-Counts l e w n h, refl)
  | inr (t, stamped) ↦ rw (first_line, stamped) (add_line-Counts l e w n h, refl)
]

write_lines-Counts :
    (junk : Junk) (path : Text) (w : Writer) (l : Text) (ls : List Text) (rest : Text) (n : ℕ)
    → AreStamped (l ∷ ls)
    → Counts w n
    → Counts (write_lines junk path w (l ∷ ls) rest) (n + total (l ∷ ls))
      × ((write_lines junk path w (l ∷ ls) rest).line ≡ kept (last_line l ls) rest)
unfolding write_lines
write_lines-Counts junk path w [] ls rest n h c = cc (sym h.0.1 ∙ scan_timestamp-nil)
write_lines-Counts junk path w (x ∷ l) ls rest n h c =
    let (counts, line) = first_line-Counts junk path (x ∷ l) newline w n c in
    let ((k, size, sum), last) =
      write_loop-Counts junk path (first_line junk path (x ∷ l) newline w) ls rest
        (n + (length (x ∷ l) + 1)) h.1 counts in
    ((k, size, omega arith), last ∙ ap (λ y. kept (last_line y ls) rest) line)

grow-total :
    (c : ℕ) (p : List Text × Text)
    → total (grow c p).0 + length (grow c p).1 ≡ suc (total p.0 + length p.1)
unfolding grow
grow-total c ([], rest) = omega arith
grow-total c (l ∷ ls, rest) = omega arith

split_lines-total : (s : Text) → total (split_lines s).0 + length (split_lines s).1 ≡ length s
unfolding split_lines
split_lines-total [] = refl
split_lines-total (c ∷ s) = elim (Bool-cases (c == newline)) [
  | inl end ↦ rw (split_lines, end) (omega (arith, split_lines-total s))
  | inr inside ↦
      rw (split_lines, inside) (omega (arith, split_lines-total s, grow-total c (split_lines s)))
]

-- If a write buffer has at least one complete line, and all of them have a timestamp, then, whether
-- or not the chunk files can be opened, `size` grows by just the bytes of these lines, however the
-- dates divide them, and the buffer keeps the incomplete line behind them; but if there is none, it
-- keeps the last of the complete lines, which `size` has counted. The complete lines and the
-- incomplete one are together as long as the buffer was.
pub write_buffer_to_disk_lem :
    (junk : Junk) (path : Text) (files : Text → Option Text) (folders : Text → Bool) (m : MData)
    (b : CacheBlock) (n : ℕ) (l : Text) (ls : List Text) (rest : Text)
    → m.size ≡ pos n
    → split_lines b.buf ≡ (l ∷ ls, rest)
    → AreStamped (l ∷ ls)
    → ((write_buffer_to_disk junk path files folders m b).0.mdata.size ≡ pos (n + total (l ∷ ls)))
      × ((write_buffer_to_disk junk path files folders m b).1.buf ≡ kept (last_line l ls) rest)
      × ((write_buffer_to_disk junk path files folders m b).1.offset
          ≡ length (kept (last_line l ls) rest))
      × (total (l ∷ ls) + length rest ≡ length b.buf)
unfolding write_buffer_to_disk write_text
write_buffer_to_disk_lem junk path files folders m b n l ls rest size lines stamped =
    let w = start_writer junk files folders m in
    let (counts, line) =
      write_lines-Counts junk path w l ls rest n stamped (n, size, omega arith) in
    rw (write_text, lines)
      (
        write_segment-size path (write_lines junk path w (l ∷ ls) rest) (n + total (l ∷ ls)) counts,
        line,
        ap length line,
        subst (λ p. total p.0 + length p.1 ≡ length b.buf) lines (split_lines-total b.buf),
      )
