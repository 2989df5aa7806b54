-- ===== src/Cache/Print.antt =====
-- `print_cache_block` and `print_cache` of Cache.c.
use os_hw.Prelude.{
  ℕ, zero, suc, ◌+◌, ◌≡◌, refl, sym, ap, ◌∙◌, false, Option, none, some, List, [], ◌∷◌, ◌++◌,
  if◌then◌else◌, get_elem?, ℤ, pos, pos_part, arith,
}
use native.Mathlib.Nat.{add-zero, add-suc, suc-add}
use os_hw.Text.{Text, newline, codes, print_int}
use os_hw.Cache.{CacheBlock, Cache, CacheType, Store, init_cache_block, init_blocks}

-- What is written to stdout and to stderr. The order of the one against the other is not kept.
pub record Output : Type 0 where
  pub out : Text
  pub err : Text

abbrev pub no_output : Output
no_output = record { out = []; err = [] }

-- One output after the other; `none` is the read through a pointer that is not valid.
unfoldable pub print_then : Option Output → Option Output → Option Output
print_then none o = none
print_then (some a) none = none
print_then (some a) (some b) = some (record { out = a.out ++ b.out; err = a.err ++ b.err })

-- The field `buf`: NULL, a string, or, in a block of a metadata cache, where nothing sets it, any
-- value.
pub data BufPointer : Type 0 where
  null_pointer : BufPointer
  invalid : BufPointer
  string : Text → BufPointer

abbrev print_line : Text → Text
print_line s = s ++ newline ∷ []

abbrev print_number : (label : Text) → ℤ → Text
print_number label n = label ++ print_line (print_int n)

-- The loop over the paths.
unfoldable pub list_paths : ℕ → List Text → Text
list_paths zero ps = []
list_paths (suc n) [] = newline ∷ list_paths n []
list_paths (suc n) (p ∷ ps) = p ++ newline ∷ list_paths n ps

unfoldable pub list_metadata : Store → Option ℕ → Output
list_metadata m none = record { out = []; err = print_line (codes "ERROR:mdata is NULL") }
list_metadata m (some a) = record {
  out =
      (codes "File Name: " ++ print_line (m a).file_name)
      ++ (print_number (codes "Number of paths: ") (m a).num_paths
          ++ (print_number (codes "Size: ") (m a).size
              ++ list_paths (pos_part (m a).num_paths) (m a).path));
  err = [];
}

unfoldable pub list_buffer : (offset : ℕ) → BufPointer → Option Output
list_buffer offset null_pointer = some no_output
list_buffer offset invalid = none
list_buffer offset (string buf) = some (record {
  out =
      print_number (codes "Offset : ") (pos offset) ++ (codes "Buffer content:" ++ print_line buf);
  err = [];
})

abbrev print_text : Text → Option Output
print_text s = some (record { out = s; err = [] })

unfoldable pub print_cache_block : Store → CacheBlock → BufPointer → Option Output
print_cache_block m b buf =
    print_then (print_text (print_line (codes "========= CACHE BLOCK CONTENTS ============="))) (
      print_then (some (list_metadata m b.mdata)) (
        print_then
          (print_text (
            print_number (codes "Free flag: ") (if b.free_flag then pos 1 else pos 0)
            ++ print_number (codes "lru_counter:") (pos b.lru_counter)))
          (print_then (list_buffer b.offset buf)
            (print_text (print_line (codes "============================================="))))))

-- The loop of `print_cache`; `buf i` is the pointer of block `i`.
unfoldable pub print_blocks : ℕ → Store → (ℕ → BufPointer) → List CacheBlock → Option Output
print_blocks i m buf [] = some no_output
print_blocks i m buf (b ∷ bs) =
    print_then
      (if b.free_flag
        then some no_output
        else print_then (print_text (print_number (codes "Cache Block:") (pos i))) (
            print_then (print_cache_block m b (buf i))
              (print_text (print_line (codes "===============")))))
      (print_blocks (suc i) m buf bs)

unfoldable pub print_cache : Store → (ℕ → BufPointer) → Cache → Option Output
print_cache m buf c = print_blocks 0 m buf c.cblocks

print_then-none : (o : Option Output) → print_then o none ≡ none
unfolding print_then
print_then-none none = refl
print_then-none (some o) = refl

-- One block in use whose `buf` is not valid, and `print_cache` reads through it.
print_blocks-invalid :
    (i j : ℕ) (m : Store) (buf : ℕ → BufPointer) (bs : List CacheBlock) {b : CacheBlock}
    → get_elem? bs j ≡ some b
    → b.free_flag ≡ false
    → buf (i + j) ≡ invalid
    → print_blocks i m buf bs ≡ none
unfolding print_blocks print_then print_cache_block list_buffer
print_blocks-invalid i j m buf [] at used bad = absurd (cc)
print_blocks-invalid i zero m buf (b ∷ bs) at used bad =
    let same : b.free_flag ≡ false = cc in
    let bad' : buf i ≡ invalid = ap buf (sym (add-zero i)) ∙ bad in rw (same, bad') refl
print_blocks-invalid i (suc j) m buf (b ∷ bs) at used bad =
    rw
      (print_blocks-invalid (suc i) j m buf bs at used
        (ap buf (suc-add i j ∙ sym (add-suc i j)) ∙ bad))
      (print_then-none _)

pub print_cache-invalid :
    (m : Store) (buf : ℕ → BufPointer) (c : Cache) (j : ℕ) {b : CacheBlock}
    → get_elem? c.cblocks j ≡ some b
    → b.free_flag ≡ false
    → buf j ≡ invalid
    → print_cache m buf c ≡ none
unfolding print_cache
print_cache-invalid m buf c j at used bad =
    print_blocks-invalid 0 j m buf c.cblocks at used (ap buf (omega arith) ∙ bad)

-- Only blocks in use are printed: a cache that was just created prints nothing, whatever the
-- pointers in it are.
print_blocks-init_blocks :
    (i n : ℕ) (type : CacheType) (addr : ℕ) (junk : Text) (m : Store) (buf : ℕ → BufPointer)
    → print_blocks i m buf (init_blocks n type addr junk) ≡ some no_output
unfolding print_blocks init_blocks init_cache_block print_then
print_blocks-init_blocks i zero type addr junk m buf = refl
print_blocks-init_blocks i (suc n) CacheType.metadata_cache addr junk m buf =
    rw (print_blocks-init_blocks (suc i) n CacheType.metadata_cache (addr + 1) junk m buf) refl
print_blocks-init_blocks i (suc n) CacheType.write_buffer addr junk m buf =
    rw (print_blocks-init_blocks (suc i) n CacheType.write_buffer (addr + 1) junk m buf) refl
