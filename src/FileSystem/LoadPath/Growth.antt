-- ===== src/FileSystem/LoadPath/Growth.antt =====
-- How `lfs_write` of lfs_fuse.c moves `load_path`.
use os_hw.Prelude.{
  ℕ, ◌+◌, ◌*◌, ◌≡◌, refl, sym, ap, subst, ◌∙◌, List, [], ◌∷◌, ◌++◌, arith, length, length-append,
  inl, inr, ◌⊎◌,
}
use os_hw.Text.{Text}
use os_hw.Cache.Chunks.{Junk}
use os_hw.FileSystem.Operations.{
  Fs, Lookup, exited, null_block, fault, mapped, metadata_block, Reply, died, replied,
}
use os_hw.FileSystem.Write.{write_to, write_found, extend_load_path, lfs_write}
use os_hw.FileSystem.LoadPath.{move, move_reply, metadata_block-at_path, write_to-at_path}

-- What a lookup or a reply leaves in `load_path`.
abbrev HasPath : Text → Lookup → Type 0
HasPath p exited = Unit
HasPath p null_block = Unit
HasPath p fault = Unit
HasPath p (mapped i a s) = s.load_path ≡ p

abbrev RepliesPath : {A : Type 0} → Text → Reply A → Type 0
RepliesPath p died = Unit
RepliesPath p (replied x s) = s.load_path ≡ p

move-HasPath : (p : Text) (r : Lookup) → HasPath p (move p r)
move-HasPath p exited = tt
move-HasPath p null_block = tt
move-HasPath p fault = tt
move-HasPath p (mapped i a s) = refl

move_reply-RepliesPath : {A : Type 0} (p : Text) (r : Reply A) → RepliesPath p (move_reply p r)
move_reply-RepliesPath p died = tt
move_reply-RepliesPath p (replied x s) = refl

write_to-RepliesPath :
    (junk : Junk) (s : Fs) (name : Text) (a : ℕ) (text : Text)
    → RepliesPath s.load_path (write_to junk s name a text)
write_to-RepliesPath junk s name a text =
    subst (RepliesPath s.load_path) (sym (write_to-at_path junk s.load_path s name a text))
      (move_reply-RepliesPath s.load_path (write_to junk s name a text))

write_found-RepliesPath :
    (junk : Junk) (p name text : Text) (found : Lookup)
    → HasPath p found
    → RepliesPath p (write_found junk name text found)
unfolding write_found
write_found-RepliesPath junk p name text exited h = tt
write_found-RepliesPath junk p name text null_block h = tt
write_found-RepliesPath junk p name text fault h = tt
write_found-RepliesPath junk p name text (mapped i a s) h =
    subst (λ q. RepliesPath q (write_to junk s name a text)) h
      (write_to-RepliesPath junk s name a text)

lfs_write-RepliesPath :
    (junk : Junk) (stack : Text) (s : Fs) (name text : Text)
    → RepliesPath (s.load_path ++ b'/' ∷ name) (lfs_write junk stack s name text)
unfolding lfs_write
lfs_write-RepliesPath junk stack s name text =
    let p = s.load_path ++ b'/' ∷ name in
    let s1 = extend_load_path (b'/' ∷ name) s in
    write_found-RepliesPath junk p name text (metadata_block s1 stack name) (
      subst (HasPath p) (sym (metadata_block-at_path p s1 stack name))
        (move-HasPath p (metadata_block s1 stack name)))

-- Calls of `lfs_write` for one file in a row.
unfoldable pub lfs_writes :
    Junk → (stack : Text) → Fs → (name : Text) → List Text → Reply (Unit {0})
lfs_writes junk stack s name [] = replied tt s
lfs_writes junk stack s name (text ∷ texts) = elim (lfs_write junk stack s name text) [
  | died ↦ died
  | replied n t ↦ lfs_writes junk stack t name texts
]

Reply-cases : {A : Type 0} (r : Reply A) → (r ≡ died) ⊎ ((x : A) × (s : Fs) × (r ≡ replied x s))
Reply-cases died = inl refl
Reply-cases (replied x s) = inr (x, s, refl)

-- Each `lfs_write` makes `load_path` longer by the path that it is called with: nothing resets it
-- between the calls.
pub length-lfs_writes :
    (junk : Junk) (stack : Text) (s t : Fs) (name : Text) (texts : List Text)
    → lfs_writes junk stack s name texts ≡ replied tt t
    → length t.load_path ≡ length s.load_path + length texts * (length name + 1)
unfolding lfs_writes
length-lfs_writes junk stack s t name [] h =
    let same : s ≡ t = cc in grind (arith, ap (λ x. length x.load_path) same)
length-lfs_writes junk stack s t name (text ∷ texts) h =
    elim (Reply-cases (lfs_write junk stack s name text)) [
      | inl end ↦
          let stops : lfs_writes junk stack s name (text ∷ texts) ≡ died =
            rw (lfs_writes, end) refl in
          cc (sym stops ∙ h)
      | inr (n, u, wrote) ↦
          let path =
            subst (RepliesPath (s.load_path ++ b'/' ∷ name)) wrote
              (lfs_write-RepliesPath junk stack s name text) in
          let step : lfs_writes junk stack s name (text ∷ texts)
              ≡ lfs_writes junk stack u name texts =
            rw (lfs_writes, wrote) refl in
          grind (
            arith,
            length-lfs_writes junk stack u t name texts (sym step ∙ h),
            ap length path,
            length-append s.load_path (b'/' ∷ name),
          )
    ]
