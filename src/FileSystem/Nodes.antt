-- ===== src/FileSystem/Nodes.antt =====
-- The calls of lfs_fuse.c about files of all kinds: `lfs_mknod`, `lfs_getattr`, `lfs_readlink`,
-- `lfs_readdir`, and the stubs. Paths begin with a slash.
pub mod Existing
use os_hw.Prelude.{
  ℕ, zero, suc, ◌+◌, ◌-◌, ◌*◌, ◌%◌, ◌^◌, Bool, Option, none, some, List, [], ◌∷◌, ◌++◌, ◌==◌, leb_ℤ,
  if◌then◌else◌, get_or, ℤ, pos, minus_one, eqb_ℤ,
}
use os_hw.Text.{Text, codes, text_eq}
use os_hw.FileSystem.Operations.{
  load_path_root, Fs, Reply, died, replied, lfs_mknod, lfs_getattr, fread,
}
use os_hw.FileSystem.Calls.{Answer, status, negate_errno, set_load_path}

-- S_ISREG and S_ISFIFO of the mode.
pub data FileMode : Type 0 where
  regular fifo other : FileMode

-- What the system answers to the calls of `lfs_mknod`.
pub record NodeCalls : Type 0 where
  pub open_new : Text → Answer
  pub close : ℤ → Answer
  pub mkfifo : Text → Answer
  pub mknod : Text → Answer

-- `if (res >= 0) res = close(res);`
abbrev pub close_opened : (close : ℤ → Answer) → Answer → Answer
close_opened close a = if leb_ℤ (pos 0) a.res then close a.res else a

-- `lfs_mknod` of the path "/name" in the new state `made`.
made_node : NodeCalls → Text → Option Fs → Reply ℤ
made_node sys name none = died
made_node sys name (some s) = replied (status (close_opened sys.close (sys.open_new s.load_path))) s

-- `lfs_mknod` for all modes, at the path "/name": `mkfifo` and `mknod` get the path as it is.
unfoldable pub mknod_call : NodeCalls → FileMode → Text → Fs → Reply ℤ
unfolding made_node
mknod_call sys regular name s = made_node sys name (lfs_mknod s name)
mknod_call sys fifo name s =
    replied (status (sys.mkfifo (b'/' ∷ name))) (set_load_path (b'/' ∷ name) s)
mknod_call sys other name s =
    replied (status (sys.mknod (b'/' ∷ name))) (set_load_path (b'/' ∷ name) s)

-- MDATA_PATH
abbrev pub metadata_root : Text
metadata_root = codes "/home/vino/Desktop/ESS/metadata/"

-- The ends of `lfs_getattr`: an error, what `lstat` filled in, a size of its own, or no return.
pub data Attr : Type 0 where
  failed : ℤ → Attr
  as_found : Attr
  sized : ℤ → Fs → Attr
  no_return : Attr

sized_of : Reply ℤ → Attr
sized_of died = no_return
sized_of (replied n s) = sized n s

-- `lfs_getattr` at any path: the root and names that begin with a dot are passed on.
unfoldable pub getattr_call : (lstat : Text → Answer) → (junk : Text) → Text → Fs → Attr
unfolding sized_of
getattr_call lstat junk [] s = no_return
getattr_call lstat junk (c ∷ name) s =
    let own = sized_of (lfs_getattr s junk name) in
    let a = lstat (metadata_root ++ c ∷ name) in
    if eqb_ℤ a.res minus_one
    then failed (negate_errno a.errno)
    else if text_eq (c ∷ name) (codes "/")
    then as_found
    else if get_or name 0 0 == b'.'
    then as_found
    else own

-- `size - 1` of a `size_t`
abbrev pub size_pred : ℕ → ℕ
size_pred n = (n + (2 ^ 64 - 1)) % 2 ^ 64

-- What `readlink` answers: its `errno`, or the bytes that it puts into the buffer.
pub data Link : Type 0 where
  no_link : (errno : ℕ) → Link
  link_to : Text → Link

-- The result, and the string in the buffer, if the call succeeds.
abbrev pub link_result : Link → ℤ × Option Text
link_result (no_link errno) = (negate_errno errno, none)
link_result (link_to target) = (pos 0, some target)

unfoldable pub lfs_readlink :
    (readlink : Text → ℕ → Link) → Text → (size : ℕ) → Fs → Fs × (ℤ × Option Text)
lfs_readlink readlink path size s =
    let s' = set_load_path path s in (s', link_result (readlink s'.load_path (size_pred size)))

-- An entry as `lfs_readdir` gives it to `filler`.
pub record Entry : Type 0 where
  pub name : Text
  pub ino : ℕ
  pub mode : ℕ

pub record Dirent : Type 0 where
  pub d_name : Text
  pub d_ino : ℕ
  pub d_type : ℕ

abbrev pub entry_of : Dirent → Entry
entry_of de = record { name = de.d_name; ino = de.d_ino; mode = de.d_type * 2 ^ 12 }

-- The loop: `full done e` is what `filler` returns for `e` after it has got `done`. The entries
-- that it got.
unfoldable pub fill_loop :
    (full : List Entry → Entry → Bool) → List Entry → List Dirent → List Entry
fill_loop full done [] = done
fill_loop full done (de ∷ des) =
    let rest = fill_loop full (done ++ entry_of de ∷ []) des in
    if full done (entry_of de) then done ++ entry_of de ∷ [] else rest

-- What `opendir` and the calls of `readdir` give: an `errno`, or all entries.
pub data Directory : Type 0 where
  no_directory : (errno : ℕ) → Directory
  directory : List Dirent → Directory

abbrev pub dir_result : (full : List Entry → Entry → Bool) → Directory → ℤ × List Entry
dir_result full (no_directory errno) = (negate_errno errno, [])
dir_result full (directory des) = (pos 0, fill_loop full [] des)

unfoldable pub lfs_readdir :
    (opendir : Text → Directory)
    → (full : List Entry → Entry → Bool) → Text
    → Fs
    → Fs × (ℤ × List Entry)
lfs_readdir opendir full path s =
    let s' = set_load_path path s in (s', dir_result full (opendir s'.load_path))

-- The stubs
abbrev pub lfs_release : Text → ℤ
lfs_release path = pos 0

abbrev pub lfs_fsync : Text → (isdatasync : ℤ) → ℤ
lfs_fsync path isdatasync = pos 0
