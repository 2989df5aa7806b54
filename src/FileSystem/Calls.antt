-- ===== src/FileSystem/Calls.antt =====
-- The calls of lfs_fuse.c that pass a path on to the system, below LOAD_PATH or as it is. What the
-- system answers, -1 or another number, and the `errno` that it leaves are arguments.
use os_hw.Prelude.{ℕ, zero, suc, ◌/◌, ◌++◌, if◌then◌else◌, ℤ, pos, negsuc, minus_one, eqb_ℤ}
use os_hw.Text.{Text}
use os_hw.FileSystem.Operations.{load_path_root, Fs}

-- The file system outside: what `call path` returns, and `errno` after it.
pub record Answer : Type 0 where
  pub res : ℤ
  pub errno : ℕ

abbrev pub negate_errno : ℕ → ℤ
negate_errno zero = pos 0
negate_errno (suc n) = negsuc n

-- `if (res == -1) return -errno; return 0;`
abbrev pub status : Answer → ℤ
status a = if eqb_ℤ a.res minus_one then negate_errno a.errno else pos 0

-- `strcpy(load_path, LOAD_PATH); strcat(load_path, path);`
abbrev pub set_load_path : Text → Fs → Fs
set_load_path path s = record s { load_path = load_path_root ++ path }

-- A call below LOAD_PATH: the new globals and the result.
abbrev pub path_call : (Text → Answer) → Text → Fs → Fs × ℤ
path_call call path s = let s' = set_load_path path s in (s', status (call s'.load_path))

-- What the calls want from the system besides the path.
unfoldable pub lfs_access : (access : Text → ℕ → Answer) → Text → (mask : ℕ) → Fs → Fs × ℤ
lfs_access access path mask s = path_call (λ p. access p mask) path s

unfoldable pub lfs_mkdir : (mkdir : Text → ℕ → Answer) → Text → (mode : ℕ) → Fs → Fs × ℤ
lfs_mkdir mkdir path mode s = path_call (λ p. mkdir p mode) path s

unfoldable pub lfs_unlink : (unlink : Text → Answer) → Text → Fs → Fs × ℤ
lfs_unlink unlink path s = path_call unlink path s

unfoldable pub lfs_rmdir : (rmdir : Text → Answer) → Text → Fs → Fs × ℤ
lfs_rmdir rmdir path s = path_call rmdir path s

unfoldable pub lfs_chmod : (chmod : Text → ℕ → Answer) → Text → (mode : ℕ) → Fs → Fs × ℤ
lfs_chmod chmod path mode s = path_call (λ p. chmod p mode) path s

unfoldable pub lfs_chown : (lchown : Text → ℕ → ℕ → Answer) → Text → (uid gid : ℕ) → Fs → Fs × ℤ
lfs_chown lchown path uid gid s = path_call (λ p. lchown p uid gid) path s

unfoldable pub lfs_truncate : (truncate : Text → ℕ → Answer) → Text → (size : ℕ) → Fs → Fs × ℤ
lfs_truncate truncate path size s = path_call (λ p. truncate p size) path s

-- What `open` returns is closed again, if it is not -1.
unfoldable pub lfs_open : (open_file : Text → ℕ → Answer) → Text → (flags : ℕ) → Fs → Fs × ℤ
lfs_open open_file path flags s = path_call (λ p. open_file p flags) path s

unfoldable pub lfs_statfs : (statvfs : Text → Answer) → Text → Fs → Fs × ℤ
lfs_statfs statvfs path s = path_call statvfs path s

-- Seconds and nanoseconds become seconds and microseconds.
pub record Time : Type 0 where
  pub seconds : ℤ
  pub fraction : ℕ

abbrev pub timeval : Time → Time
timeval t = record t { fraction = t.fraction / 1000 }

unfoldable pub lfs_utimens :
    (utimes : Text → Time → Time → Answer) → Text → (access modification : Time) → Fs → Fs × ℤ
lfs_utimens utimes path t0 t1 s = path_call (λ p. utimes p (timeval t0) (timeval t1)) path s

-- The calls with two paths pass both on as they are.
unfoldable pub lfs_symlink : (symlink : Text → Text → Answer) → Text → Text → ℤ
lfs_symlink symlink from to = status (symlink from to)

unfoldable pub lfs_rename : (rename : Text → Text → Answer) → Text → Text → ℤ
lfs_rename rename from to = status (rename from to)

unfoldable pub lfs_link : (link : Text → Text → Answer) → Text → Text → ℤ
lfs_link link from to = status (link from to)

-- The calls on extended attributes, of a build with HAVE_SETXATTR: the path as it is, and for the
-- two that read, the length that the system answers.
abbrev pub length_or_error : Answer → ℤ
length_or_error a = if eqb_ℤ a.res minus_one then negate_errno a.errno else a.res

unfoldable pub lfs_setxattr :
    (lsetxattr : Text → Text → Text → ℕ → Answer) → (path name value : Text) → (flags : ℕ) → ℤ
lfs_setxattr lsetxattr path name value flags = status (lsetxattr path name value flags)

unfoldable pub lfs_getxattr :
    (lgetxattr : Text → Text → ℕ → Answer) → (path name : Text) → (size : ℕ) → ℤ
lfs_getxattr lgetxattr path name size = length_or_error (lgetxattr path name size)

unfoldable pub lfs_listxattr : (llistxattr : Text → ℕ → Answer) → Text → (size : ℕ) → ℤ
lfs_listxattr llistxattr path size = length_or_error (llistxattr path size)

unfoldable pub lfs_removexattr : (lremovexattr : Text → Text → Answer) → (path name : Text) → ℤ
lfs_removexattr lremovexattr path name = status (lremovexattr path name)
