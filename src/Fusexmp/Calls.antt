-- ===== src/Fusexmp/Calls.antt =====
-- The calls of fusexmp.c that pass a path on to the system, as those of lfs_fuse.c, below another
-- LOAD_PATH.
use os_hw.Prelude.{ℕ, ◌++◌, ℤ, pos}
use os_hw.Text.{Text, codes}
use os_hw.FileSystem.Operations.{Fs}
use os_hw.FileSystem.Calls.{Answer, status, Time, timeval, length_or_error}
use os_hw.FileSystem.Nodes.{Link, link_result, size_pred, Directory, Entry, dir_result}
use os_hw.Prelude.{Bool, Option, List}

-- LOAD_PATH
abbrev pub load_path_root : Text
load_path_root = codes "/home/gokul/Desktop/serverfilesystem"

-- `strcpy(load_path, LOAD_PATH); strcat(load_path, path);`
abbrev pub set_load_path : Text → Fs → Fs
set_load_path path s = record s { load_path = load_path_root ++ path }

-- A call below LOAD_PATH: the new globals and the result.
abbrev pub path_call : (Text → Answer) → Text → Fs → Fs × ℤ
path_call call path s = let s' = set_load_path path s in (s', status (call s'.load_path))

-- `xmp_getattr` leaves in `stbuf` what `lstat` puts there.
unfoldable pub xmp_getattr : (lstat : Text → Answer) → Text → Fs → Fs × ℤ
xmp_getattr lstat path s = path_call lstat path s

unfoldable pub xmp_access : (access : Text → ℕ → Answer) → Text → (mask : ℕ) → Fs → Fs × ℤ
xmp_access access path mask s = path_call (λ p. access p mask) path s

unfoldable pub xmp_readlink :
    (readlink : Text → ℕ → Link) → Text → (size : ℕ) → Fs → Fs × (ℤ × Option Text)
xmp_readlink readlink path size s =
    let s' = set_load_path path s in (s', link_result (readlink s'.load_path (size_pred size)))

unfoldable pub xmp_readdir :
    (opendir : Text → Directory)
    → (full : List Entry → Entry → Bool) → Text
    → Fs
    → Fs × (ℤ × List Entry)
xmp_readdir opendir full path s =
    let s' = set_load_path path s in (s', dir_result full (opendir s'.load_path))

unfoldable pub xmp_mkdir : (mkdir : Text → ℕ → Answer) → Text → (mode : ℕ) → Fs → Fs × ℤ
xmp_mkdir mkdir path mode s = path_call (λ p. mkdir p mode) path s

unfoldable pub xmp_unlink : (unlink : Text → Answer) → Text → Fs → Fs × ℤ
xmp_unlink unlink path s = path_call unlink path s

unfoldable pub xmp_rmdir : (rmdir : Text → Answer) → Text → Fs → Fs × ℤ
xmp_rmdir rmdir path s = path_call rmdir path s

unfoldable pub xmp_chmod : (chmod : Text → ℕ → Answer) → Text → (mode : ℕ) → Fs → Fs × ℤ
xmp_chmod chmod path mode s = path_call (λ p. chmod p mode) path s

unfoldable pub xmp_chown : (lchown : Text → ℕ → ℕ → Answer) → Text → (uid gid : ℕ) → Fs → Fs × ℤ
xmp_chown lchown path uid gid s = path_call (λ p. lchown p uid gid) path s

unfoldable pub xmp_truncate : (truncate : Text → ℕ → Answer) → Text → (size : ℕ) → Fs → Fs × ℤ
xmp_truncate truncate path size s = path_call (λ p. truncate p size) path s

-- What `open` returns is closed again, if it is not -1.
unfoldable pub xmp_open : (open_file : Text → ℕ → Answer) → Text → (flags : ℕ) → Fs → Fs × ℤ
xmp_open open_file path flags s = path_call (λ p. open_file p flags) path s

unfoldable pub xmp_statfs : (statvfs : Text → Answer) → Text → Fs → Fs × ℤ
xmp_statfs statvfs path s = path_call statvfs path s

unfoldable pub xmp_utimens :
    (utimes : Text → Time → Time → Answer) → Text → (access modification : Time) → Fs → Fs × ℤ
xmp_utimens utimes path t0 t1 s = path_call (λ p. utimes p (timeval t0) (timeval t1)) path s

-- The calls with two paths pass both on as they are.
unfoldable pub xmp_symlink : (symlink : Text → Text → Answer) → Text → Text → ℤ
xmp_symlink symlink from to = status (symlink from to)

unfoldable pub xmp_rename : (rename : Text → Text → Answer) → Text → Text → ℤ
xmp_rename rename from to = status (rename from to)

unfoldable pub xmp_link : (link : Text → Text → Answer) → Text → Text → ℤ
xmp_link link from to = status (link from to)

-- The calls on extended attributes, of a build with HAVE_SETXATTR.
unfoldable pub xmp_setxattr :
    (lsetxattr : Text → Text → Text → ℕ → Answer) → (path name value : Text) → (flags : ℕ) → ℤ
xmp_setxattr lsetxattr path name value flags = status (lsetxattr path name value flags)

unfoldable pub xmp_getxattr :
    (lgetxattr : Text → Text → ℕ → Answer) → (path name : Text) → (size : ℕ) → ℤ
xmp_getxattr lgetxattr path name size = length_or_error (lgetxattr path name size)

unfoldable pub xmp_listxattr : (llistxattr : Text → ℕ → Answer) → Text → (size : ℕ) → ℤ
xmp_listxattr llistxattr path size = length_or_error (llistxattr path size)

unfoldable pub xmp_removexattr : (lremovexattr : Text → Text → Answer) → (path name : Text) → ℤ
xmp_removexattr lremovexattr path name = status (lremovexattr path name)

-- The stubs
abbrev pub xmp_release : Text → ℤ
xmp_release path = pos 0

abbrev pub xmp_fsync : Text → (isdatasync : ℤ) → ℤ
xmp_fsync path isdatasync = pos 0
