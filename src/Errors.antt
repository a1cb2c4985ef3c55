-- ===== src/Errors.antt =====
-- lib/errors.js: the errors of a virtual place, in the form that node:fs gives its own.
use shared_memory_fs.Prelude.{[], ◌++◌, Option, none, some}
use shared_memory_fs.Prelude.Text.{Str, str}

-- The keys of MESSAGES.
pub data Errno : Type 0 where
  enoent : Errno
  enotdir : Errno
  eisdir : Errno
  enotempty : Errno
  eexist : Errno
  eacces : Errno
  erofs : Errno
  enotsup : Errno
  exdev : Errno
  einval : Errno

unfoldable pub code_text : Errno → Str
code_text enoent = str "ENOENT"
code_text enotdir = str "ENOTDIR"
code_text eisdir = str "EISDIR"
code_text enotempty = str "ENOTEMPTY"
code_text eexist = str "EEXIST"
code_text eacces = str "EACCES"
code_text erofs = str "EROFS"
code_text enotsup = str "ENOTSUP"
code_text exdev = str "EXDEV"
code_text einval = str "EINVAL"

unfoldable pub messages : Errno → Str
messages enoent = str "no such file or directory"
messages enotdir = str "not a directory"
messages eisdir = str "illegal operation on a directory"
messages enotempty = str "directory not empty"
messages eexist = str "file already exists"
messages eacces = str "permission denied"
messages erofs = str "read-only file system"
messages enotsup = str "operation not supported"
messages exdev = str "cross-device link not permitted"
messages einval = str "invalid argument"

-- `err.errno` is the number of the code in os.constants, which the code itself stands for.
pub record FsError : Type 0 where
  pub code : Errno
  pub syscall : Str
  pub path : Option Str
  pub dest : Option Str
  pub message : Str

unfoldable pub reason : Errno → Option Str → Str
unfolding messages
reason code none = messages code
reason code (some detail) = messages code ++ (str " (" ++ (detail ++ str ")"))

unfoldable pub fs_error : Errno → Str → Option Str → Option Str → Option Str → FsError
unfolding code_text reason
fs_error code syscall path detail dest =
    let there : Str = elim path [ none ↦ [] | some p ↦ str " '" ++ (p ++ str "'") ] in
    let target : Str = elim dest [ none ↦ [] | some d ↦ str " -> '" ++ (d ++ str "'") ] in
    record {
      code = code;
      syscall = syscall;
      path = path;
      dest = dest;
      message =
          code_text code
          ++ (str ": " ++ (reason code detail ++ (str ", " ++ (syscall ++ (there ++ target)))));
    }

-- A SystemError: `code` names the refusal, `cause` is the code of `info`.
pub record SystemError : Type 0 where
  pub code : Str
  pub cause : Errno
  pub syscall : Str
  pub path : Str
  pub message : Str

unfoldable pub system_error : Str → Str → Errno → Str → Str → Str → SystemError
unfolding code_text
system_error code title cause message syscall path =
    let reason =
      syscall
      ++ (str " returned " ++ (code_text cause ++ (str " (" ++ (message ++ (str ") " ++ path))))) in
    record {
      code = code;
      cause = cause;
      syscall = syscall;
      path = path;
      message = title ++ (str ": " ++ reason);
    }

-- `rm` of a directory without `recursive`.
unfoldable pub is_directory_error : Str → Str → SystemError
unfolding system_error
is_directory_error syscall path =
    system_error (str "ERR_FS_EISDIR") (str "Path is a directory") eisdir (str "is a directory")
      syscall path

-- `cp` onto an existing file with `errorOnExist`.
unfoldable pub cp_exists_error : Str → SystemError
unfolding system_error
cp_exists_error dest =
    system_error (str "ERR_FS_CP_EEXIST") (str "Target already exists") eexist
      (dest ++ str " already exists") (str "cp") dest

-- `cp` of a file onto a directory.
unfoldable pub cp_onto_directory_error : Str → Str → SystemError
unfolding system_error
cp_onto_directory_error src dest =
    system_error (str "ERR_FS_CP_NON_DIR_TO_DIR")
      (str "Cannot overwrite directory with non-directory") enotdir
      (str "cannot overwrite directory " ++ (dest ++ (str " with non-directory " ++ src)))
      (str "cp") dest

-- Whatever an operation throws: an error of the two forms above, a TypeError with its message, or the
-- DataCloneError of structuredClone.
pub data Failure : Type 0 where
  fs_failure : FsError → Failure
  system_failure : SystemError → Failure
  type_error : Str → Failure
  clone_error : Failure
