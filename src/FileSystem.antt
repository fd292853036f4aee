-- ===== src/FileSystem.antt =====
-- What the program asks the system about files, as an interface: nothing here is under src/ of the
-- repository.
use filemanager_httpd.Common.{ℕ, ◌/◌, ◌%◌, ◌⊎◌, inl, inr, Bool, false, Option, List, ◌==◌}
use filemanager_httpd.Common.Strings.{Bytes}
use filemanager_httpd.Folder.{Stat}

-- The values of `errno` that the program tells apart.
pub data Errno : Type 0 where
  enoent enotdir eperm eacces eexist eisdir econnreset epipe ewouldblock : Errno
  other_errno : ℕ → Errno

-- `stat`, `opendir` with `readdir`, and `fnmatch` with FNM_PERIOD and, if true, FNM_PATHNAME: the
-- pattern stands first.
pub record FileSystem : Type 0 where
  pub stat : Bytes → Stat ⊎ Errno
  pub read_dir : Bytes → List Bytes ⊎ Errno
  pub fnmatch : Bool → Bytes → Bytes → Bool

-- `S_ISREG`
abbrev pub s_isreg : ℕ → Bool
s_isreg mode = mode / 4096 % 16 == 8

abbrev pub is_stat : (ℕ → Bool) → Stat ⊎ Errno → Bool
is_stat p (inl st) = p st.st_mode
is_stat p (inr e) = false

-- What the program does to files, with the state `W` of the disk: `open` for a new file, which fails
-- where the file exists, `mkstemp`, with the name that it made of the template, `write`, with the number
-- of bytes taken, `close`, `unlink`, `rename`, `link`, `mkdir`, `rmdir`, `chmod`, and `opendir` with
-- `readdir`. For the others `none` is success.
pub record FileOps (W : Type 0) : Type 0 where
  pub open_new : Bytes → W → (ℕ ⊎ Errno) × W
  pub mkstemp : Bytes → W → ((Bytes × ℕ) ⊎ Errno) × W
  pub write : ℕ → Bytes → W → (ℕ ⊎ Errno) × W
  pub close : ℕ → W → W
  pub unlink : Bytes → W → Option Errno × W
  pub rename : Bytes → Bytes → W → Option Errno × W
  pub link : Bytes → Bytes → W → Option Errno × W
  pub mkdir : Bytes → ℕ → W → Option Errno × W
  pub rmdir : Bytes → W → Option Errno × W
  pub chmod : Bytes → ℕ → W → Option Errno × W
  pub read_dir : Bytes → W → List Bytes ⊎ Errno
