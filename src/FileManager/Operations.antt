-- ===== src/FileManager/Operations.antt =====
-- src/filemanager.c: what a form does to files. The result of an operation is a message for an error,
-- and the disk behind it; `none` is a failure of the program: a path that is NULL or empty where its last
-- byte is read, or a part that is NULL.
use filemanager_httpd.Common.{
  ℕ, zero, suc, ◌⊎◌, inl, inr, Bool, true, false, not, ◌||◌, Option, none, some, List, [], ◌∷◌,
  ◌++◌, ◌==◌, if◌then◌else◌, is_empty,
}
use filemanager_httpd.Common.Strings.{Bytes, codes, contains_chr, starts_with}
use filemanager_httpd.Folder.{ensure_ends_with_slash, is_dots}
use filemanager_httpd.FileSystem.{Errno, FileOps, enoent, eisdir, other_errno}
use filemanager_httpd.Config.{Config, get_sys_path_for_url_path}
use filemanager_httpd.ContentPart.{ContentPart, finish_upload}
use filemanager_httpd.FileManager.Permissions.{chmod_mode}

-- Behind the folder's path.
abbrev joint : Bytes → Bytes
joint [] = []
joint (c ∷ []) = if c == b'/' then [] else codes "/"
joint (c ∷ d ∷ ds) = joint (d ∷ ds)

abbrev without_slash : Bytes → Bytes
without_slash [] = []
without_slash (c ∷ cs) = if c == b'/' then cs else c ∷ cs

-- `format_path`; its first byte behind the last is read in front of an empty path.
unfoldable pub format_path : Option Bytes → Bytes → Option Bytes
format_path none subdir = none
format_path (some []) subdir = none
format_path (some (c ∷ cs)) subdir = some ((c ∷ cs) ++ (joint (c ∷ cs) ++ without_slash subdir))

-- `fmtError`, with the texts that stand one behind another
unfoldable pub fmt_error : (Errno → Bytes) → Option Errno → List Bytes → Bytes
fmt_error strerror none [] = []
fmt_error strerror (some e) [] = codes ": " ++ strerror e
fmt_error strerror e (str ∷ strs) = str ++ fmt_error strerror e strs

-- The message, if there is one, and the disk.
abbrev pub Result : Type 0 → Type 0
Result W = Option (Option Bytes × W)

abbrev pub is_missing : Option Bytes → Bool
is_missing none = true
is_missing (some s) = is_empty s

module _ {W : Type 0} (ops : FileOps W) (strerror : Errno → Bytes) (cfg : Config) where
  abbrev pub refuse : W → Bytes → Result W
  refuse w mesg = some (some (fmt_error strerror none (mesg ∷ [])), w)

  -- The message for a call that failed.
  abbrev pub report : List Bytes → Option Errno × W → Option Bytes × W
  report mesg (none, w) = (none, w)
  report mesg (some e, w) = (some (fmt_error strerror (some e) mesg), w)

  -- A call on a path, if the path could be made.
  abbrev pub on_path : Option Bytes → (Bytes → Option Bytes × W) → Result W
  on_path none k = none
  on_path (some path) k = some (k path)

  -- With the result of `cpart_finishUpload`; the message names the file.
  abbrev pub uploaded : Bytes → Option (Bool × ContentPart × W) → Option (ContentPart × Result W)
  uploaded fname none = none
  uploaded fname (some (true, part, w)) = some (part, some (none, w))
  uploaded fname (some (false, part, w)) = some (
    part,
    some (some (fmt_error strerror part.sys_errno (codes "unable to store " ∷ fname ∷ [])), w),
  )

  -- `add_new_file`, with the part behind it; `cpart_getFileName` is called on the part, which may be NULL.
  unfoldable pub add_new_file : Option ContentPart → W → Option (ContentPart × Result W)
  unfolding finish_upload fmt_error
  add_new_file none w = none
  add_new_file (some part) w = elim part.file_name [
    | none ↦ some (part, refuse w (codes "unable to add: no file chosen"))
    | some fname ↦ uploaded fname (finish_upload ops part none false w)
  ]

  -- The path of the target is NULL where no share holds it: `rename` fails on it with EFAULT.
  abbrev rename_to : Bytes → Bytes → Option Bytes → W → Result W
  rename_to old_name from none w =
      some (report (old_name ∷ codes " rename failed" ∷ []) (some (other_errno 14), w))
  rename_to old_name from (some to) w =
      some (report (old_name ∷ codes " rename failed" ∷ []) (ops.rename from to w))

  abbrev renamed : Bytes → Option Bytes → Option Bytes → W → Result W
  renamed old_name none to w = none
  renamed old_name (some from) none w = none
  renamed old_name (some from) (some to) w =
      rename_to old_name from (get_sys_path_for_url_path cfg to) w

  -- `rename_file`
  unfoldable pub rename_file :
      Option Bytes → Option Bytes → Option Bytes → Option Bytes → W → Result W
  unfolding format_path get_sys_path_for_url_path fmt_error contains_chr starts_with
  rename_file sys_path (some old_name) (some new_dir) (some new_name) w =
      if is_empty old_name || (not (starts_with new_dir (codes "/")) || is_empty new_name)
      then refuse w (codes "rename: bad parameters")
      else if contains_chr b'/' new_name
      then refuse w (codes "rename: slash in name disallowed")
      else renamed old_name (format_path sys_path old_name) (format_path (some new_dir) new_name) w
  rename_file sys_path old_name new_dir new_name w = refuse w (codes "rename: bad parameters")

  -- `create_newdir`
  unfoldable pub create_newdir : Option Bytes → Option Bytes → W → Result W
  unfolding format_path fmt_error contains_chr
  create_newdir sys_path none w = refuse w (codes "create dir: bad parameters")
  create_newdir sys_path (some new_dir) w =
      if is_empty new_dir
      then refuse w (codes "create dir: bad parameters")
      else if contains_chr b'/' new_dir
      then refuse w (codes "create dir: slash in name disallowed")
      else on_path (format_path sys_path new_dir) (λ path.
        report (codes "unable to create directory \"" ∷ new_dir ∷ codes "\"" ∷ [])
          (ops.mkdir path 511 w))

  -- With the result of `unlink`: whether it is a folder, which is to be removed in another way.
  abbrev pub unlinked :
      Option Errno × W → (W → Option Errno × W) → (Errno → W → Option Errno × W) → Option Errno × W
  unlinked (none, w) folder other = (none, w)
  unlinked (some eisdir, w) folder other = folder w
  unlinked (some e, w) folder other = other e w

  abbrev then_rmdir : Bytes → Option Errno × W → Option Errno × W
  then_rmdir path (none, w) = ops.rmdir path w
  then_rmdir path (some e, w) = (some e, w)

  abbrev and_next : Option Errno × W → (W → Option Errno × W) → Option Errno × W
  and_next (none, w) k = k w
  and_next (some e, w) k = (some e, w)

  -- A file that is not there any more is no error.
  abbrev not_there : Errno → W → Option Errno × W
  not_there enoent w = (none, w)
  not_there e w = (some e, w)

  -- The loop over the entries of a folder, with what removes one.
  unfoldable pub del_entries :
      (Bytes → W → Option Errno × W) → Bytes → List Bytes → W → Option Errno × W
  del_entries del dir [] w = (none, w)
  del_entries del dir (name ∷ names) w =
      let rest : W → Option Errno × W = del_entries del dir names in
      if is_dots name then rest w else and_next (del (dir ++ name) w) rest

  abbrev pub del_folder :
      (Bytes → W → Option Errno × W) → Bytes → List Bytes ⊎ Errno → W → Option Errno × W
  del_folder del path (inl names) w =
      then_rmdir path (del_entries del (ensure_ends_with_slash path) names w)
  del_folder del path (inr e) w = (some e, w)

  -- `del_recursive`, for folders no deeper than `fuel`: below them nothing is removed.
  unfoldable pub del_recursive : ℕ → Bytes → W → Option Errno × W
  unfolding del_entries
  del_recursive zero path w = (some eisdir, w)
  del_recursive (suc fuel) path w =
      let del : Bytes → W → Option Errno × W = del_recursive fuel in
      unlinked (ops.unlink path w) (λ v. del_folder del path (ops.read_dir path v) v) not_there

  -- `delete_file`
  unfoldable pub delete_file : ℕ → Option Bytes → Option Bytes → Bool → W → Result W
  unfolding format_path fmt_error del_recursive
  delete_file fuel sys_path none recursively w = refuse w (codes "delete: bad parameters")
  delete_file fuel sys_path (some fname) recursively w =
      if is_empty fname
      then refuse w (codes "delete: bad parameters")
      else on_path (format_path sys_path fname) (λ path.
        report (fname ∷ codes " delete failed" ∷ []) (
          if recursively
          then del_recursive fuel path w
          else unlinked (ops.unlink path w) (λ v. ops.rmdir path v) (λ e v. (some e, v))))

  -- `replace_file`; `cpart_getFilePathName` is called on the part, which may be NULL.
  unfoldable pub replace_file :
      Option Bytes → Option Bytes → Option ContentPart → W → Option (ContentPart × Result W)
  unfolding format_path fmt_error finish_upload
  replace_file sys_path fname none w = none
  replace_file sys_path none (some part) w =
      some (part, refuse w (codes "unable to replace: no file chosen"))
  replace_file sys_path (some fname) (some part) w = elim part.file_path_name [
    | none ↦ some (part, refuse w (codes "unable to replace: no file chosen"))
    | some tmp_path ↦ elim (format_path sys_path fname) [
      | none ↦ none
      | some path ↦ uploaded fname (finish_upload ops part (some path) true w)
    ]
  ]

  abbrev change_mode : Option Bytes → Bytes → Option ℕ → W → Result W
  change_mode sys_path fname none w = refuse w (codes "invalid parameters")
  change_mode sys_path fname (some mode) w = on_path (format_path sys_path fname) (λ path.
      report (codes "change permissions of " ∷ fname ∷ codes " failed" ∷ [])
        (ops.chmod path mode w))

  -- `chmod_file`
  unfoldable pub chmod_file :
      Option Bytes → Option Bytes → Option Bytes → Option Bytes → Option Bytes → W → Result W
  unfolding chmod_mode format_path fmt_error
  chmod_file sys_path (some fname) (some puser) (some pgroup) (some pothers) w =
      change_mode sys_path fname (chmod_mode puser pgroup pothers) w
  chmod_file sys_path fname puser pgroup pothers w = refuse w (codes "invalid parameters")
