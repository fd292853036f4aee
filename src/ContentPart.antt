-- ===== src/ContentPart.antt =====
-- src/contentpart.c: a part of a form, with the text of a field or a file that is stored as it arrives.
-- The state of the disk is passed along; what is logged is left out.
pub mod Fields
pub mod Idle
pub mod Laws
use filemanager_httpd.Common.{
  ℕ, zero, suc, ◌+◌, ◌-◌, ◌*◌, ◌/◌, ◌%◌, ◌^◌, ◌≤◌, ◌<◌, min, ◌≡◌, refl, sym, ap, ◌∙◌, ◌≢◌, ◌↔◌, ◌⊎◌,
  inl, inr, Bool, true, false, not, ◌&&◌, ◌||◌, Option, none, some, List, [], ◌∷◌, ◌++◌, map,
  append-nil, append_assoc, arith, ltb, leb, ◌==◌, if◌then◌else◌, ltb→lt, lt→ltb, le→ltb, leb→le,
  ==_iff, Bool-cases, Option-cases, length, get_elem?, get_or, take, drop, replicate, is_empty, All,
  length-append, take-append-drop, length-drop, All-append,
}
use filemanager_httpd.Common.Strings.{
  Bytes, codes, take_while, drop_while, trim_end, c_str, split_chr, contains_chr, equal, to_lower,
  equal_ignore_case, starts_with, starts_with_ignore_case,
}
use filemanager_httpd.DataChunk.{
  DataChunk, init_with_str, shift_after_chr, equals_str_ignore_case, dup_to_str,
}
use filemanager_httpd.DataChunk.Params.{params}
use filemanager_httpd.DataHeader
use filemanager_httpd.DataHeader.{DataHeader, get_header_val}
use filemanager_httpd.FileSystem.{Errno, eexist, FileOps}
use filemanager_httpd.Folder.{ensure_ends_with_slash}

-- `none` stands for NULL, for -1 in `file_desc` and for 0 in `sys_errno`.
pub record ContentPart : Type 0 where
  pub header : DataHeader
  pub dest_dir : Option Bytes
  pub file_path_name : Option Bytes
  pub name : Option Bytes
  pub file_name : Option Bytes
  pub file_desc : Option ℕ
  pub sys_errno : Option Errno
  pub body : Option Bytes

unfoldable pub new : Option Bytes → ContentPart
unfolding DataHeader.new
new dest_dir = record {
  header = DataHeader.new;
  dest_dir = dest_dir;
  file_path_name = none;
  name = none;
  file_name = none;
  file_desc = none;
  sys_errno = none;
  body = none;
}

-- One round of the loop over the parameters of "Content-Disposition".
unfoldable pub set_param : DataChunk → DataChunk → ContentPart → ContentPart
unfolding equals_str_ignore_case dup_to_str
set_param name value part =
    if equals_str_ignore_case name (codes "name")
    then record part { name = some (dup_to_str value) }
    else if equals_str_ignore_case name (codes "filename") && not (is_empty value)
    then record part { file_name = some (dup_to_str value) }
    else part

unfoldable pub set_params : List (DataChunk × DataChunk) → ContentPart → ContentPart
unfolding set_param
set_params [] part = part
set_params ((name, value) ∷ ps) part = set_params ps (set_param name value part)

-- With the value of the header, if there is one.
unfoldable pub read_disposition : Option Bytes → ContentPart → ContentPart
unfolding set_params shift_after_chr
read_disposition none part = part
read_disposition (some content_disp) part =
    let s = shift_after_chr (init_with_str content_disp) b';' in
    if s.1 then set_params (params s.0 b';') part else part

module _ {W : Type 0} (ops : FileOps W) where
  -- With the result of `mkstemp`.
  unfoldable pub made_other : Bytes → ContentPart → ((Bytes × ℕ) ⊎ Errno) × W → ContentPart × W
  made_other dir part (inl made, w) =
      (record part { file_path_name = some made.0; file_desc = some made.1 }, w)
  made_other dir part (inr e, w) = (
    record part {
      file_path_name = some (dir ++ codes "fmgrXXXXXX");
      file_desc = none;
      sys_errno = some e;
    },
    w,
  )

  -- Where the file could not be made: one of another name is made where it exists already.
  unfoldable pub open_other : Bytes → Errno → ContentPart → W → ContentPart × W
  unfolding made_other
  open_other dir eexist part w = made_other dir part (ops.mkstemp (dir ++ codes "fmgrXXXXXX") w)
  open_other dir e part w = (record part { sys_errno = some e }, w)

  -- With the result of `open`.
  unfoldable pub made_new : Bytes → ContentPart → (ℕ ⊎ Errno) × W → ContentPart × W
  unfolding open_other
  made_new dir part (inl fd, w) = (record part { file_desc = some fd }, w)
  made_new dir part (inr e, w) = open_other dir e (record part { file_desc = none }) w

  -- The file for the upload; `dir` ends with a slash.
  unfoldable pub open_in : Bytes → Bytes → ContentPart → W → ContentPart × W
  unfolding made_new
  open_in dir file_name part w =
      made_new dir (record part { file_path_name = some (dir ++ file_name) })
        (ops.open_new (dir ++ file_name) w)

  -- A part with a file's name is stored in the folder, if there is one; any other one in memory.
  unfoldable pub open_store : Option Bytes → Option Bytes → ContentPart → W → ContentPart × W
  unfolding open_in
  open_store none dest_dir part w = (record part { body = some [] }, w)
  open_store (some file_name) none part w = (part, w)
  open_store (some file_name) (some dest_dir) part w =
      open_in (ensure_ends_with_slash dest_dir) file_name part w

  -- Behind the header.
  unfoldable pub end_header : ContentPart → W → ContentPart × W
  unfolding read_disposition open_store
  end_header part w =
      let p = read_disposition (get_header_val part.header (codes "Content-Disposition")) part in
      open_store p.file_name p.dest_dir p w

  abbrev unlink_path : Option Bytes → W → W
  unlink_path none w = w
  unlink_path (some path) w = (ops.unlink path w).1

  -- A write failed: the file is removed.
  unfoldable pub drop_file : ℕ → Errno → ContentPart → W → ContentPart × W
  drop_file fd e part w = (
    record part { sys_errno = some e; file_desc = none },
    unlink_path part.file_path_name (ops.close fd w),
  )

  -- With the result of `write`; `k` goes on with the bytes that are left.
  unfoldable pub written :
      ℕ
      → Bytes
      → ContentPart
      → (Bytes → W → Option (ContentPart × W))
      → (ℕ ⊎ Errno) × W
      → Option (ContentPart × W)
  unfolding drop_file
  written fd bytes part k (inr e, w) = some (drop_file fd e part w)
  written fd bytes part k (inl wr, w) = k (drop wr bytes) w

  -- `while( cpart->fileDesc != -1 && offset < len )`; `none` if that takes more rounds than `fuel`.
  unfoldable pub write_loop : ℕ → ℕ → Bytes → ContentPart → W → Option (ContentPart × W)
  unfolding written
  write_loop fuel fd [] part w = some (part, w)
  write_loop zero fd (c ∷ cs) part w = none
  write_loop (suc fuel) fd (c ∷ cs) part w =
      written fd (c ∷ cs) part (λ bytes v. write_loop fuel fd bytes part v)
        (ops.write fd (c ∷ cs) w)

  -- With the name of the upload, the text and the open file.
  unfoldable pub store_to :
      ℕ
      → Bytes
      → ContentPart
      → W
      → Option Bytes
      → Option Bytes
      → Option ℕ
      → Option (ContentPart × W)
  unfolding write_loop
  store_to fuel bytes part w none none fd = none
  store_to fuel bytes part w none (some body) fd =
      some (record part { body = some (body ++ bytes) }, w)
  store_to fuel bytes part w (some file_name) body none = some (part, w)
  store_to fuel bytes part w (some file_name) body (some fd) = write_loop fuel fd bytes part w

  -- The part of the data behind the header.
  unfoldable pub store : ℕ → Bytes → ContentPart → W → Option (ContentPart × W)
  unfolding store_to
  store fuel bytes part w = store_to fuel bytes part w part.file_name part.body part.file_desc

  abbrev pub is_in_header : ContentPart → Bool
  is_in_header part = elim part.file_name as (λ _. Bool) [
    | some n ↦ false
    | none ↦ elim part.body [ none ↦ true | some b ↦ false ]
  ]

  -- With what the header took.
  unfoldable pub behind_header : ℕ → Bytes → ContentPart → Option ℕ → W → Option (ContentPart × W)
  unfolding end_header store
  behind_header fuel bytes part none w = some (part, w)
  behind_header fuel bytes part (some offset) w =
      let e = end_header part w in store fuel (drop offset bytes) e.0 e.1

  -- `cpart_appendData`
  unfoldable pub append_data : ℕ → ContentPart → Bytes → W → Option (ContentPart × W)
  unfolding behind_header
  append_data fuel part bytes w =
      let h = DataHeader.append_data part.header bytes in
      let in_header = behind_header fuel bytes (record part { header = h.0 }) h.1 w in
      let stored = store fuel bytes part w in if is_in_header part then in_header else stored

  -- `cpart_getDataStr`, up to the first zero byte
  unfoldable pub get_data_str : Option ContentPart → Option Bytes
  unfolding c_str
  get_data_str none = none
  get_data_str (some part) = elim part.body [ none ↦ none | some body ↦ some (c_str body) ]

  -- `cpart_nameEquals`
  unfoldable pub name_equals : ContentPart → Bytes → Bool
  unfolding equal
  name_equals part name = elim part.name [ none ↦ false | some n ↦ equal n name ]

  -- The full path of the target.
  unfoldable pub target_path : Option Bytes → Bytes → Option Bytes
  unfolding starts_with
  target_path dest_dir target =
      if starts_with target (codes "/")
      then some target
      else elim dest_dir [ none ↦ none | some dir ↦ some (ensure_ends_with_slash dir ++ target) ]

  -- The file gets its name.
  unfoldable pub move_to : Bool → Bytes → Bytes → W → Option Errno × W
  unfolding equal
  move_to replace path target w =
      if equal path target
      then (none, w)
      else if replace
      then ops.rename path target w
      else (let l = ops.link path target w in
          elim l.0 [ none ↦ (none, (ops.unlink path l.1).1) | some e ↦ (some e, l.1) ])

  -- With the result: a file that could not be moved stays open.
  unfoldable pub finish_moved : ℕ → ContentPart → Option Errno × W → Bool × ContentPart × W
  finish_moved fd part (none, w) = (true, record part { file_desc = none }, ops.close fd w)
  finish_moved fd part (some e, w) = (false, record part { sys_errno = some e }, w)

  -- `cpart_finishUpload`, with a target or, for NULL, the name of the upload; `none` is a failure on
  -- NULL. The error is the one of the part.
  unfoldable pub finish_upload :
      ContentPart → Option Bytes → Bool → W → Option (Bool × ContentPart × W)
  unfolding target_path move_to finish_moved
  finish_upload part target replace w = elim part.file_desc [
    | none ↦ some (false, part, w)
    | some fd ↦
        elim (elim target as (λ _. Option Bytes) [ none ↦ part.file_name | some t ↦ some t ]) [
          | none ↦ none
          | some t ↦ elim (target_path part.dest_dir t) [
            | none ↦ none
            | some path ↦ elim part.file_path_name [
              | none ↦ none
              | some from ↦ some (finish_moved fd part (move_to replace from path w))
            ]
          ]
        ]
  ]

  -- `cpart_free`: an upload that was not finished is removed.
  unfoldable pub free : ContentPart → W → W
  free part w = elim part.file_desc [
    | none ↦ w
    | some fd ↦ unlink_path part.file_path_name (ops.close fd w)
  ]
