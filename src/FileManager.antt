-- ===== src/FileManager.antt =====
-- src/filemanager.c: the file manager, which reads a form and does what the form says. The parts of the
-- form are kept as what is to be done for them; each part gets all its data before the next one is
-- made, so this happens in the same order when it is done at the end, before anything else.
pub mod Permissions
pub mod Operations
pub mod Safety
use filemanager_httpd.Common.{
  ℕ, zero, suc, ◌+◌, ◌-◌, ◌*◌, ◌/◌, ◌%◌, ◌^◌, ◌≤◌, ◌<◌, min, ◌≡◌, refl, sym, ap, ◌∙◌, ◌≢◌, ◌↔◌, ◌⊎◌,
  inl, inr, Bool, true, false, not, ◌&&◌, ◌||◌, Option, none, some, List, [], ◌∷◌, ◌++◌, map,
  append-nil, append_assoc, arith, ltb, leb, ◌==◌, if◌then◌else◌, ltb→lt, lt→ltb, le→ltb, leb→le,
  ==_iff, Bool-cases, Option-cases, length, get_elem?, get_or, take, drop, replicate, is_empty, All,
  length-append, take-append-drop, length-drop, All-append,
}
use filemanager_httpd.Common.Strings.{
  Bytes, codes, take_while, drop_while, trim_end, c_str, split_chr, contains_chr, equal, to_lower,
  equal_ignore_case, starts_with, starts_with_ignore_case,
}
use filemanager_httpd.DataChunk.{
  init_with_str, extract_till_chr_strip_ws, equals_str, equals_str_ignore_case, dup_to_str,
  DataChunk,
}
use filemanager_httpd.DataChunk.Params.{params}
use filemanager_httpd.FileSystem.{Errno, FileOps}
use filemanager_httpd.Config.{Config, pa_modify, is_action_available}
use filemanager_httpd.RequestHeader.{RequestHeader, get_header_val}
use filemanager_httpd.RequestHandler.{is_request_allowed, is_logged_in}
use filemanager_httpd.MultipartData
use filemanager_httpd.MultipartData.{MultipartData, get_part_by_name}
use filemanager_httpd.ContentPart
use filemanager_httpd.ContentPart.{ContentPart, name_equals, get_data_str}
use filemanager_httpd.FileManager.Operations.{
  Result, fmt_error, add_new_file, rename_file, create_newdir, delete_file, replace_file,
  chmod_file,
}

-- What is done for a part on the disk.
abbrev pub Upload : Type 0 → Type 0
Upload W = W → Option (ContentPart × W)

pub record FileManager (W : Type 0) : Type 0 where
  pub sys_path : Option Bytes
  pub body : Option (MultipartData (Upload W))
  pub op_error_msg : Option Bytes

-- The last parameter "boundary".
unfoldable pub find_boundary : List (DataChunk × DataChunk) → Option Bytes → Option Bytes
unfolding equals_str_ignore_case dup_to_str
find_boundary [] boundary = boundary
find_boundary ((name, value) ∷ ps) boundary =
    find_boundary ps
      (if equals_str_ignore_case name (codes "boundary") then some (dup_to_str value) else boundary)

-- The boundary, and the message for a content type that is not a form's.
unfoldable pub read_content_type : (Errno → Bytes) → Option Bytes → Option Bytes × Option Bytes
unfolding init_with_str extract_till_chr_strip_ws equals_str find_boundary fmt_error
read_content_type strerror none = (none, none)
read_content_type strerror (some content_type) =
    let e = extract_till_chr_strip_ws (init_with_str content_type) b';' in
    if not (equals_str e.sub_chunk (codes "multipart/form-data"))
    then (none, some (fmt_error strerror none (codes "bad content type: " ∷ content_type ∷ [])))
    else (find_boundary (params e.dch b';') none, none)

module _ {W : Type 0} (ops : FileOps W) (strerror : Errno → Bytes) (cfg : Config) where
  -- `filemgr_new`
  unfoldable pub new : Option Bytes → RequestHeader → FileManager W
  unfolding read_content_type get_header_val MultipartData.new
  new sys_path rhdr =
      let c = read_content_type strerror (get_header_val rhdr (codes "Content-Type")) in
      record {
        sys_path = sys_path;
        body = elim c.0 [ none ↦ none | some boundary ↦ some (MultipartData.new boundary) ];
        op_error_msg = c.1;
      }

  -- The folder for uploads, which a part gets when it is made.
  unfoldable pub dest_dir : FileManager W → RequestHeader → Option Bytes
  unfolding is_request_allowed
  dest_dir filemgr rhdr = if is_request_allowed cfg rhdr pa_modify then filemgr.sys_path else none

  unfoldable pub new_part : Option Bytes → Upload W
  new_part dir w = some (ContentPart.new dir, w)

  -- With what has been done for the part.
  unfoldable pub append_to : Bytes → Option (ContentPart × W) → Option (ContentPart × W)
  append_to bytes none = none
  append_to bytes (some (part, w)) = ContentPart.append_data ops (length bytes) part bytes w

  unfoldable pub append_part : Upload W → Bytes → Upload W
  unfolding append_to
  append_part upload bytes w = append_to bytes (upload w)

  -- `filemgr_consumeBodyBytes`
  unfoldable pub consume_body_bytes : FileManager W → RequestHeader → Bytes → FileManager W
  unfolding MultipartData.append_data dest_dir new_part append_part
  consume_body_bytes filemgr rhdr bytes = record filemgr {
    body = elim filemgr.body [
      | none ↦ none
      | some body ↦
          some (MultipartData.append_data (new_part (dest_dir filemgr rhdr)) append_part body bytes)
    ];
  }

  -- One part behind those that are done.
  abbrev pub cons_part : ContentPart → Option (List ContentPart × W) → Option (List ContentPart × W)
  cons_part part none = none
  cons_part part (some (parts, w)) = some (part ∷ parts, w)

  abbrev pub and_parts :
      Option (ContentPart × W) → (W → Option (List ContentPart × W)) → Option (List ContentPart × W)
  and_parts none k = none
  and_parts (some (part, w)) k = cons_part part (k w)

  -- The parts, one after another.
  unfoldable pub run_parts : List (Upload W) → W → Option (List ContentPart × W)
  run_parts [] w = some ([], w)
  run_parts (upload ∷ uploads) w = and_parts (upload w) (run_parts uploads)

  -- `mpdata_free`, as far as the disk is concerned
  unfoldable pub free_parts : List ContentPart → W → W
  free_parts [] w = w
  free_parts (part ∷ parts) w = free_parts parts (ContentPart.free ops part w)

  -- The part of this name as it is behind an operation.
  unfoldable pub set_part : Bytes → ContentPart → List ContentPart → List ContentPart
  unfolding name_equals
  set_part name new_value [] = []
  set_part name new_value (part ∷ parts) =
      let rest = set_part name new_value parts in
      if name_equals ops part name then new_value ∷ parts else part ∷ rest

  -- An operation, and the end of the form.
  abbrev pub end_plain : List ContentPart → Result W → Result W
  end_plain parts none = none
  end_plain parts (some (mesg, w)) = some (mesg, free_parts parts w)

  abbrev end_upload : List ContentPart → Bytes → Option (ContentPart × Result W) → Result W
  end_upload parts name none = none
  end_upload parts name (some (part, r)) = end_plain (set_part name part parts) r

  -- What the form asks for.
  unfoldable pub operate : ℕ → Option Bytes → List ContentPart → W → Result W
  unfolding get_part_by_name add_new_file rename_file create_newdir delete_file replace_file
      chmod_file free_parts get_data_str set_part
  operate fuel sys_path parts w =
      let part = get_part_by_name (name_equals ops) parts in
      let has : Bytes → Bool = λ name. elim (part name) [ none ↦ false | some p ↦ true ] in
      let str : Bytes → Option Bytes = λ name. get_data_str ops (part name) in
      if has (codes "do_add")
      then end_upload parts (codes "file") (add_new_file ops strerror cfg (part (codes "file")) w)
      else if has (codes "do_rename")
      then end_plain parts (
          rename_file ops strerror cfg sys_path (str (codes "file")) (str (codes "new_dir"))
            (str (codes "new_name")) w)
      else if has (codes "do_newdir")
      then end_plain parts (create_newdir ops strerror cfg sys_path (str (codes "new_dir")) w)
      else if has (codes "do_replace")
      then end_upload parts (codes "new_cont")
          (replace_file ops strerror cfg sys_path (str (codes "file")) (part (codes "new_cont")) w)
      else if has (codes "do_delete")
      then end_plain parts (
          delete_file ops strerror cfg fuel sys_path (str (codes "file"))
            (has (codes "del_recursive")) w)
      else if has (codes "do_perm")
      then end_plain parts (
          chmod_file ops strerror cfg sys_path (str (codes "file")) (str (codes "puser"))
            (str (codes "pgroup")) (str (codes "pothers")) w)
      else end_plain parts (some (none, w))

  -- True: the client is to log in. The message and the disk stand behind it.
  unfoldable pub post_parts :
      ℕ → Option Bytes → RequestHeader → List ContentPart → W → Bool × Result W
  unfolding operate is_request_allowed is_action_available
  post_parts fuel sys_path rhdr parts w =
      let idle : Result W = end_plain parts (some (none, w)) in
      if (elim (get_part_by_name (name_equals ops) parts (codes "do_login")) [
        | none ↦ false
        | some p ↦ true
      ])
      then (not (is_logged_in rhdr.login_state), idle)
      else if is_action_available cfg pa_modify
      then (if not (is_request_allowed cfg rhdr pa_modify)
          then (true, idle)
          else (false, operate fuel sys_path parts w))
      else (
        false,
        end_plain parts
            (some (some (fmt_error strerror none (codes "unrecognized request" ∷ [])), w)),
      )

  abbrev pub Posted : Type 0
  Posted = Option (FileManager W × Bool × W)

  abbrev pub posted : FileManager W → Bool × Result W → Posted
  posted filemgr (auth, none) = none
  posted filemgr (auth, some (mesg, w)) =
      some (record filemgr { body = none; op_error_msg = mesg }, auth, w)

  abbrev pub posted_parts :
      ℕ → FileManager W → RequestHeader → Option (List ContentPart × W) → Posted
  posted_parts fuel filemgr rhdr none = none
  posted_parts fuel filemgr rhdr (some (parts, w)) =
      posted filemgr (post_parts fuel filemgr.sys_path rhdr parts w)

  -- `filemgr_processPost`; true stands for PR_REQUIRE_AUTH. `fuel` bounds the depth of a folder that is
  -- removed.
  unfoldable pub process_post : ℕ → FileManager W → RequestHeader → W → Posted
  unfolding run_parts post_parts
  process_post fuel filemgr rhdr w = elim filemgr.body [
    | none ↦ some (filemgr, false, w)
    | some body ↦ posted_parts fuel filemgr rhdr (run_parts body.parts w)
  ]
