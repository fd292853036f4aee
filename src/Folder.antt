-- ===== src/Folder.antt =====
-- src/folder.c: the entries of a folder. `opendir` with `readdir`, `stat`, `qsort` and `strcoll` are
-- parameters.
pub mod Laws
use filemanager_httpd.Common.{
  ℕ, zero, suc, ◌+◌, ◌-◌, ◌*◌, ◌/◌, ◌%◌, ◌^◌, ◌≤◌, ◌<◌, min, ◌≡◌, refl, sym, ap, ◌∙◌, ◌≢◌, ◌↔◌, ◌⊎◌,
  inl, inr, Bool, true, false, not, ◌&&◌, ◌||◌, Option, none, some, List, [], ◌∷◌, ◌++◌, map,
  append-nil, append_assoc, arith, ltb, leb, ◌==◌, if◌then◌else◌, ltb→lt, lt→ltb, le→ltb, leb→le,
  ==_iff, Bool-cases, Option-cases, length, get_elem?, get_or, take, drop, replicate, is_empty, All,
  length-append, take-append-drop, length-drop, All-append,
}
use filemanager_httpd.Common.Strings.{
  Bytes, codes, take_while, drop_while, trim_end, c_str, split_chr, contains_chr, equal, to_lower,
  equal_ignore_case, starts_with, starts_with_ignore_case,
}
use Prim.Native.Nat.{Ordering}
use filemanager_httpd.DataChunk.{DataChunk, init, dup_to_str}

pub record FolderEntry : Type 0 where
  pub file_name : Bytes
  pub is_dir : Bool
  pub mode : ℕ
  pub size : ℕ

-- `entryCount` is the length of the list. The array has room for one entry more than `entry_alloc`,
-- for the one without a name that ends it.
pub record Folder : Type 0 where
  pub entries : List FolderEntry
  pub entry_alloc : ℕ

unfoldable pub new : Folder
new = record { entries = []; entry_alloc = 0 }

-- The permission bits of a mode.
abbrev pub permissions : ℕ → ℕ
permissions mode = mode % 512

unfoldable pub grow : Folder → ℕ
grow folder =
    if length folder.entries == folder.entry_alloc
    then (if folder.entry_alloc == 0 then 6 else 2 * folder.entry_alloc) + 1
    else folder.entry_alloc

unfoldable pub add_entry_chunk : DataChunk → Bool → ℕ → ℕ → Folder → Folder
unfolding grow dup_to_str
add_entry_chunk name is_dir mode size folder = record {
  entries =
      folder.entries
      ++ record {
        file_name = dup_to_str name;
        is_dir = is_dir;
        mode = permissions mode;
        size = size;
      }
        ∷ [];
  entry_alloc = grow folder;
}

unfoldable pub add_entry : Bytes → Bool → ℕ → ℕ → Folder → Folder
unfolding add_entry_chunk c_str
add_entry name is_dir mode size folder = add_entry_chunk (c_str name) is_dir mode size folder

-- `folderEntCompare`, with the order of the names.
abbrev pub folder_ent_compare : (Bytes → Bytes → Ordering) → FolderEntry → FolderEntry → Ordering
folder_ent_compare strcoll a b =
    if a.is_dir && not b.is_dir
    then Ordering.lt
    else if not a.is_dir && b.is_dir
    then Ordering.gt
    else strcoll a.file_name b.file_name

-- `mb_ensureEndsWithSlash`
abbrev pub ensure_ends_with_slash : Bytes → Bytes
ensure_ends_with_slash [] = codes "/"
ensure_ends_with_slash (c ∷ []) = if c == b'/' then c ∷ [] else c ∷ b'/' ∷ []
ensure_ends_with_slash (c ∷ d ∷ ds) = c ∷ ensure_ends_with_slash (d ∷ ds)

-- What `stat` tells of a file that it can read.
pub record Stat : Type 0 where
  pub st_mode : ℕ
  pub st_size : ℕ

-- `S_ISDIR`
abbrev pub s_isdir : ℕ → Bool
s_isdir mode = mode / 4096 % 16 == 4

abbrev pub is_dots : Bytes → Bool
is_dots name = equal name (codes ".") || equal name (codes "..")

module _ (qsort : (FolderEntry → FolderEntry → Ordering) → List FolderEntry → List FolderEntry)
    (strcoll : Bytes → Bytes → Ordering) where
  unfoldable pub sort_entries : Folder → Folder
  sort_entries folder =
      if ltb 1 (length folder.entries)
      then record folder { entries = qsort (folder_ent_compare strcoll) folder.entries }
      else folder

module _ (stat : Bytes → Option Stat)
    (qsort : (FolderEntry → FolderEntry → Ordering) → List FolderEntry → List FolderEntry)
    (strcoll : Bytes → Bytes → Ordering) where
  -- The loop over what `readdir` delivers; `dir` ends with a slash.
  unfoldable pub read_entries : Bytes → List Bytes → Folder → Folder
  unfolding add_entry
  read_entries dir [] folder = folder
  read_entries dir (name ∷ names) folder =
      let skip = read_entries dir names folder in
      if is_dots (c_str name) then skip else elim (stat (dir ++ c_str name)) [
        | none ↦ skip
        | some st ↦
            read_entries dir names
              (add_entry name (s_isdir st.st_mode) st.st_mode st.st_size folder)
      ]

  -- `folder_loadDir`, with the names in the folder or the error of `opendir`.
  unfoldable pub load_dir : Bytes → List Bytes ⊎ ℕ → Option Folder × ℕ
  unfolding read_entries sort_entries
  load_dir dir (inl names) =
      (some (sort_entries qsort strcoll (read_entries (ensure_ends_with_slash dir) names new)), 0)
  load_dir dir (inr errno) = (none, errno)
