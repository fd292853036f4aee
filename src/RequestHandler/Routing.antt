-- ===== src/RequestHandler/Routing.antt =====
-- src/reqhandler.c, the part of `doProcessRequest` that finds out what a path stands for, with the
-- configuration and the file system.
use filemanager_httpd.Common.{
  ℕ, ◌-◌, ◌⊎◌, inl, inr, Bool, true, false, ◌&&◌, ◌||◌, Option, none, some, List, [], ◌∷◌, leb,
  ◌==◌, if◌then◌else◌, length, drop,
}
use filemanager_httpd.Common.Strings.{Bytes, codes, equal, starts_with}
use Prim.Native.Nat.{Ordering}
use filemanager_httpd.Folder.{FolderEntry, Folder, Stat, s_isdir}
use filemanager_httpd.FileSystem.{Errno, FileSystem, enoent, enotdir, s_isreg}
use filemanager_httpd.Config.{Config, get_sys_path_for_url_path}
use filemanager_httpd.Config.Lookup.{
  FoundCgi, find_cgi, is_cgi, get_index_file, get_sub_shares_for_path,
}

-- `strstr(queryFile, "/../") != NULL`
unfoldable pub contains_up : Bytes → Bool
unfolding starts_with
contains_up [] = false
contains_up (c ∷ cs) = let rest = contains_up cs in starts_with (c ∷ cs) (codes "/../") || rest

-- `strlen(queryFile) >= 3 && (strstr(...) != NULL || !strcmp(queryFile + queryFileLen - 3, "/.."))`
unfoldable pub leads_up : Bytes → Bool
unfolding contains_up equal
leads_up query_file =
    leb 3 (length query_file)
    && (contains_up query_file || equal (drop (length query_file - 3) query_file) (codes "/.."))

-- The local variables of `doProcessRequest` that tell what the path stands for; `none` is 0 in
-- `sys_errno` and NULL elsewhere.
pub record Target : Type 0 where
  pub sys_errno : Option Errno
  pub sys_path : Option Bytes
  pub is_folder : Bool
  pub is_cgi : Bool
  pub cgi_url : Option Bytes
  pub cgi_sub_path : Option Bytes
  pub folder : Option Folder

abbrev no_target : Target
no_target = record {
  sys_errno = none;
  sys_path = none;
  is_folder = false;
  is_cgi = false;
  cgi_url = none;
  cgi_sub_path = none;
  folder = none;
}

-- What is to be done for a path.
pub data Route : Type 0 where
  add_slash : Route
  list_folder : Option Bytes → Route
  run_cgi : Option Bytes → Bytes → Option Bytes → Route
  serve_file : Option Bytes → Route
  show_error : Errno → Route

-- `queryFile[strlen(queryFile)-1]`; `none` is a read in front of the text.
abbrev pub last_byte : Bytes → Option ℕ
last_byte [] = none
last_byte (c ∷ []) = some c
last_byte (c ∷ d ∷ ds) = last_byte (d ∷ ds)

module _ (fs : FileSystem)
    (qsort : (FolderEntry → FolderEntry → Ordering) → List FolderEntry → List FolderEntry)
    (strcoll : Bytes → Bytes → Ordering) (cfg : Config) where
  -- With what `config_findCGI` found.
  abbrev pub found_target : Bytes → Option FoundCgi → Target
  found_target sys_path none = record no_target {
    sys_errno = some enotdir;
    sys_path = some sys_path;
  }
  found_target sys_path (some found) = record no_target {
    sys_path = some found.cgi_exe;
    is_cgi = true;
    cgi_url = some found.cgi_url;
    cgi_sub_path = found.cgi_sub_path;
  }

  -- Where `stat` fails for the path on the disk: a program further up may serve the path.
  unfoldable pub locate_failed : Bytes → Bytes → Errno → Target
  locate_failed query_file sys_path enotdir = found_target sys_path (find_cgi fs cfg query_file)
  locate_failed query_file sys_path e = record no_target {
    sys_errno = some e;
    sys_path = some sys_path;
  }

  -- With the result of `stat`.
  unfoldable pub stat_target : Bytes → Bytes → Stat ⊎ Errno → Target
  unfolding locate_failed
  stat_target query_file sys_path (inl st) = record no_target {
    sys_path = some sys_path;
    is_folder = s_isdir st.st_mode;
    is_cgi = s_isreg st.st_mode && is_cgi fs cfg query_file;
  }
  stat_target query_file sys_path (inr e) = locate_failed query_file sys_path e

  -- With the shares below the path.
  abbrev pub sub_shares_target : Option Folder → Target
  sub_shares_target none = record no_target { sys_errno = some enoent }
  sub_shares_target (some folder) = record no_target { is_folder = true; folder = some folder }

  -- With the path on the disk, if there is one.
  unfoldable pub locate_at : Bytes → Option Bytes → Target
  unfolding stat_target
  locate_at query_file none =
      sub_shares_target (get_sub_shares_for_path fs qsort strcoll cfg query_file)
  locate_at query_file (some sys_path) = stat_target query_file sys_path (fs.stat sys_path)

  unfoldable pub locate : Bytes → Target
  unfolding locate_at
  locate query_file = locate_at query_file (get_sys_path_for_url_path cfg query_file)

  -- With the index file, if there is one, or the error.
  abbrev pub with_index : Target → Option Bytes → Option Errno → Target
  with_index t (some index_file) e = record t { sys_path = some index_file; is_folder = false }
  with_index t none e = record t { sys_errno = e }

  -- A folder on the disk may have an index file, or its reading may fail.
  unfoldable pub index_target_of : Target → Option Folder → Option Bytes → Target
  index_target_of t (some folder) o = t
  index_target_of t none none = t
  index_target_of t none (some sys_path) =
      with_index t (get_index_file fs cfg sys_path).0 (get_index_file fs cfg sys_path).1

  unfoldable pub index_target : Target → Target
  unfolding index_target_of
  index_target t = index_target_of t t.folder t.sys_path

  -- The choice at the end, for what there is.
  unfoldable pub route_of : Bytes → Target → Route
  route_of query_file t = elim t.sys_errno [
    | some e ↦ show_error e
    | none ↦
        if t.is_folder
        then list_folder t.sys_path
        else if t.is_cgi
        then run_cgi t.sys_path (elim t.cgi_url [ none ↦ query_file | some url ↦ url ])
            t.cgi_sub_path
        else serve_file t.sys_path
  ]

  -- A folder's path is to end with a slash.
  unfoldable pub folder_route : Bytes → Target → Option ℕ → Option Route
  unfolding index_target route_of
  folder_route query_file t none = none
  folder_route query_file t (some c) =
      some (if c == b'/' then route_of query_file (index_target t) else add_slash)

  unfoldable pub route_target : Bytes → Target → Option Errno → Option Route
  unfolding folder_route route_of
  route_target query_file t (some e) = some (route_of query_file t)
  route_target query_file t none =
      if t.is_folder
      then folder_route query_file t (last_byte query_file)
      else some (route_of query_file t)

  -- What `doProcessRequest` does for a path; `none` is a failure.
  unfoldable pub route : Bytes → Option Route
  unfolding locate route_target
  route query_file = let t = locate query_file in route_target query_file t t.sys_errno
