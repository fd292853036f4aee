-- ===== src/Config/Lookup.antt =====
-- src/fmconfig.c: what the configuration and the file system tell of a path: the shares below it,
-- the index file of a folder, and the CGI script.
pub mod Cgi
use filemanager_httpd.Common.{
  ℕ, zero, suc, ◌+◌, ◌-◌, ◌*◌, ◌/◌, ◌%◌, ◌^◌, ◌≤◌, ◌<◌, min, ◌≡◌, refl, sym, ap, ◌∙◌, ◌≢◌, ◌↔◌, ◌⊎◌,
  inl, inr, Bool, true, false, not, ◌&&◌, ◌||◌, Option, none, some, List, [], ◌∷◌, ◌++◌, map,
  append-nil, append_assoc, arith, ltb, leb, ◌==◌, if◌then◌else◌, ltb→lt, lt→ltb, le→ltb, leb→le,
  ==_iff, Bool-cases, Option-cases, length, get_elem?, get_or, take, drop, replicate, is_empty, All,
  length-append, take-append-drop, length-drop, All-append,
}
use filemanager_httpd.Common.Strings.{
  Bytes, codes, take_while, drop_while, trim_end, c_str, split_chr, contains_chr, equal, to_lower,
  equal_ignore_case, starts_with, starts_with_ignore_case,
}
use Prim.Native.Nat.{Ordering}
use filemanager_httpd.DataChunk.{
  DataChunk, init_with_str, skip_leading, extract_till_chr, equals_str,
}
use filemanager_httpd.Folder
use filemanager_httpd.Folder.{
  FolderEntry, Folder, Stat, s_isdir, is_dots, ensure_ends_with_slash, add_entry_chunk,
  sort_entries,
}
use filemanager_httpd.FileSystem.{Errno, FileSystem, s_isreg, is_stat}
use filemanager_httpd.Config.{Config, Share, get_sys_path_for_url_path}

-- The loop over the entries, for one with this name.
unfoldable pub has_entry : DataChunk → List FolderEntry → Bool
unfolding equals_str
has_entry ent [] = false
has_entry ent (fe ∷ fes) = equals_str ent fe.file_name || has_entry ent fes

-- `while( pathLen > 0 && urlPath[pathLen-1] == '/' ) --pathLen;`
unfoldable pub trimmed_path : Bytes → Bytes
unfolding trim_end
trimmed_path url_path = trim_end (λ c. c == b'/') url_path

-- Behind the path and a slash in the share's URL path: what stands there, without further slashes.
unfoldable pub below_path : Bytes → Share → Option DataChunk
unfolding starts_with init_with_str skip_leading
below_path path share =
    if starts_with share.urlpath path && starts_with (drop (length path) share.urlpath) (codes "/")
    then some (skip_leading (init_with_str (drop (length path + 1) share.urlpath)) b'/')
    else none

module _ (fs : FileSystem)
    (qsort : (FolderEntry → FolderEntry → Ordering) → List FolderEntry → List FolderEntry)
    (strcoll : Bytes → Bytes → Ordering) where
  -- The entry for a share whose URL path goes on with `ent`, and then with `rest`.
  unfoldable pub add_share : Share → DataChunk → DataChunk → Folder → Folder
  unfolding add_entry_chunk has_entry
  add_share share ent rest folder =
      if has_entry ent folder.entries
      then folder
      else if not (is_empty rest)
      then add_entry_chunk ent true 511 0 folder
      else elim (fs.stat share.syspath) [
        | inl st ↦ add_entry_chunk ent (s_isdir st.st_mode) st.st_mode st.st_size folder
        | inr e ↦ add_entry_chunk ent true 511 0 folder
      ]

  -- One round of the loop over the shares; the folder is made for the first entry.
  unfoldable pub add_sub_share : Bytes → Share → Option Folder → Option Folder
  unfolding below_path extract_till_chr add_share
  add_sub_share path share folder = elim (below_path path share) [
    | none ↦ folder
    | some below ↦
        if is_empty below
        then folder
        else (let e = extract_till_chr below b'/' in
            some
              (add_share share e.sub_chunk e.dch (elim folder [ none ↦ Folder.new | some f ↦ f ])))
  ]

  unfoldable pub sub_shares_loop : Bytes → List Share → Option Folder → Option Folder
  unfolding add_sub_share
  sub_shares_loop path [] folder = folder
  sub_shares_loop path (share ∷ shares) folder =
      sub_shares_loop path shares (add_sub_share path share folder)

  -- `config_getSubSharesForPath`
  unfoldable pub get_sub_shares_for_path : Config → Bytes → Option Folder
  unfolding sub_shares_loop trimmed_path sort_entries
  get_sub_shares_for_path cfg url_path =
      elim (sub_shares_loop (trimmed_path url_path) cfg.shares none) [
        | none ↦ none
        | some folder ↦ some (sort_entries qsort strcoll folder)
      ]

module _ (fs : FileSystem) where
  -- The number of patterns in front of the first that fits, of the first `best` ones.
  unfoldable pub match_idx : List Bytes → ℕ → Bytes → ℕ
  match_idx patterns zero name = 0
  match_idx [] (suc best) name = suc best
  match_idx (pattern_ ∷ patterns) (suc best) name =
      if fs.fnmatch false pattern_ name then 0 else suc (match_idx patterns best name)

  -- The loop over the folder, which ends early with a file for the first pattern.
  unfoldable pub index_loop : List Bytes → Bytes → List Bytes → ℕ → Option Bytes → Option Bytes
  unfolding match_idx
  index_loop patterns dir [] best file = file
  index_loop patterns dir (name ∷ names) zero file = file
  index_loop patterns dir (name ∷ names) (suc best) file =
      let idx = match_idx patterns (suc best) name in
      let skip = index_loop patterns dir names (suc best) file in
      let hit = index_loop patterns dir names idx (some (dir ++ name)) in
      if is_dots name
      then skip
      else if ltb idx (suc best) && is_stat (λ mode. not (s_isdir mode)) (fs.stat (dir ++ name))
      then hit
      else skip

  -- `config_getIndexFile`, with the error where the folder cannot be opened.
  unfoldable pub get_index_file : Config → Bytes → Option Bytes × Option Errno
  unfolding index_loop
  get_index_file cfg dir = elim (fs.read_dir dir) [
    | inr e ↦ (none, some e)
    | inl names ↦ (
      index_loop cfg.index_patterns (ensure_ends_with_slash dir) names (length cfg.index_patterns)
          none,
      none,
    )
  ]

-- The test of some text behind a slash.
unfoldable pub any_behind : (Bytes → Bool) → Bytes → Bool
any_behind test [] = false
any_behind test (c ∷ cs) =
    let rest = any_behind test cs in if c == b'/' then test cs || rest else rest

-- Where a share's URL or a pattern is split at a slash: the slash stands first in the second part;
-- the last slash of the text comes first.
unfoldable pub slash_splits : Bytes → List (Bytes × Bytes)
slash_splits [] = []
slash_splits (c ∷ cs) =
    map (λ (s : Bytes × Bytes). (c ∷ s.0, s.1)) (slash_splits cs)
    ++ (if c == b'/' then ([], c ∷ cs) ∷ [] else [])

-- What `config_findCGI` found: the program, the URL path of it, and what follows in the URL path.
pub record FoundCgi : Type 0 where
  pub cgi_exe : Bytes
  pub cgi_url : Bytes
  pub cgi_sub_path : Option Bytes

module _ (fs : FileSystem) where
  -- A pattern that starts with a slash is to fit the path, any other what stands behind some slash.
  unfoldable pub matches_cgi : Bytes → Bytes → Bool
  unfolding any_behind starts_with
  matches_cgi cgi_patt url_path =
      if starts_with cgi_patt (codes "/")
      then fs.fnmatch true cgi_patt url_path
      else fs.fnmatch true cgi_patt (drop 1 url_path)
        || any_behind (fs.fnmatch true cgi_patt) (drop 1 url_path)

  -- `config_isCGI`
  unfoldable pub is_cgi_of : List Bytes → Bytes → Bool
  unfolding matches_cgi
  is_cgi_of [] url_path = false
  is_cgi_of (patt ∷ patts) url_path = matches_cgi patt url_path || is_cgi_of patts url_path

  abbrev pub is_cgi : Config → Bytes → Bool
  is_cgi cfg url_path = is_cgi_of cfg.cgi_patterns url_path

  -- The program for a URL path, if it is a regular file.
  abbrev pub if_regular : Option Bytes → Option Bytes
  if_regular none = none
  if_regular (some exe) = if is_stat s_isreg (fs.stat exe) then some exe else none

  unfoldable pub cgi_exe_for : Config → Bytes → Option Bytes
  cgi_exe_for cfg cgi_url = if_regular (get_sys_path_for_url_path cfg cgi_url)

  -- The program, if there is one, or what is found otherwise.
  abbrev pub found_or : Option FoundCgi → Bytes → Option Bytes → Option Bytes → Option FoundCgi
  found_or rest url sub_path none = rest
  found_or rest url sub_path (some exe) =
      some (record { cgi_exe = exe; cgi_url = url; cgi_sub_path = sub_path })

  -- The loop over the slashes of the path, from the last one on.
  unfoldable pub find_cgi_loop : Config → List (Bytes × Bytes) → Option FoundCgi
  unfolding is_cgi_of cgi_exe_for
  find_cgi_loop cfg [] = none
  find_cgi_loop cfg ((url, sub_path) ∷ splits) =
      let rest = find_cgi_loop cfg splits in
      if is_cgi cfg (if is_empty url then codes "/" else url)
      then found_or rest url (some sub_path) (cgi_exe_for cfg url)
      else rest

  -- What `config_findCGI` puts into the buffers.
  unfoldable pub find_cgi_buffers : Config → Bytes → Option FoundCgi
  unfolding find_cgi_loop slash_splits
  find_cgi_buffers cfg url_path =
      let rest = find_cgi_loop cfg (slash_splits url_path) in
      if is_cgi cfg url_path then found_or rest url_path none (cgi_exe_for cfg url_path) else rest

  abbrev pub with_sub_path : Option FoundCgi → Option FoundCgi
  with_sub_path none = none
  with_sub_path (some found) = elim found.cgi_sub_path as (λ _. Option FoundCgi) [
    | none ↦ none
    | some sub ↦ some found
  ]

  -- `config_findCGI`: its result tells whether something of the path follows the program.
  unfoldable pub find_cgi : Config → Bytes → Option FoundCgi
  unfolding find_cgi_buffers
  find_cgi cfg url_path = with_sub_path (find_cgi_buffers cfg url_path)
