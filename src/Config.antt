-- ===== src/Config.antt =====
-- src/fmconfig.c: the settings, the parsing of a configuration file, the shares, the CGI patterns and
-- the privileges. The globals are one record; warnings on standard error are left out.
pub mod Privileges
pub mod Shares
pub mod Lookup
use filemanager_httpd.Common.{
  ℕ, zero, suc, ◌+◌, ◌-◌, ◌*◌, ◌/◌, ◌%◌, ◌^◌, ◌≤◌, ◌<◌, min, ◌≡◌, refl, sym, ap, ◌∙◌, ◌≢◌, ◌↔◌, ◌⊎◌,
  inl, inr, Bool, true, false, not, ◌&&◌, ◌||◌, Option, none, some, List, [], ◌∷◌, ◌++◌, map,
  append-nil, append_assoc, arith, ltb, leb, ◌==◌, if◌then◌else◌, ltb→lt, lt→ltb, le→ltb, leb→le,
  ==_iff, Bool-cases, Option-cases, length, get_elem?, get_or, take, drop, replicate, is_empty, All,
  length-append, take-append-drop, length-drop, All-append,
}
use filemanager_httpd.Common.Strings.{
  Bytes, codes, take_while, drop_while, trim_end, c_str, split_chr, contains_chr, equal, to_lower,
  equal_ignore_case, starts_with, starts_with_ignore_case,
}
use filemanager_httpd.DataChunk.{
  DataChunk, init_with_str, trim_ws, extract_till_chr_strip_ws, extract_till_ws, trim_trailing,
  starts_with_str, equals_str, dup_to_str, to_uint,
}

pub data DirectoryOps : Type 0 where
  do_none do_file do_listing do_all : DirectoryOps

pub record Share : Type 0 where
  pub urlpath : Bytes
  pub syspath : Bytes

-- A list that is empty stands for the NULL that the program has there.
pub record Config : Type 0 where
  pub listen_port : ℕ
  pub switch_user : Bytes
  pub index_patterns : List Bytes
  pub cgi_patterns : List Bytes
  pub shares : List Share
  pub avail_ops : DirectoryOps
  pub guest_ops : DirectoryOps
  pub credentials : List Bytes
  pub max_clients : ℕ

unfoldable pub initial : Config
initial = record {
  listen_port = 0;
  switch_user = codes "www-data";
  index_patterns = [];
  cgi_patterns = [];
  shares = [];
  avail_ops = do_all;
  guest_ops = do_all;
  credentials = [];
  max_clients = 10;
}

-- `while( dch_extractTillWS(&dchValue, &dchPatt) )`; a round takes the word off the value.
unfoldable pub words : ℕ → DataChunk → List Bytes
unfolding extract_till_ws dup_to_str
words zero value = []
words (suc fuel) value =
    let e = extract_till_ws value in
    let rest = words fuel e.dch in if e.found then dup_to_str e.sub_chunk ∷ rest else []

-- Patterns are added to those of earlier lines; a line with none drops them all.
unfoldable pub add_patterns : List Bytes → DataChunk → List Bytes
unfolding words
add_patterns patterns value =
    let new = words (suc (length value)) value in if is_empty new then [] else patterns ++ new

unfoldable pub read_dirops : DataChunk → DirectoryOps
unfolding equals_str
read_dirops value =
    if equals_str value (codes "all")
    then do_all
    else if equals_str value (codes "listing")
    then do_listing
    else do_none

unfoldable pub read_guestops : DataChunk → DirectoryOps
unfolding equals_str
read_guestops value =
    if equals_str value (codes "all")
    then do_all
    else if equals_str value (codes "listing")
    then do_listing
    else if equals_str value (codes "file")
    then do_file
    else do_none

-- A line `name = value`.
unfoldable pub parse_option : DataChunk → DataChunk → Config → Config
unfolding starts_with_str trim_trailing dup_to_str equals_str add_patterns to_uint read_dirops
    read_guestops
parse_option name value cfg =
    if starts_with_str name (codes "/")
    then record cfg {
      shares =
          cfg.shares
          ++ record {
            urlpath = dup_to_str (trim_trailing name b'/');
            syspath = dup_to_str (trim_trailing value b'/');
          }
            ∷ [];
    }
    else if equals_str name (codes "index")
    then record cfg { index_patterns = add_patterns cfg.index_patterns value }
    else if equals_str name (codes "cgi")
    then record cfg { cgi_patterns = add_patterns cfg.cgi_patterns value }
    else if equals_str name (codes "port")
    then record cfg { listen_port = elim (to_uint value 0) [ none ↦ cfg.listen_port | some n ↦ n ] }
    else if equals_str name (codes "user")
    then record cfg { switch_user = dup_to_str value }
    else if equals_str name (codes "dirops")
    then record cfg { avail_ops = read_dirops value }
    else if equals_str name (codes "guestops")
    then record cfg { guest_ops = read_guestops value }
    else if equals_str name (codes "credentials")
    then record cfg { credentials = cfg.credentials ++ dup_to_str value ∷ [] }
    else if equals_str name (codes "maxclients")
    then record cfg { max_clients = elim (to_uint value 0) [ none ↦ cfg.max_clients | some n ↦ n ] }
    else cfg

abbrev is_comment : DataChunk → Bool
is_comment [] = true
is_comment (c ∷ cs) = c == b'#'

-- One round of the loop of `parseFile`, on what `fgets` has read.
unfoldable pub parse_line : Bytes → Config → Config
unfolding init_with_str trim_ws extract_till_chr_strip_ws parse_option
parse_line buf cfg =
    let line = trim_ws (init_with_str buf) in
    let e = extract_till_chr_strip_ws line b'=' in
    if is_comment line then cfg else if e.found then parse_option e.sub_chunk e.dch cfg else cfg

unfoldable pub parse_file : List Bytes → Config → Config
unfolding parse_line
parse_file [] cfg = cfg
parse_file (buf ∷ bufs) cfg = parse_file bufs (parse_line buf cfg)

-- What `config_parse` does behind the files: a share and a port where none was given. `html_dir` is
-- the macro HTMLDIR.
unfoldable pub finish_parse : Bytes → Bool → Config → Config
finish_parse html_dir is_root cfg = record cfg {
  shares =
      if is_empty cfg.shares
      then record { urlpath = []; syspath = html_dir ++ codes "/welcome.html" } ∷ []
      else cfg.shares;
  listen_port = if cfg.listen_port == 0 then (if is_root then 80 else 8000) else cfg.listen_port;
}

-- `!strncmp(urlPath, cur->urlpath, shLen) && (shLen == urlPathLen || urlPath[shLen] == '/')`, where
-- the share's path is no longer than the other.
unfoldable pub share_matches : Bytes → Share → Bool
unfolding starts_with
share_matches url_path share =
    starts_with url_path share.urlpath
    && (length share.urlpath == length url_path || get_or url_path (length share.urlpath) 0 == b'/')

-- The loop over the shares, with the best so far.
unfoldable pub best_share : Bytes → Option Share → List Share → Option Share
unfolding share_matches
best_share url_path best [] = best
best_share url_path best (cur ∷ more) =
    let is_longer = elim best as (λ _. Bool) [
      | none ↦ true
      | some b ↦ ltb (length b.urlpath) (length cur.urlpath)
    ] in
    best_share url_path
      (if leb (length cur.urlpath) (length url_path) && (is_longer && share_matches url_path cur)
        then some cur
        else best)
      more

-- The path "/" counts as the empty one.
abbrev pub root_as_empty : Bytes → Bytes
root_as_empty [] = []
root_as_empty (c ∷ []) = if c == b'/' then [] else c ∷ []
root_as_empty (c ∷ d ∷ cs) = c ∷ d ∷ cs

-- The share's path on the disk, with what the request's path has behind the share's.
unfoldable pub share_sys_path : Bytes → Share → Bytes
share_sys_path url_path share =
    if ltb (length share.urlpath) (length url_path)
    then share.syspath ++ drop (length share.urlpath) url_path
    else if is_empty share.syspath
    then codes "/"
    else share.syspath

-- `config_getSysPathForUrlPath`; `none` is NULL.
unfoldable pub get_sys_path_for_url_path : Config → Bytes → Option Bytes
get_sys_path_for_url_path cfg url =
    let url_path = root_as_empty url in
    elim (best_share url_path none cfg.shares) [
      | none ↦ none
      | some share ↦ some (share_sys_path url_path share)
    ]

pub data PrivilegedAction : Type 0 where
  pa_serve_page pa_list_folder pa_modify : PrivilegedAction

abbrev pub is_all : DirectoryOps → Bool
is_all do_all = true
is_all _ = false

abbrev pub is_none : DirectoryOps → Bool
is_none do_none = true
is_none _ = false

abbrev pub is_listing : DirectoryOps → Bool
is_listing do_listing = true
is_listing _ = false

unfoldable pub is_action_available : Config → PrivilegedAction → Bool
is_action_available cfg pa_serve_page = true
is_action_available cfg pa_list_folder = not (is_none cfg.avail_ops)
is_action_available cfg pa_modify = is_all cfg.avail_ops

-- What a guest may do, apart from the test of DO_ALL.
unfoldable pub guest_allowed : Config → PrivilegedAction → Bool
guest_allowed cfg pa_serve_page = not (is_none cfg.guest_ops)
guest_allowed cfg pa_list_folder = is_listing cfg.guest_ops
guest_allowed cfg pa_modify = false

unfoldable pub is_action_allowed : Config → PrivilegedAction → Bool → Bool
unfolding is_action_available guest_allowed
is_action_allowed cfg pa is_logged_in =
    if not (is_action_available cfg pa)
    then false
    else if is_logged_in || is_all cfg.guest_ops
    then true
    else guest_allowed cfg pa

unfoldable pub gives_more : DirectoryOps → DirectoryOps → Bool
gives_more do_all avail = false
gives_more do_listing avail = is_all avail
gives_more do_file avail = not (is_none avail)
gives_more do_none avail = true

unfoldable pub gives_login_more_privileges : Config → Bool
unfolding gives_more
gives_login_more_privileges cfg = gives_more cfg.guest_ops cfg.avail_ops
