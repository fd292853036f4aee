-- ===== src/Tests/Handler.antt =====
-- The theorems on src/reqhandler.c and the look-up of src/fmconfig.c, at concrete inputs.
use filemanager_httpd.Common.{
  ℕ, ◌+◌, ◌≡◌, refl, inl, inr, true, false, none, some, List, [], ◌∷◌, if◌then◌else◌, length,
}
use filemanager_httpd.Common.Strings.{Bytes, codes, equal, starts_with}
use Prim.Native.Nat.{Ordering}
use filemanager_httpd.Folder.{FolderEntry}
use filemanager_httpd.FileSystem.{enoent, enotdir, FileSystem}
use filemanager_httpd.Config.{
  get_sys_path_for_url_path, best_share, share_sys_path, Config, initial,
}
use filemanager_httpd.Config.Lookup.{FoundCgi}
use filemanager_httpd.Config.Lookup
use filemanager_httpd.Config.Lookup.Cgi.{IsFound, find_cgi-IsFound}
use filemanager_httpd.RequestHeader.{RequestHeader, login_fail, logged_out}
use filemanager_httpd.RequestHeader
use filemanager_httpd.RespBuf
use filemanager_httpd.RespBuf.{RespBuf}
use filemanager_httpd.ResponseSender.{stat_regular}
use filemanager_httpd.RequestHandler
use filemanager_httpd.RequestHandler.{
  System, FileManagerOps, CgiExecutorOps, RequestHandler, request_read_completed,
}
use filemanager_httpd.RequestHandler.Routing.{route}
use filemanager_httpd.RequestHandler.Safety.{RouteServed, route-RouteServed}
use filemanager_httpd.RequestHandler.Answers.{AnswersWith, new_refuses}
use filemanager_httpd.RequestHandler.Starts.{
  is_started, is_answered, new_started, request_read_completed_answered,
}

abbrev site : Config
site = record initial {
  shares = record { urlpath = codes "/a"; syspath = codes "/srv" } ∷ [];
  cgi_patterns = codes "cgi" ∷ [];
}

-- "/srv/cgi" is a program, "/srv" a folder.
abbrev disk : FileSystem
disk = record {
  stat = λ path.
      if equal path (codes "/srv/cgi")
      then inl (record { st_mode = 33261; st_size = 5 })
      else if equal path (codes "/srv")
      then inl (record { st_mode = 16877; st_size = 0 })
      else if starts_with path (codes "/srv/cgi/")
      then inr enotdir
      else inr enoent;
  read_dir = λ path. inl [];
  fnmatch = λ strict pattern_ text. equal pattern_ text;
}

abbrev sorted : (FolderEntry → FolderEntry → Ordering) → List FolderEntry → List FolderEntry
sorted order entries = entries

abbrev same : Bytes → Bytes → Ordering
same a b = Ordering.eq

abbrev machine : System
machine = record {
  fs = disk;
  qsort = sorted;
  strcoll = same;
  open_file = λ path. inl 7;
  fstat = λ fd. stat_regular 5;
  strerror = λ e. codes "error";
  hostname = codes "host";
  auth_header = codes "Digest";
}

abbrev folders : FileManagerOps ℕ
folders = record {
  new = λ path rhdr. 0;
  consume_body_bytes = λ m bytes. m + length bytes;
  process_post = λ m rhdr. some (m, false);
  print_folder_contents = λ m rhdr. inl (RespBuf.new (codes "200 OK") false);
}

abbrev programs : CgiExecutorOps ℕ
programs = record {
  new = λ rhdr exe peer url sub_path. 0;
  process_data = λ c bytes dpr. (c, length bytes, dpr);
  request_read_completed = λ c. c;
  get_response = λ c dpr. (c, none, dpr);
}

abbrev get : Bytes → RequestHeader
get path = record {
  request = codes "GET";
  path = some path;
  query = none;
  version = codes "1.1";
  headers = some [];
  current = [];
  login_state = logged_out;
}

find_cgi-IsFound_example : IsFound disk site (codes "/a/cgi/x") (record {
  cgi_exe = codes "/srv/cgi";
  cgi_url = codes "/a/cgi";
  cgi_sub_path = some (codes "/x");
})
unfolding Lookup.find_cgi equal get_sys_path_for_url_path best_share share_sys_path
find_cgi-IsFound_example = find_cgi-IsFound disk site (codes "/a/cgi/x") _ refl

route-RouteServed_example :
    RouteServed disk site sorted same (route disk sorted same site (codes "/a/x"))
unfolding RequestHandler.Routing.leads_up
route-RouteServed_example = route-RouteServed disk site sorted same (codes "/a/x") refl

new_refuses_example : AnswersWith machine site folders programs (codes "401 Unauthorized") (
    RequestHandler.new machine site folders programs
      (record (get (codes "/a")) { login_state = login_fail })
      none)
unfolding RequestHeader.get_path equal
new_refuses_example =
    new_refuses machine site folders programs
      (record (get (codes "/a")) { login_state = login_fail }) none (codes "/a")
      (codes "401 Unauthorized") refl refl

new_started_example :
    is_started (RequestHandler.new machine site folders programs (get (codes "/a/")) none) ≡ true
unfolding RequestHeader.get_path
new_started_example =
    new_started machine site folders programs (get (codes "/a/")) none (codes "a/") refl

abbrev listing : RequestHandler ℕ ℕ
listing = record { peer_addr = none; filemgr = some 0; cgiexe = none; response = none }

request_read_completed_answered_example :
    is_answered (request_read_completed machine site folders programs listing (get (codes "/a/")))
    ≡ true
unfolding RequestHeader.get_path equal
request_read_completed_answered_example =
    request_read_completed_answered machine site folders programs listing (get (codes "/a/"))
      (codes "/a/") refl
