-- ===== src/Tests/Programs.antt =====
-- The theorems on src/cgiexecutor.c, at concrete inputs.
use filemanager_httpd.Common.{◌≡◌, refl, ◌⊎◌, inl, inr, Bool, true, false, none, some, [], ◌∷◌}
use filemanager_httpd.Common.Strings.{starts_with, Bytes, codes, equal_ignore_case}
use filemanager_httpd.HeaderLines.{HeaderLine}
use filemanager_httpd.Config.{
  Config, initial, get_sys_path_for_url_path, best_share, share_sys_path,
}
use filemanager_httpd.RequestHeader.{RequestHeader, logged_in}
use filemanager_httpd.CgiExecutor.{Input, Execution, run_cgi}
use filemanager_httpd.CgiExecutor.Safety.{RunsSafely, run_cgi-RunsSafely}
use filemanager_httpd.CgiExecutor.Credentials.{with_lines, run_cgi-authorization}

abbrev site : Config
site = record initial {
  listen_port = 8000;
  shares = record { urlpath = []; syspath = codes "/srv" } ∷ [];
}

abbrev short_input : Input
short_input = record { made = true; reads = (5, true) ∷ (7, true) ∷ []; fails = false }

abbrev endless_input : Input
endless_input = record { made = true; reads = (900000, true) ∷ (200000, true) ∷ []; fails = false }

abbrev line : Bytes → Bytes → HeaderLine
line name value = record { name = name; value = value }

abbrev encoding_line : HeaderLine
encoding_line = line (codes "transfer-encoding") (codes " chunked")

abbrev authorization_line : HeaderLine
authorization_line = line (codes "AUTHORIZATION") (codes " Digest x")

abbrev x_line : HeaderLine
x_line = line (codes "X-a") (codes " 1")

abbrev post : RequestHeader
post = record {
  request = codes "POST";
  path = some (codes "/s.cgi/a");
  query = some (codes "q=1");
  version = codes "1.1";
  headers = some (encoding_line ∷ authorization_line ∷ x_line ∷ []);
  current = [];
  login_state = logged_in;
}

-- Programs in "/srv" can be executed.
abbrev in_srv : Execution → Bool
in_srv e = starts_with e.exe_path (codes "/srv/")

abbrev run : Input → RequestHeader → Execution ⊎ Bytes
run input hdr =
    run_cgi site none in_srv input hdr (codes "/srv/s.cgi") (some (codes "::1"))
      (some (codes "/s.cgi")) (some (codes "/a"))

passed_to_program :
    run short_input post
    ≡ inl (record {
      exe_path = codes "/srv/s.cgi";
      arg0 = codes "s.cgi";
      envp =
          codes "GATEWAY_INTERFACE=1.1"
          ∷ codes "PATH_INFO=/a"
          ∷ codes "PATH_TRANSLATED=/srv/a"
          ∷ codes "QUERY_STRING=q=1"
          ∷ codes "REMOTE_ADDR=::1"
          ∷ codes "REMOTE_HOST=::1"
          ∷ codes "REQUEST_METHOD=POST"
          ∷ codes "SCRIPT_NAME=/s.cgi"
          ∷ codes "HTTP_X_A=1"
          ∷ codes "SERVER_PORT=8000"
          ∷ codes "SERVER_PROTOCOL=HTTP/1.1"
          ∷ codes "SERVER_SOFTWARE=filemanager-httpd"
          ∷ codes "CONTENT_LENGTH=12"
          ∷ [];
    })
unfolding run_cgi get_sys_path_for_url_path best_share share_sys_path
passed_to_program = refl

abbrev is_refused : Execution ⊎ Bytes → Bool
is_refused (inl e) = false
is_refused (inr text) = true

too_long_input : is_refused (run endless_input post) ≡ true
unfolding run_cgi
too_long_input = refl

run_cgi-RunsSafely_example :
    RunsSafely in_srv short_input post (codes "/srv/s.cgi") (run short_input post)
run_cgi-RunsSafely_example =
    run_cgi-RunsSafely site none in_srv short_input post (codes "/srv/s.cgi") (some (codes "::1"))
      (some (codes "/s.cgi")) (some (codes "/a"))

run_cgi-authorization_example :
    run short_input post ≡ run short_input (with_lines post (encoding_line ∷ x_line ∷ []))
unfolding equal_ignore_case
run_cgi-authorization_example =
    run_cgi-authorization site none in_srv short_input post authorization_line (encoding_line ∷ [])
      (x_line ∷ []) (codes "/srv/s.cgi") (some (codes "::1")) (some (codes "/s.cgi"))
      (some (codes "/a")) refl
