-- ===== src/CgiExecutor.antt =====
-- src/cgiexecutor.c: what a CGI program is started with. The process, its pipes and the change to the
-- program's folder are left out.
pub mod Credentials
pub mod Safety
use filemanager_httpd.Common.{
  ℕ, zero, suc, ◌+◌, ◌-◌, ◌*◌, ◌/◌, ◌%◌, ◌^◌, ◌≤◌, ◌<◌, min, ◌≡◌, refl, sym, ap, ◌∙◌, ◌≢◌, ◌↔◌, ◌⊎◌,
  inl, inr, Bool, true, false, not, ◌&&◌, ◌||◌, Option, none, some, List, [], ◌∷◌, ◌++◌, map,
  append-nil, append_assoc, arith, ltb, leb, ◌==◌, if◌then◌else◌, ltb→lt, lt→ltb, le→ltb, leb→le,
  ==_iff, Bool-cases, Option-cases, length, get_elem?, get_or, take, drop, replicate, is_empty, All,
  length-append, take-append-drop, length-drop, All-append,
}
use filemanager_httpd.Common.Strings.{
  Bytes, codes, take_while, drop_while, trim_end, c_str, split_chr, contains_chr, equal, to_lower,
  equal_ignore_case, starts_with, starts_with_ignore_case,
}
use filemanager_httpd.Common.Strings.Print.{print_decimal}
use filemanager_httpd.HeaderLines.{HeaderLine, is_blank}
use filemanager_httpd.Config.{Config, get_sys_path_for_url_path}
use filemanager_httpd.RequestHeader.{
  RequestHeader, get_method, complete_headers, is_chunked_transfer_encoding,
}
use filemanager_httpd.ContentType.{split_last_chr}

-- `fatalErrorResp`: the text that is printed before the program ends.
unfoldable pub fatal_error_resp : Bytes → Option Bytes → Bytes
fatal_error_resp message status =
    let s : Bytes = elim status [ none ↦ codes "500 Internal Server Error" | some t ↦ t ] in
    codes "Content-Type: text/html\nStatus: "
    ++ (s
        ++ (codes "\n\n<!DOCTYPE html><html><head>\n<title>"
            ++ (s
                ++ (codes "</title>\n</head>\n<body><h3>"
                    ++ (s ++ (codes "</h3>\n" ++ (message ++ codes "\n</body></html>")))))))

-- What the system does for `handleNoContentLength`: whether `mkstemp` makes the file, the number of
-- bytes of each `read`, with whether they could be written, and whether the last `read` fails or finds
-- the end.
pub record Input : Type 0 where
  pub made : Bool
  pub reads : List (ℕ × Bool)
  pub fails : Bool

-- The loop of `handleNoContentLength`, and the tests behind it.
unfoldable pub count_input : Bool → ℕ → List (ℕ × Bool) → ℕ ⊎ Bytes
unfolding fatal_error_resp
count_input fails ct_len [] =
    if ltb 1000000 ct_len
    then inr
        (fatal_error_resp (codes "Request body too long") (some (codes "413 Payload Too Large")))
    else if fails
    then inr (fatal_error_resp (codes "stdin read fail") none)
    else inl ct_len
count_input fails ct_len ((rd, is_written) ∷ reads) =
    let more = count_input fails (ct_len + rd) reads in
    if ltb 1000000 ct_len
    then inr
        (fatal_error_resp (codes "Request body too long") (some (codes "413 Payload Too Large")))
    else if is_written
    then more
    else inr (fatal_error_resp (codes "tempfile write error") none)

abbrev printed : ℕ ⊎ Bytes → Bytes ⊎ Bytes
printed (inl n) = inl (print_decimal n)
printed (inr text) = inr text

unfoldable pub handle_no_content_length : Input → Bytes ⊎ Bytes
unfolding fatal_error_resp count_input
handle_no_content_length input =
    if input.made
    then printed (count_input input.fails 0 input.reads)
    else inr (fatal_error_resp (codes "unable to create tempfile") none)

unfoldable pub append_env : List Bytes → Bytes → Bytes → List Bytes
append_env envp name value = envp ++ ((name ++ (b'=' ∷ value)) ∷ [])

-- `if( value != NULL ) appendEnv(&envp, name, value);`
unfoldable pub append_present : List Bytes → Bytes → Option Bytes → List Bytes
unfolding append_env
append_present envp name none = envp
append_present envp name (some value) = append_env envp name value

abbrev pub omit_headers : List Bytes
omit_headers =
    codes "Content-Length"
    ∷ codes "Content-Type"
    ∷ codes "Authorization"
    ∷ codes "Connection"
    ∷ codes "Transfer-Encoding"
    ∷ []

unfoldable pub is_among : Bytes → List Bytes → Bool
unfolding equal_ignore_case
is_among name [] = false
is_among name (n ∷ ns) = equal_ignore_case name n || is_among name ns

-- `toupper`, and `_` for `-`
abbrev env_char : ℕ → ℕ
env_char c = if c == b'-' then b'_' else if leb b'a' c && leb c b'z' then c - 32 else c

unfoldable pub put_header : List Bytes → Bytes → Bytes → List Bytes
unfolding append_env is_among
put_header envp header_name header_value =
    if is_among header_name omit_headers
    then envp
    else append_env envp (codes "HTTP_" ++ map env_char header_name) header_value

-- One round of the loop over the header lines, on the environment and `contentLength`.
unfoldable pub put_line : HeaderLine → List Bytes × Option Bytes → List Bytes × Option Bytes
unfolding equal_ignore_case append_env put_header drop_while
put_line l s =
    let value = drop_while is_blank l.value in
    if equal_ignore_case l.name (codes "Content-Type")
    then (append_env s.0 (codes "CONTENT_TYPE") value, s.1)
    else if equal_ignore_case l.name (codes "Content-Length")
    then (s.0, some value)
    else (put_header s.0 l.name value, s.1)

unfoldable pub put_lines : List HeaderLine → List Bytes × Option Bytes → List Bytes × Option Bytes
unfolding put_line
put_lines [] s = s
put_lines (l ∷ ls) s = put_lines ls (put_line l s)

-- The arguments of `execve`.
pub record Execution : Type 0 where
  pub exe_path : Bytes
  pub arg0 : Bytes
  pub envp : List Bytes

-- The length from the header, or the one of the input that the program would read; `none` if the
-- request has no body.
unfoldable pub content_length : Input → RequestHeader → Option Bytes → Option Bytes ⊎ Bytes
unfolding is_chunked_transfer_encoding handle_no_content_length
content_length input hdr (some len) = inl (some len)
content_length input hdr none =
    if is_chunked_transfer_encoding hdr
    then elim (handle_no_content_length input) [ inl len ↦ inl (some len) | inr text ↦ inr text ]
    else inl none

-- Behind the length: `execve`, which returns only where it fails; then, and where the input was not
-- read, the end by `fatalErrorResp`.
unfoldable pub execute :
    (Execution → Bool) → Bytes → List Bytes → Option Bytes ⊎ Bytes → Execution ⊎ Bytes
unfolding fatal_error_resp split_last_chr append_present
execute execve exe_path envp (inr text) = inr text
execute execve exe_path envp (inl len) =
    let e : Execution = record {
      exe_path = exe_path;
      arg0 = elim (split_last_chr b'/' exe_path) [ none ↦ exe_path | some (_, name) ↦ name ];
      envp = append_present envp (codes "CONTENT_LENGTH") len;
    } in
    if execve e then inl e else inr (fatal_error_resp (codes "unable to execute CGI") none)

-- `hostname` is what `gethostname` delivers; `execve` tells whether the call starts the program.
module _ (cfg : Config) (hostname : Option Bytes) (execve : Execution → Bool) where
  -- Up to the loop over the header lines.
  unfoldable pub request_env :
      RequestHeader → Option Bytes → Option Bytes → Option Bytes → List Bytes
  unfolding append_env append_present get_sys_path_for_url_path get_method
  request_env hdr peer_addr script_name path_info =
      let env1 = append_env [] (codes "GATEWAY_INTERFACE") (codes "1.1") in
      let env2 = append_present env1 (codes "PATH_INFO") path_info in
      let translated : Option Bytes = elim path_info [
        | none ↦ none
        | some path ↦ get_sys_path_for_url_path cfg path
      ] in
      let env3 = append_present env2 (codes "PATH_TRANSLATED") translated in
      let env4 = append_present env3 (codes "QUERY_STRING") hdr.query in
      let env5 = append_present env4 (codes "REMOTE_ADDR") peer_addr in
      let env6 = append_present env5 (codes "REMOTE_HOST") peer_addr in
      let env7 = append_env env6 (codes "REQUEST_METHOD") (get_method hdr) in
      append_present env7 (codes "SCRIPT_NAME") script_name

  -- Behind that loop, up to the length.
  unfoldable pub server_env : List Bytes → List Bytes
  unfolding append_env append_present print_decimal
  server_env envp =
      let env1 = append_present envp (codes "SERVER_NAME") hostname in
      let env2 = append_env env1 (codes "SERVER_PORT") (print_decimal cfg.listen_port) in
      let env3 = append_env env2 (codes "SERVER_PROTOCOL") (codes "HTTP/1.1") in
      append_env env3 (codes "SERVER_SOFTWARE") (codes "filemanager-httpd")

  -- `runCgi`; a text instead of an execution is printed.
  unfoldable pub run_cgi :
      Input → RequestHeader → Bytes → Option Bytes → Option Bytes → Option Bytes → Execution ⊎ Bytes
  unfolding put_lines request_env server_env content_length execute
  run_cgi input hdr exe_path peer_addr script_name path_info =
      let s =
        put_lines (complete_headers hdr) (request_env hdr peer_addr script_name path_info, none) in
      execute execve exe_path (server_env s.0) (content_length input hdr s.1)
