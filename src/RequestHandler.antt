-- ===== src/RequestHandler.antt =====
-- src/reqhandler.c: the handler of a request, which answers it from a file, a folder or a program.
-- `none` is a failure of the program: a body or a path that is NULL, or a read in front of a text.
-- The file manager and the CGI executor are interfaces; so is what the system does.
pub mod Pages
pub mod Routing
pub mod Starts
pub mod Answers
pub mod Usable
pub mod Components
pub mod PageLaws
pub mod Inside
pub mod Safety
use filemanager_httpd.Common.{
  ℕ, zero, suc, ◌+◌, ◌-◌, ◌*◌, ◌/◌, ◌%◌, ◌^◌, ◌≤◌, ◌<◌, min, ◌≡◌, refl, sym, ap, ◌∙◌, ◌≢◌, ◌↔◌, ◌⊎◌,
  inl, inr, Bool, true, false, not, ◌&&◌, ◌||◌, Option, none, some, List, [], ◌∷◌, ◌++◌, map,
  append-nil, append_assoc, arith, ltb, leb, ◌==◌, if◌then◌else◌, ltb→lt, lt→ltb, le→ltb, leb→le,
  ==_iff, Bool-cases, Option-cases, length, get_elem?, get_or, take, drop, replicate, is_empty, All,
  length-append, take-append-drop, length-drop, All-append,
}
use filemanager_httpd.Common.Strings.{
  Bytes, codes, take_while, drop_while, trim_end, c_str, split_chr, contains_chr, equal, to_lower,
  equal_ignore_case, starts_with, starts_with_ignore_case,
}
use Prim.Native.Nat.{Ordering}
use filemanager_httpd.ContentType.{split_last_chr, get_content_type_by_file_ext}
use filemanager_httpd.Folder.{FolderEntry}
use filemanager_httpd.FileSystem.{Errno, FileSystem, enoent}
use filemanager_httpd.Config.{
  Config, PrivilegedAction, pa_serve_page, pa_list_folder, is_action_allowed,
  gives_login_more_privileges,
}
use filemanager_httpd.DataProcessingResult.{DataProcessingResult}
use filemanager_httpd.RequestHeader.{
  RequestHeader, LoginState, logged_out, logged_in, login_fail, get_method, get_path,
}
use filemanager_httpd.RespBuf
use filemanager_httpd.RespBuf.{
  RespBuf, http_200_ok, http_403_forbidden, http_500, cmn_status, append_header, enq_file,
}
use filemanager_httpd.ResponseSender
use filemanager_httpd.ResponseSender.{ResponseSender, FileStat, stat_other, Wire, send}
use filemanager_httpd.RequestHandler.Pages.{
  print_moved_add_slash, print_mesg_page, print_error_page, print_unauthorized,
}
use filemanager_httpd.RequestHandler.Routing.{
  Route, add_slash, list_folder, run_cgi, serve_file, show_error, leads_up, route,
}

abbrev pub is_logged_in : LoginState → Bool
is_logged_in logged_in = true
is_logged_in _ = false

abbrev pub is_login_fail : LoginState → Bool
is_login_fail login_fail = true
is_login_fail _ = false

abbrev pub is_logged_out : LoginState → Bool
is_logged_out logged_out = true
is_logged_out _ = false

-- `reqhdr_isActionAllowed`
unfoldable pub is_request_allowed : Config → RequestHeader → PrivilegedAction → Bool
unfolding is_action_allowed
is_request_allowed cfg rhdr pa = is_action_allowed cfg pa (is_logged_in rhdr.login_state)

-- `reqhdr_isWorthPuttingLogOnButton`
unfoldable pub is_worth_putting_log_on_button : Config → RequestHeader → Bool
unfolding gives_login_more_privileges
is_worth_putting_log_on_button cfg rhdr =
    is_logged_out rhdr.login_state && gives_login_more_privileges cfg

abbrev pub is_method : RequestHeader → Bytes → Bool
is_method rhdr meth = equal rhdr.request meth

abbrev pub is_head_req : RequestHeader → Bool
is_head_req rhdr = is_method rhdr (codes "HEAD")

-- What the handler asks the system: `stat` and the like, `open` for reading and `fstat`, the messages
-- for errors, the host's name, and the result of `auth_getAuthResponseHeader`.
pub record System : Type 0 where
  pub fs : FileSystem
  pub qsort : (FolderEntry → FolderEntry → Ordering) → List FolderEntry → List FolderEntry
  pub strcoll : Bytes → Bytes → Ordering
  pub open_file : Bytes → ℕ ⊎ Errno
  pub fstat : ℕ → FileStat
  pub strerror : Errno → Bytes
  pub hostname : Bytes
  pub auth_header : Bytes

-- `filemgr_new`, with the path on the disk, `filemgr_consumeBodyBytes`, `filemgr_processPost`, true for
-- PR_REQUIRE_AUTH, and `filemgr_printFolderContents`. `filemgr_processPost` ends the program on some
-- forms: this is `none`.
pub record FileManagerOps (M : Type 0) : Type 0 where
  pub new : Option Bytes → RequestHeader → M
  pub consume_body_bytes : M → Bytes → M
  pub process_post : M → RequestHeader → Option (M × Bool)
  pub print_folder_contents : M → RequestHeader → RespBuf ⊎ Errno

-- `cgiexe_new`, with the program, the peer's address, its URL path and what follows in the URL path,
-- `cgiexe_processData`, `cgiexe_requestReadCompleted` and `cgiexe_getResponse`.
pub record CgiExecutorOps (C : Type 0) : Type 0 where
  pub new : RequestHeader → Option Bytes → Option Bytes → Bytes → Option Bytes → C
  pub process_data : C → Bytes → DataProcessingResult → C × ℕ × DataProcessingResult
  pub request_read_completed : C → C
  pub get_response : C → DataProcessingResult → C × Option RespBuf × DataProcessingResult

pub record RequestHandler (M : Type 0) (C : Type 0) : Type 0 where
  pub peer_addr : Option Bytes
  pub filemgr : Option M
  pub cgiexe : Option C
  pub response : Option ResponseSender

abbrev stat_of : System → Option ℕ → FileStat
stat_of sys none = stat_other
stat_of sys (some fd) = sys.fstat fd

-- `resp_finish`; the descriptors that are closed are dropped.
unfoldable pub finish : System → RespBuf → ResponseSender
unfolding append_header ResponseSender.new
finish sys resp =
    let r = append_header (codes "Server") (codes "filemanager-httpd") resp in
    (ResponseSender.new r.header r.body r.file_desc (stat_of sys r.file_desc) r.closed).0

abbrev pub with_resp {ℓ} : {A : Type ℓ} → Option RespBuf → (RespBuf → A) → Option A
with_resp none k = none
with_resp (some resp) k = some (k resp)

-- The header and the file of `processFileReq`: `strrchr(urlPath, '/')+1` is a failure without a slash.
unfoldable pub file_response : Bytes → Bytes → Bool → ℕ → Option RespBuf
unfolding RespBuf.new append_header enq_file split_last_chr
file_response url_path sys_path only_head fd =
    let resp =
      append_header (codes "Content-Type") (get_content_type_by_file_ext sys_path)
        (RespBuf.new (cmn_status http_200_ok) only_head) in
    if only_head
    then some (record resp { closed = resp.closed ++ fd ∷ [] })
    else elim (split_last_chr b'/' url_path) [
      | none ↦ none
      | some (dir, name) ↦ some (
          enq_file fd (
            append_header (codes "Content-Disposition")
              (codes "inline; filename=\"" ++ (name ++ codes "\"")) resp))
    ]

-- `processFileReq`
unfoldable pub process_file_req : System → Bytes → Bytes → Bool → Option RespBuf
unfolding file_response
process_file_req sys url_path sys_path only_head = elim (sys.open_file sys_path) [
  | inl fd ↦ file_response url_path sys_path only_head fd
  | inr e ↦ print_error_page sys.strerror sys.hostname (some e) url_path only_head false
]

module _ {M C : Type 0} (sys : System) (cfg : Config) (filemgr : FileManagerOps M)
    (cgiexe : CgiExecutorOps C) where
  -- Behind the test for POST.
  unfoldable pub show_folder : RequestHeader → Bytes → M → Option RespBuf
  unfolding is_request_allowed is_worth_putting_log_on_button
  show_folder rhdr query_file m =
      if is_request_allowed cfg rhdr pa_list_folder
      then elim (filemgr.print_folder_contents m rhdr) [
        | inl resp ↦ some resp
        | inr e ↦
            print_error_page sys.strerror sys.hostname (some e) query_file (is_head_req rhdr) false
      ]
      else print_error_page sys.strerror sys.hostname (some enoent) query_file (is_head_req rhdr)
          (is_worth_putting_log_on_button cfg rhdr)

  -- `processFolderReq`, with the file manager behind it.
  unfoldable pub process_folder_req : RequestHeader → Bytes → M → Option (M × Option RespBuf)
  unfolding show_folder
  process_folder_req rhdr query_file m =
      let posted = filemgr.process_post m rhdr in
      if is_method rhdr (codes "POST")
      then (elim posted [
        | none ↦ none
        | some (n, needs_auth) ↦ some (
          n,
          if needs_auth
              then print_unauthorized sys.hostname sys.auth_header query_file (is_head_req rhdr)
              else show_folder rhdr query_file n,
        )
      ])
      else some (m, show_folder rhdr query_file m)

  abbrev pub without_response : Option Bytes → RequestHandler M C
  without_response peer_addr = record {
    peer_addr = peer_addr;
    filemgr = none;
    cgiexe = none;
    response = none;
  }

  abbrev pub respond : Option Bytes → Option RespBuf → Option (RequestHandler M C)
  respond peer_addr resp =
      with_resp resp (λ r. record (without_response peer_addr) { response = some (finish sys r) })

  -- What is done for a route; the program fails on a path that is NULL.
  unfoldable pub follow : RequestHeader → Option Bytes → Bytes → Route → Option (RequestHandler M C)
  unfolding process_file_req
  follow rhdr peer_addr query_file add_slash =
      respond peer_addr (print_moved_add_slash sys.hostname query_file (is_head_req rhdr))
  follow rhdr peer_addr query_file (list_folder sys_path) =
      some (record (without_response peer_addr) { filemgr = some (filemgr.new sys_path rhdr) })
  follow rhdr peer_addr query_file (run_cgi exe url sub_path) =
      some (record (without_response peer_addr) {
        cgiexe = some (cgiexe.new rhdr exe peer_addr url sub_path);
      })
  follow rhdr peer_addr query_file (serve_file none) = none
  follow rhdr peer_addr query_file (serve_file (some sys_path)) =
      respond peer_addr (process_file_req sys query_file sys_path (is_head_req rhdr))
  follow rhdr peer_addr query_file (show_error e) =
      respond peer_addr
        (print_error_page sys.strerror sys.hostname (some e) query_file (is_head_req rhdr) false)

  abbrev pub follow_route :
      RequestHeader → Option Bytes → Bytes → Option Route → Option (RequestHandler M C)
  follow_route rhdr peer_addr query_file none = none
  follow_route rhdr peer_addr query_file (some r) = follow rhdr peer_addr query_file r

  -- `doProcessRequest`, with the handler that it leaves, but for the sleep where the login failed.
  unfoldable pub do_process_request :
      RequestHeader → Option Bytes → Bytes → Option (RequestHandler M C)
  unfolding is_request_allowed leads_up follow route
  do_process_request rhdr peer_addr query_file =
      if is_login_fail rhdr.login_state || not (is_request_allowed cfg rhdr pa_serve_page)
      then respond peer_addr
          (print_unauthorized sys.hostname sys.auth_header query_file (is_head_req rhdr))
      else if leads_up query_file
      then respond peer_addr (
          print_mesg_page sys.hostname (cmn_status http_403_forbidden) none query_file
            (is_head_req rhdr) false)
      else follow_route rhdr peer_addr query_file
          (route sys.fs sys.qsort sys.strcoll cfg query_file)

  -- `reqhdlr_new`; the path is NULL only where no request has been read.
  unfoldable pub new : RequestHeader → Option Bytes → Option (RequestHandler M C)
  unfolding get_path get_method RespBuf.new append_header do_process_request
  new rhdr peer_addr =
      if not (is_method rhdr (codes "GET"))
        && (not (is_method rhdr (codes "POST")) && not (is_head_req rhdr))
      then respond peer_addr (
          some (
            append_header (codes "Allow") (codes "GET, HEAD, POST")
              (RespBuf.new (codes "405 Method Not Allowed") (is_head_req rhdr))))
      else elim (get_path rhdr) [
        | none ↦ none
        | some query_file ↦ do_process_request rhdr peer_addr query_file
      ]

  -- `reqhdlr_processData`, with the number of bytes it took.
  unfoldable pub process_data :
      RequestHandler M C
      → Bytes
      → DataProcessingResult
      → RequestHandler M C × ℕ × DataProcessingResult
  process_data hdlr bytes dpr = elim hdlr.filemgr [
    | some m ↦
        (record hdlr { filemgr = some (filemgr.consume_body_bytes m bytes) }, length bytes, dpr)
    | none ↦ elim hdlr.cgiexe [
      | some c ↦
          let p = cgiexe.process_data c bytes dpr in (record hdlr { cgiexe = some p.0 }, p.1, p.2)
      | none ↦ (hdlr, length bytes, dpr)
    ]
  ]

  -- The response that is made when the request has been read.
  unfoldable pub late_response :
      RequestHandler M C → RequestHeader → Bytes → Option (RequestHandler M C)
  unfolding process_folder_req finish
  late_response hdlr rhdr query_file = elim hdlr.filemgr [
    | some m ↦ elim (process_folder_req rhdr query_file m) [
      | none ↦ none
      | some (n, page) ↦
          with_resp page
            (λ resp. record hdlr { filemgr = some n; response = some (finish sys resp) })
    ]
    | none ↦
        with_resp
          (print_mesg_page sys.hostname (cmn_status http_500)
            (some (codes "reqhandler: unspecified handler")) query_file (is_head_req rhdr) false)
          (λ resp. record hdlr { response = some (finish sys resp) })
  ]

  -- `reqhdlr_requestReadCompleted`
  unfoldable pub request_read_completed :
      RequestHandler M C → RequestHeader → Option (RequestHandler M C)
  unfolding late_response
  request_read_completed hdlr rhdr = elim hdlr.cgiexe [
    | some c ↦ some (record hdlr { cgiexe = some (cgiexe.request_read_completed c) })
    | none ↦ elim hdlr.response [
      | some r ↦ some hdlr
      | none ↦ elim (get_path rhdr) [
        | none ↦ none
        | some query_file ↦ late_response hdlr rhdr query_file
      ]
    ]
  ]

  -- `reqhdlr_progressResponse` as far as the program's answer: its response, once it is there.
  unfoldable pub take_cgi_response :
      RequestHandler M C → DataProcessingResult → RequestHandler M C × DataProcessingResult
  unfolding finish
  take_cgi_response hdlr dpr = elim hdlr.response [
    | some r ↦ (hdlr, dpr)
    | none ↦ elim hdlr.cgiexe [
      | none ↦ (hdlr, dpr)
      | some c ↦
          let got = cgiexe.get_response c dpr in
          (
            record hdlr {
              cgiexe = some got.0;
              response = elim got.1 [ none ↦ none | some resp ↦ some (finish sys resp) ];
            },
            got.2,
          )
    ]
  ]

  -- The part of `reqhdlr_progressResponse` that sends the response.
  unfoldable pub send_response :
      ℕ
      → ℕ
      → RequestHandler M C
      → DataProcessingResult
      → Wire
      → Option (RequestHandler M C × Bool × DataProcessingResult × Wire)
  unfolding send
  send_response fuel socket_fd hdlr dpr w = elim hdlr.response [
    | none ↦ some (hdlr, false, dpr, w)
    | some r ↦ elim (send fuel socket_fd r dpr w) [
      | none ↦ none
      | some s ↦ some (record hdlr { response = some s.rsndr }, s.is_done, s.dpr, s.wire)
    ]
  ]

  -- `reqhdlr_progressResponse`; `none` if the sending takes more turns than `fuel`.
  unfoldable pub progress_response :
      ℕ
      → ℕ
      → RequestHandler M C
      → DataProcessingResult
      → Wire
      → Option (RequestHandler M C × Bool × DataProcessingResult × Wire)
  unfolding take_cgi_response send_response
  progress_response fuel socket_fd hdlr dpr w =
      let t = take_cgi_response hdlr dpr in send_response fuel socket_fd t.0 t.1 w
