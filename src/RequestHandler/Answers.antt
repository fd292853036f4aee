-- ===== src/RequestHandler/Answers.antt =====
-- What src/reqhandler.c answers a request with at once, and what it leaves for later.
use filemanager_httpd.Common.{
  ◌≡◌, refl, sym, ap, Bool, true, false, not, ◌&&◌, ◌||◌, Option, none, some, [], ◌∷◌, ◌++◌,
  append-nil, if◌then◌else◌,
}
use filemanager_httpd.Common.Strings.{Bytes, codes}
use mathlib.Core.Path.{subst}
use mathlib.Core.Option.{some-injective, none-ne-some}
use filemanager_httpd.Config.{Config, pa_serve_page}
use filemanager_httpd.RequestHeader.{RequestHeader, get_path}
use filemanager_httpd.RespBuf
use filemanager_httpd.RespBuf.{RespBuf, cmn_status, http_403_forbidden, append_header}
use filemanager_httpd.ResponseSender
use filemanager_httpd.ResponseSender.{ResponseSender}
use filemanager_httpd.RequestHandler.{
  System, FileManagerOps, CgiExecutorOps, RequestHandler, is_method, is_head_req, is_login_fail,
  is_request_allowed, finish, respond, file_response, process_file_req, follow, follow_route,
  do_process_request,
}
use filemanager_httpd.RequestHandler
use filemanager_httpd.RequestHandler.PageLaws.{
  IsPage, HasStatus, print_mesg_page-IsPage, print_unauthorized-IsPage, with_header-HasStatus,
}
use filemanager_httpd.RequestHandler.Routing.{leads_up}

abbrev pub status_line : Bytes → Bytes
status_line status = codes "HTTP/1.1 " ++ (status ++ codes "\r\n")

-- The handler has a response with the status, and no one else is to answer.
pub record HasAnswer {M C : Type 0} (status : Bytes) (h : RequestHandler M C) : Type 0 where
  pub no_filemgr : h.filemgr ≡ none
  pub no_cgiexe : h.cgiexe ≡ none
  pub sender : ResponseSender
  pub has_response : h.response ≡ some sender
  pub fields : Bytes
  pub header : sender.header ≡ some (status_line status ++ fields)

append_assoc_5 :
    (s a b c d e : Bytes) → ((((s ++ a) ++ b) ++ c) ++ d) ++ e ≡ s ++ ((((a ++ b) ++ c) ++ d) ++ e)
append_assoc_5 [] a b c d e = refl
append_assoc_5 (x ∷ s) a b c d e = ap (λ t. x ∷ t) (append_assoc_5 s a b c d e)

-- The status that a request is refused with, for its method, its sender or its path.
abbrev pub refusal : Config → RequestHeader → Bytes → Option Bytes
refusal cfg rhdr query_file =
    if not (is_method rhdr (codes "GET"))
      && (not (is_method rhdr (codes "POST")) && not (is_method rhdr (codes "HEAD")))
    then some (codes "405 Method Not Allowed")
    else if is_login_fail rhdr.login_state || not (is_request_allowed cfg rhdr pa_serve_page)
    then some (codes "401 Unauthorized")
    else if leads_up query_file
    then some (codes "403 Forbidden")
    else none

module _ {M C : Type 0} (sys : System) (cfg : Config) (filemgr : FileManagerOps M)
    (cgiexe : CgiExecutorOps C) where
  finish-header :
      (status : Bytes) (resp : RespBuf)
      → HasStatus status resp
      → (fields : Bytes) × ((finish sys resp).header ≡ some (status_line status ++ fields))
  unfolding finish append_header ResponseSender.new
  finish-header status resp h = rw h.starts (
    _,
    ap some (
        append_assoc_5 (status_line status) h.fields (codes "Server: filemanager-httpd\r\n") _ _ _),
  )

  abbrev pub AnswersWith : Bytes → Option (RequestHandler M C) → Type 0
  AnswersWith status o = (h : RequestHandler M C) × (o ≡ some h) × HasAnswer status h

  respond-AnswersWith :
      (status : Bytes) (peer_addr : Option Bytes) (page : Option RespBuf)
      → IsPage status page
      → AnswersWith status (respond sys cfg filemgr cgiexe peer_addr page)
  respond-AnswersWith status peer_addr page p =
      let f = finish-header status p.0 p.2 in
      rw p.1 (
        _,
        refl,
        record {
          no_filemgr = refl;
          no_cgiexe = refl;
          sender = finish sys p.0;
          has_response = refl;
          fields = f.0;
          header = f.1;
        },
      )

  not_allowed-IsPage :
      (only_head : Bool)
      → IsPage (codes "405 Method Not Allowed") (
          some (
            append_header
              (codes "Allow")
              (codes "GET, HEAD, POST")
              (RespBuf.new (codes "405 Method Not Allowed") only_head)))
  unfolding RespBuf.new
  not_allowed-IsPage only_head = (
    _,
    refl,
    with_header-HasStatus (codes "405 Method Not Allowed") (codes "Allow") (codes "GET, HEAD, POST")
        _
        (record {
          fields = [];
          starts = sym (append-nil (status_line (codes "405 Method Not Allowed")));
          no_file = refl;
        }),
  )

  -- Behind the test of the method.
  refused-AnswersWith :
      (rhdr : RequestHeader) (peer_addr : Option Bytes) (query_file status : Bytes) (b c : Bool)
      → is_login_fail rhdr.login_state || not (is_request_allowed cfg rhdr pa_serve_page) ≡ b
      → leads_up query_file ≡ c
      → (if b
          then some (codes "401 Unauthorized")
          else if c
          then some (codes "403 Forbidden")
          else none)
        ≡ some status
      → AnswersWith status (do_process_request sys cfg filemgr cgiexe rhdr peer_addr query_file)
  unfolding do_process_request
  refused-AnswersWith rhdr peer_addr query_file status true c e k h =
      subst
        (λ s. AnswersWith s (do_process_request sys cfg filemgr cgiexe rhdr peer_addr query_file))
        (some-injective _ _ h)
        (rw e (
          respond-AnswersWith (codes "401 Unauthorized") peer_addr _
            (print_unauthorized-IsPage sys.hostname sys.auth_header query_file (is_head_req rhdr))))
  refused-AnswersWith rhdr peer_addr query_file status false true e k h =
      subst
        (λ s. AnswersWith s (do_process_request sys cfg filemgr cgiexe rhdr peer_addr query_file))
        (some-injective _ _ h)
        (rw (e, k)
          (respond-AnswersWith (codes "403 Forbidden") peer_addr _ (
            print_mesg_page-IsPage sys.hostname (cmn_status http_403_forbidden) none query_file
              (is_head_req rhdr) false)))
  refused-AnswersWith rhdr peer_addr query_file status false false e k h =
      elim (none-ne-some _ h) [ ]

  -- A request with another method than GET, HEAD and POST, one that failed to log in or that
  -- may not be served, and one whose path leads up gets its page at once, with the status 405,
  -- 401 or 403; no file manager or program is started for it.
  pub new_refuses :
      (rhdr : RequestHeader) (peer_addr : Option Bytes) (query_file status : Bytes)
      → get_path rhdr ≡ some query_file
      → refusal cfg rhdr query_file ≡ some status
      → AnswersWith status (RequestHandler.new sys cfg filemgr cgiexe rhdr peer_addr)
  unfolding RequestHandler.new
  new_refuses rhdr peer_addr query_file status p h = by_method bad refl h
    where
      bad : Bool
      bad =
          not (is_method rhdr (codes "GET"))
          && (not (is_method rhdr (codes "POST")) && not (is_method rhdr (codes "HEAD")))

      by_method :
          (b : Bool)
          → bad ≡ b
          → refusal cfg rhdr query_file ≡ some status
          → AnswersWith status (RequestHandler.new sys cfg filemgr cgiexe rhdr peer_addr)
      by_method true e h =
          subst (λ s. AnswersWith s (RequestHandler.new sys cfg filemgr cgiexe rhdr peer_addr))
            (some-injective _ _ (rw e at h))
            (rw e (
              respond-AnswersWith (codes "405 Method Not Allowed") peer_addr _
                (not_allowed-IsPage (is_head_req rhdr))))
      by_method false e h =
          rw (e, p) (refused-AnswersWith rhdr peer_addr query_file status _ _ refl refl (rw e at h))
