-- ===== src/RequestHandler/Starts.antt =====
-- src/reqhandler.c: every request is started, and one that has been read is answered.
use filemanager_httpd.Common.{
  ℕ, ◌≡◌, refl, sym, ◌∙◌, ◌⊎◌, inl, inr, Bool, true, false, not, ◌&&◌, ◌||◌, Option, none, some,
  ◌∷◌, arith, Bool-cases, if◌then◌else◌,
}
use filemanager_httpd.Common.Strings.{Bytes, codes}
use filemanager_httpd.ContentType.{split_last_chr}
use filemanager_httpd.FileSystem.{Errno, enoent}
use filemanager_httpd.Config.{Config, pa_list_folder}
use filemanager_httpd.RequestHeader.{RequestHeader, get_path}
use filemanager_httpd.RespBuf.{RespBuf, cmn_status, http_403_forbidden, http_500}
use filemanager_httpd.ResponseSender.{ResponseSender}
use filemanager_httpd.RequestHandler.{
  System, FileManagerOps, CgiExecutorOps, RequestHandler, is_method, is_head_req, is_login_fail,
  is_request_allowed, is_worth_putting_log_on_button, finish, respond, file_response,
  process_file_req, follow, follow_route, do_process_request, late_response, process_folder_req,
  show_folder, request_read_completed, with_resp,
}
use filemanager_httpd.RequestHandler
use filemanager_httpd.RequestHandler.Pages.{print_error_page, print_unauthorized}
use filemanager_httpd.RequestHandler.PageLaws.{
  IsPage, print_mesg_page-IsPage, print_unauthorized-IsPage, print_error_page-IsPage,
  print_moved_add_slash-IsPage,
}
use filemanager_httpd.RequestHandler.Routing.{
  Route, add_slash, list_folder, run_cgi, serve_file, show_error, route,
}
use filemanager_httpd.RequestHandler.Usable.{is_some, is_usable_route, route_usable}

-- Exactly one of them is true.
abbrev pub one_of : Bool → Bool → Bool → Bool
one_of true b c = not b && not c
one_of false true c = not c
one_of false false c = c

-- A response is there already, or the file manager or a program is to make it.
abbrev pub is_started : {M C : Type 0} → Option (RequestHandler M C) → Bool
is_started none = false
is_started (some h) = one_of (is_some h.response) (is_some h.filemgr) (is_some h.cgiexe)

-- There is a response, or a program is to make it.
abbrev pub is_answered : {M C : Type 0} → Option (RequestHandler M C) → Bool
is_answered none = false
is_answered (some h) = is_some h.response || is_some h.cgiexe

split_last_chr-some : (c : ℕ) (cs : Bytes) → is_some (split_last_chr c (c ∷ cs)) ≡ true
unfolding split_last_chr
split_last_chr-some c cs = ground arith

IsPage-some : (status : Bytes) (page : Option RespBuf) → IsPage status page → is_some page ≡ true
IsPage-some status page p = rw p.1 refl

module _ {M C : Type 0} (sys : System) (cfg : Config) (filemgr : FileManagerOps M)
    (cgiexe : CgiExecutorOps C) where
  respond_started :
      (peer_addr : Option Bytes) (page : Option RespBuf)
      → is_some page ≡ true
      → is_started (respond sys cfg filemgr cgiexe peer_addr page) ≡ true
  respond_started peer_addr none h = ground arith
  respond_started peer_addr (some r) h = refl

  file_response-some :
      (cs sys_path : Bytes) (only_head : Bool) (fd : ℕ)
      → is_some (file_response (b'/' ∷ cs) sys_path only_head fd) ≡ true
  unfolding file_response
  file_response-some cs sys_path true fd = refl
  file_response-some cs sys_path false fd = ground arith

  file-some :
      (cs sys_path : Bytes) (only_head : Bool)
      → is_some (process_file_req sys (b'/' ∷ cs) sys_path only_head) ≡ true
  unfolding process_file_req
  file-some cs sys_path only_head = go (sys.open_file sys_path) refl
    where
      go :
          (r : ℕ ⊎ Errno)
          → sys.open_file sys_path ≡ r
          → is_some (process_file_req sys (b'/' ∷ cs) sys_path only_head) ≡ true
      go (inl fd) e = rw (process_file_req, e) (file_response-some cs sys_path only_head fd)
      go (inr k) e =
          rw (process_file_req, e)
            (IsPage-some _ _ (
              print_error_page-IsPage sys.strerror sys.hostname (some k) (b'/' ∷ cs) only_head
                false))

  follow_started :
      (rhdr : RequestHeader) (peer_addr : Option Bytes) (cs : Bytes) (r : Option Route)
      → is_usable_route r ≡ true
      → is_started (follow_route sys cfg filemgr cgiexe rhdr peer_addr (b'/' ∷ cs) r) ≡ true
  unfolding follow
  follow_started rhdr peer_addr cs none h = ground arith
  follow_started rhdr peer_addr cs (some add_slash) h =
      respond_started peer_addr _
        (IsPage-some _ _ (print_moved_add_slash-IsPage sys.hostname (b'/' ∷ cs) (is_head_req rhdr)))
  follow_started rhdr peer_addr cs (some (list_folder p)) h = refl
  follow_started rhdr peer_addr cs (some (run_cgi p u s)) h = refl
  follow_started rhdr peer_addr cs (some (serve_file none)) h = ground arith
  follow_started rhdr peer_addr cs (some (serve_file (some p))) h =
      respond_started peer_addr _ (file-some cs p (is_head_req rhdr))
  follow_started rhdr peer_addr cs (some (show_error e)) h = respond_started peer_addr _ (
      IsPage-some _ _ (
        print_error_page-IsPage sys.strerror sys.hostname (some e) (b'/' ∷ cs) (is_head_req rhdr)
          false))

  -- For every request whose path starts with a slash the handler is made, and for each of them either
  -- it has a response, or the file manager or the program is to make it, and only one of them.
  pub new_started :
      (rhdr : RequestHeader) (peer_addr : Option Bytes) (cs : Bytes)
      → get_path rhdr ≡ some (b'/' ∷ cs)
      → is_started (RequestHandler.new sys cfg filemgr cgiexe rhdr peer_addr) ≡ true
  unfolding RequestHandler.new do_process_request
  new_started rhdr peer_addr cs p =
      let unauthorized = respond_started peer_addr _ (
        IsPage-some _ _ (
          print_unauthorized-IsPage sys.hostname sys.auth_header (b'/' ∷ cs) (is_head_req rhdr))) in
      let forbidden = respond_started peer_addr _ (
        IsPage-some _ _ (
          print_mesg_page-IsPage sys.hostname (cmn_status http_403_forbidden) none (b'/' ∷ cs)
            (is_head_req rhdr) false)) in
      let followed =
        follow_started rhdr peer_addr cs (route sys.fs sys.qsort sys.strcoll cfg (b'/' ∷ cs))
          (route_usable sys.fs sys.qsort sys.strcoll cfg b'/' cs) in
      rw p (ground (arith, unauthorized, forbidden, followed))

  show_folder-some :
      (rhdr : RequestHeader) (query_file : Bytes) (m : M)
      → is_some (show_folder sys cfg filemgr cgiexe rhdr query_file m) ≡ true
  unfolding show_folder
  show_folder-some rhdr query_file m =
      by_allowed (is_request_allowed cfg rhdr pa_list_folder) (filemgr.print_folder_contents m rhdr)
    where
      by_allowed :
          (b : Bool) (r : RespBuf ⊎ Errno)
          → is_some (
              if b
              then elim r as (λ _. Option RespBuf) [
                | inl resp ↦ some resp
                | inr e ↦
                    print_error_page sys.strerror sys.hostname
                      (some e)
                      query_file
                      (is_head_req rhdr)
                      false
              ]
              else print_error_page sys.strerror sys.hostname
                  (some enoent)
                  query_file
                  (is_head_req rhdr)
                  (is_worth_putting_log_on_button cfg rhdr))
            ≡ true
      by_allowed true (inl resp) = refl
      by_allowed true (inr e) = IsPage-some _ _ (
          print_error_page-IsPage sys.strerror sys.hostname (some e) query_file (is_head_req rhdr)
            false)
      by_allowed false r = IsPage-some _ _ (
          print_error_page-IsPage sys.strerror sys.hostname (some enoent) query_file
            (is_head_req rhdr) (is_worth_putting_log_on_button cfg rhdr))

  with_resp_answered :
      (page : Option RespBuf) (k : RespBuf → RequestHandler M C)
      → is_some page ≡ true
      → ((r : RespBuf) → is_some (k r).response ≡ true)
      → is_answered (with_resp page k) ≡ true
  with_resp_answered none k h a = ground arith
  with_resp_answered (some r) k h a = let b = a r in ground arith

  -- The program does not end in the file manager: the form of a POST request is processed.
  abbrev pub is_processed : M → RequestHeader → Bool
  is_processed m rhdr = not (is_method rhdr (codes "POST")) || is_some (filemgr.process_post m rhdr)

  -- There is a response already, or a program is to make it, or it is not a file manager that is to do
  -- so, or the file manager survives the form.
  abbrev pub is_answerable : RequestHandler M C → RequestHeader → Bool
  is_answerable hdlr rhdr =
      is_some hdlr.cgiexe
      || (is_some hdlr.response
          || (elim hdlr.filemgr as (λ _. Bool) [ none ↦ true | some m ↦ is_processed m rhdr ]))

  is_shown : Option (M × Option RespBuf) → Bool
  is_shown none = false
  is_shown (some (n, page)) = is_some page

  folder_req-shown :
      (rhdr : RequestHeader) (query_file : Bytes) (m : M)
      → is_shown (process_folder_req sys cfg filemgr cgiexe rhdr query_file m) ≡ is_processed m rhdr
  unfolding process_folder_req is_shown
  folder_req-shown rhdr query_file m = elim (Bool-cases (is_method rhdr (codes "POST"))) [
    | inl e ↦ rw (e, process_folder_req) (posted (filemgr.process_post m rhdr))
    | inr e ↦ rw (e, process_folder_req) (show_folder-some rhdr query_file m)
  ]
    where
      posted :
          (o : Option (M × Bool))
          → is_shown (elim o [
            | none ↦ none
            | some (n, needs_auth) ↦ some (
              n,
              if needs_auth
                  then print_unauthorized sys.hostname sys.auth_header query_file (is_head_req rhdr)
                  else show_folder sys cfg filemgr cgiexe rhdr query_file n,
            )
          ])
            ≡ is_some o
      posted none = refl
      posted (some (n, true)) =
          IsPage-some _ _
            (print_unauthorized-IsPage sys.hostname sys.auth_header query_file (is_head_req rhdr))
      posted (some (n, false)) = show_folder-some rhdr query_file n

  late_response_lem :
      (hdlr : RequestHandler M C) (rhdr : RequestHeader) (query_file : Bytes) (m : M)
      → hdlr.filemgr ≡ some m
      → is_answered (late_response sys cfg filemgr cgiexe hdlr rhdr query_file)
        ≡ is_processed m rhdr
  unfolding late_response is_shown
  late_response_lem hdlr rhdr query_file m l =
      rw (late_response, l)
        (go (process_folder_req sys cfg filemgr cgiexe rhdr query_file m)
          (folder_req-shown rhdr query_file m))
    where
      go :
          (o : Option (M × Option RespBuf))
          → is_shown o ≡ is_processed m rhdr
          → is_answered (elim o [
            | none ↦ none
            | some (n, page) ↦
                with_resp page
                  (λ resp. record hdlr { filemgr = some n; response = some (finish sys resp) })
          ])
            ≡ is_processed m rhdr
      go none h = h
      go (some (n, none)) h = h
      go (some (n, some resp)) h = h

  -- When a request with a path has been read, the program has a response or has left it to a CGI program, but for
  -- one case: there is neither yet, the request is a POST for a file manager, and the form ends the
  -- program there. Then there is none.
  pub request_read_completed_answered :
      (hdlr : RequestHandler M C) (rhdr : RequestHeader) (query_file : Bytes)
      → get_path rhdr ≡ some query_file
      → is_answered (request_read_completed sys cfg filemgr cgiexe hdlr rhdr)
        ≡ is_answerable hdlr rhdr
  unfolding request_read_completed late_response
  request_read_completed_answered hdlr rhdr query_file p =
      go hdlr.cgiexe hdlr.response hdlr.filemgr refl refl refl
    where
      answerable-processed :
          (m : M)
          → hdlr.filemgr ≡ some m
          → (elim hdlr.filemgr as (λ _. Bool) [ none ↦ true | some n ↦ is_processed n rhdr ])
            ≡ is_processed m rhdr
      answerable-processed m l = rw l refl

      go :
          (c : Option C) (r : Option ResponseSender) (m : Option M)
          → hdlr.cgiexe ≡ c
          → hdlr.response ≡ r
          → hdlr.filemgr ≡ m
          → is_answered (request_read_completed sys cfg filemgr cgiexe hdlr rhdr)
            ≡ is_answerable hdlr rhdr
      go (some c) r m e k l = rw (request_read_completed, e) (ground arith)
      go none (some r) m e k l = rw (request_read_completed, e, k) (ground (arith, k))
      go none none (some m) e k l =
          rw (request_read_completed, e, k, p)
            (late_response_lem hdlr rhdr query_file m l ∙ sym (answerable-processed m l))
      go none none none e k l =
          rw (request_read_completed, e, k, p, late_response, l)
            (with_resp_answered _ _
              (IsPage-some _ _ (
                print_mesg_page-IsPage sys.hostname (cmn_status http_500)
                  (some (codes "reqhandler: unspecified handler")) query_file (is_head_req rhdr)
                  false))
              (λ resp. refl))
