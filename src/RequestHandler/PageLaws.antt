-- ===== src/RequestHandler/PageLaws.antt =====
-- The pages of src/reqhandler.c are always made, with the status they are made for.
use filemanager_httpd.Common.{
  ◌≡◌, refl, ap, ◌∙◌, Bool, true, false, Option, none, some, ◌++◌, append_assoc,
}
use filemanager_httpd.Common.Strings.{Bytes, codes}
use filemanager_httpd.FileSystem.{Errno}
use filemanager_httpd.RespBuf.{RespBuf, cmn_status, append_header}
use filemanager_httpd.RequestHandler.Pages.{
  print_moved_add_slash, print_mesg_page, print_error_page, print_unauthorized, error_status,
  error_mesg,
}

-- The response's header starts with the status, and there is no file.
pub record HasStatus (status : Bytes) (resp : RespBuf) : Type 0 where
  pub fields : Bytes
  pub starts : resp.header ≡ (codes "HTTP/1.1 " ++ (status ++ codes "\r\n")) ++ fields
  pub no_file : resp.file_desc ≡ none

-- The page is made.
abbrev pub IsPage : Bytes → Option RespBuf → Type 0
IsPage status page = (resp : RespBuf) × (page ≡ some resp) × HasStatus status resp

pub with_header-HasStatus :
    (status name value : Bytes) (resp : RespBuf)
    → HasStatus status resp
    → HasStatus status (append_header name value resp)
unfolding append_header
with_header-HasStatus status name value resp h =
    let field = name ++ (codes ": " ++ (value ++ codes "\r\n")) in
    record {
      fields = h.fields ++ field;
      starts =
          ap (λ t. t ++ field) h.starts
          ∙ append_assoc (codes "HTTP/1.1 " ++ (status ++ codes "\r\n")) h.fields field;
      no_file = h.no_file;
    }

abbrev html_field : Bytes
html_field = codes "Content-Type: text/html; charset=utf-8\r\n"

pub print_mesg_page-IsPage :
    (hostname status : Bytes) (mesg : Option Bytes) (path : Bytes) (only_head login : Bool)
    → IsPage status (print_mesg_page hostname status mesg path only_head login)
unfolding print_mesg_page
print_mesg_page-IsPage hostname status mesg path true login =
    (_, refl, record { fields = html_field; starts = refl; no_file = refl })
print_mesg_page-IsPage hostname status none path false true =
    (_, refl, record { fields = html_field; starts = refl; no_file = refl })
print_mesg_page-IsPage hostname status none path false false =
    (_, refl, record { fields = html_field; starts = refl; no_file = refl })
print_mesg_page-IsPage hostname status (some mesg) path false true =
    (_, refl, record { fields = html_field; starts = refl; no_file = refl })
print_mesg_page-IsPage hostname status (some mesg) path false false =
    (_, refl, record { fields = html_field; starts = refl; no_file = refl })

pub print_moved_add_slash-IsPage :
    (hostname url_path : Bytes) (only_head : Bool)
    → IsPage (codes "301 Moved Permanently") (print_moved_add_slash hostname url_path only_head)
unfolding print_moved_add_slash
print_moved_add_slash-IsPage hostname url_path true = (
  _,
  refl,
  record {
    fields = codes "Location: " ++ (((url_path ++ codes "/") ++ codes "\r\n") ++ html_field);
    starts = refl;
    no_file = refl;
  },
)
print_moved_add_slash-IsPage hostname url_path false = (
  _,
  refl,
  record {
    fields = codes "Location: " ++ (((url_path ++ codes "/") ++ codes "\r\n") ++ html_field);
    starts = refl;
    no_file = refl;
  },
)

pub print_error_page-IsPage :
    (strerror : Errno → Bytes) (hostname : Bytes) (e : Option Errno) (path : Bytes)
    (only_head login : Bool)
    → IsPage
        (cmn_status (error_status e))
        (print_error_page strerror hostname e path only_head login)
unfolding print_error_page
print_error_page-IsPage strerror hostname e path only_head login =
    print_mesg_page-IsPage hostname (cmn_status (error_status e)) (error_mesg strerror e) path
      only_head login

pub print_unauthorized-IsPage :
    (hostname auth_header url_path : Bytes) (only_head : Bool)
    → IsPage (codes "401 Unauthorized") (print_unauthorized hostname auth_header url_path only_head)
unfolding print_unauthorized
print_unauthorized-IsPage hostname auth_header url_path only_head =
    let p =
      print_mesg_page-IsPage hostname (codes "401 Unauthorized") none url_path only_head false in
    rw p.1 (
      _,
      refl,
      with_header-HasStatus (codes "401 Unauthorized") (codes "Content-Type")
          (codes "text/html; charset=utf-8") _
          (with_header-HasStatus (codes "401 Unauthorized") (codes "WWW-Authenticate") auth_header
            p.0 p.2),
    )
