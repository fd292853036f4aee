-- ===== src/RequestHandler/Pages.antt =====
-- src/reqhandler.c: the pages that the handler makes itself. `none` is a failure on a body that is
-- NULL. The host's name is empty where the system does not tell it.
use filemanager_httpd.Common.{Bool, false, Option, none, some, [], ◌∷◌, ◌++◌, if◌then◌else◌}
use filemanager_httpd.Common.Strings.{Bytes, codes}
use filemanager_httpd.FileSystem.{Errno, enoent, enotdir, eperm, eacces}
use filemanager_httpd.RespBuf
use filemanager_httpd.RespBuf.{
  RespBuf, HttpStatus, http_200_ok, http_403_forbidden, http_404_not_found, http_500, cmn_status,
  append_header, append_data, append_fmt, and_then,
}

abbrev html_type : Bytes
html_type = codes "text/html; charset=utf-8"

-- `filemgr_getLoginForm`
abbrev pub get_login_form : Bytes
get_login_form =
    codes
      "<form style='display: inline' method=\"POST\" enctype=\"multipart/form-data\">\n<input type=\"submit\" name=\"do_login\" value=\"Login\"></input>\n</form>\n"

-- `printMovedAddSlash`
unfoldable pub print_moved_add_slash : Bytes → Bytes → Bool → Option RespBuf
unfolding RespBuf.new append_header append_fmt
print_moved_add_slash hostname url_path only_head =
    let resp = append_header (codes "Content-Type") html_type (
      append_header (codes "Location") (url_path ++ codes "/")
        (RespBuf.new (codes "301 Moved Permanently") only_head)) in
    if only_head
    then some resp
    else append_fmt hostname
        (codes
          "<!DOCTYPE html><html><head><title>%S on %H</title></head><body>\n<h3>Moved to <a href=\"%S/\">%S/</a></h3>\n</body></html>\n")
        (url_path ∷ url_path ∷ url_path ∷ []) resp

-- The optional line of `printMesgPage`.
abbrev append_mesg : Bytes → Option Bytes → RespBuf → Option RespBuf
append_mesg hostname none resp = some resp
append_mesg hostname (some mesg) resp = append_fmt hostname (codes "<p>%S</p>") (mesg ∷ []) resp

-- `printMesgPage`
unfoldable pub print_mesg_page : Bytes → Bytes → Option Bytes → Bytes → Bool → Bool → Option RespBuf
unfolding RespBuf.new append_header append_fmt append_data
print_mesg_page hostname status mesg path only_head show_login_button =
    let resp = append_header (codes "Content-Type") html_type (RespBuf.new status only_head) in
    if only_head
    then some resp
    else and_then
        (append_fmt hostname
          (codes "<!DOCTYPE html><html><head><title>%S on %H</title></head><body>\n") (path ∷ [])
          resp)
        (λ r1.
          and_then
            (if show_login_button
              then append_fmt hostname (codes "<div style='text-align: right'>%R</div>\n")
                  (get_login_form ∷ []) r1
              else some r1)
            (λ r2.
              and_then
                (append_fmt hostname
                  (codes
                    "<div style=\"text-align: center; margin: 150px 0px\">\n<span style=\"font-size: x-large; border: 1px solid #FFF0B0; background-color: #FFFCF0; padding: 50px 100px\">\n%R</span></div>\n")
                  (status ∷ []) r2)
                (λ r3.
                  and_then (append_mesg hostname mesg r3)
                    (λ r4. append_data (codes "</body></html>\n") r4))))

-- The status of `printErrorPage`; `none` stands for the error 0.
abbrev pub error_status : Option Errno → HttpStatus
error_status none = http_200_ok
error_status (some enoent) = http_404_not_found
error_status (some enotdir) = http_404_not_found
error_status (some eperm) = http_403_forbidden
error_status (some eacces) = http_403_forbidden
error_status (some _) = http_500

abbrev pub error_mesg : (Errno → Bytes) → Option Errno → Option Bytes
error_mesg strerror none = none
error_mesg strerror (some enoent) = none
error_mesg strerror (some enotdir) = none
error_mesg strerror (some eperm) = none
error_mesg strerror (some eacces) = none
error_mesg strerror (some e) = some (strerror e)

-- `printErrorPage`
unfoldable pub print_error_page :
    (Errno → Bytes) → Bytes → Option Errno → Bytes → Bool → Bool → Option RespBuf
unfolding print_mesg_page
print_error_page strerror hostname sys_errno path only_head show_login_button =
    print_mesg_page hostname (cmn_status (error_status sys_errno)) (error_mesg strerror sys_errno)
      path only_head show_login_button

-- `printUnauthorized`, with the result of `auth_getAuthResponseHeader`
unfoldable pub print_unauthorized : Bytes → Bytes → Bytes → Bool → Option RespBuf
unfolding print_mesg_page append_header
print_unauthorized hostname auth_header url_path only_head =
    and_then (print_mesg_page hostname (codes "401 Unauthorized") none url_path only_head false)
      (λ resp. some (
        append_header (codes "Content-Type") html_type
          (append_header (codes "WWW-Authenticate") auth_header resp)))
