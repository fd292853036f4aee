-- ===== src/CgiExecutor/Credentials.antt =====
-- The client's credentials in the environment of a CGI program, src/cgiexecutor.c.
use filemanager_httpd.Common.{
  ◌≡◌, refl, ap, ◌∙◌, inl, inr, Bool, true, Option, none, some, List, [], ◌∷◌, ◌++◌, arith, ◌==◌,
  ==_iff, Bool-cases,
}
use filemanager_httpd.Common.Strings.{Bytes, codes, to_lower, equal_ignore_case}
use filemanager_httpd.HeaderLines.{HeaderLine, header_val}
use filemanager_httpd.Config.{Config}
use filemanager_httpd.RequestHeader.{RequestHeader, get_header_val, is_chunked_transfer_encoding}
use filemanager_httpd.CgiExecutor.{
  Input, Execution, is_among, put_header, put_line, put_lines, request_env, server_env,
  content_length, run_cgi, execute,
}

-- If the names agree in any case, so do the tests with a third one.
equal_ignore_case-agrees :
    (a b c : Bytes) → equal_ignore_case a b ≡ true → equal_ignore_case a c ≡ equal_ignore_case b c
unfolding equal_ignore_case
equal_ignore_case-agrees [] [] c h = refl
equal_ignore_case-agrees [] (y ∷ ys) c h = absurd (ground arith)
equal_ignore_case-agrees (x ∷ xs) [] c h = absurd (ground arith)
equal_ignore_case-agrees (x ∷ xs) (y ∷ ys) [] h = refl
equal_ignore_case-agrees (x ∷ xs) (y ∷ ys) (z ∷ zs) h =
    elim (Bool-cases (to_lower x == to_lower y)) [
      | inl e ↦
          let rest = equal_ignore_case-agrees xs ys zs (rw e at h) in
          let heads = (==_iff (to_lower x) (to_lower y)).0 e in cc (heads, rest)
      | inr e ↦ absurd (ground arith)
    ]

-- The header line with the credentials.
abbrev pub IsAuthorization : HeaderLine → Type 0
IsAuthorization l = equal_ignore_case l.name (codes "Authorization") ≡ true

put_line-authorization :
    (l : HeaderLine) (s : List Bytes × Option Bytes) → IsAuthorization l → put_line l s ≡ s
unfolding put_line put_header is_among equal_ignore_case
put_line-authorization l s h =
    rw (equal_ignore_case-agrees l.name (codes "Authorization") (codes "Content-Type") h) (
      rw (equal_ignore_case-agrees l.name (codes "Authorization") (codes "Content-Length") h)
        (rw h refl))

put_lines-authorization :
    (l : HeaderLine) (before after : List HeaderLine) (s : List Bytes × Option Bytes)
    → IsAuthorization l
    → put_lines (before ++ (l ∷ after)) s ≡ put_lines (before ++ after) s
unfolding put_lines
put_lines-authorization l [] after s h = ap (put_lines after) (put_line-authorization l s h)
put_lines-authorization l (b ∷ bs) after s h = put_lines-authorization l bs after (put_line b s) h

header_val-authorization :
    (l : HeaderLine) (before after : List HeaderLine)
    → IsAuthorization l
    → header_val (before ++ (l ∷ after)) (codes "Transfer-Encoding")
      ≡ header_val (before ++ after) (codes "Transfer-Encoding")
unfolding header_val equal_ignore_case
header_val-authorization l [] after h =
    rw (equal_ignore_case-agrees l.name (codes "Authorization") (codes "Transfer-Encoding") h) refl
header_val-authorization l (b ∷ bs) after h = rw (header_val-authorization l bs after h) refl

abbrev pub with_lines : RequestHeader → List HeaderLine → RequestHeader
with_lines hdr ls = record hdr { headers = some ls }

is_chunked-authorization :
    (hdr : RequestHeader) (l : HeaderLine) (before after : List HeaderLine)
    → IsAuthorization l
    → is_chunked_transfer_encoding (with_lines hdr (before ++ (l ∷ after)))
      ≡ is_chunked_transfer_encoding (with_lines hdr (before ++ after))
unfolding is_chunked_transfer_encoding get_header_val
is_chunked-authorization hdr l before after h =
    rw (is_chunked_transfer_encoding, header_val-authorization l before after h) refl

content_length-authorization :
    (input : Input) (hdr : RequestHeader) (l : HeaderLine) (before after : List HeaderLine)
    (len : Option Bytes)
    → IsAuthorization l
    → content_length input (with_lines hdr (before ++ (l ∷ after))) len
      ≡ content_length input (with_lines hdr (before ++ after)) len
unfolding content_length
content_length-authorization input hdr l before after (some len) h = refl
content_length-authorization input hdr l before after none h =
    rw (is_chunked-authorization hdr l before after h) refl

module _ (cfg : Config) (hostname : Option Bytes) (execve : Execution → Bool) where
  -- The header line with the client's credentials is not passed on: with a line "Authorization", in any
  -- case and at any place, the execution, its variables included, or the printed text is the same as
  -- without that line.
  pub run_cgi-authorization :
      (input : Input) (hdr : RequestHeader) (l : HeaderLine) (before after : List HeaderLine)
      (exe_path : Bytes) (peer_addr script_name path_info : Option Bytes)
      → IsAuthorization l
      → run_cgi cfg hostname execve input
          (with_lines hdr (before ++ (l ∷ after)))
          exe_path
          peer_addr
          script_name
          path_info
        ≡ run_cgi cfg hostname execve input
            (with_lines hdr (before ++ after))
            exe_path
            peer_addr
            script_name
            path_info
  unfolding run_cgi request_env
  run_cgi-authorization input hdr l before after exe_path peer_addr script_name path_info h =
      let env : List Bytes × Option Bytes = (
        request_env cfg hostname execve (with_lines hdr []) peer_addr script_name path_info,
        none,
      ) in
      let with_line = with_lines hdr (before ++ (l ∷ after)) in
      let t = put_lines (before ++ after) env in
      ap
        (λ (s : List Bytes × Option Bytes).
          execute execve exe_path (server_env cfg hostname execve s.0)
            (content_length input with_line s.1))
        (put_lines-authorization l before after env h)
      ∙ ap (execute execve exe_path (server_env cfg hostname execve t.0))
          (content_length-authorization input hdr l before after t.1 h)
