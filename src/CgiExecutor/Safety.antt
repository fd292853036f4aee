-- ===== src/CgiExecutor/Safety.antt =====
-- The environment of a CGI program of src/cgiexecutor.c: the names of its variables.
use filemanager_httpd.Common.{
  ◌≡◌, refl, ap, ◌∙◌, ◌⊎◌, inl, inr, Bool, true, false, ◌||◌, Option, none, some, List, [], ◌∷◌,
  ◌++◌, map, if◌then◌else◌, Bool-cases, All, All-append,
}
use filemanager_httpd.Common.Strings.{Bytes, codes, drop_while, equal_ignore_case, starts_with}
use filemanager_httpd.HeaderLines.{HeaderLine, is_blank}
use filemanager_httpd.Config.{Config}
use filemanager_httpd.ContentType.{split_last_chr}
use filemanager_httpd.RequestHeader.{complete_headers, RequestHeader, is_chunked_transfer_encoding}
use filemanager_httpd.CgiExecutor.{
  Input, fatal_error_resp, handle_no_content_length, append_env, append_present, omit_headers,
  is_among, put_header, put_line, put_lines, Execution, request_env, server_env, content_length,
  run_cgi, execute, env_char,
}

abbrev pub variable_names : List Bytes
variable_names =
    codes "GATEWAY_INTERFACE"
    ∷ codes "PATH_INFO"
    ∷ codes "PATH_TRANSLATED"
    ∷ codes "QUERY_STRING"
    ∷ codes "REMOTE_ADDR"
    ∷ codes "REMOTE_HOST"
    ∷ codes "REQUEST_METHOD"
    ∷ codes "SCRIPT_NAME"
    ∷ codes "CONTENT_TYPE"
    ∷ codes "SERVER_NAME"
    ∷ codes "SERVER_PORT"
    ∷ codes "SERVER_PROTOCOL"
    ∷ codes "SERVER_SOFTWARE"
    ∷ codes "CONTENT_LENGTH"
    ∷ []

unfoldable has_name : Bytes → List Bytes → Bool
unfolding starts_with
has_name entry [] = starts_with entry (codes "HTTP_")
has_name entry (n ∷ ns) = starts_with entry (n ++ (b'=' ∷ [])) || has_name entry ns

-- One of the names, or one that starts with `HTTP_`, stands before the value.
unfoldable pub is_variable : Bytes → Bool
unfolding has_name
is_variable entry = has_name entry variable_names

has_name-http :
    (entry : Bytes) (ns : List Bytes)
    → starts_with entry (codes "HTTP_") ≡ true
    → has_name entry ns ≡ true
unfolding has_name
has_name-http entry [] h = h
has_name-http entry (n ∷ ns) h =
    let rest = has_name-http entry ns h in
    elim (Bool-cases (starts_with entry (n ++ (b'=' ∷ [])))) [
      | inl e ↦ ap (λ b. b || has_name entry ns) e
      | inr e ↦ ap (λ b. b || has_name entry ns) e ∙ rest
    ]

is_variable-http :
    (name value : Bytes) → is_variable ((codes "HTTP_" ++ name) ++ (b'=' ∷ value)) ≡ true
unfolding is_variable starts_with
is_variable-http name value =
    has_name-http ((codes "HTTP_" ++ name) ++ (b'=' ∷ value)) variable_names refl

-- A variable with this name is one of the list.
abbrev IsName : Bytes → Type 0
IsName name = (value : Bytes) → is_variable (name ++ (b'=' ∷ value)) ≡ true

append_env-All :
    (envp : List Bytes) (name value : Bytes)
    → IsName name
    → All is_variable envp
    → All is_variable (append_env envp name value)
unfolding append_env
append_env-All envp name value n h =
    All-append is_variable envp ((name ++ (b'=' ∷ value)) ∷ []) h (n value, tt)

append_present-All :
    (envp : List Bytes) (name : Bytes) (value : Option Bytes)
    → IsName name
    → All is_variable envp
    → All is_variable (append_present envp name value)
unfolding append_present
append_present-All envp name none n h = h
append_present-All envp name (some value) n h = append_env-All envp name value n h

put_header-All :
    (envp : List Bytes) (name value : Bytes)
    → All is_variable envp
    → All is_variable (put_header envp name value)
unfolding put_header append_env
put_header-All envp name value h = elim (Bool-cases (is_among name omit_headers)) [
  | inl e ↦ rw e h
  | inr e ↦ rw e (
      append_env-All envp (codes "HTTP_" ++ map env_char name) value
        (is_variable-http (map env_char name)) h)
]

if-All :
    (b : Bool) (s t : List Bytes × Option Bytes)
    → All is_variable s.0
    → All is_variable t.0
    → All is_variable (if b then s else t).0
if-All true s t h k = h
if-All false s t h k = k

put_line-All :
    (l : HeaderLine) (s : List Bytes × Option Bytes)
    → All is_variable s.0
    → All is_variable (put_line l s).0
unfolding put_line is_variable has_name starts_with
put_line-All l s h =
    let value = drop_while is_blank l.value in
    if-All (equal_ignore_case l.name (codes "Content-Type")) _ _
      (append_env-All s.0 (codes "CONTENT_TYPE") value (λ v. refl) h)
      (if-All (equal_ignore_case l.name (codes "Content-Length")) (s.0, some value) _ h
        (put_header-All s.0 l.name value h))

put_lines-All :
    (ls : List HeaderLine) (s : List Bytes × Option Bytes)
    → All is_variable s.0
    → All is_variable (put_lines ls s).0
unfolding put_lines
put_lines-All [] s h = h
put_lines-All (l ∷ ls) s h = put_lines-All ls (put_line l s) (put_line-All l s h)

-- An execution of this program with such variables only; or the text for a call of `execve` that
-- failed, or the text with which reading the input of a chunked request ended.
abbrev pub RunsSafely :
    (Execution → Bool) → Input → RequestHeader → Bytes → Execution ⊎ Bytes → Type 0
RunsSafely execve input hdr exe_path (inl e) =
    (e.exe_path ≡ exe_path) × (execve e ≡ true) × All is_variable e.envp
RunsSafely execve input hdr exe_path (inr text) =
    ((e : Execution) × (execve e ≡ false)
      × (text ≡ fatal_error_resp (codes "unable to execute CGI") none))
    ⊎ ((is_chunked_transfer_encoding hdr ≡ true) × (handle_no_content_length input ≡ inr text))

-- A length, or the text that reading the input of a chunked request gave.
abbrev IsLength : Bool → Bytes ⊎ Bytes → Option Bytes ⊎ Bytes → Type 0
IsLength chunked r (inl len) = Unit
IsLength chunked r (inr text) = (chunked ≡ true) × (r ≡ inr text)

content_length-IsLength :
    (input : Input) (hdr : RequestHeader) (len : Option Bytes)
    → IsLength
        (is_chunked_transfer_encoding hdr)
        (handle_no_content_length input)
        (content_length input hdr len)
unfolding content_length
content_length-IsLength input hdr (some len) = tt
content_length-IsLength input hdr none =
    go (is_chunked_transfer_encoding hdr) (handle_no_content_length input)
  where
    go :
        (b : Bool) (r : Bytes ⊎ Bytes)
        → IsLength b r
            (if b then elim r [ inl len ↦ inl (some len) | inr text ↦ inr text ] else inl none)
    go true (inl len) = tt
    go true (inr text) = (refl, refl)
    go false r = tt

execute-RunsSafely :
    (execve : Execution → Bool) (input : Input) (hdr : RequestHeader) (exe_path : Bytes)
    (envp : List Bytes)
    → All is_variable envp
    → (r : Option Bytes ⊎ Bytes)
    → IsLength (is_chunked_transfer_encoding hdr) (handle_no_content_length input) r
    → RunsSafely execve input hdr exe_path (execute execve exe_path envp r)
unfolding execute is_variable has_name starts_with
execute-RunsSafely execve input hdr exe_path envp h (inl len) k =
    go
      (record {
        exe_path = exe_path;
        arg0 = elim (split_last_chr b'/' exe_path) [ none ↦ exe_path | some (_, name) ↦ name ];
        envp = append_present envp (codes "CONTENT_LENGTH") len;
      })
      refl (append_present-All envp (codes "CONTENT_LENGTH") len (λ v. refl) h)
  where
    go :
        (e : Execution)
        → e.exe_path ≡ exe_path
        → All is_variable e.envp
        → RunsSafely execve input hdr exe_path (
            if execve e then inl e else inr (fatal_error_resp (codes "unable to execute CGI") none))
    go e p a = elim (Bool-cases (execve e)) [
      | inl q ↦ rw q (p, q, a)
      | inr q ↦ rw q (inl (e, q, refl))
    ]
execute-RunsSafely execve input hdr exe_path envp h (inr text) k = inr k

module _ (cfg : Config) (hostname : Option Bytes) (execve : Execution → Bool) where
  request_env-All :
      (hdr : RequestHeader) (peer_addr script_name path_info : Option Bytes)
      → All is_variable (request_env cfg hostname execve hdr peer_addr script_name path_info)
  unfolding request_env is_variable has_name starts_with
  request_env-All hdr peer_addr script_name path_info =
      append_present-All _ (codes "SCRIPT_NAME") script_name (λ v. refl)
        (append_env-All _ (codes "REQUEST_METHOD") _ (λ v. refl)
          (append_present-All _ (codes "REMOTE_HOST") peer_addr (λ v. refl)
            (append_present-All _ (codes "REMOTE_ADDR") peer_addr (λ v. refl)
              (append_present-All _ (codes "QUERY_STRING") hdr.query (λ v. refl)
                (append_present-All _ (codes "PATH_TRANSLATED") _ (λ v. refl)
                  (append_present-All _ (codes "PATH_INFO") path_info (λ v. refl)
                    (append_env-All [] (codes "GATEWAY_INTERFACE") (codes "1.1") (λ v. refl)
                      tt)))))))

  server_env-All :
      (envp : List Bytes)
      → All is_variable envp
      → All is_variable (server_env cfg hostname execve envp)
  unfolding server_env is_variable has_name starts_with
  server_env-All envp h =
      append_env-All _ (codes "SERVER_SOFTWARE") _ (λ v. refl)
        (append_env-All _ (codes "SERVER_PROTOCOL") _ (λ v. refl)
          (append_env-All _ (codes "SERVER_PORT") _ (λ v. refl)
            (append_present-All envp (codes "SERVER_NAME") hostname (λ v. refl) h)))

  -- Whatever the request is, the program that is run is the one that was found, and every variable of
  -- its environment has one of the 14 names of `variable_names` or a name that starts with "HTTP_". If
  -- no program is run, what is printed is the text for an `execve` that failed, or the request is chunked
  -- and what is printed is the text with which reading its input ended.
  pub run_cgi-RunsSafely :
      (input : Input) (hdr : RequestHeader) (exe_path : Bytes)
      (peer_addr script_name path_info : Option Bytes)
      → RunsSafely execve input hdr exe_path
          (run_cgi cfg hostname execve input hdr exe_path peer_addr script_name path_info)
  unfolding run_cgi
  run_cgi-RunsSafely input hdr exe_path peer_addr script_name path_info =
      let s =
        put_lines (complete_headers hdr)
          (request_env cfg hostname execve hdr peer_addr script_name path_info, none) in
      let h = server_env-All s.0 (
        put_lines-All (complete_headers hdr)
          (request_env cfg hostname execve hdr peer_addr script_name path_info, none)
          (request_env-All hdr peer_addr script_name path_info)) in
      execute-RunsSafely execve input hdr exe_path (server_env cfg hostname execve s.0) h
        (content_length input hdr s.1) (content_length-IsLength input hdr s.1)
