-- ===== src/RequestHeader.antt =====
-- src/requestheader.c: the request line and the header lines of a request.
-- The test of the "Authorization" header, `auth_isClientAuthorized` of src/auth.c, is an argument.
pub mod Url
pub mod Laws
pub mod RoundTrip
use filemanager_httpd.Common.{
  ℕ, zero, suc, ◌+◌, ◌-◌, ◌*◌, ◌/◌, ◌%◌, ◌^◌, ◌≤◌, ◌<◌, min, ◌≡◌, refl, sym, ap, ◌∙◌, ◌≢◌, ◌↔◌, ◌⊎◌,
  inl, inr, Bool, true, false, not, ◌&&◌, ◌||◌, Option, none, some, List, [], ◌∷◌, ◌++◌, map,
  append-nil, append_assoc, arith, ltb, leb, ◌==◌, if◌then◌else◌, ltb→lt, lt→ltb, le→ltb, leb→le,
  ==_iff, Bool-cases, Option-cases, length, get_elem?, get_or, take, drop, replicate, is_empty, All,
  length-append, take-append-drop, length-drop, All-append,
}
use filemanager_httpd.Common.Strings.{
  Bytes, codes, take_while, drop_while, trim_end, c_str, split_chr, contains_chr, equal, to_lower,
  equal_ignore_case, starts_with, starts_with_ignore_case,
}
use filemanager_httpd.HeaderLines
use filemanager_httpd.HeaderLines.{HeaderLine, split_line, LineStore, header_val, is_blank}
use filemanager_httpd.RequestHeader.Url.{decode_path}

pub data LoginState : Type 0 where
  logged_out logged_in login_fail : LoginState

-- `request` is the request line, and the method once that line is complete. `headers` is `none`
-- while `headerCount` is -1; `current` is the incomplete header line behind the complete ones.
pub record RequestHeader : Type 0 where
  pub request : Bytes
  pub path : Option Bytes
  pub query : Option Bytes
  pub version : Bytes
  pub headers : Option (List HeaderLine)
  pub current : Bytes
  pub login_state : LoginState

unfoldable pub new : RequestHeader
new = record {
  request = [];
  path = none;
  query = none;
  version = [];
  headers = none;
  current = [];
  login_state = logged_out;
}

unfoldable pub get_method : RequestHeader → Bytes
get_method req = req.request

unfoldable pub get_path : RequestHeader → Option Bytes
get_path req = req.path

abbrev pub complete_headers : RequestHeader → List HeaderLine
complete_headers req = elim req.headers [ none ↦ [] | some hs ↦ hs ]

-- `reqhdr_getHeaderAt`; `none` is the result false.
unfoldable pub get_header_at : RequestHeader → ℕ → Option HeaderLine
unfolding drop_while
get_header_at req idx = elim (get_elem? (complete_headers req) idx) [
  | none ↦ none
  | some l ↦ some (record l { value = drop_while is_blank l.value })
]

-- `reqhdr_getHeaderVal`; `none` is NULL.
unfoldable pub get_header_val : RequestHeader → Bytes → Option Bytes
unfolding header_val
get_header_val req header_name = header_val (complete_headers req) header_name

-- The loop of `reqhdr_isChunkedTransferEncoding`, from where `val` points; one round for each comma.
unfoldable pub has_chunked : ℕ → Bytes → Bool
unfolding starts_with_ignore_case drop_while split_chr
has_chunked zero val = false
has_chunked (suc fuel) val =
    let item = drop_while (λ c. c == b',' || is_blank c) val in
    let more : Bool = elim (split_chr b',' item) [
      | none ↦ false
      | some (before, after) ↦ has_chunked fuel (b',' ∷ after)
    ] in
    if starts_with_ignore_case item (codes "chunked") then true else more

unfoldable pub is_chunked_transfer_encoding : RequestHeader → Bool
unfolding get_header_val has_chunked
is_chunked_transfer_encoding req = elim (get_header_val req (codes "Transfer-Encoding")) [
  | none ↦ false
  | some val ↦ has_chunked (suc (length val)) val
]

-- Behind the query mark up to a blank, and whether a blank was found, with what stands behind it.
unfoldable pub split_query : Bytes → Bytes × Option Bytes
unfolding split_chr
split_query src = elim (split_chr b' ' src) [
  | none ↦ (src, none)
  | some (query, after) ↦ (query, some after)
]

-- `if( csrc == ' ' && !strncmp(src+1, "HTTP/", 5) ) req->version = src + 6;`
unfoldable pub read_version : Option Bytes → RequestHeader → RequestHeader
unfolding starts_with
read_version none req = req
read_version (some after) req =
    if starts_with after (codes "HTTP/") then record req { version = drop 5 after } else req

-- From the byte at which the path ended.
unfoldable pub decode_rest : Bytes → RequestHeader → RequestHeader
unfolding split_query read_version
decode_rest [] req = req
decode_rest (c ∷ cs) req =
    if c == b'?'
    then (let q = split_query cs in read_version q.1 (record req { query = some q.0 }))
    else read_version (some cs) req

-- `decodeRequestStartLine`
unfoldable pub decode_request_start_line : RequestHeader → RequestHeader
unfolding split_chr c_str decode_path decode_rest
decode_request_start_line req = elim (split_chr b' ' (c_str req.request)) [
  | none ↦ record req { path = some (codes "/"); request = c_str req.request }
  | some (method, src) ↦
      let d = decode_path src in
      decode_rest d.1 (record req { request = method; path = some (c_str d.0) })
]

-- The request line; an empty one is skipped.
unfoldable pub end_request : Bytes → RequestHeader → RequestHeader × Bool
unfolding c_str decode_request_start_line
end_request line req = if is_empty (c_str line) then (record req { request = line }, false) else (
  record (decode_request_start_line (record req { request = line })) {
    headers = some [];
    current = [];
  },
  false,
)

module _ (is_client_authorized : Bytes → Bytes → Bool) where
  -- `checkAuthorization`, on the line that has just been completed.
  unfoldable pub check_authorization : HeaderLine → RequestHeader → RequestHeader
  unfolding equal_ignore_case
  check_authorization l req = elim req.login_state [
    | logged_out ↦
        if equal_ignore_case l.name (codes "Authorization")
        then record req {
          login_state = if is_client_authorized l.value req.request then logged_in else login_fail;
        }
        else req
    | _ ↦ req
  ]

  -- A complete header line behind the complete ones `hs`.
  unfoldable pub end_header : Bytes → List HeaderLine → RequestHeader → RequestHeader × Bool
  unfolding c_str split_line check_authorization
  end_header line hs req =
      if is_empty (c_str line)
      then (record req { current = line }, true)
      else elim (split_line line) [
        | some l ↦ (
          record (check_authorization l req) { headers = some (hs ++ l ∷ []); current = [] },
          false,
        )
        | none ↦ (record req { current = [] }, false)
      ]

  unfoldable pub line_store : LineStore RequestHeader
  line_store = record {
    current = λ req. elim req.headers [ none ↦ req.request | some hs ↦ req.current ];
    set_current = λ bytes req. elim req.headers [
      | none ↦ record req { request = bytes }
      | some hs ↦ record req { current = bytes }
    ];
    end_line = λ line req. elim req.headers [
      | none ↦ end_request line req
      | some hs ↦ end_header line hs req
    ];
  }

  -- `reqhdr_appendData`; `none` is the result -1.
  unfoldable pub append_data : RequestHeader → Bytes → RequestHeader × Option ℕ
  unfolding line_store end_header end_request HeaderLines.append_data
  append_data req bytes = HeaderLines.append_data line_store req bytes
