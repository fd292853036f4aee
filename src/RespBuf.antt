-- ===== src/RespBuf.antt =====
-- src/respbuf.c: the response while it is put together. An operation on the body is `none` where the
-- body is NULL, as it is in the response to a HEAD request: the program fails there.
pub mod Escape
use filemanager_httpd.Common.{
  ℕ, zero, suc, ◌+◌, ◌-◌, ◌*◌, ◌/◌, ◌%◌, ◌^◌, ◌≤◌, ◌<◌, min, ◌≡◌, refl, sym, ap, ◌∙◌, ◌≢◌, ◌↔◌, ◌⊎◌,
  inl, inr, Bool, true, false, not, ◌&&◌, ◌||◌, Option, none, some, List, [], ◌∷◌, ◌++◌, map,
  append-nil, append_assoc, arith, ltb, leb, ◌==◌, if◌then◌else◌, ltb→lt, lt→ltb, le→ltb, leb→le,
  ==_iff, Bool-cases, Option-cases, length, get_elem?, get_or, take, drop, replicate, is_empty, All,
  length-append, take-append-drop, length-drop, All-append,
}
use filemanager_httpd.Common.Strings.{
  Bytes, codes, take_while, drop_while, trim_end, c_str, split_chr, contains_chr, equal, to_lower,
  equal_ignore_case, starts_with, starts_with_ignore_case,
}

pub data HttpStatus : Type 0 where
  http_200_ok http_403_forbidden http_404_not_found http_500 : HttpStatus

abbrev pub cmn_status : HttpStatus → Bytes
cmn_status http_200_ok = codes "200 OK"
cmn_status http_403_forbidden = codes "403 Forbidden"
cmn_status http_404_not_found = codes "404 Not Found"
cmn_status http_500 = codes "500 Internal Server Error"

-- `file_desc` is `none` for -1; the descriptors that were closed are listed for their order.
pub record RespBuf : Type 0 where
  pub header : Bytes
  pub body : Option Bytes
  pub file_desc : Option ℕ
  pub closed : List ℕ

unfoldable pub new : Bytes → Bool → RespBuf
new status only_head = record {
  header = codes "HTTP/1.1 " ++ (status ++ codes "\r\n");
  body = if only_head then none else some [];
  file_desc = none;
  closed = [];
}

unfoldable pub append_header : Bytes → Bytes → RespBuf → RespBuf
append_header name value resp = record resp {
  header = resp.header ++ (name ++ (codes ": " ++ (value ++ codes "\r\n")));
}

-- `resp_appendData` and `resp_appendStr`
unfoldable pub append_data : Bytes → RespBuf → Option RespBuf
append_data bytes resp = elim resp.body [
  | none ↦ none
  | some body ↦ some (record resp { body = some (body ++ bytes) })
]

-- What stands for a byte in HTML; `none` leaves the byte.
unfoldable pub replacement : ℕ → Option Bytes
replacement c =
    if c == b'"'
    then some (codes "&quot;")
    else if c == b'\''
    then some (codes "&apos;")
    else if c == b'&'
    then some (codes "&amp;")
    else if c == b'<'
    then some (codes "&lt;")
    else if c == b'>'
    then some (codes "&gt;")
    else none

-- The loop of `appendDataEscapeHtml`: the body so far, the bytes since the last one replaced, and
-- those that are left.
unfoldable pub escape_loop : Bytes → Bytes → Bytes → Bytes
escape_loop out run [] = out ++ run
escape_loop out run (c ∷ cs) = elim (replacement c) [
  | none ↦ escape_loop out (run ++ c ∷ []) cs
  | some repl ↦ escape_loop ((out ++ run) ++ repl) [] cs
]

unfoldable pub append_data_escape_html : Bytes → RespBuf → Option RespBuf
unfolding escape_loop replacement
append_data_escape_html bytes resp = elim resp.body [
  | none ↦ none
  | some body ↦ some (record resp { body = some (escape_loop body [] bytes) })
]

abbrev is_escaped_arg : ℕ → Bool
is_escaped_arg c = c == b'C' || (c == b'D' || c == b'S')

-- Takes the next argument.
abbrev pub with_arg : List Bytes → (Bytes → List Bytes → Option RespBuf) → Option RespBuf
with_arg [] k = none
with_arg (arg ∷ args) k = k arg args

-- An operation, and then another one on its result.
abbrev pub and_then : Option RespBuf → (RespBuf → Option RespBuf) → Option RespBuf
and_then none k = none
and_then (some resp) k = k resp

-- The loop of `resp_appendFmt` from where `fbeg` points. The arguments are the bytes of chunks and
-- texts, for %D also an array with its length; `none` if there are too few. The host's name is
-- empty where the system does not tell it.
unfoldable pub fmt_loop : ℕ → Bytes → Bytes → List Bytes → RespBuf → Option RespBuf
unfolding split_chr append_data append_data_escape_html
fmt_loop zero hostname fbeg args resp = some resp
fmt_loop (suc fuel) hostname fbeg args resp = elim (split_chr b'%' fbeg) [
  | none ↦ if is_empty fbeg then some resp else append_data fbeg resp
  | some (before, rest) ↦
      and_then (if is_empty before then some resp else append_data before resp) λ r. elim rest [
        | [] ↦ and_then (append_data (codes "%") r) λ s. fmt_loop fuel hostname [] args s
        | c ∷ cs ↦
            let plain =
              and_then (append_data (codes "%") r)
                λ s. fmt_loop fuel hostname (if c == b'%' then cs else c ∷ cs) args s in
            if is_escaped_arg c
            then with_arg args (λ arg more.
              and_then (append_data_escape_html arg r) λ s. fmt_loop fuel hostname cs more s)
            else if c == b'H'
            then and_then (append_data_escape_html hostname r)
                (λ s. fmt_loop fuel hostname cs args s)
            else if c == b'R'
            then with_arg args
                (λ arg more. and_then (append_data arg r) λ s. fmt_loop fuel hostname cs more s)
            else plain
      ]
]

unfoldable pub append_fmt : Bytes → Bytes → List Bytes → RespBuf → Option RespBuf
unfolding fmt_loop
append_fmt hostname fmt args resp = fmt_loop (suc (length fmt)) hostname fmt args resp

-- `resp_enqFile`
unfoldable pub enq_file : ℕ → RespBuf → RespBuf
enq_file file_desc resp = record resp {
  closed = elim resp.file_desc [ none ↦ resp.closed | some fd ↦ resp.closed ++ fd ∷ [] ];
  file_desc = some file_desc;
}
