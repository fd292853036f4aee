-- ===== src/Tests/Text.antt =====
-- The theorems on text, src/datachunk.c, src/auth.c, src/respbuf.c and src/contenttype.c, at concrete
-- inputs.
use filemanager_httpd.Common.{
  ◌+◌, ◌%◌, ◌≡◌, refl, Bool, true, false, map, ◌&&◌, none, some, List, [], ◌∷◌, ◌++◌, if◌then◌else◌,
  length, replicate, All,
}
use filemanager_httpd.Common.Strings.{Bytes, codes, contains_chr}
use filemanager_httpd.Common.Strings.Laws.{is_not, first_is, last_is}
use filemanager_httpd.DataChunk.{is_ws, trim_ws, dir_name_of, extract_till_chr, extract_till_ws}
use filemanager_httpd.DataChunk.Laws.{
  extract_till_chr_split, trim_ws_lem, extract_till_ws_split, FirstWord, dir_name_of_lem,
}
use filemanager_httpd.DataChunk.Params.{params}
use filemanager_httpd.DataChunk.Params.Writing.{Written, written, pair, AreWritten}
use filemanager_httpd.DataChunk.Params.RoundTrip.{params-written}
use filemanager_httpd.RespBuf.{RespBuf, append_data_escape_html}
use filemanager_httpd.RespBuf.Escape.{is_inert, unescape, append_data_escape_html_lem}
use filemanager_httpd.ContentType.{content_type_of, get_content_type_by_file_ext}
use filemanager_httpd.ContentType.Laws.{get_content_type_by_file_ext_lem}
use filemanager_httpd.Auth.{is_client_authorized, get_digest_auth_credential}
use filemanager_httpd.Auth.Laws.{
  last_param, are_realms_right, is_right, is_client_authorized-written,
}
use filemanager_httpd.Tests.Bytes.{all-All}

abbrev page : RespBuf
page = record { header = []; body = some (codes "<p>"); file_desc = none; closed = [] }

append_data_escape_html_lem_example :
    (piece : Bytes) × (append_data_escape_html (codes "a<b&c") page
      ≡ some (record page { body = some (codes "<p>" ++ piece) }))
    × All is_inert piece
    × (unescape (length piece) piece ≡ codes "a<b&c")
append_data_escape_html_lem_example =
    append_data_escape_html_lem (codes "a<b&c") (codes "<p>") page refl

abbrev written_param : Bytes → Bytes → Bool → Bytes → Written
written_param name value is_quoted before = record {
  name = name;
  value = value;
  is_quoted = is_quoted;
  before = before;
  behind_name = [];
  behind_equals = codes " ";
  behind_value = codes " ";
}

-- The text is `username= "bob" , uri= "/a,b" , nc= 01 `.
abbrev digest_params : List Written
digest_params =
    written_param (codes "username") (codes "bob") true []
    ∷ written_param (codes "uri") (codes "/a,b") true (codes " ")
    ∷ written_param (codes "nc") (codes "01") false (codes " ")
    ∷ []

digest_params-AreWritten : AreWritten b',' digest_params
unfolding is_ws
digest_params-AreWritten = (
  record {
    no_equals = all-All (is_not b'=') (codes "username") refl;
    starts = refl;
    ends = refl;
    is_value = all-All (is_not b'"') (codes "bob") refl;
    blanks = (tt, tt, (refl, tt), (refl, tt));
  },
  (
    record {
      no_equals = all-All (is_not b'=') (codes "uri") refl;
      starts = refl;
      ends = refl;
      is_value = all-All (is_not b'"') (codes "/a,b") refl;
      blanks = ((refl, tt), tt, (refl, tt), (refl, tt));
    },
    (
      record {
        no_equals = all-All (is_not b'=') (codes "nc") refl;
        starts = refl;
        ends = refl;
        is_value = (all-All (is_not b',') (codes "01") refl, refl, refl);
        blanks = ((refl, tt), tt, (refl, tt), (refl, tt));
      },
      tt,
    ),
  ),
)

params-written_example : params (written b',' digest_params) b',' ≡ map pair digest_params
unfolding is_ws
params-written_example = params-written b',' refl digest_params digest_params-AreWritten

-- A stand-in for the sum.
abbrev sum : Bytes → Bytes
sum text = replicate 32 (b'0' + length text % 10)

is_client_authorized-written_example :
    is_client_authorized sum
      (codes "bob:pw" ∷ [])
      (codes "Digest " ++ written b',' digest_params)
      (codes "GET")
    ≡ (are_realms_right (map pair digest_params)
        && is_right sum (codes "GET") (map pair digest_params) (
            get_digest_auth_credential sum
              (codes "bob:pw" ∷ [])
              (last_param (codes "username") (map pair digest_params))))
is_client_authorized-written_example =
    is_client_authorized-written sum (codes "bob:pw" ∷ []) (codes "GET") digest_params
      digest_params-AreWritten

extract_till_chr_split_example :
    (let e = extract_till_chr (codes "a=b") b'=' in
      All (is_not b'=') e.sub_chunk
      × (if e.found
          then codes "a=b" ≡ e.sub_chunk ++ (b'=' ∷ e.dch)
          else (codes "a=b" ≡ e.sub_chunk) × (e.dch ≡ [])))
extract_till_chr_split_example = extract_till_chr_split (codes "a=b") b'='

trim_ws_lem_example :
    (before after : Bytes) × (codes " a b " ≡ before ++ (trim_ws (codes " a b ") ++ after))
    × All is_ws before
    × All is_ws after
    × (first_is is_ws (trim_ws (codes " a b ")) ≡ false)
    × (last_is is_ws (trim_ws (codes " a b ")) ≡ false)
trim_ws_lem_example = trim_ws_lem (codes " a b ")

extract_till_ws_split_example :
    (let e = extract_till_ws (codes " GET /") in
      if e.found
      then FirstWord (codes " GET /") e.sub_chunk e.dch
      else All is_ws (codes " GET /") × (e.sub_chunk ≡ []))
extract_till_ws_split_example = extract_till_ws_split (codes " GET /")

dir_name_of_lem_example : dir_name_of (codes "/a//b/") ≡ codes "/a"
dir_name_of_lem_example =
    dir_name_of_lem b'/' (codes "a") (codes "/") b'b' [] (codes "/") refl (refl, tt) (refl, tt)
      (refl, tt)

get_content_type_by_file_ext_lem_example :
    (get_content_type_by_file_ext (codes "/a.b" ++ b'/' ∷ (codes "x.tar" ++ b'.' ∷ codes "gz"))
      ≡ content_type_of (codes "gz"))
    × (get_content_type_by_file_ext (codes "x.tar" ++ b'.' ∷ codes "gz")
        ≡ content_type_of (codes "gz"))
unfolding contains_chr
get_content_type_by_file_ext_lem_example =
    get_content_type_by_file_ext_lem (codes "/a.b") b'x' (codes ".tar") (codes "gz") refl refl refl
