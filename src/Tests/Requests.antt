-- ===== src/Tests/Requests.antt =====
-- The theorems on the reading of requests, src/serverconnection.c, src/requestheader.c and
-- src/dataheader.c, at concrete inputs.
use filemanager_httpd.Common.{
  ◌%◌, ◌^◌, ◌≡◌, refl, true, none, some, List, [], ◌∷◌, ◌++◌, arith, length, none,
}
use filemanager_httpd.Common.Strings.{Bytes, codes, c_str}
use filemanager_httpd.Common.Strings.Laws.{is_not}
use filemanager_httpd.Common.Strings.Number.{strtoul}
use filemanager_httpd.HeaderLines.{HeaderLine}
use filemanager_httpd.HeaderLines.Streaming.{then_append}
use filemanager_httpd.HeaderLines.RoundTrip.{header_text}
use filemanager_httpd.DataHeader
use filemanager_httpd.DataHeader.{DataHeader}
use filemanager_httpd.DataHeader.Laws.{append_data-append, append_data-header_text}
use filemanager_httpd.RequestHeader
use filemanager_httpd.RequestHeader.{RequestHeader}
use filemanager_httpd.RequestHeader.Url.{decode_path}
use filemanager_httpd.RequestHeader.Laws.{append_data-append_request}
use filemanager_httpd.RequestHeader.RoundTrip.{encode_path, stops, decode_path-encode_path}
use filemanager_httpd.DataProcessingResult
use filemanager_httpd.DataProcessingResult.{DataProcessingResult}
use filemanager_httpd.ServerConnection.{
  ServerConnection, read_head, read_trailer, read_finished, append_body_data,
}
use filemanager_httpd.DataReadySelector
use filemanager_httpd.DataProcessingResult.{await_read, set_req_state}
use filemanager_httpd.ServerConnection.Turn.{Turn}
use filemanager_httpd.ServerConnection.Handler.{HandlerOps, TakesAll}
use filemanager_httpd.ServerConnection.ChunkSteps.{Chunk}
use filemanager_httpd.ServerConnection.Chunked.{at_body, append_body_data-chunks_text}
use filemanager_httpd.ServerConnection.Body.{with_length, append_body_data-with_length}
use filemanager_httpd.Tests.Bytes.{all-All}

-- A handler that keeps the bytes of the body.
abbrev keep : Bytes → Bytes → Bytes
keep h bytes = h ++ bytes

abbrev keeper : HandlerOps Bytes
keeper = record {
  new = λ req peer. [];
  process_data =
      λ h bytes dpr. record { handler = keep h bytes; processed = length bytes; dpr = dpr };
  request_read_completed = λ h req. h;
  progress_response = λ h socket dpr. record { handler = h; is_finished = true; dpr = dpr };
}

keeper-TakesAll : TakesAll keeper keep
keeper-TakesAll = record { process_data-feed = λ h bytes dpr. refl }

abbrev connection : ServerConnection Bytes
connection = record {
  socket_fd = 4;
  unread = [];
  rrs = read_head;
  header = none;
  chunk_hdr = none;
  handler = none;
  body_len = 0;
  body_read_len = 0;
}

abbrev chunks : List Chunk
chunks =
    record { size_line = codes "2\r"; first = b'a'; others = codes "b" }
    ∷ record { size_line = codes "1;x=y\r"; first = b'c'; others = [] }
    ∷ []

sizes :
    (strtoul 16 (c_str (codes "2\r")) % 2 ^ 32 ≡ 2)
    × (strtoul 16 (c_str (codes "1;x=y\r")) % 2 ^ 32 ≡ 1)
    × (strtoul 16 (c_str (codes "0\r")) % 2 ^ 32 ≡ 0)
unfolding strtoul c_str
sizes = (refl, refl, refl)

append_body_data-chunks_text_example :
    append_body_data keeper
      (at_body keeper keep keeper-TakesAll connection []
        (codes "2\r\nab\r\n1;x=y\r\nc\r\n0\r\n\r\n"))
      DataProcessingResult.init
    ≡ (
      record connection {
        rrs = read_trailer;
        chunk_hdr = some [];
        handler = some (codes "abc");
        body_len = 3;
        body_read_len = 3;
        unread = codes "\r\n";
      },
      DataProcessingResult.init,
    )
append_body_data-chunks_text_example =
    append_body_data-chunks_text keeper keep keeper-TakesAll connection DataProcessingResult.init []
      chunks (codes "0\r") (codes "\r\n")
      (
        record { no_newline = all-All (is_not b'\n') (codes "2\r") refl; reads = sizes.0 },
        (
          record { no_newline = all-All (is_not b'\n') (codes "1;x=y\r") refl; reads = sizes.1 },
          tt,
        ),
      )
      (record { no_newline = all-All (is_not b'\n') (codes "0\r") refl; reads = sizes.2 })
      (omega arith)

append_body_data-with_length_example :
    append_body_data keeper
      (with_length keeper keep keeper-TakesAll connection [] 2 (codes "abGET"))
      DataProcessingResult.init
    ≡ (
      record connection {
        rrs = read_finished;
        chunk_hdr = none;
        handler = some (codes "ab");
        body_len = 2;
        body_read_len = 2;
        unread = codes "GET";
      },
      DataProcessingResult.init,
    )
append_body_data-with_length_example =
    append_body_data-with_length keeper keep keeper-TakesAll connection DataProcessingResult.init []
      b'a' (codes "b") (codes "GET")

abbrev began : DataHeader
began = record { lines = []; current = codes "Ho" }

append_data-append_example :
    DataHeader.append_data began (codes "st:x\r\nB" ++ codes ":y\r\n\r\nbody")
    ≡ then_append 7 DataHeader.append_data
        (DataHeader.append_data began (codes "st:x\r\nB"))
        (codes ":y\r\n\r\nbody")
append_data-append_example =
    append_data-append began (codes "st:x\r\nB") (codes ":y\r\n\r\nbody")
      (all-All (is_not 0) (codes "Ho") refl) (all-All (is_not 0) (codes "st:x\r\nB") refl)

append_data-append_request_example :
    RequestHeader.append_data
      (λ a b. true)
      RequestHeader.new
      (codes "GET /" ++ codes " HTTP/1.1\r\n\r\n")
    ≡ then_append 5
        (RequestHeader.append_data (λ a b. true))
        (RequestHeader.append_data (λ a b. true) RequestHeader.new (codes "GET /"))
        (codes " HTTP/1.1\r\n\r\n")
unfolding RequestHeader.new
append_data-append_request_example =
    append_data-append_request (λ a b. true) RequestHeader.new (codes "GET /")
      (codes " HTTP/1.1\r\n\r\n") tt (all-All (is_not 0) (codes "GET /") refl)

decode_path-encode_path_example :
    decode_path (encode_path (codes "/a b") ++ codes " HTTP/1.1")
    ≡ (codes "/a b", codes " HTTP/1.1")
unfolding stops
decode_path-encode_path_example =
    decode_path-encode_path (codes "/a b") (codes " HTTP/1.1")
      (omega arith, (omega arith, (omega arith, (omega arith, tt)))) refl

abbrev host : HeaderLine
host = record { name = codes "Host"; value = codes " a:80" }

append_data-header_text_example :
    DataHeader.append_data DataHeader.new (header_text (host ∷ []) (codes "body"))
    ≡ (record { lines = host ∷ []; current = [] }, some (length (header_text (host ∷ []) [])))
append_data-header_text_example = append_data-header_text (host ∷ []) (codes "body") (
  record {
    name_no_colon = all-All (is_not b':') host.name refl;
    name_no_zero = all-All (is_not 0) host.name refl;
    name_no_newline = all-All (is_not b'\n') host.name refl;
    value_no_zero = all-All (is_not 0) host.value refl;
    value_no_newline = all-All (is_not b'\n') host.value refl;
  },
  tt,
)

abbrev waiting : Turn Bytes
waiting = record {
  conn = connection;
  dpr = set_req_state await_read (some 4) DataProcessingResult.init;
  is_very_idle = true;
  reads = [];
}
