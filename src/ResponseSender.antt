-- ===== src/ResponseSender.antt =====
-- src/responsesender.c: the response on its way to the client, from memory and from a file whose
-- length may be unknown.
pub mod Laws
pub mod Fill
pub mod Reads
use filemanager_httpd.Common.{
  ℕ, zero, suc, ◌+◌, ◌-◌, ◌*◌, ◌/◌, ◌%◌, ◌^◌, ◌≤◌, ◌<◌, min, ◌≡◌, refl, sym, ap, ◌∙◌, ◌≢◌, ◌↔◌, ◌⊎◌,
  inl, inr, Bool, true, false, not, ◌&&◌, ◌||◌, Option, none, some, List, [], ◌∷◌, ◌++◌, map,
  append-nil, append_assoc, arith, ltb, leb, ◌==◌, if◌then◌else◌, ltb→lt, lt→ltb, le→ltb, leb→le,
  ==_iff, Bool-cases, Option-cases, length, get_elem?, get_or, take, drop, replicate, is_empty, All,
  length-append, take-append-drop, length-drop, All-append,
}
use filemanager_httpd.Common.Strings.{
  Bytes, codes, take_while, drop_while, trim_end, c_str, split_chr, contains_chr, equal, to_lower,
  equal_ignore_case, starts_with, starts_with_ignore_case,
}
use filemanager_httpd.Common.Strings.Print.{print_decimal, print_hex}
use filemanager_httpd.DataProcessingResult.{
  DataProcessingResult, DprState, await_read, await_write, set_resp_state, set_close_conn,
}

-- What a `write` to the socket does: it takes so many of the bytes, or would block, or fails.
pub data WriteResult : Type 0 where
  wrote : ℕ → WriteResult
  write_would_block write_failed : WriteResult

-- What the file has for a `read`: bytes, of which the call takes as many as it has room for (none
-- for the end of the file), or nothing yet, or a failure.
pub data FileRead : Type 0 where
  read_bytes : Bytes → FileRead
  read_would_block read_failed : FileRead

-- The world: the results that are still to come, and what the client got. Where a list is at its
-- end, calls would block.
pub record Wire : Type 0 where
  pub writes : List WriteResult
  pub reads : List FileRead
  pub sent : Bytes
  pub closed : List ℕ

-- What `fstat` says of a file: its size if it is a regular one.
pub data FileStat : Type 0 where
  stat_regular : ℕ → FileStat
  stat_other stat_failed : FileStat

-- `nbytes` is what is still to be read from the file, `none` for -1: until its end, in chunks.
-- `body` holds the bytes of the buffer up to `data_size`; what the buffer holds behind is not kept.
pub record ResponseSender : Type 0 where
  pub header : Option Bytes
  pub body : Option Bytes
  pub file_desc : Option ℕ
  pub data_size : ℕ
  pub data_offset : ℕ
  pub nbytes : Option ℕ

-- What `rsndr_new` finds out of the length of the file.
abbrev file_bytes : Option Bytes → Option ℕ → FileStat → Option ℕ
file_bytes (some body) (some fd) (stat_regular n) = some n
file_bytes (some body) (some fd) stat_other = none
file_bytes _ _ _ = some 0

abbrev length_header : Option Bytes → Option ℕ → Bytes
length_header none nbytes = []
length_header (some body) (some n) =
    codes "Content-Length: " ++ (print_decimal (length body + n) ++ codes "\r\n")
length_header (some body) none = codes "Transfer-Encoding: chunked\r\n"

-- The bytes in memory are the first chunk, where the file is sent in chunks.
abbrev first_chunk_header : Option Bytes → Option ℕ → Bytes
first_chunk_header (some (b ∷ bs)) none = print_hex (length (b ∷ bs)) ++ codes "\r\n"
first_chunk_header _ _ = []

abbrev first_chunk : Option Bytes → Option ℕ → Option Bytes
first_chunk (some (b ∷ bs)) none = some ((b ∷ bs) ++ codes "\r\n")
first_chunk body _ = body

abbrev pub is_zero : Option ℕ → Bool
is_zero (some zero) = true
is_zero _ = false

-- A file of which nothing is to be sent is closed at once.
unfoldable pub new : Bytes → Option Bytes → Option ℕ → FileStat → List ℕ → ResponseSender × List ℕ
unfolding print_decimal print_hex
new header body file_desc stat closed =
    let nbytes = file_bytes body file_desc stat in
    let buffer = first_chunk body nbytes in
    (
      record {
        header = some (
            ((header ++ length_header body nbytes) ++ codes "\r\n")
            ++ first_chunk_header body nbytes);
        body = buffer;
        file_desc = if is_zero nbytes then none else file_desc;
        data_size = elim buffer [ none ↦ 0 | some bs ↦ length bs ];
        data_offset = 0;
        nbytes = nbytes;
      },
      elim file_desc [
        | none ↦ closed
        | some fd ↦ if is_zero nbytes then closed ++ fd ∷ [] else closed
      ],
    )

-- Why the reading of a file stopped.
pub data ReadStop : Type 0 where
  read_full read_ended read_blocked read_error : ReadStop

-- `while( filledCount < toFill && (rd = mb_readFile(...)) > 0 )`: the bytes read so far, and the
-- room that is left.
unfoldable pub read_file_loop : Bytes → ℕ → List FileRead → Bytes × ReadStop × List FileRead
read_file_loop got zero reads = (got, read_full, reads)
read_file_loop got (suc room) [] = (got, read_blocked, [])
read_file_loop got (suc room) (read_would_block ∷ reads) = (got, read_blocked, reads)
read_file_loop got (suc room) (read_failed ∷ reads) = (got, read_error, reads)
read_file_loop got (suc room) (read_bytes [] ∷ reads) = (got, read_ended, reads)
read_file_loop got (suc room) (read_bytes (b ∷ bs) ∷ reads) =
    let all = read_file_loop (got ++ b ∷ bs) (suc room - length (b ∷ bs)) reads in
    if leb (length (b ∷ bs)) (suc room)
    then all
    else (got ++ take (suc room) (b ∷ bs), read_full, read_bytes (drop (suc room) (b ∷ bs)) ∷ reads)

abbrev closes_file : ReadStop → Bool
closes_file read_ended = true
closes_file read_error = true
closes_file _ = false

abbrev close_file : Option ℕ → List ℕ → List ℕ
close_file none closed = closed
close_file (some fd) closed = closed ++ fd ∷ []

-- The buffer after a fill with these bytes of the `nbytes` that are known to be left.
abbrev pub filled : ℕ → Bytes → ResponseSender → ResponseSender
filled nbytes bytes r = record r {
  body = some bytes;
  nbytes = some (nbytes - length bytes);
  data_size = length bytes;
  data_offset = 0;
}

-- Behind the loop of reads, of which the last stopped it: what the file lacks is zeros.
unfoldable pub after_read :
    ℕ
    → ℕ
    → ℕ
    → ResponseSender
    → DataProcessingResult
    → Wire
    → Bytes × ReadStop × List FileRead
    → ResponseSender × DataProcessingResult × Wire
after_read nbytes to_fill fd r dpr w (got, stop, reads) =
    if closes_file stop
    then (
      record (filled nbytes (got ++ replicate (to_fill - length got) 0) r) { file_desc = none },
      dpr,
      record w { reads = reads; closed = w.closed ++ fd ∷ [] },
    )
    else (
      filled nbytes got r,
      if is_empty got && ltb 0 to_fill then set_resp_state await_read (some fd) dpr else dpr,
      record w { reads = reads },
    )

-- `fillBuffer` where the number of bytes is known.
unfoldable pub fill_known :
    ℕ → ResponseSender → DataProcessingResult → Wire → ResponseSender × DataProcessingResult × Wire
unfolding read_file_loop after_read
fill_known nbytes r dpr w =
    let to_fill = if ltb nbytes 65536 then nbytes else 65536 in
    elim r.file_desc [
      | none ↦ (filled nbytes (replicate to_fill 0) r, dpr, w)
      | some fd ↦ after_read nbytes to_fill fd r dpr w (read_file_loop [] to_fill w.reads)
    ]

-- A chunk's worth of the file; `read` fails on descriptor -1.
abbrev read_chunk : Option ℕ → List FileRead → Bytes × ReadStop × List FileRead
read_chunk none reads = ([], read_error, reads)
read_chunk (some fd) reads = read_file_loop [] 65536 reads

-- `fillBuffer` where the file is read until its end: one chunk, or none where nothing is there yet.
-- In the buffer ten bytes are left for the line with the length, which stands at their end; in front
-- of it the buffer holds bytes that are not sent, zeros here.
unfoldable pub fill_chunk :
    ResponseSender → DataProcessingResult → Wire → ResponseSender × DataProcessingResult × Wire
unfolding read_file_loop print_hex
fill_chunk r dpr w =
    let (got, stop, reads) = read_chunk r.file_desc w.reads in
    let ends = closes_file stop in
    let fd = if ends then none else r.file_desc in
    let line = print_hex (length got) ++ codes "\r\n" in
    let last = if ends then codes "0\r\n\r\n" else [] in
    let buffer =
      if is_empty got
      then last
      else replicate (10 - length line) 0 ++ (line ++ (got ++ (codes "\r\n" ++ last))) in
    (
      record r {
        body = some buffer;
        file_desc = fd;
        data_size = length buffer;
        data_offset = if is_empty got then 0 else 10 - length line;
        nbytes = if ends then some 0 else none;
      },
      (if is_empty buffer then set_resp_state await_read fd dpr else dpr),
      record w {
        reads = reads;
        closed = if ends then close_file r.file_desc w.closed else w.closed;
      },
    )

-- `fillBuffer`
unfoldable pub fill_buffer :
    ResponseSender → DataProcessingResult → Wire → ResponseSender × DataProcessingResult × Wire
unfolding fill_known fill_chunk
fill_buffer r dpr w = elim r.nbytes [ some n ↦ fill_known n r dpr w | none ↦ fill_chunk r dpr w ]

-- Why the writing stopped.
pub data WriteStop : Type 0 where
  write_done write_blocked write_error : WriteStop

-- `while( dataOffset < size && (wr = write(...)) >= 0 ) dataOffset += wr;`: the new offset, and
-- what the client got.
unfoldable pub write_loop :
    Bytes → ℕ → List WriteResult → Bytes → ℕ × WriteStop × List WriteResult × Bytes
write_loop bytes offset [] sent =
    (offset, if ltb offset (length bytes) then write_blocked else write_done, [], sent)
write_loop bytes offset (write_would_block ∷ ws) sent =
    if ltb offset (length bytes)
    then (offset, write_blocked, ws, sent)
    else (offset, write_done, write_would_block ∷ ws, sent)
write_loop bytes offset (write_failed ∷ ws) sent =
    if ltb offset (length bytes)
    then (offset, write_error, ws, sent)
    else (offset, write_done, write_failed ∷ ws, sent)
write_loop bytes offset (wrote n ∷ ws) sent =
    let wr = min n (length bytes - offset) in
    let rest = write_loop bytes (offset + wr) ws (sent ++ take wr (drop offset bytes)) in
    if ltb offset (length bytes) then rest else (offset, write_done, wrote n ∷ ws, sent)

-- The variables of `rsndr_send` with its result.
pub record Sending : Type 0 where
  pub rsndr : ResponseSender
  pub dpr : DataProcessingResult
  pub wire : Wire
  pub is_done : Bool

-- What `rsndr_send` does where a loop of writes has stopped: it goes on only where all is written.
unfoldable pub after_write :
    WriteStop → ℕ → ResponseSender → DataProcessingResult → Wire → Option Sending → Option Sending
after_write write_done socket_fd r dpr w k = k
after_write write_blocked socket_fd r dpr w k = some (record {
  rsndr = r;
  dpr = set_resp_state await_write (some socket_fd) dpr;
  wire = w;
  is_done = false;
})
after_write write_error socket_fd r dpr w k =
    some (record { rsndr = r; dpr = set_close_conn dpr; wire = w; is_done = true })

-- The loop over the buffer: it is sent, and filled again as long as something is left of the file.
-- `none` if that takes more turns than `fuel`.
unfoldable pub send_loop :
    ℕ → ℕ → ResponseSender → Bytes → DataProcessingResult → Wire → Option Sending
unfolding write_loop fill_buffer after_write
send_loop zero socket_fd r body dpr w = none
send_loop (suc fuel) socket_fd r body dpr w =
    let (offset, stop, writes, sent) = write_loop body r.data_offset w.writes w.sent in
    let r1 = record r { data_offset = offset } in
    let w1 = record w { writes = writes; sent = sent } in
    let (r2, dpr2, w2) = fill_buffer r1 dpr w1 in
    let again = send_loop fuel socket_fd r2 (elim r2.body [ none ↦ [] | some b ↦ b ]) dpr2 w2 in
    after_write stop socket_fd r1 dpr w1 (
      if is_zero r.nbytes
      then some (record { rsndr = r1; dpr = dpr; wire = w1; is_done = true })
      else if r2.data_size == 0
      then some (record { rsndr = r2; dpr = dpr2; wire = w2; is_done = false })
      else again)

-- The part of `rsndr_send` behind the header.
unfoldable pub send_body : ℕ → ℕ → ResponseSender → DataProcessingResult → Wire → Option Sending
unfolding send_loop
send_body fuel socket_fd r dpr w = elim r.body [
  | none ↦ some (record { rsndr = r; dpr = dpr; wire = w; is_done = true })
  | some body ↦ send_loop fuel socket_fd r body dpr w
]

-- `rsndr_send`
unfoldable pub send : ℕ → ℕ → ResponseSender → DataProcessingResult → Wire → Option Sending
unfolding write_loop send_body after_write
send fuel socket_fd r dpr w = elim r.header [
  | none ↦ send_body fuel socket_fd r dpr w
  | some header ↦
      let (offset, stop, writes, sent) = write_loop header r.data_offset w.writes w.sent in
      let w1 = record w { writes = writes; sent = sent } in
      after_write stop socket_fd (record r { data_offset = offset }) dpr w1
        (send_body fuel socket_fd (record r { header = none; data_offset = 0 }) dpr w1)
]
