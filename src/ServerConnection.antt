-- ===== src/ServerConnection.antt =====
-- src/serverconnection.c: the reading of a request from a connection, the chunked body among it, and
-- the turn of a connection whose socket is ready.
pub mod Handler
pub mod ChunkSteps
pub mod Chunked
pub mod Body
pub mod Turn
pub mod Selects
use filemanager_httpd.Common.{
  ℕ, zero, suc, ◌+◌, ◌-◌, ◌*◌, ◌/◌, ◌%◌, ◌^◌, ◌≤◌, ◌<◌, min, ◌≡◌, refl, sym, ap, ◌∙◌, ◌≢◌, ◌↔◌, ◌⊎◌,
  inl, inr, Bool, true, false, not, ◌&&◌, ◌||◌, Option, none, some, List, [], ◌∷◌, ◌++◌, map,
  append-nil, append_assoc, arith, ltb, leb, ◌==◌, if◌then◌else◌, ltb→lt, lt→ltb, le→ltb, leb→le,
  ==_iff, Bool-cases, Option-cases, length, get_elem?, get_or, take, drop, replicate, is_empty, All,
  length-append, take-append-drop, length-drop, All-append,
}
use filemanager_httpd.Common.Strings.{
  Bytes, codes, take_while, drop_while, trim_end, c_str, split_chr, contains_chr, equal, to_lower,
  equal_ignore_case, starts_with, starts_with_ignore_case,
}
use filemanager_httpd.Common.Strings.Number.{strtoul}
use filemanager_httpd.DataProcessingResult
use filemanager_httpd.DataProcessingResult.{
  DataProcessingResult, ready, await_read, await_write, set_req_state, set_close_conn,
}
use filemanager_httpd.RequestHeader
use filemanager_httpd.RequestHeader.{RequestHeader}
use Handler.{HandlerOps}

pub data RequestReadState : Type 0 where
  idle read_head read_body read_trailer read_finished : RequestReadState

-- `unread` are the bytes of the read buffer from `readOffset` up to `readSize`. Both are 0 where there
-- are none, so the test of `readSize` is the test whether `unread` is empty.
pub record ServerConnection (H : Type 0) : Type 0 where
  pub socket_fd : ℕ
  pub unread : Bytes
  pub rrs : RequestReadState
  pub header : Option RequestHeader
  pub chunk_hdr : Option Bytes
  pub handler : Option H
  pub body_len : ℕ
  pub body_read_len : ℕ

abbrev pub is_read_body : RequestReadState → Bool
is_read_body read_body = true
is_read_body _ = false

abbrev pub is_finished : RequestReadState → Bool
is_finished read_finished = true
is_finished _ = false

-- What reading a chunk header leaves: the part that is kept, the bytes that are left, and the
-- chunk's length where the header is complete. The first two bytes of a chunk header are the line
-- end behind the chunk before.
pub record ChunkLine : Type 0 where
  pub chunk_hdr : Bytes
  pub rest : Bytes
  pub add_len : Option ℕ

-- Up to the newline, behind the two bytes.
unfoldable pub chunk_size_line : Bytes → Bytes → ChunkLine
unfolding split_chr strtoul c_str
chunk_size_line hdr bol = elim (split_chr b'\n' bol) [
  | none ↦ record { chunk_hdr = hdr ++ bol; rest = []; add_len = none }
  | some (line, rest) ↦ record {
    chunk_hdr = [];
    rest = rest;
    add_len = some (strtoul 16 (c_str (drop 2 (hdr ++ line))) % 2 ^ 32);
  }
]

unfoldable pub read_chunk_line : Bytes → Bytes → ChunkLine
unfolding chunk_size_line
read_chunk_line hdr bol =
    if ltb (length hdr) 2
    then (let add_len = min (length bol) (2 - length hdr) in
        chunk_size_line (hdr ++ take add_len bol) (drop add_len bol))
    else chunk_size_line hdr bol

-- A turn that goes on with the bytes that are left, or stops by `break`.
pub record BodyTurn (H : Type 0) : Type 0 where
  pub conn : ServerConnection H
  pub dpr : DataProcessingResult
  pub bol : Bytes
  pub is_broken : Bool

module _ {H : Type 0} (ops : HandlerOps H) where
  -- `onFinishedHeader`; the peer's address is what `getpeername` and `inet_ntop` tell.
  unfoldable pub on_finished_header :
      Option Bytes → RequestHeader → ServerConnection H → ServerConnection H
  unfolding RequestHeader.is_chunked_transfer_encoding RequestHeader.get_header_val strtoul
  on_finished_header peer header conn =
      let c = record conn { handler = some (ops.new header peer) } in
      let length_given =
        elim (RequestHeader.get_header_val header (codes "Content-Length")) as (λ _. ℕ) [
          | none ↦ c.body_len
          | some val ↦ strtoul 10 val
        ] in
      if RequestHeader.is_chunked_transfer_encoding header
      then record c { chunk_hdr = some (codes "\r\n"); rrs = read_body }
      else record c {
        body_len = length_given;
        rrs = if ltb 0 length_given then read_body else read_finished;
      }

  -- `reqhdlr_processData` on the connection's handler. There is one while a body is read; the
  -- program would fail at NULL.
  unfoldable pub process : ℕ → BodyTurn H → BodyTurn H
  process add_len t = elim t.conn.handler [
    | none ↦ record t { is_broken = true }
    | some h ↦
        let p = ops.process_data h (take add_len t.bol) t.dpr in
        record {
          conn = record t.conn {
            handler = some p.handler;
            body_read_len = t.conn.body_read_len + p.processed;
          };
          dpr = p.dpr;
          bol = drop p.processed t.bol;
          is_broken = ltb p.processed add_len;
        }
  ]

  -- Where all of the body, or of the chunk, has been read.
  unfoldable pub end_of_length : BodyTurn H → BodyTurn H
  end_of_length t = elim t.conn.chunk_hdr [
    | none ↦ record t { conn = record t.conn { rrs = read_finished } }
    | some hdr ↦
        let r = read_chunk_line hdr t.bol in
        record t {
          bol = r.rest;
          conn = elim r.add_len [
            | none ↦ record t.conn { chunk_hdr = some r.chunk_hdr }
            | some n ↦
                if n == 0
                then record t.conn { chunk_hdr = some r.chunk_hdr; rrs = read_trailer }
                else record t.conn {
                  chunk_hdr = some r.chunk_hdr;
                  body_len = (t.conn.body_len + n) % 2 ^ 64;
                }
          ];
        }
  ]

  -- How many of these bytes belong to the body, or to the chunk.
  abbrev pub body_part : ServerConnection H → Bytes → ℕ
  body_part conn bol =
      if ltb conn.body_len (conn.body_read_len + length bol)
      then conn.body_len - conn.body_read_len
      else length bol

  -- One round of the loop.
  unfoldable pub body_turn : BodyTurn H → BodyTurn H
  unfolding process end_of_length
  body_turn t =
      let u =
        if ltb t.conn.body_read_len t.conn.body_len
        then process (body_part t.conn t.bol) t
        else t in
      if u.is_broken
      then u
      else if u.conn.body_read_len == u.conn.body_len
      then end_of_length u
      else u

  unfoldable pub body_loop : ℕ → BodyTurn H → BodyTurn H
  body_loop zero t = t
  body_loop (suc fuel) t =
      let more = body_loop fuel (body_turn t) in
      if is_read_body t.conn.rrs && (not (is_empty t.bol) && not t.is_broken) then more else t

  -- `appendBodyData`. Each round takes at least one byte or is the last.
  unfoldable pub append_body_data :
      ServerConnection H → DataProcessingResult → ServerConnection H × DataProcessingResult
  append_body_data conn dpr =
      let t =
        body_loop (suc (length conn.unread))
          (record { conn = conn; dpr = dpr; bol = conn.unread; is_broken = false }) in
      (record t.conn { unread = t.bol }, t.dpr)

module _ {H : Type 0} (authorized : Bytes → Bytes → Bool) (ops : HandlerOps H) where
  -- The header text in the read buffer; true where the header is complete.
  unfoldable pub append_header_data : ServerConnection H → RequestHeader → ServerConnection H × Bool
  unfolding RequestHeader.append_data
  append_header_data conn header =
      let r = RequestHeader.append_data authorized header conn.unread in
      elim r.1 [
        | none ↦ (record conn { header = some r.0; unread = [] }, false)
        | some offset ↦ (record conn { header = some r.0; unread = drop offset conn.unread }, true)
      ]

  -- The part of `appendData` in state RRS_READ_HEAD.
  unfoldable pub append_head : Option Bytes → ServerConnection H → ServerConnection H
  unfolding append_header_data on_finished_header
  append_head peer conn = elim conn.header [
    | none ↦ conn
    | some header ↦
        let (c, complete) = append_header_data conn header in
        if complete
        then elim c.header [ none ↦ c | some h ↦ on_finished_header ops peer h c ]
        else c
  ]

  unfoldable pub append_trailer : ServerConnection H → ServerConnection H
  unfolding append_header_data
  append_trailer conn = elim conn.header [
    | none ↦ conn
    | some header ↦
        let (c, complete) = append_header_data conn header in
        if complete then record c { rrs = read_finished } else c
  ]

  unfoldable pub append_head_in : Option Bytes → ServerConnection H → ServerConnection H
  unfolding append_head
  append_head_in peer conn = elim conn.rrs [ read_head ↦ append_head peer conn | _ ↦ conn ]

  unfoldable pub append_body_in :
      ServerConnection H → DataProcessingResult → ServerConnection H × DataProcessingResult
  unfolding append_body_data body_loop body_turn read_chunk_line
  append_body_in conn dpr =
      if is_read_body conn.rrs && not (is_empty conn.unread)
      then append_body_data ops conn dpr
      else (conn, dpr)

  unfoldable pub append_trailer_in : ServerConnection H → ServerConnection H
  unfolding append_trailer
  append_trailer_in conn = elim conn.rrs [
    | read_trailer ↦ if is_empty conn.unread then conn else append_trailer conn
    | _ ↦ conn
  ]

  -- `reqhdlr_requestReadCompleted`, with the handler and the header.
  unfoldable pub read_completed : ServerConnection H → ServerConnection H
  read_completed conn = elim conn.handler [
    | none ↦ conn
    | some h ↦ elim conn.header [
      | none ↦ conn
      | some header ↦ record conn { handler = some (ops.request_read_completed h header) }
    ]
  ]

  unfoldable pub start_header : ServerConnection H → ServerConnection H
  unfolding RequestHeader.new
  start_header conn = elim conn.rrs [
    | idle ↦ record conn { header = some RequestHeader.new; rrs = read_head }
    | _ ↦ conn
  ]

  -- `appendData`
  unfoldable pub append_data :
      Option Bytes
      → ServerConnection H
      → DataProcessingResult
      → ServerConnection H × DataProcessingResult
  unfolding start_header append_head_in append_body_in append_trailer_in read_completed
  append_data peer conn dpr =
      let c = append_head_in peer (start_header conn) in
      let (d, dpr') = append_body_in c dpr in
      let e = append_trailer_in d in
      if not (is_finished conn.rrs) && is_finished e.rrs
      then (read_completed e, dpr')
      else (e, dpr')
