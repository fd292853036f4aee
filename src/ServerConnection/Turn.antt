-- ===== src/ServerConnection/Turn.antt =====
-- `conn_processDataReady` of src/serverconnection.c: one turn of a connection. What `read` returns in
-- the turn is a list of results, used up in order.
use filemanager_httpd.Common.{
  ℕ, zero, suc, Bool, true, false, not, ◌&&◌, ◌||◌, Option, none, some, List, [], ◌∷◌,
  if◌then◌else◌, is_empty,
}
use filemanager_httpd.Common.Strings.{Bytes, codes, equal}
use filemanager_httpd.DataProcessingResult
use filemanager_httpd.DataProcessingResult.{
  DprState, DataProcessingResult, ready, await_read, await_write, set_req_state, set_close_conn,
}
use filemanager_httpd.DataReadySelector
use filemanager_httpd.DataReadySelector.{DataReadySelector}
use filemanager_httpd.RequestHeader
use filemanager_httpd.ServerConnection.Handler.{HandlerOps}
use filemanager_httpd.ServerConnection.{
  RequestReadState, idle, ServerConnection, is_finished, append_data,
}

-- Bytes, at least one; EWOULDBLOCK; another error; the end of the stream.
pub data ReadResult : Type 0 where
  got : ℕ → Bytes → ReadResult
  would_block failed eof : ReadResult

pub data ConnProcessingResult : Type 0 where
  conn_to_close conn_idle conn_busy : ConnProcessingResult

-- The variables of the turn, and the results of `read` that are still to come.
pub record Turn (H : Type 0) : Type 0 where
  pub conn : ServerConnection H
  pub dpr : DataProcessingResult
  pub is_very_idle : Bool
  pub reads : List ReadResult

abbrev pub is_idle : RequestReadState → Bool
is_idle idle = true
is_idle _ = false

abbrev pub is_ready : DprState → Bool
is_ready ready = true
is_ready _ = false

module _ {H : Type 0} (authorized : Bytes → Bytes → Bool) (ops : HandlerOps H)
    (peer : Option Bytes) where
  -- Where no more is known of the socket, it has no data.
  unfoldable pub read_socket : Turn H → Turn H
  read_socket t = elim t.reads [
    | [] ↦ record t { dpr = set_req_state await_read (some t.conn.socket_fd) t.dpr }
    | r ∷ rs ↦ elim r [
      | got c cs ↦ record t {
        conn = record t.conn { unread = c ∷ cs };
        is_very_idle = false;
        reads = rs;
      }
      | would_block ↦ record t {
        dpr = set_req_state await_read (some t.conn.socket_fd) t.dpr;
        reads = rs;
      }
      | failed ↦ record t { dpr = set_close_conn t.dpr; reads = rs }
      | eof ↦ record t { dpr = set_close_conn t.dpr; reads = rs }
    ]
  ]

  -- One round of the inner loop.
  unfoldable pub read_round : Turn H → Turn H
  unfolding read_socket append_data
  read_round t =
      let u = if is_empty t.conn.unread then read_socket t else t in
      if is_empty u.conn.unread
      then u
      else (let (c, d) = append_data authorized ops peer u.conn u.dpr in
          record u { conn = c; dpr = d })

  abbrev pub wants_read : Turn H → Bool
  wants_read t = not t.dpr.close_conn && (is_ready t.dpr.req_state && not (is_finished t.conn.rrs))

  unfoldable pub read_loop : ℕ → Turn H → Turn H
  unfolding read_round
  read_loop zero t = t
  read_loop (suc fuel) t =
      let more = read_loop fuel (read_round t) in if wants_read t then more else t

  -- `reqhdlr_progressResponse`; a handler whose response has been sent is freed.
  unfoldable pub progress : Turn H → Turn H
  progress t = elim t.conn.handler [
    | none ↦ t
    | some h ↦
        let p = ops.progress_response h t.conn.socket_fd t.dpr in
        if t.dpr.close_conn then t else record t {
          conn = record t.conn { handler = if p.is_finished then none else some p.handler };
          dpr = p.dpr;
        }
  ]

  abbrev pub has_handler : Option H → Bool
  has_handler none = false
  has_handler (some h) = true

  -- HTTP/1.0, or "Connection: close".
  unfoldable pub closes_after : ServerConnection H → Bool
  unfolding equal RequestHeader.get_header_val
  closes_after conn = elim conn.header [
    | none ↦ false
    | some header ↦
        equal header.version (codes "1.0")
        || elim (RequestHeader.get_header_val header (codes "Connection")) as (λ _. Bool) [
          | none ↦ false
          | some val ↦ equal val (codes "close")
        ]
  ]

  abbrev pub reinitialize : ServerConnection H → ServerConnection H
  reinitialize conn = record conn {
    rrs = idle;
    header = none;
    chunk_hdr = none;
    body_len = 0;
    body_read_len = 0;
  }

  -- The outer loop: a request after another, until one is not complete or the connection closes.
  -- `log_fatal`, which ends the program, is `none`.
  unfoldable pub turn_loop : ℕ → ℕ → Turn H → Option (Turn H)
  unfolding read_loop progress closes_after
  turn_loop zero inner t = some t
  turn_loop (suc fuel) inner t =
      let u = progress (read_loop inner t) in
      let more = turn_loop fuel inner (record u { conn = reinitialize u.conn }) in
      if u.dpr.close_conn || (not (is_finished u.conn.rrs) || has_handler u.conn.handler)
      then some u
      else if not (is_ready u.dpr.req_state && is_ready u.dpr.resp_state)
      then none
      else if closes_after u.conn
      then some (record u { dpr = set_close_conn u.dpr })
      else more

  abbrev pub register : DprState → Option ℕ → DataReadySelector → DataReadySelector
  register ready fd drs = drs
  register await_read (some fd) drs = DataReadySelector.set_read_fd fd drs
  register await_write (some fd) drs = DataReadySelector.set_write_fd fd drs
  register _ none drs = drs

  -- What is left to do behind the loop.
  unfoldable pub finish_turn :
      Bool → DataReadySelector → Turn H → Turn H × DataReadySelector × ConnProcessingResult
  finish_turn close_if_idle drs t =
      let closes = t.dpr.close_conn || (close_if_idle && is_idle t.conn.rrs) in
      let u = record t { dpr = record t.dpr { close_conn = closes } } in
      if closes then (u, drs, conn_to_close) else (
        u,
        register t.dpr.resp_state t.dpr.resp_await_fd
            (register t.dpr.req_state t.dpr.req_await_fd drs),
        if t.is_very_idle then conn_idle else conn_busy,
      )

  unfoldable pub process_data_ready :
      ℕ
      → ℕ
      → ServerConnection H
      → List ReadResult
      → DataReadySelector
      → Bool
      → Option (Turn H × DataReadySelector × ConnProcessingResult)
  unfolding turn_loop finish_turn
  process_data_ready outer inner conn reads drs close_if_idle =
      elim (turn_loop outer inner (record {
        conn = conn;
        dpr = DataProcessingResult.init;
        is_very_idle = is_idle conn.rrs;
        reads = reads;
      })) [ none ↦ none | some t ↦ some (finish_turn close_if_idle drs t) ]
