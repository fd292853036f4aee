-- ===== src/DataProcessingResult.antt =====
-- src/dataprocessingresult.c and src/dataprocessingresult.h: what the handling of a connection waits
-- for. A file descriptor is a number; `none` is -1.
use filemanager_httpd.Common.{ℕ, Bool, true, false, Option, none}

pub data DprState : Type 0 where
  ready await_read await_write : DprState

pub record DataProcessingResult : Type 0 where
  pub close_conn : Bool
  pub req_state : DprState
  pub req_await_fd : Option ℕ
  pub resp_state : DprState
  pub resp_await_fd : Option ℕ

abbrev pub init : DataProcessingResult
init = record {
  close_conn = false;
  req_state = ready;
  req_await_fd = none;
  resp_state = ready;
  resp_await_fd = none;
}

abbrev pub set_req_state : DprState → Option ℕ → DataProcessingResult → DataProcessingResult
set_req_state state await_fd dpr = record dpr { req_state = state; req_await_fd = await_fd }

abbrev pub set_resp_state : DprState → Option ℕ → DataProcessingResult → DataProcessingResult
set_resp_state state await_fd dpr = record dpr { resp_state = state; resp_await_fd = await_fd }

abbrev pub set_close_conn : DataProcessingResult → DataProcessingResult
set_close_conn dpr = record dpr { close_conn = true }
