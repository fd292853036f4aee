-- ===== src/ServerConnection/Handler.antt =====
-- What src/serverconnection.c calls of a request handler, src/reqhandler.h, and what a handler does
-- that takes all the body's bytes at once.
use filemanager_httpd.Common.{ℕ, ◌≡◌, Bool, Option, length}
use filemanager_httpd.Common.Strings.{Bytes}
use filemanager_httpd.DataProcessingResult.{DataProcessingResult}
use filemanager_httpd.RequestHeader.{RequestHeader}

pub record Processed (H : Type 0) : Type 0 where
  pub handler : H
  pub processed : ℕ
  pub dpr : DataProcessingResult

pub record Progressed (H : Type 0) : Type 0 where
  pub handler : H
  pub is_finished : Bool
  pub dpr : DataProcessingResult

-- `reqhdlr_new`, with the peer's address, `reqhdlr_processData`, `reqhdlr_requestReadCompleted` and
-- `reqhdlr_progressResponse`, with the socket.
pub record HandlerOps (H : Type 0) : Type 0 where
  pub new : RequestHeader → Option Bytes → H
  pub process_data : H → Bytes → DataProcessingResult → Processed H
  pub request_read_completed : H → RequestHeader → H
  pub progress_response : H → ℕ → DataProcessingResult → Progressed H

-- The handler takes whatever it is given, as `filemgr_consumeBodyBytes` does; `feed` is what it does
-- with it.
pub record TakesAll {H : Type 0} (ops : HandlerOps H) (feed : H → Bytes → H) : Type 0 where
  pub process_data-feed :
      (h : H) (bytes : Bytes) (dpr : DataProcessingResult)
      → ops.process_data h bytes dpr
        ≡ record { handler = feed h bytes; processed = length bytes; dpr = dpr }
