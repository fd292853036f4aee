-- ===== src/ServerConnection/Selects.antt =====
-- src/serverconnection.c: what a turn leaves for the next `select`.
use filemanager_httpd.Common.{ℕ, ◌<◌, ◌==◌, Bool, false, Option, none, some}
use filemanager_httpd.DataProcessingResult.{DprState, await_read, await_write}
use filemanager_httpd.DataReadySelector.{DataReadySelector, fd_setsize}
use filemanager_httpd.ServerConnection.Turn.{Turn}

-- What a side of the turn wants: to read from this descriptor, or to write to it.
abbrev pub wants_read : DprState → Option ℕ → ℕ → Bool
wants_read await_read (some fd) x = x == fd
wants_read _ _ x = false

abbrev pub wants_write : DprState → Option ℕ → ℕ → Bool
wants_write await_write (some fd) x = x == fd
wants_write _ _ x = false

-- An `fd_set` can hold the descriptor.
abbrev pub Fits : Option ℕ → Type 0
Fits none = Unit
Fits (some fd) = fd < fd_setsize
