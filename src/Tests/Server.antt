-- ===== src/Tests/Server.antt =====
-- The theorems on the server, src/fmconfig.c, src/main.c, src/responsesender.c and src/folder.c, at
-- concrete inputs.
use filemanager_httpd.Common.{
  ℕ, ◌-◌, ◌≤◌, ◌≡◌, refl, ◌↔◌, Bool, true, false, none, some, List, [], ◌∷◌, ◌++◌, arith, ◌==◌,
  if◌then◌else◌, length, All, inl, Option,
}
use filemanager_httpd.Common.Strings.{Bytes, codes, c_str, equal}
use filemanager_httpd.DataProcessingResult
use filemanager_httpd.DataProcessingResult.{DataProcessingResult}
use filemanager_httpd.DataReadySelector
use filemanager_httpd.DataReadySelector.{
  DataReadySelector, set_read_fd, set_write_fd, WaitsAlso, set_fd-Watches,
}
use filemanager_httpd.ServerConnection.Turn.{
  ConnProcessingResult, conn_to_close, conn_idle, conn_busy,
}
use filemanager_httpd.Config.{
  Config, initial, do_all, do_listing, pa_serve_page, pa_list_folder, pa_modify,
  get_sys_path_for_url_path, root_as_empty, is_action_allowed, gives_login_more_privileges,
  PrivilegedAction,
}
use filemanager_httpd.Config.Shares.{IsMapping, get_sys_path_for_url_path_lem}
use filemanager_httpd.Config.Privileges.{
  implies, is_action_allowed_mono, gives_login_more_privileges_iff,
}
use filemanager_httpd.MainLoop.{LoopOps, accept_loop, process_all, turn}
use filemanager_httpd.MainLoop.Laws.{outcome, process_all_lem, turn-bound}
use filemanager_httpd.ResponseSender.{ResponseSender, Wire, Sending, wrote, write_would_block, send}
use filemanager_httpd.ResponseSender.{fill_known, read_bytes}
use filemanager_httpd.ResponseSender.Fill.{IsFilled, fill_known-IsFilled}
use filemanager_httpd.ResponseSender.Laws.{IsSent, send-IsSent}
use filemanager_httpd.Folder
use filemanager_httpd.Folder.{
  Stat, Folder, FolderEntry, folder_ent_compare, read_entries, load_dir, ensure_ends_with_slash,
}
use filemanager_httpd.Folder.Laws.{
  IsSound, IsSorting, AreSplit, IsOrdered, count, listed, is_entry, read_entries-IsSound,
  load_dir_lem,
}
use Prim.Native.Nat.{Ordering}

abbrev shared : Config
shared = record initial {
  shares =
      record { urlpath = codes "/a"; syspath = codes "/srv/a" }
      ∷ record { urlpath = codes "/a/b"; syspath = codes "/srv/c" }
      ∷ [];
  avail_ops = do_all;
  guest_ops = do_listing;
}

get_sys_path_for_url_path_lem_example :
    IsMapping
      (root_as_empty (codes "/a/b/c"))
      shared.shares
      (get_sys_path_for_url_path shared (codes "/a/b/c"))
get_sys_path_for_url_path_lem_example = get_sys_path_for_url_path_lem shared (codes "/a/b/c")

is_action_allowed_mono_example :
    (implies (is_action_allowed shared pa_modify false) (is_action_allowed shared pa_modify true)
      ≡ true)
    × (implies
          (is_action_allowed shared pa_modify false)
          (is_action_allowed shared pa_list_folder false)
        ≡ true)
    × (implies
          (is_action_allowed shared pa_list_folder false)
          (is_action_allowed shared pa_serve_page false)
        ≡ true)
is_action_allowed_mono_example = is_action_allowed_mono shared pa_modify false

gives_login_more_privileges_iff_example : (gives_login_more_privileges shared ≡ true) ↔ (
    (pa : PrivilegedAction) × (is_action_allowed shared pa true ≡ true)
    × (is_action_allowed shared pa false ≡ false))
gives_login_more_privileges_iff_example = gives_login_more_privileges_iff shared

set_fd-Watches_example :
    WaitsAlso DataReadySelector.new (set_read_fd 5 DataReadySelector.new) (λ x. x == 5) (λ x. false)
    × WaitsAlso DataReadySelector.new
        (set_write_fd 5 DataReadySelector.new)
        (λ x. false)
        (λ x. x == 5)
unfolding DataReadySelector.new
set_fd-Watches_example =
    set_fd-Watches 5 DataReadySelector.new (omega arith)
      (record { reads = tt; writes = tt; reads_fit = refl; writes_fit = refl })

-- Connections that are numbers: of 1 more is to come, 2 waits, and 3 is at its end.
abbrev numbered : ℕ → ConnProcessingResult
numbered c = if c == 1 then conn_busy else if c == 2 then conn_idle else conn_to_close

-- The world is what was freed.
abbrev server : LoopOps ℕ (List ℕ)
server = record {
  watch_listener = λ w. w;
  select = λ w. w;
  accept = λ w. (none, w);
  process = λ c closes w. (c, numbered c, w);
  free = λ c w. c ∷ w;
}

abbrev connections : List ℕ
connections = 1 ∷ 2 ∷ 3 ∷ 1 ∷ 2 ∷ []

process_all_lem_example :
    (let o = outcome server true true connections [] in
      process_all server 5 connections [] ≡ (o.idle ++ o.busy, o.world))
process_all_lem_example = process_all_lem server 5 connections []

process_all-connections : process_all server 5 connections [] ≡ (2 ∷ 2 ∷ 1 ∷ 1 ∷ [], 3 ∷ [])
unfolding process_all
process_all-connections = refl

turn-bound_example :
    (length (accept_loop server (5 - length connections) connections []).0 ≤ 5)
    × (length (turn server 5 (connections, [])).0 ≤ 5)
turn-bound_example = turn-bound server 5 connections [] (omega arith)

abbrev response : ResponseSender
response = record {
  header = some (codes "HTTP/1.1 200 OK\r\n\r\n");
  body = some (codes "hello");
  file_desc = none;
  data_size = 5;
  data_offset = 0;
  nbytes = some 0;
}

abbrev slow_socket : Wire
slow_socket = record {
  writes = wrote 10 ∷ wrote 11 ∷ write_would_block ∷ [];
  reads = [];
  sent = [];
  closed = [];
}

send-IsSent_example :
    (s : Sending) × (send 1 4 response DataProcessingResult.init slow_socket ≡ some s)
    × IsSent response slow_socket s
send-IsSent_example =
    send-IsSent 0 4 response DataProcessingResult.init slow_socket
      (record { no_file = refl; within = omega arith })

-- "/x/d" is a folder, and every other file is not.
abbrev stat_d : Bytes → Option Stat
stat_d path =
    some (record { st_mode = if equal path (codes "/x/d") then 16877 else 33188; st_size = 7 })

abbrev reverse : List FolderEntry → List FolderEntry → List FolderEntry
reverse done [] = done
reverse done (e ∷ es) = reverse (e ∷ done) es

abbrev equal_names : Bytes → Bytes → Ordering
equal_names a b = Ordering.eq

abbrev names : List Bytes
names = codes "." ∷ codes "a" ∷ codes "d" ∷ []

new-IsSound : IsSound Folder.new
unfolding Folder.new
new-IsSound = record { has_room = omega arith; are_entries = tt }

read_entries-IsSound_example :
    IsSound (read_entries stat_d (λ cmp. reverse []) equal_names (codes "/x/") names Folder.new)
read_entries-IsSound_example =
    read_entries-IsSound stat_d (λ cmp. reverse []) equal_names (codes "/x/") names Folder.new
      new-IsSound

reverse-sorts :
    (let read =
        read_entries stat_d (λ cmp. reverse []) equal_names (codes "/x/") names Folder.new in
      IsSorting stat_d (λ cmp. reverse []) equal_names read.entries (reverse [] read.entries))
unfolding read_entries Folder.new c_str equal count
reverse-sorts = record { keeps = λ p. ground arith; ordered = (refl, tt) }

load_dir_lem_example :
    (folder : Folder) × (load_dir stat_d (λ cmp. reverse []) equal_names (codes "/x") (inl names)
      ≡ (some folder, 0))
    × ((p : FolderEntry → Bool)
        → count p folder.entries
          ≡ count p (listed stat_d (ensure_ends_with_slash (codes "/x")) names))
    × AreSplit equal_names folder.entries
    × IsOrdered equal_names folder.entries
    × All is_entry folder.entries
load_dir_lem_example =
    load_dir_lem stat_d (λ cmp. reverse []) equal_names (codes "/x") names reverse-sorts

abbrev download : ResponseSender
download = record response { file_desc = some 6; nbytes = some 5 }

abbrev short_file : Wire
short_file = record slow_socket { reads = read_bytes (codes "abc") ∷ read_bytes [] ∷ [] }

fill_known-IsFilled_example :
    (let q = fill_known 5 download DataProcessingResult.init short_file in
      IsFilled 5 6 short_file q.0 q.2)
fill_known-IsFilled_example =
    fill_known-IsFilled 5 6 download DataProcessingResult.init short_file refl
