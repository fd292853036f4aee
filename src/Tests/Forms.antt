-- ===== src/Tests/Forms.antt =====
-- The theorems on forms and files, src/multipartdata.c, src/contentpart.c, src/filemanager.c and
-- src/membuf.c, at concrete inputs.
use filemanager_httpd.Common.{
  ℕ, ◌+◌, ◌≡◌, refl, ap, inl, inr, true, none, some, List, [], ◌∷◌, ◌++◌, map, arith, length,
  get_or, length-append,
}
use filemanager_httpd.Common.Strings.{Bytes, codes}
use filemanager_httpd.FileSystem.{enoent, FileOps}
use filemanager_httpd.Config.{Config, initial, do_none}
use filemanager_httpd.RequestHeader.{RequestHeader, logged_out}
use filemanager_httpd.RequestHandler.{is_request_allowed}
use filemanager_httpd.MultipartData
use filemanager_httpd.MultipartData.{MultipartData, append_data, parse_loop, pp_body}
use filemanager_httpd.MultipartData.RoundTrip.{form, append_data-form}
use filemanager_httpd.MultipartData.Termination.{Ends, parse_loop-Ends}
use filemanager_httpd.ContentPart
use filemanager_httpd.ContentPart.{ContentPart}
use filemanager_httpd.ContentPart.Laws.{is_taken, MakesProgress, append_data-is_taken}
use filemanager_httpd.ContentPart.Fields.{field, field_part, append_data-field}
use filemanager_httpd.FileManager
use filemanager_httpd.FileManager.{process_post}
use filemanager_httpd.FileManager.Permissions.{resent, resent_lem}
use filemanager_httpd.FileManager.Safety.{consume_all, posted_disk, process_post_harmless}
use filemanager_httpd.MemBuf.Refinement.{Refines, append_op, run_op, text_op, run_op-Refines}

-- A disk that counts the calls; each write takes one byte.
abbrev counting : FileOps ℕ
counting = record {
  open_new = λ path w. (inl 3, w + 1);
  mkstemp = λ path w. (inl (path, 3), w + 1);
  write = λ fd bytes w. (inl 1, w + 1);
  close = λ fd w. w + 1;
  unlink = λ path w. (none, w + 1);
  rename = λ from to w. (none, w + 1);
  link = λ from to w. (none, w + 1);
  mkdir = λ path mode w. (none, w + 1);
  rmdir = λ path w. (none, w + 1);
  chmod = λ path mode w. (none, w + 1);
  read_dir = λ path w. inr enoent;
}

writes_one : MakesProgress counting
writes_one fd c cs w n e = ground (arith, e)

abbrev join : Bytes → Bytes → Bytes
join a b = a ++ b

ends_there : (a b : Bytes) → codes "x" ++ codes "\r\n--b" ≡ a ++ (codes "\r\n--b" ++ b) → b ≡ []
ends_there [] b e = ground (arith, ap (λ l. get_or l 0 0) e)
ends_there (x ∷ a) b e =
    empty b (let l = length-append a (codes "\r\n--b" ++ b) in let k = ap length e in omega arith)
  where
    empty : (b : Bytes) → length b ≡ 0 → b ≡ []
    empty [] h = refl
    empty (c ∷ b) h = ground arith

append_data-form_example :
    (append_data [] join
      (MultipartData.new (codes "b"))
      (form [] join (codes "b") (codes "x" ∷ []) [])).parts
    ≡ map (join []) (codes "x" ∷ [])
append_data-form_example = append_data-form [] join (codes "b") (codes "x" ∷ []) [] (ends_there, tt)

abbrev begun : MultipartData Bytes
begun = record {
  boundary_delimiter = some (codes "\r\n--b");
  parse_pos = pp_body;
  delim_match_part = 0;
  parts = [] ∷ [];
}

parse_loop-Ends_example :
    Ends [] join
      (codes "\r\n--b")
      begun
      (codes "text")
      (parse_loop [] join 6 (codes "\r\n--b") begun (codes "text"))
parse_loop-Ends_example =
    parse_loop-Ends [] join (codes "\r\n--b") (omega arith) 6 begun (codes "text") (omega arith)

append_data-is_taken_example :
    is_taken counting writes_one
      (ContentPart.append_data counting 4 (ContentPart.new none) (codes "text") 0)
    ≡ true
unfolding ContentPart.new
append_data-is_taken_example =
    append_data-is_taken counting writes_one 4 (ContentPart.new none) (codes "text") 0 refl
      (omega arith)

append_data-field_example :
    ContentPart.append_data counting 9
      (ContentPart.new none)
      (field (codes "file") (codes "text"))
      0
    ≡ some (field_part counting none (codes "file") (codes "text"), 0)
append_data-field_example =
    append_data-field counting 9 none (codes "file") (codes "text") 0
      (refl, (refl, (refl, (refl, tt))))

resent_lem_example : resent 420 ≡ some 420
resent_lem_example = resent_lem 420 (omega arith)

abbrev guest : RequestHeader
guest = record {
  request = codes "POST";
  path = some (codes "/a/");
  query = none;
  version = codes "1.1";
  headers = some (
      record { name = codes "Content-Type"; value = codes "multipart/form-data; boundary=b" } ∷ []);
  current = [];
  login_state = logged_out;
}

abbrev read_only : Config
read_only = record initial { guest_ops = do_none }

abbrev sent : List Bytes
sent =
    codes "--b\r\nContent-Disposition: form-data; name=\"do_newdir\"\r\n\r\n\r\n--b"
    ∷ codes "\r\nContent-Disposition: form-data; name=\"new_dir\"\r\n\r\nx\r\n--b--"
    ∷ []

process_post_harmless_example :
    posted_disk counting
      (λ e. codes "error")
      read_only
      (process_post counting
        (λ e. codes "error")
        read_only
        9
        (consume_all counting
          (λ e. codes "error")
          read_only
          (FileManager.new counting (λ e. codes "error") read_only (some (codes "/srv")) guest)
          guest
          sent)
        guest
        0)
    ≡ some 0
unfolding is_request_allowed initial
process_post_harmless_example =
    process_post_harmless counting (λ e. codes "error") read_only 9 (some (codes "/srv")) guest sent
      0 refl

run_op-Refines_example :
    Refines
      (run_op
        (λ i. 0)
        (append_op (codes "cd"))
        (record { mem = codes "ab" ++ (0 ∷ []); data_len = 2 }))
      (text_op (λ i. 0) (append_op (codes "cd")) (codes "ab"))
run_op-Refines_example =
    run_op-Refines (λ i. 0) (append_op (codes "cd"))
      (record { mem = codes "ab" ++ (0 ∷ []); data_len = 2 }) (codes "ab") (omega arith)
      (record { holds = refl; counts = refl })
