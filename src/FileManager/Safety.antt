-- ===== src/FileManager/Safety.antt =====
-- src/filemanager.c: what a client may do that is not allowed to modify anything.
use filemanager_httpd.Common.{
  ℕ, ◌≡◌, refl, ap, ◌∙◌, Bool, true, false, Option, none, some, List, [], ◌∷◌, arith, length,
}
use filemanager_httpd.Common.Strings.{Bytes, codes}
use mathlib.Core.Path.{subst}
use filemanager_httpd.FileSystem.{Errno, FileOps}
use filemanager_httpd.Config.{Config, pa_modify}
use filemanager_httpd.RequestHeader.{RequestHeader, get_header_val}
use filemanager_httpd.RequestHandler.{is_request_allowed}
use filemanager_httpd.MultipartData
use filemanager_httpd.MultipartData.{MultipartData, get_part_by_name}
use filemanager_httpd.MultipartData.Invariant.{Each, append_data-Each}
use filemanager_httpd.ContentPart
use filemanager_httpd.ContentPart.{ContentPart, name_equals}
use filemanager_httpd.ContentPart.Idle.{HasNoFile, IsIdle, append_data-IsIdle}
use filemanager_httpd.FileManager
use filemanager_httpd.FileManager.{
  Upload, FileManager, dest_dir, new_part, append_to, append_part, consume_body_bytes, run_parts,
  free_parts, post_parts, process_post, read_content_type, cons_part, and_parts, end_plain, posted,
  posted_parts,
}
use filemanager_httpd.FileManager.Operations.{Result}

-- The body of a request, in pieces.
abbrev pub consume_all :
    {W : Type 0}
    → FileOps W
    → (Errno → Bytes)
    → Config
    → FileManager W
    → RequestHeader
    → List Bytes
    → FileManager W
consume_all ops strerror cfg filemgr rhdr [] = filemgr
consume_all ops strerror cfg filemgr rhdr (bytes ∷ more) =
    consume_all ops strerror cfg (consume_body_bytes ops strerror cfg filemgr rhdr bytes) rhdr more

module _ {W : Type 0} (ops : FileOps W) (strerror : Errno → Bytes) (cfg : Config) where
  -- Whatever the disk is, the part is made with the disk as it is.
  abbrev IsHarmless : Upload W → Type 0
  IsHarmless upload = (w : W) → IsIdle ops w (upload w)

  new_part-IsHarmless : IsHarmless (new_part ops strerror cfg none)
  unfolding new_part ContentPart.new
  new_part-IsHarmless w = (record { no_dir = refl; no_desc = refl }, refl)

  append_to-IsIdle :
      (bytes : Bytes) (w : W) (o : Option (ContentPart × W))
      → IsIdle ops w o
      → IsIdle ops w (append_to ops strerror cfg bytes o)
  unfolding append_to
  append_to-IsIdle bytes w none h = h
  append_to-IsIdle bytes w (some (part, v)) h =
      subst (λ u. IsIdle ops u (ContentPart.append_data ops (length bytes) part bytes v)) h.1
        (append_data-IsIdle ops (length bytes) part bytes v h.0)

  append_part-IsHarmless :
      (upload : Upload W) (bytes : Bytes)
      → IsHarmless upload
      → IsHarmless (append_part ops strerror cfg upload bytes)
  unfolding append_part
  append_part-IsHarmless upload bytes h w = append_to-IsIdle bytes w (upload w) (h w)

  abbrev BodyHarmless : Option (MultipartData (Upload W)) → Type 0
  BodyHarmless none = Unit
  BodyHarmless (some body) = Each IsHarmless body.parts

  -- The parts are made, with the disk as it is.
  abbrev AreIdle : W → Option (List ContentPart × W) → Type 0
  AreIdle w none = true ≡ false
  AreIdle w (some (parts, v)) = Each HasNoFile parts × (v ≡ w)

  cons_part-AreIdle :
      (w : W) (part : ContentPart) (o : Option (List ContentPart × W))
      → HasNoFile part
      → AreIdle w o
      → AreIdle w (cons_part ops strerror cfg part o)
  cons_part-AreIdle w part none h k = k
  cons_part-AreIdle w part (some (parts, v)) h k = ((h, k.0), k.1)

  and_parts-AreIdle :
      (w : W) (o : Option (ContentPart × W)) (k : W → Option (List ContentPart × W))
      → IsIdle ops w o
      → ((v : W) → AreIdle v (k v))
      → AreIdle w (and_parts ops strerror cfg o k)
  and_parts-AreIdle w none k h r = h
  and_parts-AreIdle w (some (part, v)) k h r =
      cons_part-AreIdle w part (k v) h.0 (subst (λ u. AreIdle u (k v)) h.1 (r v))

  run_parts-AreIdle :
      (uploads : List (Upload W)) (w : W)
      → Each IsHarmless uploads
      → AreIdle w (run_parts ops strerror cfg uploads w)
  unfolding run_parts
  run_parts-AreIdle [] w h = (tt, refl)
  run_parts-AreIdle (upload ∷ uploads) w h =
      and_parts-AreIdle w (upload w) (run_parts ops strerror cfg uploads) (h.0 w)
        (λ v. run_parts-AreIdle uploads v h.1)

  free_parts_idle :
      (parts : List ContentPart) (w : W)
      → Each HasNoFile parts
      → free_parts ops strerror cfg parts w ≡ w
  unfolding free_parts ContentPart.free
  free_parts_idle [] w h = refl
  free_parts_idle (part ∷ parts) w h = rw h.0.no_desc (free_parts_idle parts w h.1)

  abbrev pub result_disk : Result W → Option W
  result_disk none = none
  result_disk (some (mesg, w)) = some w

  post_parts_idle :
      (fuel : ℕ) (sys_path : Option Bytes) (rhdr : RequestHeader) (parts : List ContentPart) (w : W)
      → is_request_allowed cfg rhdr pa_modify ≡ false
      → Each HasNoFile parts
      → result_disk (post_parts ops strerror cfg fuel sys_path rhdr parts w).1 ≡ some w
  unfolding post_parts
  post_parts_idle fuel sys_path rhdr parts w h k =
      let f = ap some (free_parts_idle parts w k) in ground (arith, f, h)

  -- The disk behind the whole form.
  abbrev pub posted_disk : Option (FileManager W × Bool × W) → Option W
  posted_disk none = none
  posted_disk (some (filemgr, auth, w)) = some w

  posted-disk :
      (filemgr : FileManager W) (r : Bool × Result W) (w : W)
      → result_disk r.1 ≡ some w
      → posted_disk (posted ops strerror cfg filemgr r) ≡ some w
  posted-disk filemgr (auth, none) w h = h
  posted-disk filemgr (auth, some (mesg, v)) w h = h

  posted_parts_idle :
      (fuel : ℕ) (filemgr : FileManager W) (rhdr : RequestHeader)
      (o : Option (List ContentPart × W)) (w : W)
      → is_request_allowed cfg rhdr pa_modify ≡ false
      → AreIdle w o
      → posted_disk (posted_parts ops strerror cfg fuel filemgr rhdr o) ≡ some w
  posted_parts_idle fuel filemgr rhdr none w h k = ground arith
  posted_parts_idle fuel filemgr rhdr (some (parts, v)) w h k =
      posted-disk filemgr (post_parts ops strerror cfg fuel filemgr.sys_path rhdr parts v) w
        (post_parts_idle fuel filemgr.sys_path rhdr parts v h k.0 ∙ ap some k.1)

  process_post_idle :
      (fuel : ℕ) (filemgr : FileManager W) (rhdr : RequestHeader) (w : W)
      → is_request_allowed cfg rhdr pa_modify ≡ false
      → BodyHarmless filemgr.body
      → posted_disk (process_post ops strerror cfg fuel filemgr rhdr w) ≡ some w
  unfolding process_post
  process_post_idle fuel filemgr rhdr w h k = go filemgr.body refl k
    where
      go :
          (o : Option (MultipartData (Upload W)))
          → filemgr.body ≡ o
          → BodyHarmless o
          → posted_disk (process_post ops strerror cfg fuel filemgr rhdr w) ≡ some w
      go none e k = rw (process_post, e) refl
      go (some body) e k =
          rw (process_post, e)
            (posted_parts_idle fuel filemgr rhdr (run_parts ops strerror cfg body.parts w) w h
              (run_parts-AreIdle body.parts w k))

  consume-BodyHarmless :
      (filemgr : FileManager W) (rhdr : RequestHeader) (bytes : Bytes)
      → is_request_allowed cfg rhdr pa_modify ≡ false
      → BodyHarmless filemgr.body
      → BodyHarmless (consume_body_bytes ops strerror cfg filemgr rhdr bytes).body
  unfolding consume_body_bytes
  consume-BodyHarmless filemgr rhdr bytes h k = go filemgr.body refl k
    where
      no_dir : dest_dir ops strerror cfg filemgr rhdr ≡ none
      no_dir = rw (dest_dir, h) refl

      go :
          (o : Option (MultipartData (Upload W)))
          → filemgr.body ≡ o
          → BodyHarmless o
          → BodyHarmless (consume_body_bytes ops strerror cfg filemgr rhdr bytes).body
      go none e k = rw (consume_body_bytes, e) tt
      go (some body) e k =
          rw (consume_body_bytes, e, no_dir)
            (append_data-Each (new_part ops strerror cfg none) (append_part ops strerror cfg)
              IsHarmless new_part-IsHarmless append_part-IsHarmless body bytes k)

  consume_all-BodyHarmless :
      (filemgr : FileManager W) (rhdr : RequestHeader) (pieces : List Bytes)
      → is_request_allowed cfg rhdr pa_modify ≡ false
      → BodyHarmless filemgr.body
      → BodyHarmless (consume_all ops strerror cfg filemgr rhdr pieces).body
  consume_all-BodyHarmless filemgr rhdr [] h k = k
  consume_all-BodyHarmless filemgr rhdr (bytes ∷ pieces) h k =
      consume_all-BodyHarmless (consume_body_bytes ops strerror cfg filemgr rhdr bytes) rhdr pieces
        h (consume-BodyHarmless filemgr rhdr bytes h k)

  new-BodyHarmless :
      (sys_path : Option Bytes) (rhdr : RequestHeader)
      → BodyHarmless (FileManager.new ops strerror cfg sys_path rhdr).body
  unfolding FileManager.new MultipartData.new
  new-BodyHarmless sys_path rhdr =
      go (read_content_type strerror (get_header_val rhdr (codes "Content-Type"))).0
    where
      go :
          (o : Option Bytes)
          → BodyHarmless (elim o as (λ _. Option (MultipartData (Upload W))) [
            | none ↦ none
            | some boundary ↦ some (MultipartData.new boundary)
          ])
      go none = tt
      go (some boundary) = tt

  -- Without the right to modify, whatever form a client sends, in whatever pieces it arrives: it is taken
  -- and processed without a failure, and the disk is as it was.
  pub process_post_harmless :
      (fuel : ℕ) (sys_path : Option Bytes) (rhdr : RequestHeader) (pieces : List Bytes) (w : W)
      → is_request_allowed cfg rhdr pa_modify ≡ false
      → posted_disk (
          process_post ops strerror cfg fuel
            (consume_all ops strerror cfg
              (FileManager.new ops strerror cfg sys_path rhdr)
              rhdr
              pieces)
            rhdr
            w)
        ≡ some w
  process_post_harmless fuel sys_path rhdr pieces w h =
      let filemgr = FileManager.new ops strerror cfg sys_path rhdr in
      process_post_idle fuel (consume_all ops strerror cfg filemgr rhdr pieces) rhdr w h
        (consume_all-BodyHarmless filemgr rhdr pieces h (new-BodyHarmless sys_path rhdr))
