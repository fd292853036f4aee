-- ===== src/ContentPart/Laws.antt =====
-- src/contentpart.c: an open upload has its path, its folder and its name, and data is always taken.
use filemanager_httpd.Common.{
  ℕ, zero, suc, ◌-◌, ◌≤◌, ◌<◌, ◌≡◌, refl, ap, ◌∙◌, ◌⊎◌, inl, inr, Bool, true, false, not, ◌&&◌,
  ◌||◌, Option, none, some, List, [], ◌∷◌, ◌++◌, arith, length, drop, length-drop,
}
use filemanager_httpd.Common.Strings.{Bytes, codes}
use filemanager_httpd.DataChunk.{DataChunk, init_with_str, shift_after_chr}
use filemanager_httpd.DataChunk.Params.{params}
use filemanager_httpd.DataHeader
use filemanager_httpd.DataHeader.{get_header_val}
use filemanager_httpd.FileSystem.{Errno, eexist, FileOps}
use filemanager_httpd.Folder.{ensure_ends_with_slash}
use filemanager_httpd.ContentPart.{
  ContentPart, set_param, set_params, read_disposition, open_other, made_other, made_new, written,
  open_in, open_store, end_header, drop_file, write_loop, store_to, store, behind_header,
  append_data, finish_upload, target_path,
}

abbrev is_some {ℓ} : {A : Type ℓ} → Option A → Bool
is_some none = false
is_some (some a) = true

is_some-none : (d : Option ℕ) → is_some d ≡ false → d ≡ none
is_some-none none h = refl
is_some-none (some n) h = ground arith

-- An open file has a path, a folder and the name of the upload.
abbrev pub is_sound : ContentPart → Bool
is_sound part =
    not (is_some part.file_desc)
    || (is_some part.file_path_name && (is_some part.dest_dir && is_some part.file_name))

abbrev is_stored : ContentPart → Bool
is_stored part = is_some part.file_name || is_some part.body

set_params-desc :
    (ps : List (DataChunk × DataChunk)) (part : ContentPart)
    → (set_params ps part).file_desc ≡ part.file_desc
unfolding set_params set_param
set_params-desc [] part = refl
set_params-desc ((name, value) ∷ ps) part =
    set_params-desc ps (set_param name value part) ∙ ground arith

read_disposition-desc :
    (o : Option Bytes) (part : ContentPart) → (read_disposition o part).file_desc ≡ part.file_desc
unfolding read_disposition
read_disposition-desc none part = refl
read_disposition-desc (some c) part =
    let s = shift_after_chr (init_with_str c) b';' in
    let d = set_params-desc (params s.0 b';') part in ground (arith, d)

module _ {W : Type 0} (ops : FileOps W) where
  made_other_sound :
      (dir : Bytes) (part : ContentPart) (r : ((Bytes × ℕ) ⊎ Errno) × W)
      → is_some part.dest_dir && is_some part.file_name ≡ true
      → is_sound (made_other ops dir part r).0 && is_stored (made_other ops dir part r).0 ≡ true
  unfolding made_other
  made_other_sound dir part (inl made, w) k = ground arith
  made_other_sound dir part (inr e, w) k = ground arith

  open_other_sound :
      (dir : Bytes) (e : Errno) (part : ContentPart) (w : W)
      → part.file_desc ≡ none
      → is_some part.dest_dir && is_some part.file_name ≡ true
      → is_sound (open_other ops dir e part w).0 && is_stored (open_other ops dir e part w).0 ≡ true
  unfolding open_other
  open_other_sound dir eexist part w h k =
      made_other_sound dir part (ops.mkstemp (dir ++ codes "fmgrXXXXXX") w) k
  open_other_sound dir e part w h k = closed_sound part h k
    where
      closed_sound :
          (p : ContentPart)
          → p.file_desc ≡ none
          → is_some p.dest_dir && is_some p.file_name ≡ true
          → is_sound p && is_stored p ≡ true
      closed_sound p h k = rw h (ground (arith, k))

  made_new_sound :
      (dir : Bytes) (part : ContentPart) (r : (ℕ ⊎ Errno) × W)
      → is_some part.file_path_name ≡ true
      → is_some part.dest_dir && is_some part.file_name ≡ true
      → is_sound (made_new ops dir part r).0 && is_stored (made_new ops dir part r).0 ≡ true
  unfolding made_new
  made_new_sound dir part (inl fd, w) n k = ground (arith, k, n)
  made_new_sound dir part (inr e, w) n k =
      open_other_sound dir e (record part { file_desc = none }) w refl k

  open_in_sound :
      (dir name : Bytes) (part : ContentPart) (w : W)
      → is_some part.dest_dir && is_some part.file_name ≡ true
      → is_sound (open_in ops dir name part w).0 && is_stored (open_in ops dir name part w).0 ≡ true
  unfolding open_in
  open_in_sound dir name part w k =
      made_new_sound dir (record part { file_path_name = some (dir ++ name) })
        (ops.open_new (dir ++ name) w) refl k

  open_store_sound :
      (o d : Option Bytes) (part : ContentPart) (w : W)
      → part.file_name ≡ o
      → part.dest_dir ≡ d
      → part.file_desc ≡ none
      → is_sound (open_store ops o d part w).0 && is_stored (open_store ops o d part w).0 ≡ true
  unfolding open_store
  open_store_sound none d part w e k h = ground (arith, h)
  open_store_sound (some n) none part w e k h = ground (arith, h, e)
  open_store_sound (some n) (some d) part w e k h =
      open_in_sound (ensure_ends_with_slash d) n part w (ground (arith, e, k))

  end_header_sound :
      (part : ContentPart) (w : W)
      → part.file_desc ≡ none
      → is_sound (end_header ops part w).0 && is_stored (end_header ops part w).0 ≡ true
  unfolding end_header
  end_header_sound part w h =
      let o = get_header_val part.header (codes "Content-Disposition") in
      let p = read_disposition o part in
      open_store_sound p.file_name p.dest_dir p w refl refl (read_disposition-desc o part ∙ h)

  -- A write takes some of the bytes, or fails.
  abbrev pub MakesProgress : Type 0
  MakesProgress =
      (fd c : ℕ) (cs : Bytes) (w : W) (n : ℕ) → (ops.write fd (c ∷ cs) w).0 ≡ inl n → 0 < n

  module _ (progress : MakesProgress) where
    -- The data was taken, and an open file has all that it needs.
    abbrev pub is_taken : Option (ContentPart × W) → Bool
    is_taken none = false
    is_taken (some (part, w)) = is_sound part

    write_loop_sound :
        (fuel fd : ℕ) (bytes : Bytes) (part : ContentPart) (w : W)
        → is_sound part ≡ true
        → length bytes ≤ fuel
        → is_taken (write_loop ops fuel fd bytes part w) ≡ true
    unfolding write_loop drop_file
    write_loop_sound fuel fd [] part w h l = h
    write_loop_sound zero fd (c ∷ cs) part w h l = ground arith
    write_loop_sound (suc fuel) fd (c ∷ cs) part w h l =
        go
          (λ n v k.
            write_loop_sound fuel fd (drop n (c ∷ cs)) part v h
              (shorter n (length-drop n (c ∷ cs)) k))
          (ops.write fd (c ∷ cs) w) refl
      where
        shorter :
            (n : ℕ)
            → length (drop n (c ∷ cs)) ≡ length (c ∷ cs) - n
            → 0 < n
            → length (drop n (c ∷ cs)) ≤ fuel
        shorter n e k = omega arith

        go :
            ((n : ℕ) (v : W)
              → 0 < n
              → is_taken (write_loop ops fuel fd (drop n (c ∷ cs)) part v) ≡ true)
            → (r : (ℕ ⊎ Errno) × W) → ops.write fd (c ∷ cs) w ≡ r
            → is_taken
                (written ops fd (c ∷ cs) part (λ bytes v. write_loop ops fuel fd bytes part v) r)
              ≡ true
        go ih (inr e, v) q = refl
        go ih (inl n, v) q = ih n v (progress fd c cs w n (ap (λ r. r.0) q))

    store_to_sound :
        (fuel : ℕ) (bytes : Bytes) (part : ContentPart) (w : W) (n b : Option Bytes) (d : Option ℕ)
        → is_sound part ≡ true
        → is_some n || is_some b ≡ true
        → length bytes ≤ fuel
        → is_taken (store_to ops fuel bytes part w n b d) ≡ true
    unfolding store_to
    store_to_sound fuel bytes part w none none d h k l = ground arith
    store_to_sound fuel bytes part w none (some body) d h k l = h
    store_to_sound fuel bytes part w (some n) b none h k l = h
    store_to_sound fuel bytes part w (some n) b (some fd) h k l =
        write_loop_sound fuel fd bytes part w h l

    behind_header_sound :
        (fuel : ℕ) (bytes : Bytes) (part : ContentPart) (o : Option ℕ) (w : W)
        → part.file_desc ≡ none
        → length bytes ≤ fuel
        → is_taken (behind_header ops fuel bytes part o w) ≡ true
    unfolding behind_header store
    behind_header_sound fuel bytes part none w h l = ground (arith, h)
    behind_header_sound fuel bytes part (some offset) w h l =
        let e = end_header ops part w in
        let s = end_header_sound part w h in
        let d = length-drop offset bytes in
        store_to_sound fuel (drop offset bytes) e.0 e.1 e.0.file_name e.0.body e.0.file_desc
          (ground (arith, s)) (ground (arith, s)) (omega arith)

    -- With writes that take some of the bytes or fail, and rounds for as many writes as there are bytes, a
    -- part takes any data; an open file still has a path, a folder and a name.
    pub append_data-is_taken :
        (fuel : ℕ) (part : ContentPart) (bytes : Bytes) (w : W)
        → is_sound part ≡ true
        → length bytes ≤ fuel
        → is_taken (append_data ops fuel part bytes w) ≡ true
    unfolding append_data store
    append_data-is_taken fuel part bytes w h l = go part.file_name part.body refl refl
      where
        header : DataHeader.DataHeader
        header = (DataHeader.append_data part.header bytes).0

        go :
            (n b : Option Bytes)
            → part.file_name ≡ n
            → part.body ≡ b
            → is_taken (append_data ops fuel part bytes w) ≡ true
        go none none e k =
            rw (append_data, e, k)
              (behind_header_sound fuel bytes
                (record part { header = header; file_name = none; body = none })
                (DataHeader.append_data part.header bytes).1 w
                (is_some-none part.file_desc (ground (arith, h, e))) l)
        go none (some b) e k = rw (append_data, e, k) (ground (arith, h, e))
        go (some n) b e k =
            rw (append_data, e)
              (store_to_sound fuel bytes (record part { file_name = some n }) w (some n) part.body
                part.file_desc (ground (arith, h, e)) refl l)

    -- The end of an upload does not fail on NULL, for a target that is not NULL and for the upload's own
    -- name.
    pub finish_upload-some :
        (part : ContentPart) (target : Option Bytes) (replace : Bool) (w : W)
        → is_sound part ≡ true
        → is_some (finish_upload ops part target replace w) ≡ true
    unfolding finish_upload target_path
    finish_upload-some part target replace w h =
        go part.file_desc part.file_path_name part.dest_dir part.file_name target refl refl refl
          refl
      where
        go :
            (d : Option ℕ) (p f n t : Option Bytes)
            → part.file_desc ≡ d
            → part.file_path_name ≡ p
            → part.dest_dir ≡ f
            → part.file_name ≡ n
            → is_some (finish_upload ops part t replace w) ≡ true
        go none p f n t a b c e = rw (finish_upload, a) refl
        go (some d) (some p) (some f) (some n) (some t) a b c e = ground (arith, a, b, c, e)
        go (some d) (some p) (some f) (some n) none a b c e = ground (arith, a, b, c, e)
        go (some d) none f n t a b c e = ground (arith, h)
        go (some d) (some p) none n t a b c e = ground (arith, h)
        go (some d) (some p) (some f) none t a b c e = ground (arith, h)
