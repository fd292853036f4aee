-- ===== src/ContentPart/Idle.antt =====
-- src/contentpart.c: a part without a folder for uploads leaves the disk as it is.
use filemanager_httpd.Common.{
  ℕ, ◌≡◌, refl, sym, ◌∙◌, ◌≢◌, ◌⊎◌, inl, inr, Bool, true, false, Option, none, some, List, [], ◌∷◌,
  arith, if◌then◌else◌, drop,
}
use filemanager_httpd.Common.Strings.{Bytes, codes}
use filemanager_httpd.DataChunk.{DataChunk, init_with_str, shift_after_chr}
use filemanager_httpd.DataChunk.Params.{params}
use filemanager_httpd.DataHeader
use filemanager_httpd.DataHeader.{get_header_val}
use mathlib.Core.Path.{subst}
use mathlib.Core.Option.{some-ne-none}
use filemanager_httpd.FileSystem.{FileOps}
use filemanager_httpd.ContentPart.{
  ContentPart, set_param, set_params, read_disposition, open_store, end_header, store_to, store,
  behind_header, append_data,
}

-- There is no folder for uploads, and no file is open.
pub record HasNoFile (part : ContentPart) : Type 0 where
  pub no_dir : part.dest_dir ≡ none
  pub no_desc : part.file_desc ≡ none

set_param-HasNoFile :
    (name value : DataChunk) (part : ContentPart)
    → HasNoFile part
    → HasNoFile (set_param name value part)
unfolding set_param
set_param-HasNoFile name value part h = record {
  no_dir = ground (arith, h.no_dir);
  no_desc = ground (arith, h.no_desc);
}

set_params-HasNoFile :
    (ps : List (DataChunk × DataChunk)) (part : ContentPart)
    → HasNoFile part
    → HasNoFile (set_params ps part)
unfolding set_params
set_params-HasNoFile [] part h = h
set_params-HasNoFile ((name, value) ∷ ps) part h =
    set_params-HasNoFile ps (set_param name value part) (set_param-HasNoFile name value part h)

read_disposition-HasNoFile :
    (o : Option Bytes) (part : ContentPart) → HasNoFile part → HasNoFile (read_disposition o part)
unfolding read_disposition
read_disposition-HasNoFile none part h = h
read_disposition-HasNoFile (some c) part h = go (shift_after_chr (init_with_str c) b';').1
  where
    ps : List (DataChunk × DataChunk)
    ps = params (shift_after_chr (init_with_str c) b';').0 b';'

    go : (b : Bool) → HasNoFile (if b then set_params ps part else part)
    go true = set_params-HasNoFile ps part h
    go false = h

module _ {W : Type 0} (ops : FileOps W) where
  -- The data has been taken, with the disk as it was.
  abbrev pub IsIdle : W → Option (ContentPart × W) → Type 0
  IsIdle w none = true ≡ false
  IsIdle w (some (part, v)) = HasNoFile part × (v ≡ w)

  open_store-IsIdle :
      (o d : Option Bytes) (part : ContentPart) (w : W)
      → d ≡ none
      → HasNoFile part
      → IsIdle w (some (open_store ops o d part w))
  unfolding open_store
  open_store-IsIdle none d part w e h = (record { no_dir = h.no_dir; no_desc = h.no_desc }, refl)
  open_store-IsIdle (some n) none part w e h = (h, refl)
  open_store-IsIdle (some n) (some d) part w e h = ground arith

  -- Where the name of the upload or the text is there, the data is taken.
  store_to-IsIdle :
      (fuel : ℕ) (bytes : Bytes) (part : ContentPart) (w : W) (n b : Option Bytes) (d : Option ℕ)
      → d ≡ none
      → HasNoFile part
      → (n ≢ none) ⊎ (b ≢ none)
      → IsIdle w (store_to ops fuel bytes part w n b d)
  unfolding store_to
  store_to-IsIdle fuel bytes part w none none d e h (inl k) = elim (k refl) [ ]
  store_to-IsIdle fuel bytes part w none none d e h (inr k) = elim (k refl) [ ]
  store_to-IsIdle fuel bytes part w none (some body) d e h k =
      (record { no_dir = h.no_dir; no_desc = h.no_desc }, refl)
  store_to-IsIdle fuel bytes part w (some n) b none e h k = (h, refl)
  store_to-IsIdle fuel bytes part w (some n) b (some fd) e h k = ground arith

  end_header_stored :
      (o d : Option Bytes) (part : ContentPart) (w : W)
      → d ≡ none
      → part.file_name ≡ o
      → ((open_store ops o d part w).0.file_name ≢ none)
        ⊎ ((open_store ops o d part w).0.body ≢ none)
  unfolding open_store
  end_header_stored none d part w e k = inr (some-ne-none _)
  end_header_stored (some n) none part w e k = inl (λ q. some-ne-none _ (sym k ∙ q))
  end_header_stored (some n) (some d) part w e k = elim (some-ne-none _ e) [ ]

  behind_header-IsIdle :
      (fuel : ℕ) (bytes : Bytes) (part : ContentPart) (o : Option ℕ) (w : W)
      → HasNoFile part
      → IsIdle w (behind_header ops fuel bytes part o w)
  unfolding behind_header end_header store
  behind_header-IsIdle fuel bytes part none w h = (h, refl)
  behind_header-IsIdle fuel bytes part (some offset) w h =
      let o = get_header_val part.header (codes "Content-Disposition") in
      let p = read_disposition o part in
      let hp = read_disposition-HasNoFile o part h in
      let e = open_store ops p.file_name p.dest_dir p w in
      let i = open_store-IsIdle p.file_name p.dest_dir p w hp.no_dir hp in
      subst (λ v. IsIdle v (store ops fuel (drop offset bytes) e.0 e.1)) i.1
        (store_to-IsIdle fuel (drop offset bytes) e.0 e.1 e.0.file_name e.0.body e.0.file_desc
          i.0.no_desc i.0 (end_header_stored p.file_name p.dest_dir p w hp.no_dir refl))

  -- Without a folder for uploads and an open file, data changes nothing on the disk.
  pub append_data-IsIdle :
      (fuel : ℕ) (part : ContentPart) (bytes : Bytes) (w : W)
      → HasNoFile part
      → IsIdle w (append_data ops fuel part bytes w)
  unfolding append_data store
  append_data-IsIdle fuel part bytes w h = go part.file_name part.body refl refl
    where
      go :
          (n b : Option Bytes)
          → part.file_name ≡ n
          → part.body ≡ b
          → IsIdle w (append_data ops fuel part bytes w)
      go none none e k =
          rw (append_data, e, k)
            (behind_header-IsIdle fuel bytes
              (record part {
                header = (DataHeader.append_data part.header bytes).0;
                file_name = none;
                body = none;
              })
              (DataHeader.append_data part.header bytes).1 w
              (record { no_dir = h.no_dir; no_desc = h.no_desc }))
      go none (some b) e k =
          rw (append_data, e, k) (record { no_dir = h.no_dir; no_desc = h.no_desc }, refl)
      go (some n) b e k =
          rw (append_data, e)
            (store_to-IsIdle fuel bytes (record part { file_name = some n }) w (some n) part.body
              part.file_desc h.no_desc (record { no_dir = h.no_dir; no_desc = h.no_desc })
              (inl (some-ne-none n)))
