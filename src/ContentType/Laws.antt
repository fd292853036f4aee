-- ===== src/ContentType/Laws.antt =====
-- src/contenttype.c: which part of a name counts.
use filemanager_httpd.Common.{
  ℕ, ◌≡◌, refl, ap, ◌∙◌, false, ◌||◌, none, some, [], ◌∷◌, ◌++◌, arith, if◌then◌else◌, is_empty,
}
use filemanager_httpd.Common.Strings.{Bytes, codes, contains_chr}
use filemanager_httpd.ContentType.{
  split_last_chr, content_type_of, ends_with_slash, name_part, ext_part, ext_of,
  get_content_type_by_file_ext,
}

split_last_chr-absent :
    (c : ℕ) (bs : Bytes) → contains_chr c bs ≡ false → split_last_chr c bs ≡ none
unfolding split_last_chr contains_chr
split_last_chr-absent c [] h = refl
split_last_chr-absent c (d ∷ ds) h = rw (split_last_chr-absent c ds (ground arith)) (ground arith)

-- The last `c` is found behind whatever stands in front of it.
split_last_chr-append :
    (c : ℕ) (xs bs : Bytes)
    → contains_chr c bs ≡ false
    → split_last_chr c (xs ++ c ∷ bs) ≡ some (xs, bs)
unfolding split_last_chr contains_chr
split_last_chr-append c [] bs h = rw (split_last_chr-absent c bs h) (ground arith)
split_last_chr-append c (x ∷ xs) bs h = rw (split_last_chr-append c xs bs h) refl

ends_with_slash-absent : (bs : Bytes) → contains_chr b'/' bs ≡ false → ends_with_slash bs ≡ false
unfolding contains_chr
ends_with_slash-absent [] h = refl
ends_with_slash-absent (b ∷ []) h = ground arith
ends_with_slash-absent (b ∷ c ∷ cs) h = ends_with_slash-absent (c ∷ cs) (ground arith)

contains_chr-append :
    (c : ℕ) (xs ys : Bytes) → contains_chr c (xs ++ ys) ≡ contains_chr c xs || contains_chr c ys
unfolding contains_chr
contains_chr-append c [] ys = refl
contains_chr-append c (x ∷ xs) ys = rw (contains_chr-append c xs ys) (ground arith)

-- The rest of the function, once it has found where the name starts.
ext_of-dot :
    (fname before ext : Bytes)
    → name_part fname (split_last_chr b'/' fname) ≡ before ++ b'.' ∷ ext
    → is_empty before || ends_with_slash before ≡ false
    → contains_chr b'.' ext ≡ false
    → ext_of fname ≡ ext
ext_of-dot fname before ext e h k =
    ap (λ part. ext_part (split_last_chr b'.' part)) e
    ∙ ap ext_part (split_last_chr-append b'.' before ext k)
    ∙ ap (λ b. if b then codes "txt" else ext) h

-- A file's type is that of what stands behind the last dot of its name, in whatever folder the file
-- is and whatever dots stand before, in the folder's names too. The name has something before the
-- dot.
pub get_content_type_by_file_ext_lem :
    (dir : Bytes) (c : ℕ) (stem ext : Bytes)
    → contains_chr b'/' (c ∷ stem) ≡ false
    → contains_chr b'/' ext ≡ false
    → contains_chr b'.' ext ≡ false
    → (get_content_type_by_file_ext (dir ++ b'/' ∷ ((c ∷ stem) ++ b'.' ∷ ext))
        ≡ content_type_of ext)
      × (get_content_type_by_file_ext ((c ∷ stem) ++ b'.' ∷ ext) ≡ content_type_of ext)
unfolding get_content_type_by_file_ext contains_chr
get_content_type_by_file_ext_lem dir c stem ext h k l = (
  ap content_type_of (
      ext_of-dot (dir ++ b'/' ∷ ((c ∷ stem) ++ b'.' ∷ ext)) (b'/' ∷ c ∷ stem) ext
        (ap (name_part (dir ++ b'/' ∷ ((c ∷ stem) ++ b'.' ∷ ext)))
          (split_last_chr-append b'/' dir ((c ∷ stem) ++ b'.' ∷ ext) no_slash))
        (ends_with_slash-absent (c ∷ stem) h) l),
  ap content_type_of (
      ext_of-dot ((c ∷ stem) ++ b'.' ∷ ext) (c ∷ stem) ext
        (ap (name_part ((c ∷ stem) ++ b'.' ∷ ext))
          (split_last_chr-absent b'/' ((c ∷ stem) ++ b'.' ∷ ext) no_slash))
        (ends_with_slash-absent (c ∷ stem) h) l),
)
  where
    no_slash : contains_chr b'/' ((c ∷ stem) ++ b'.' ∷ ext) ≡ false
    no_slash = contains_chr-append b'/' (c ∷ stem) (b'.' ∷ ext) ∙ rw h k
