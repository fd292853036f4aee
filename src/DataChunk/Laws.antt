-- ===== src/DataChunk/Laws.antt =====
-- What the chunk operations of src/datachunk.c leave behind.
use filemanager_httpd.Common.{
  ℕ, ◌≡◌, refl, sym, ap, ◌∙◌, ◌≢◌, inl, inr, Bool, false, not, [], ◌∷◌, ◌++◌, append-nil, arith,
  ◌==◌, if◌then◌else◌, Option-cases, All,
}
use filemanager_httpd.Common.Strings.{Bytes, take_while, drop_while, trim_end, split_chr}
use filemanager_httpd.Common.Strings.Laws.{
  is_not, split_chr-some, split_chr-none, take_while-append-drop_while, All-take_while,
  trim_end_keep, trim_end-All, trim_end_split, first_is, last_is, first_is-drop_while,
  last_is-trim_end, first_is-trim_end, last_is-append, last_is-All,
}
use mathlib.Core.Path.{subst}
use filemanager_httpd.DataChunk.{
  DataChunk, is_ws, trim_ws, trim_slashes, dir_name_of, extract_till_chr, extract_till_ws,
}

-- Extraction up to a delimiter splits the chunk at the delimiter's first occurrence and drops it;
-- where the delimiter does not occur, it returns false, the part is the whole chunk and nothing
-- is left.
pub extract_till_chr_split :
    (dch : DataChunk) (delimiter : ℕ)
    → let e = extract_till_chr dch delimiter in
      All (is_not delimiter) e.sub_chunk
      × (if e.found
          then dch ≡ e.sub_chunk ++ (delimiter ∷ e.dch)
          else (dch ≡ e.sub_chunk) × (e.dch ≡ []))
unfolding extract_till_chr
extract_till_chr_split dch delimiter = elim (Option-cases (split_chr delimiter dch)) [
  | inl n ↦ rw (n, extract_till_chr) (split_chr-none delimiter dch n, (refl, refl))
  | inr ((a, b), s) ↦
      rw (s, extract_till_chr) (let (e, h) = split_chr-some delimiter dch s in (h, e))
]

-- Trimming takes white space off both ends, and only white space: the chunk is the result
-- between two runs of white space, and the result neither begins nor ends with any.
pub trim_ws_lem :
    (dch : DataChunk)
    → (before after : Bytes) × (dch ≡ before ++ (trim_ws dch ++ after))
      × All is_ws before
      × All is_ws after
      × (first_is is_ws (trim_ws dch) ≡ false)
      × (last_is is_ws (trim_ws dch) ≡ false)
unfolding trim_ws
trim_ws_lem dch =
    let (t, e, h) = trim_end_split is_ws (drop_while is_ws dch) in
    (
      take_while is_ws dch,
      t,
      sym (take_while-append-drop_while is_ws dch) ∙ ap (λ r. take_while is_ws dch ++ r) e,
      All-take_while is_ws dch,
      h,
      first_is-trim_end is_ws (drop_while is_ws dch) (first_is-drop_while is_ws dch),
      last_is-trim_end is_ws (drop_while is_ws dch),
    )

abbrev pub is_slash : ℕ → Bool
is_slash d = d == b'/'

abbrev pub not_slash : ℕ → Bool
not_slash d = not (d == b'/')

abbrev pub not_ws : ℕ → Bool
not_ws c = not (is_ws c)

take_while-ne-nil : (c : ℕ) (cs : Bytes) → is_ws c ≡ false → take_while not_ws (c ∷ cs) ≢ []
unfolding take_while
take_while-ne-nil c cs h = ground arith

-- The first word of a chunk, up to white space or the end, and what stands from the next word on.
pub record FirstWord (dch word rest : DataChunk) : Type 0 where
  pub before : Bytes
  pub between : Bytes
  pub splits : dch ≡ before ++ (word ++ (between ++ rest))
  pub before_is_ws : All is_ws before
  pub between_is_ws : All is_ws between
  pub has_no_ws : All (λ c. not (is_ws c)) word
  pub is_not_empty : word ≢ []
  pub ends_word : first_is not_ws (between ++ rest) ≡ false
  pub ends : first_is is_ws rest ≡ false

-- Extraction up to white space returns false exactly where the chunk is all white space; else the
-- part is the first word, and what is left begins with the next word.
pub extract_till_ws_split :
    (dch : DataChunk)
    → let e = extract_till_ws dch in
      if e.found then FirstWord dch e.sub_chunk e.dch else All is_ws dch × (e.sub_chunk ≡ [])
unfolding extract_till_ws
extract_till_ws_split dch =
    go (drop_while is_ws dch) refl (first_is-drop_while is_ws dch)
      (take_while-append-drop_while is_ws dch)
  where
    go :
        (k : Bytes)
        → drop_while is_ws dch ≡ k
        → first_is is_ws (drop_while is_ws dch) ≡ false
        → take_while is_ws dch ++ drop_while is_ws dch ≡ dch
        → let e = extract_till_ws dch in
          if e.found then FirstWord dch e.sub_chunk e.dch else All is_ws dch × (e.sub_chunk ≡ [])
    go [] q f s =
        rw (q, extract_till_ws)
          (subst (All is_ws) (sym (append-nil _) ∙ rw q at s) (All-take_while is_ws dch), refl)
    go (c ∷ cs) q f s =
        rw (q, extract_till_ws)
          (record {
            before = take_while is_ws dch;
            between = take_while is_ws (drop_while not_ws (c ∷ cs));
            splits =
                sym s
                ∙ ap (λ r. take_while is_ws dch ++ r)
                    (q
                      ∙ sym (take_while-append-drop_while not_ws (c ∷ cs))
                      ∙ ap (λ r. take_while not_ws (c ∷ cs) ++ r)
                          (sym (take_while-append-drop_while is_ws (drop_while not_ws (c ∷ cs)))));
            before_is_ws = All-take_while is_ws dch;
            between_is_ws = All-take_while is_ws (drop_while not_ws (c ∷ cs));
            has_no_ws = All-take_while not_ws (c ∷ cs);
            is_not_empty = take_while-ne-nil c cs (rw q at f);
            ends_word =
                subst (λ r. first_is not_ws r ≡ false)
                  (sym (take_while-append-drop_while is_ws (drop_while not_ws (c ∷ cs))))
                  (first_is-drop_while not_ws (c ∷ cs));
            ends = first_is-drop_while is_ws (drop_while not_ws (c ∷ cs));
          })

trim_slashes-append :
    (c : ℕ) (cs after : Bytes)
    → last_is is_slash cs ≡ false
    → All is_slash after
    → trim_slashes (c ∷ (cs ++ after)) ≡ c ∷ cs
unfolding trim_slashes
trim_slashes-append c cs after h k =
    ap (λ r. c ∷ r) (trim_end-All is_slash cs after k ∙ trim_end_keep is_slash cs h)

-- Only the slashes at the end of the directory go with the last element.
strip_base :
    (dir between base : Bytes) (d : ℕ)
    → All is_slash between
    → All not_slash (d ∷ base)
    → trim_end not_slash ((dir ++ (b'/' ∷ between)) ++ (d ∷ base)) ≡ dir ++ (b'/' ∷ between)
strip_base dir between base d i j =
    trim_end-All not_slash (dir ++ (b'/' ∷ between)) (d ∷ base) j
    ∙ trim_end_keep not_slash (dir ++ (b'/' ∷ between)) (
        last_is-append not_slash dir b'/' between
        ∙ last_is-All not_slash is_slash (b'/' ∷ between) (λ c e. ground arith) (refl, i))

last_is-tail :
    (c : ℕ) (cs : Bytes) → last_is is_slash (c ∷ cs) ≡ false → last_is is_slash cs ≡ false
last_is-tail c [] h = refl
last_is-tail c (d ∷ ds) h = h

-- The directory of a path that is `dir`, slashes, a last element, and any slashes behind it, is
-- `dir`, which is not empty and does not end with a slash.
pub dir_name_of_lem :
    (c : ℕ) (dir between : Bytes) (d : ℕ) (base after : Bytes)
    → last_is is_slash (c ∷ dir) ≡ false
    → All is_slash between
    → All not_slash (d ∷ base)
    → All is_slash after
    → dir_name_of (c ∷ (((dir ++ (b'/' ∷ between)) ++ (d ∷ base)) ++ after)) ≡ c ∷ dir
unfolding dir_name_of
dir_name_of_lem c dir between d base after h i j k =
    ap (λ r. trim_slashes (trim_end not_slash r))
      (trim_slashes-append c ((dir ++ (b'/' ∷ between)) ++ (d ∷ base)) after
        (last_is-append is_slash (dir ++ (b'/' ∷ between)) d base
          ∙ last_is-All is_slash not_slash (d ∷ base) (λ c e. ground arith) j)
        k)
    ∙ ap trim_slashes (strip_base (c ∷ dir) between base d i j)
    ∙ trim_slashes-append c dir (b'/' ∷ between) (last_is-tail c dir h) (refl, i)
