-- ===== src/MultipartData/RoundTrip.antt =====
-- src/multipartdata.c on a whole form: what is put between the boundary lines is what the parts get.
use filemanager_httpd.Common.{
  ℕ, zero, suc, ◌+◌, ◌-◌, ◌≤◌, ◌<◌, ◌≡◌, refl, sym, ap, ◌∙◌, ◌⊎◌, inl, inr, true, false, none, some,
  List, [], ◌∷◌, ◌++◌, map, append-nil, append_assoc, arith, ltb, le→ltb, Bool-cases, length, drop,
  length-append, length-drop,
}
use filemanager_httpd.Common.Strings.{Bytes, codes, split_chr, starts_with}
use mathlib.Core.Path.{subst}
use filemanager_httpd.MultipartData
use filemanager_httpd.MultipartData.{
  MultipartData, ParsePosition, pp_body, pp_got_boundary, pp_got_ws, agrees, split_delim,
  append_last, take_part, skip_line, round, parse_loop, resume, append_data,
}

-- In the text with the delimiter behind it, the delimiter is nowhere but at the end.
abbrev pub IsFree : Bytes → Bytes → Type 0
IsFree delim text = (a b : Bytes) → text ++ delim ≡ a ++ (delim ++ b) → b ≡ []

agrees_refl : (delim rest : Bytes) → agrees (delim ++ rest) delim ≡ true
unfolding agrees
agrees_refl [] [] = refl
agrees_refl [] (c ∷ cs) = refl
agrees_refl (c ∷ delim) rest = ground (arith, agrees_refl delim rest)

-- Text that agrees with a delimiter, and is as long, starts with it.
agrees-split :
    (text rest delim : Bytes)
    → length delim ≤ length text
    → agrees (text ++ rest) delim ≡ true
    → text ≡ delim ++ drop (length delim) text
unfolding agrees
agrees-split text rest [] h k = refl
agrees-split [] rest (d ∷ delim) h k = ground arith
agrees-split (c ∷ text) rest (d ∷ delim) h k =
    let ih = agrees-split text rest delim in ground (arith, ih, h, k)

IsFree-cons : (delim : Bytes) (c : ℕ) (cs : Bytes) → IsFree delim (c ∷ cs) → IsFree delim cs
IsFree-cons delim c cs h a b e = h (c ∷ a) b (ap (λ t. c ∷ t) e)

-- Where the text is not at its end, it does not agree.
disagrees :
    (delim : Bytes) (c : ℕ) (cs rest : Bytes)
    → IsFree delim (c ∷ cs)
    → agrees ((c ∷ cs) ++ (delim ++ rest)) delim ≡ false
disagrees delim c cs rest h = go (Bool-cases (agrees ((c ∷ cs) ++ (delim ++ rest)) delim))
  where
    longer :
        (n : ℕ) (d : Bytes)
        → length d ≡ n
        → 0 < n
        → d ≡ []
        → agrees ((c ∷ cs) ++ (delim ++ rest)) delim ≡ false
    longer n [] e k z = ground arith
    longer n (x ∷ d) e k z = cc

    go :
        ((agrees ((c ∷ cs) ++ (delim ++ rest)) delim ≡ true)
          ⊎ (agrees ((c ∷ cs) ++ (delim ++ rest)) delim ≡ false))
        → agrees ((c ∷ cs) ++ (delim ++ rest)) delim ≡ false
    go (inr e) = e
    go (inl e) =
        let text = (c ∷ cs) ++ delim in
        let l = length-append (c ∷ cs) delim in
        let s =
          agrees-split text rest delim (omega arith)
            (subst (λ t. agrees t delim ≡ true) (sym (append_assoc (c ∷ cs) delim rest)) e) in
        longer (length text - length delim) (drop (length delim) text)
          (length-drop (length delim) text) (omega arith) (h [] (drop (length delim) text) s)

-- The delimiter starts with a carriage return.
split_delim_free :
    (d : ℕ) (ds text rest : Bytes)
    → d ≡ b'\r'
    → IsFree (d ∷ ds) text
    → split_delim (d ∷ ds) (text ++ ((d ∷ ds) ++ rest)) ≡ (text, (d ∷ ds) ++ rest)
unfolding split_delim agrees
split_delim_free d ds [] rest e h = let a = agrees_refl ds rest in ground (arith, a, e)
split_delim_free d ds (c ∷ cs) rest e h =
    let ih = split_delim_free d ds cs rest e (IsFree-cons (d ∷ ds) c cs h) in
    let n = disagrees (d ∷ ds) c cs rest h in ground (arith, ih, n)

drop-append : (xs ys : Bytes) → drop (length xs) (xs ++ ys) ≡ ys
drop-append [] ys = refl
drop-append (x ∷ xs) ys = drop-append xs ys

module _ {P : Type 0} (new_part : P) (append_part : P → Bytes → P) where
  append_last-new :
      (ps : List P) (p : P) (bytes : Bytes)
      → append_last new_part append_part (ps ++ (p ∷ [])) bytes ≡ ps ++ (append_part p bytes ∷ [])
  unfolding append_last
  append_last-new [] p bytes = refl
  append_last-new (q ∷ []) p bytes = refl
  append_last-new (q ∷ r ∷ ps) p bytes = ap (λ l. q ∷ l) (append_last-new (r ∷ ps) p bytes)

  module _ (ds : Bytes) where
    abbrev pub delim : Bytes
    delim = b'\r' ∷ ds

    -- What follows a boundary: the parts, each with the boundary behind it, and the end.
    abbrev pub after_boundary : List Bytes → Bytes → Bytes
    after_boundary [] epilogue = codes "--" ++ epilogue
    after_boundary (text ∷ texts) epilogue =
        codes "\r\n" ++ (text ++ (delim ++ after_boundary texts epilogue))

    abbrev pub AreFree : List Bytes → Type 0
    AreFree [] = Unit
    AreFree (text ∷ texts) = IsFree delim text × AreFree texts

    got : List P → MultipartData P
    got parts = record {
      boundary_delimiter = some delim;
      parse_pos = pp_got_boundary;
      delim_match_part = 0;
      parts = parts;
    }

    take_part_free :
        (parts : List P) (text rest : Bytes)
        → IsFree delim text
        → take_part new_part append_part delim
            (got (parts ++ (new_part ∷ [])))
            (text ++ (delim ++ rest))
          ≡ (got (parts ++ (append_part new_part text ∷ [])), rest)
    unfolding take_part got
    take_part_free parts text rest h =
        rw
          (split_delim_free b'\r' ds text rest refl h, append_last-new parts new_part text, shorter)
          (ap (λ r. (got (parts ++ (append_part new_part text ∷ [])), r)) (drop-append delim rest))
      where
        shorter : ltb (length (delim ++ rest)) (length delim) ≡ false
        shorter = let l = length-append delim rest in ground (arith, l)

    skip_line-take :
        (mp : MultipartData P) (line text rest : Bytes)
        → skip_line new_part append_part delim mp (some (line, text ++ (delim ++ rest)))
          ≡ take_part new_part append_part delim mp (text ++ (delim ++ rest))
    unfolding skip_line
    skip_line-take mp line [] rest = refl
    skip_line-take mp line (c ∷ text) rest = refl

    round-part :
        (parts : List P) (text rest : Bytes)
        → IsFree delim text
        → round new_part append_part delim
            (got parts)
            (codes "\r\n" ++ (text ++ (delim ++ rest)))
            pp_got_boundary
          ≡ (got (parts ++ (append_part new_part text ∷ [])), rest)
    unfolding round got split_chr starts_with
    round-part parts text rest h =
        skip_line-take (got (parts ++ (new_part ∷ []))) (codes "\r") text rest
        ∙ take_part_free parts text rest h

    -- What the loop makes of the parts.
    parse_loop-parts :
        (texts : List Bytes) (epilogue : Bytes) (parts : List P) (fuel : ℕ)
        → AreFree texts
        → length (after_boundary texts epilogue) < fuel
        → parse_loop new_part append_part fuel delim (got parts) (after_boundary texts epilogue)
          ≡ record (got (parts ++ map (append_part new_part) texts)) { boundary_delimiter = none }
    unfolding parse_loop round got starts_with
    parse_loop-parts [] epilogue parts zero h l = ground arith
    parse_loop-parts (text ∷ texts) epilogue parts zero h l = ground arith
    parse_loop-parts [] epilogue parts (suc fuel) h l = rw append-nil (ends fuel)
      where
        ends :
            (fuel : ℕ)
            → parse_loop new_part append_part fuel delim
                (record (got parts) { boundary_delimiter = none })
                []
              ≡ record (got parts) { boundary_delimiter = none }
        ends zero = refl
        ends (suc n) = refl
    parse_loop-parts (text ∷ texts) epilogue parts (suc fuel) h l =
        let rest = after_boundary texts epilogue in
        let x = append_part new_part text in
        let l1 = length-append text (delim ++ rest) in
        let l2 = length-append delim rest in
        let ih = parse_loop-parts texts epilogue (parts ++ (x ∷ [])) fuel h.1 (omega arith) in
        rw (round-part parts text rest h.0) (
          ih
          ∙ ap (λ ps. record (got ps) { boundary_delimiter = none })
              (append_assoc parts (x ∷ []) (map (append_part new_part) texts)))

  -- A form: the parts between boundary lines, and an epilogue.
  abbrev pub form : Bytes → List Bytes → Bytes → Bytes
  form boundary texts epilogue =
      codes "--" ++ (boundary ++ after_boundary (codes "\n--" ++ boundary) texts epilogue)

  resume-start :
      (boundary after : Bytes)
      → resume new_part append_part
          (delim (codes "\n--" ++ boundary))
          (MultipartData.new boundary)
          (codes "--" ++ (boundary ++ after))
        ≡ (got (codes "\n--" ++ boundary) [], after)
  unfolding resume MultipartData.new agrees got
  resume-start boundary after =
      let l = length-append boundary after in
      rw
        (
          agrees_refl boundary after,
          le→ltb (length (codes "--" ++ (boundary ++ after))) (length (codes "--" ++ boundary))
              (omega arith),
          drop-append boundary after,
        )
        refl

  -- Of a form that arrives in one piece, each part gets the text that stands between its boundary
  -- lines, where the line break and the boundary are not in the texts; the epilogue is dropped.
  pub append_data-form :
      (boundary : Bytes) (texts : List Bytes) (epilogue : Bytes)
      → AreFree (codes "\n--" ++ boundary) texts
      → (append_data new_part append_part
          (MultipartData.new boundary)
          (form boundary texts epilogue)).parts
        ≡ map (append_part new_part) texts
  unfolding append_data MultipartData.new got
  append_data-form boundary texts epilogue h =
      let after = after_boundary (codes "\n--" ++ boundary) texts epilogue in
      let ds = codes "\n--" ++ boundary in
      let fuel = suc (length (form boundary texts epilogue)) in
      ap
        (λ (r : MultipartData P × Bytes).
          (parse_loop new_part append_part fuel (delim ds) r.0 r.1).parts)
        (resume-start boundary after)
      ∙ ap (λ (mp : MultipartData P). mp.parts)
          (parse_loop-parts ds texts epilogue [] fuel h (go (length-append boundary after)))
    where
      go :
          length (boundary ++ after_boundary (codes "\n--" ++ boundary) texts epilogue)
            ≡ length boundary + length (after_boundary (codes "\n--" ++ boundary) texts epilogue)
          → length (after_boundary (codes "\n--" ++ boundary) texts epilogue)
            < suc (length (form boundary texts epilogue))
      go l = omega arith
