-- ===== src/MultipartData/Invariant.antt =====
-- src/multipartdata.c: what holds of a new part, and is kept when a part gets data, holds of all parts.
use filemanager_httpd.Common.{
  ℕ, zero, suc, ◌≡◌, refl, Bool, true, false, not, Option, none, some, List, [], ◌∷◌, ◌++◌, ltb,
  ◌==◌, if◌then◌else◌, length, take, drop,
}
use filemanager_httpd.Common.Strings.{Bytes, codes, split_chr, starts_with}
use filemanager_httpd.MultipartData.{
  MultipartData, ParsePosition, pp_body, pp_got_boundary, pp_got_ws, agrees, split_delim,
  append_last, take_part, skip_line, round, parse_loop, resume, append_data,
}

-- Of each element.
abbrev pub Each : {P : Type 0} → (P → Type 0) → List P → Type 0
Each q [] = Unit
Each q (p ∷ ps) = q p × Each q ps

module _ {P : Type 0} (new_part : P) (append_part : P → Bytes → P) (q : P → Type 0)
    (at_new : q new_part)
    (at_append : (p : P) (bytes : Bytes) → q p → q (append_part p bytes)) where
  append_last-Each :
      (ps : List P) (bytes : Bytes) → Each q ps → Each q (append_last new_part append_part ps bytes)
  unfolding append_last
  append_last-Each [] bytes h = tt
  append_last-Each (p ∷ []) bytes h = (at_append p bytes h.0, tt)
  append_last-Each (p ∷ r ∷ ps) bytes h = (h.0, append_last-Each (r ∷ ps) bytes h.1)

  cons_new-Each : (ps : List P) → Each q ps → Each q (ps ++ (new_part ∷ []))
  cons_new-Each [] h = (at_new, tt)
  cons_new-Each (p ∷ ps) h = (h.0, cons_new-Each ps h.1)

  if-Each :
      (b : Bool) (x y : MultipartData P × Bytes)
      → Each q x.0.parts
      → Each q y.0.parts
      → Each q (if b then x else y).0.parts
  if-Each true x y h k = h
  if-Each false x y h k = k

  take_part-Each :
      (delim : Bytes) (mp : MultipartData P) (bytes : Bytes)
      → Each q mp.parts
      → Each q (take_part new_part append_part delim mp bytes).0.parts
  unfolding take_part
  take_part-Each delim mp bytes h =
      let s = split_delim delim bytes in
      let parts = append_last-Each mp.parts s.0 h in
      if-Each (ltb (length s.1) (length delim)) (_, _) (_, _) parts parts

  skip_line-Each :
      (delim : Bytes) (mp : MultipartData P) (o : Option (Bytes × Bytes))
      → Each q mp.parts
      → Each q (skip_line new_part append_part delim mp o).0.parts
  unfolding skip_line
  skip_line-Each delim mp none h = h
  skip_line-Each delim mp (some (line, [])) h = h
  skip_line-Each delim mp (some (line, c ∷ cs)) h = take_part-Each delim mp (c ∷ cs) h

  round-Each :
      (delim : Bytes) (mp : MultipartData P) (bytes : Bytes) (pos : ParsePosition)
      → Each q mp.parts
      → Each q (round new_part append_part delim mp bytes pos).0.parts
  unfolding round
  round-Each delim mp bytes pp_body h = take_part-Each delim mp bytes h
  round-Each delim mp bytes pp_got_ws h = skip_line-Each delim mp (split_chr b'\n' bytes) h
  round-Each delim mp bytes pp_got_boundary h =
      if-Each (starts_with bytes (codes "-")) (record mp { boundary_delimiter = none }, []) _ h
        (skip_line-Each delim (record mp { parts = mp.parts ++ new_part ∷ [] })
          (split_chr b'\n' bytes) (cons_new-Each mp.parts h))

  parse_loop-Each :
      (fuel : ℕ) (delim : Bytes) (mp : MultipartData P) (bytes : Bytes)
      → Each q mp.parts
      → Each q (parse_loop new_part append_part fuel delim mp bytes).parts
  unfolding parse_loop
  parse_loop-Each zero delim mp bytes h = h
  parse_loop-Each (suc fuel) delim mp [] h = h
  parse_loop-Each (suc fuel) delim mp (c ∷ cs) h =
      let r = round new_part append_part delim mp (c ∷ cs) mp.parse_pos in
      parse_loop-Each fuel delim r.0 r.1 (round-Each delim mp (c ∷ cs) mp.parse_pos h)

  resume-Each :
      (delim : Bytes) (mp : MultipartData P) (bytes : Bytes)
      → Each q mp.parts
      → Each q (resume new_part append_part delim mp bytes).0.parts
  unfolding resume
  resume-Each delim mp bytes h =
      if-Each (mp.delim_match_part == 0) (mp, bytes) _ h
        (if-Each (not (agrees bytes (drop mp.delim_match_part delim))) (_, _) _
          (append_last-Each mp.parts (take mp.delim_match_part delim) h)
          (if-Each (ltb (length bytes) (length (drop mp.delim_match_part delim))) (_, _) (_, _) h
            h))

  -- What holds of a new part and is kept when a part gets data still holds of all parts when the form
  -- gets data.
  pub append_data-Each :
      (mp : MultipartData P) (bytes : Bytes)
      → Each q mp.parts
      → Each q (append_data new_part append_part mp bytes).parts
  unfolding append_data
  append_data-Each mp bytes h = go mp.boundary_delimiter refl
    where
      go :
          (o : Option Bytes)
          → mp.boundary_delimiter ≡ o
          → Each q (append_data new_part append_part mp bytes).parts
      go none e = rw (append_data, e) h
      go (some delim) e =
          rw (append_data, e)
            (let r = resume new_part append_part delim mp bytes in
              parse_loop-Each (suc (length bytes)) delim r.0 r.1 (resume-Each delim mp bytes h))
