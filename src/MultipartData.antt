-- ===== src/MultipartData.antt =====
-- src/multipartdata.c: a form's body in parts between boundary lines, as it arrives in pieces. A part
-- is an interface here: a new one, and one more piece for it.
pub mod Invariant
pub mod Termination
pub mod RoundTrip
use filemanager_httpd.Common.{
  ℕ, zero, suc, ◌+◌, ◌-◌, ◌*◌, ◌/◌, ◌%◌, ◌^◌, ◌≤◌, ◌<◌, min, ◌≡◌, refl, sym, ap, ◌∙◌, ◌≢◌, ◌↔◌, ◌⊎◌,
  inl, inr, Bool, true, false, not, ◌&&◌, ◌||◌, Option, none, some, List, [], ◌∷◌, ◌++◌, map,
  append-nil, append_assoc, arith, ltb, leb, ◌==◌, if◌then◌else◌, ltb→lt, lt→ltb, le→ltb, leb→le,
  ==_iff, Bool-cases, Option-cases, length, get_elem?, get_or, take, drop, replicate, is_empty, All,
  length-append, take-append-drop, length-drop, All-append,
}
use filemanager_httpd.Common.Strings.{
  Bytes, codes, take_while, drop_while, trim_end, c_str, split_chr, contains_chr, equal, to_lower,
  equal_ignore_case, starts_with, starts_with_ignore_case,
}

-- PP_GOT_WS is never set by the program.
pub data ParsePosition : Type 0 where
  pp_body pp_got_boundary pp_got_ws : ParsePosition

-- `boundary_delimiter` is `none` behind the last part. `delim_match_part` bytes of the delimiter are at
-- the end of the data so far.
pub record MultipartData (P : Type 0) : Type 0 where
  pub boundary_delimiter : Option Bytes
  pub parse_pos : ParsePosition
  pub delim_match_part : ℕ
  pub parts : List P

unfoldable pub new : {P : Type 0} → Bytes → MultipartData P
new boundary = record {
  boundary_delimiter = some (codes "\r\n--" ++ boundary);
  parse_pos = pp_body;
  delim_match_part = 2;
  parts = [];
}

-- `!memcmp(data, delim, min(len, delimLen))`
unfoldable pub agrees : Bytes → Bytes → Bool
agrees [] delim = true
agrees (c ∷ cs) [] = true
agrees (c ∷ cs) (d ∷ ds) = c == d && agrees cs ds

-- The loop with `memchr`: the data in front of the delimiter or of a part of it at the end, and the data
-- from there on.
unfoldable pub split_delim : Bytes → Bytes → Bytes × Bytes
unfolding agrees
split_delim delim [] = ([], [])
split_delim delim (c ∷ cs) =
    let r = split_delim delim cs in
    if c == b'\r' && agrees (c ∷ cs) delim then ([], c ∷ cs) else (c ∷ r.0, r.1)

module _ {P : Type 0} (new_part : P) (append_part : P → Bytes → P) where
  -- `if( mpdata->partCount > 0 ) cpart_appendData(mpdata->parts[mpdata->partCount-1], ...)`
  unfoldable pub append_last : List P → Bytes → List P
  append_last [] bytes = []
  append_last (p ∷ []) bytes = append_part p bytes ∷ []
  append_last (p ∷ q ∷ ps) bytes = p ∷ append_last (q ∷ ps) bytes

  -- A part's data up to the delimiter, or up to the end of the data: the data behind the delimiter.
  unfoldable pub take_part : Bytes → MultipartData P → Bytes → MultipartData P × Bytes
  unfolding split_delim append_last
  take_part delim mp bytes =
      let s = split_delim delim bytes in
      let parts = append_last mp.parts s.0 in
      if ltb (length s.1) (length delim)
      then (record mp { parse_pos = pp_body; parts = parts; delim_match_part = length s.1 }, [])
      else (record mp { parse_pos = pp_got_boundary; parts = parts }, drop (length delim) s.1)

  -- The rest of the boundary's line is skipped; where the line does not end yet, the position stays.
  unfoldable pub skip_line :
      Bytes → MultipartData P → Option (Bytes × Bytes) → MultipartData P × Bytes
  unfolding take_part
  skip_line delim mp none = (mp, [])
  skip_line delim mp (some (line, [])) = (record mp { parse_pos = pp_body }, [])
  skip_line delim mp (some (line, c ∷ cs)) = take_part delim mp (c ∷ cs)

  -- One round of the loop; the data that is left is empty where the loop ends.
  unfoldable pub round : Bytes → MultipartData P → Bytes → ParsePosition → MultipartData P × Bytes
  unfolding skip_line split_chr take_part
  round delim mp bytes pp_body = take_part delim mp bytes
  round delim mp bytes pp_got_ws = skip_line delim mp (split_chr b'\n' bytes)
  round delim mp bytes pp_got_boundary =
      if starts_with bytes (codes "-")
      then (record mp { boundary_delimiter = none }, [])
      else skip_line delim (record mp { parts = mp.parts ++ new_part ∷ [] }) (split_chr b'\n' bytes)

  -- `while( data != dataEnd )`
  unfoldable pub parse_loop : ℕ → Bytes → MultipartData P → Bytes → MultipartData P
  unfolding round
  parse_loop zero delim mp bytes = mp
  parse_loop (suc fuel) delim mp [] = mp
  parse_loop (suc fuel) delim mp (c ∷ cs) =
      let r = round delim mp (c ∷ cs) mp.parse_pos in parse_loop fuel delim r.0 r.1

  -- Where the data so far ends with a part of the delimiter: whether the data goes on with the rest.
  unfoldable pub resume : Bytes → MultipartData P → Bytes → MultipartData P × Bytes
  unfolding agrees append_last
  resume delim mp bytes =
      let rmdr = drop mp.delim_match_part delim in
      if mp.delim_match_part == 0
      then (mp, bytes)
      else if not (agrees bytes rmdr)
      then (
        record mp {
          parts = append_last mp.parts (take mp.delim_match_part delim);
          delim_match_part = 0;
        },
        bytes,
      )
      else if ltb (length bytes) (length rmdr)
      then (record mp { delim_match_part = mp.delim_match_part + length bytes }, [])
      else (
        record mp { delim_match_part = 0; parse_pos = pp_got_boundary },
        drop (length rmdr) bytes,
      )

  -- `mpdata_appendData`
  unfoldable pub append_data : MultipartData P → Bytes → MultipartData P
  unfolding resume parse_loop
  append_data mp bytes = elim mp.boundary_delimiter [
    | none ↦ mp
    | some delim ↦ let r = resume delim mp bytes in parse_loop (suc (length bytes)) delim r.0 r.1
  ]

module _ {P : Type 0} (name_equals : P → Bytes → Bool) where
  -- `mpdata_getPartByName`
  unfoldable pub get_part_by_name : List P → Bytes → Option P
  get_part_by_name [] name = none
  get_part_by_name (p ∷ ps) name =
      let rest = get_part_by_name ps name in if name_equals p name then some p else rest
