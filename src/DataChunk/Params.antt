-- ===== src/DataChunk/Params.antt =====
-- Lists of parameters, `name=value` with a delimiter: the loop over `dch_extractParam` that
-- src/auth.c, src/contentpart.c and src/filemanager.c share, as a list.
pub mod RoundTrip
pub mod Writing
use filemanager_httpd.Common.{
  ℕ, zero, suc, ◌+◌, ◌-◌, ◌*◌, ◌/◌, ◌%◌, ◌^◌, ◌≤◌, ◌<◌, min, ◌≡◌, refl, sym, ap, ◌∙◌, ◌≢◌, ◌↔◌, ◌⊎◌,
  inl, inr, Bool, true, false, not, ◌&&◌, ◌||◌, Option, none, some, List, [], ◌∷◌, ◌++◌, map,
  append-nil, append_assoc, arith, ltb, leb, ◌==◌, if◌then◌else◌, ltb→lt, lt→ltb, le→ltb, leb→le,
  ==_iff, Bool-cases, Option-cases, length, get_elem?, get_or, take, drop, replicate, is_empty, All,
  length-append, take-append-drop, length-drop, All-append,
}
use filemanager_httpd.Common.Strings.{
  Bytes, codes, take_while, drop_while, trim_end, c_str, split_chr, contains_chr, equal, to_lower,
  equal_ignore_case, starts_with, starts_with_ignore_case,
}
use filemanager_httpd.Common.Strings.Laws.{
  is_not, split_chr-append, split_chr-absent, drop_while_keep, drop_while-append, trim_end_keep,
  trim_end-All, first_is, last_is,
}
use filemanager_httpd.DataChunk.{
  DataChunk, is_ws, skip_leading_ws, trim_trailing_ws, trim_ws, extract_till_chr, extract_value,
  extract_param, shift_after_chr,
}

-- `while( dch_extractParam(&line, &name, &value, delimiter) )`, as the list of the parameters that
-- the body sees; each round takes at least the equals sign off the line.
unfoldable pub params_loop : ℕ → DataChunk → DataChunk → ℕ → List (DataChunk × DataChunk)
unfolding extract_param
params_loop zero line value delimiter = []
params_loop (suc fuel) line value delimiter =
    let p = extract_param line value delimiter in
    let rest = params_loop fuel p.param_line p.value delimiter in
    if p.found then (p.name, p.value) ∷ rest else []

unfoldable pub params : DataChunk → ℕ → List (DataChunk × DataChunk)
unfolding params_loop
params line delimiter = params_loop (length line) line [] delimiter
