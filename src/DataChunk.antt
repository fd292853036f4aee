-- ===== src/DataChunk.antt =====
-- src/datachunk.c and src/datachunk.h: references to a chunk of bytes within a buffer.
-- A chunk is modelled by the bytes that it refers to, from `data` to `data + len`; a function that
-- moves the chunk returns the new bytes. A cleared chunk is empty.
pub mod Laws
pub mod Params
use filemanager_httpd.Common.Strings.Number.{strtoul?}
use filemanager_httpd.Common.{
  ℕ, zero, suc, ◌+◌, ◌-◌, ◌*◌, ◌/◌, ◌%◌, ◌^◌, ◌≤◌, ◌<◌, min, ◌≡◌, refl, sym, ap, ◌∙◌, ◌≢◌, ◌↔◌, ◌⊎◌,
  inl, inr, Bool, true, false, not, ◌&&◌, ◌||◌, Option, none, some, List, [], ◌∷◌, ◌++◌, map,
  append-nil, append_assoc, arith, ltb, leb, ◌==◌, if◌then◌else◌, ltb→lt, lt→ltb, le→ltb, leb→le,
  ==_iff, Bool-cases, Option-cases, length, get_elem?, get_or, take, drop, replicate, is_empty, All,
  length-append, take-append-drop, length-drop, All-append,
}
use filemanager_httpd.Common.Strings.{
  Bytes, codes, take_while, drop_while, trim_end, c_str, split_chr, contains_chr, equal, to_lower,
  equal_ignore_case, starts_with, starts_with_ignore_case,
}

abbrev pub DataChunk : Type 0
DataChunk = Bytes

-- `gWhiteSpaces`; a zero byte is none of them.
unfoldable pub is_ws : ℕ → Bool
is_ws c = c == b' ' || c == b'\t' || c == b'\n'

abbrev pub clear : DataChunk
clear = []

-- `dch_init` and `dch_initWithStr`, from the buffer that the pointer leads into.
unfoldable pub init : Bytes → ℕ → DataChunk
init bytes len = take len bytes

unfoldable pub init_with_str : Bytes → DataChunk
unfolding c_str
init_with_str str = c_str str

-- The moved chunk, and whether it was moved.
unfoldable pub shift : DataChunk → ℕ → DataChunk × Bool
shift dch size = if ltb (length dch) size then (dch, false) else (drop size dch, true)

unfoldable pub shift_after_chr : DataChunk → ℕ → DataChunk × Bool
unfolding split_chr
shift_after_chr dch c = elim (split_chr c dch) [
  | none ↦ (dch, false)
  | some (before, after) ↦ (after, true)
]

unfoldable pub skip_leading : DataChunk → ℕ → DataChunk
unfolding drop_while
skip_leading dch c = drop_while (λ d. d == c) dch

unfoldable pub trim_trailing : DataChunk → ℕ → DataChunk
unfolding trim_end
trim_trailing dch c = trim_end (λ d. d == c) dch

unfoldable pub skip_leading_ws : DataChunk → DataChunk
unfolding drop_while is_ws
skip_leading_ws = drop_while is_ws

unfoldable pub trim_trailing_ws : DataChunk → DataChunk
unfolding trim_end is_ws
trim_trailing_ws = trim_end is_ws

unfoldable pub trim_ws : DataChunk → DataChunk
unfolding skip_leading_ws trim_trailing_ws
trim_ws dch = trim_trailing_ws (skip_leading_ws dch)

-- `while( len > 1 && data[len-1] == '/' ) --len;`: the first byte stays.
unfoldable pub trim_slashes : Bytes → Bytes
unfolding trim_end
trim_slashes [] = []
trim_slashes (c ∷ cs) = c ∷ trim_end (λ d. d == b'/') cs

unfoldable pub dir_name_of : DataChunk → DataChunk
unfolding trim_slashes trim_end
dir_name_of file_name = trim_slashes (trim_end (λ d. not (d == b'/')) (trim_slashes file_name))

-- What an extraction leaves in its parameters, and what it returns.
pub record Extracted : Type 0 where
  pub found : Bool
  pub dch : DataChunk
  pub sub_chunk : DataChunk

unfoldable pub extract_till_chr : DataChunk → ℕ → Extracted
unfolding split_chr
extract_till_chr dch delimiter = elim (split_chr delimiter dch) [
  | some (before, after) ↦ record { found = true; dch = after; sub_chunk = before }
  | none ↦ record { found = false; dch = clear; sub_chunk = dch }
]

unfoldable pub extract_till_chr_strip_ws : DataChunk → ℕ → Extracted
unfolding extract_till_chr skip_leading_ws trim_trailing_ws
extract_till_chr_strip_ws dch delimiter =
    let e = extract_till_chr dch delimiter in
    if e.found
    then record e { dch = skip_leading_ws e.dch; sub_chunk = trim_trailing_ws e.sub_chunk }
    else e

unfoldable pub extract_till_ws : DataChunk → Extracted
unfolding skip_leading_ws take_while
extract_till_ws dch =
    let rest = skip_leading_ws dch in
    if is_empty rest then record { found = false; dch = rest; sub_chunk = clear } else record {
      found = true;
      dch = skip_leading_ws (drop_while (λ c. not (is_ws c)) rest);
      sub_chunk = take_while (λ c. not (is_ws c)) rest;
    }

-- What `dch_extractParam` leaves in its three chunks, and what it returns.
pub record Param : Type 0 where
  pub found : Bool
  pub param_line : DataChunk
  pub name : DataChunk
  pub value : DataChunk

-- Behind the equals sign. The line is matched on for the test of its first byte.
unfoldable pub extract_value : DataChunk → ℕ → DataChunk × DataChunk
unfolding extract_till_chr shift_after_chr trim_trailing_ws
extract_value [] delimiter =
    let e = extract_till_chr [] delimiter in (e.dch, trim_trailing_ws e.sub_chunk)
extract_value (c ∷ cs) delimiter =
    if c == b'"'
    then (let e = extract_till_chr cs b'"' in ((shift_after_chr e.dch delimiter).0, e.sub_chunk))
    else (let e = extract_till_chr (c ∷ cs) delimiter in (e.dch, trim_trailing_ws e.sub_chunk))

-- `value_buf` is what the value's chunk held before.
unfoldable pub extract_param : DataChunk → DataChunk → ℕ → Param
unfolding extract_till_chr trim_ws skip_leading_ws extract_value
extract_param param_line value_buf delimiter =
    let e = extract_till_chr param_line b'=' in
    if e.found
    then (let (line, value) = extract_value (skip_leading_ws e.dch) delimiter in
        record { found = true; param_line = line; name = trim_ws e.sub_chunk; value = value })
    else record { found = false; param_line = e.dch; name = e.sub_chunk; value = value_buf }

unfoldable pub equals_str : DataChunk → Bytes → Bool
unfolding equal
equals_str dch str = equal dch str

unfoldable pub equals_str_ignore_case : DataChunk → Bytes → Bool
unfolding equal_ignore_case
equals_str_ignore_case dch str = equal_ignore_case dch str

unfoldable pub starts_with_str : DataChunk → Bytes → Bool
unfolding starts_with
starts_with_str dch str = starts_with dch str

unfoldable pub starts_with_str_ignore_case : DataChunk → Bytes → Bool
unfolding starts_with_ignore_case
starts_with_str_ignore_case dch str = starts_with_ignore_case dch str

unfoldable pub end_of_span : DataChunk → ℕ → ℕ → ℕ
unfolding take_while
end_of_span dch idx_from c = idx_from + length (take_while (λ d. d == c) (drop idx_from dch))

unfoldable pub end_of_c_span : DataChunk → ℕ → ℕ → ℕ
unfolding take_while
end_of_c_span dch idx_from c =
    idx_from + length (take_while (λ d. not (d == c)) (drop idx_from dch))

-- The string that the copy holds: the copy is the bytes and a zero byte.
unfoldable pub dup_to_str : DataChunk → Bytes
unfolding c_str
dup_to_str dch = c_str dch

-- `none` leaves the caller's number unchanged. The result is cut to 32 bits.
unfoldable pub to_uint : DataChunk → ℕ → Option ℕ
unfolding dup_to_str strtoul?
to_uint dch base =
    if is_empty dch
    then none
    else elim (strtoul? base (dup_to_str dch)) [ none ↦ none | some n ↦ some (n % 2 ^ 32) ]
