-- ===== src/DataHeader.antt =====
-- src/dataheader.c: the header lines of a form's part and of a CGI program's output.
pub mod Laws
use filemanager_httpd.Common.{
  ℕ, zero, suc, ◌+◌, ◌-◌, ◌*◌, ◌/◌, ◌%◌, ◌^◌, ◌≤◌, ◌<◌, min, ◌≡◌, refl, sym, ap, ◌∙◌, ◌≢◌, ◌↔◌, ◌⊎◌,
  inl, inr, Bool, true, false, not, ◌&&◌, ◌||◌, Option, none, some, List, [], ◌∷◌, ◌++◌, map,
  append-nil, append_assoc, arith, ltb, leb, ◌==◌, if◌then◌else◌, ltb→lt, lt→ltb, le→ltb, leb→le,
  ==_iff, Bool-cases, Option-cases, length, get_elem?, get_or, take, drop, replicate, is_empty, All,
  length-append, take-append-drop, length-drop, All-append,
}
use filemanager_httpd.Common.Strings.{
  Bytes, codes, take_while, drop_while, trim_end, c_str, split_chr, contains_chr, equal, to_lower,
  equal_ignore_case, starts_with, starts_with_ignore_case,
}
use filemanager_httpd.HeaderLines
use filemanager_httpd.HeaderLines.{HeaderLine, split_line, LineStore, header_val}

-- `lines` are the complete header lines, `current` the bytes of the incomplete item behind them. In a
-- complete line the colon was replaced by a zero byte: it holds the name and the value.
pub record DataHeader : Type 0 where
  pub lines : List HeaderLine
  pub current : Bytes

unfoldable pub new : DataHeader
new = record { lines = []; current = [] }

-- `datahdr_getHeaderLineAt`; `none` is the result false.
unfoldable pub get_header_line_at : DataHeader → ℕ → Option HeaderLine
get_header_line_at hdr idx = get_elem? hdr.lines idx

-- `datahdr_getHeaderVal`; `none` is NULL.
unfoldable pub get_header_val : DataHeader → Bytes → Option Bytes
unfolding header_val
get_header_val hdr header_name = header_val hdr.lines header_name

-- A complete line, with its carriage return removed. An empty line ends the header; a line with no
-- colon is dropped.
unfoldable pub end_line : Bytes → DataHeader → DataHeader × Bool
unfolding c_str split_line
end_line line hdr =
    if is_empty (c_str line)
    then (record hdr { current = line }, true)
    else elim (split_line line) [
      | some l ↦ (record hdr { lines = hdr.lines ++ l ∷ []; current = [] }, false)
      | none ↦ (record hdr { current = [] }, false)
    ]

unfoldable pub line_store : LineStore DataHeader
unfolding end_line
line_store = record {
  current = λ hdr. hdr.current;
  set_current = λ bytes hdr. record hdr { current = bytes };
  end_line = end_line;
}

-- `datahdr_appendData`; `none` is the result -1.
unfoldable pub append_data : DataHeader → Bytes → DataHeader × Option ℕ
unfolding line_store HeaderLines.append_data
append_data hdr bytes = HeaderLines.append_data line_store hdr bytes
