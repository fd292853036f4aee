-- ===== src/HeaderLines.antt =====
-- What src/dataheader.c and src/requestheader.c share: header text that arrives in pieces and is cut
-- into lines. The loop of `datahdr_appendData` and that of `reqhdr_appendData` differ in where the
-- incomplete line is kept and in what a complete line does, which are this module's parameters.
pub mod Steps
pub mod Streaming
pub mod RoundTrip
use filemanager_httpd.Common.{
  ℕ, zero, suc, ◌+◌, ◌-◌, ◌*◌, ◌/◌, ◌%◌, ◌^◌, ◌≤◌, ◌<◌, min, ◌≡◌, refl, sym, ap, ◌∙◌, ◌≢◌, ◌↔◌, ◌⊎◌,
  inl, inr, Bool, true, false, not, ◌&&◌, ◌||◌, Option, none, some, List, [], ◌∷◌, ◌++◌, map,
  append-nil, append_assoc, arith, ltb, leb, ◌==◌, if◌then◌else◌, ltb→lt, lt→ltb, le→ltb, leb→le,
  ==_iff, Bool-cases, Option-cases, length, get_elem?, get_or, take, drop, replicate, is_empty, All,
  length-append, take-append-drop, length-drop, All-append,
}
use filemanager_httpd.Common.Strings.{
  Bytes, codes, take_while, drop_while, trim_end, c_str, split_chr, contains_chr, equal, to_lower,
  equal_ignore_case, starts_with, starts_with_ignore_case,
}

-- A complete line: the colon was replaced by a zero byte, so the item holds two strings.
pub record HeaderLine : Type 0 where
  pub name : Bytes
  pub value : Bytes

-- `if( curLen > 0 && (*curLoc)[curLen-1] == '\r' ) (*curLoc)[--curLen] = '\0';`
unfoldable pub strip_cr : Bytes → Bytes
strip_cr [] = []
strip_cr (c ∷ []) = if c == b'\r' then [] else c ∷ []
strip_cr (c ∷ d ∷ ds) = c ∷ strip_cr (d ∷ ds)

-- The line, if it has a colon.
unfoldable pub split_line : Bytes → Option HeaderLine
unfolding split_chr c_str
split_line line = elim (split_chr b':' (c_str line)) [
  | none ↦ none
  | some (name, value) ↦ some (record { name = name; value = value })
]

-- Where an incomplete line is kept, and what is done with a complete one; true: it was the empty
-- line that ends the header.
pub record LineStore (S : Type 0) : Type 0 where
  pub current : S → Bytes
  pub set_current : Bytes → S → S
  pub end_line : Bytes → S → S × Bool

module _ {S : Type 0} (L : LineStore S) where
  -- One round for each line, with the bytes that are left. `none`: the data has run out.
  unfoldable pub append_loop : ℕ → S → Bytes → S × Option Bytes
  unfolding split_chr c_str strip_cr
  append_loop zero s bytes = (s, none)
  append_loop (suc fuel) s [] = (s, none)
  append_loop (suc fuel) s (c ∷ cs) = elim (split_chr b'\n' (c ∷ cs)) [
    | none ↦ (L.set_current (c_str (L.current s) ++ (c ∷ cs)) s, none)
    | some (line, rest) ↦
        let t = L.end_line (strip_cr (c_str (L.current s) ++ line)) s in
        let more = append_loop fuel t.0 rest in if t.1 then (t.0, some rest) else more
  ]

  -- The new state, and the number of bytes taken where the header is complete; `none` is -1.
  unfoldable pub append_data : S → Bytes → S × Option ℕ
  unfolding append_loop
  append_data s bytes =
      let r = append_loop (length bytes) s bytes in
      (r.0, elim r.1 [ none ↦ none | some rest ↦ some (length bytes - length rest) ])

abbrev pub is_blank : ℕ → Bool
is_blank c = c == b' ' || c == b'\t'

-- The value behind its leading blanks, of the first line with this name in any case.
unfoldable pub header_val : List HeaderLine → Bytes → Option Bytes
unfolding equal_ignore_case drop_while
header_val [] name = none
header_val (l ∷ ls) name =
    let rest = header_val ls name in
    if equal_ignore_case l.name name then some (drop_while is_blank l.value) else rest
