-- ===== src/HeaderLines/RoundTrip.antt =====
-- Complete header lines, as they are sent, are read back by the loop of src/dataheader.c and
-- src/requestheader.c.
use filemanager_httpd.Common.{
  ℕ, suc, ◌+◌, ◌<◌, ◌≡◌, refl, sym, ap, ◌∙◌, Bool, false, some, List, [], ◌∷◌, ◌++◌, append_assoc,
  arith, if◌then◌else◌, length, is_empty, All, length-append, All-append,
}
use filemanager_httpd.Common.Strings.{Bytes, c_str, split_chr}
use filemanager_httpd.Common.Strings.Laws.{is_not, split_chr-append, c_str-All}
use filemanager_httpd.HeaderLines.{HeaderLine, strip_cr, split_line, LineStore, append_loop}
use filemanager_httpd.HeaderLines.Steps.{ended, loop_some}

abbrev pub crlf : Bytes → Bytes
crlf rest = b'\r' ∷ b'\n' ∷ rest

-- Name, colon, value; any white space in front of the value is part of it.
abbrev pub line_text : HeaderLine → Bytes
line_text l = l.name ++ (b':' ∷ l.value)

-- A line that can be sent: the name ends at the first colon, and neither part can end the line.
pub record IsSendable (l : HeaderLine) : Type 0 where
  pub name_no_colon : All (is_not b':') l.name
  pub name_no_zero : All (is_not 0) l.name
  pub name_no_newline : All (is_not b'\n') l.name
  pub value_no_zero : All (is_not 0) l.value
  pub value_no_newline : All (is_not b'\n') l.value

abbrev pub AreSendable : List HeaderLine → Type 0
AreSendable [] = Unit
AreSendable (l ∷ ls) = IsSendable l × AreSendable ls

-- The lines, the empty line, and what follows the header.
abbrev pub header_text : List HeaderLine → Bytes → Bytes
header_text [] rest = crlf rest
header_text (l ∷ ls) rest = line_text l ++ crlf (header_text ls rest)

strip_cr-append : (b : Bytes) → strip_cr (b ++ (b'\r' ∷ [])) ≡ b
unfolding strip_cr
strip_cr-append [] = refl
strip_cr-append (c ∷ []) = refl
strip_cr-append (c ∷ d ∷ ds) = ap (λ r. c ∷ r) (strip_cr-append (d ∷ ds))

pub split_line-line_text : (l : HeaderLine) → IsSendable l → split_line (line_text l) ≡ some l
unfolding split_line
split_line-line_text l h = ground (
  arith,
  c_str-All (line_text l)
      (All-append (is_not 0) l.name (b':' ∷ l.value) h.name_no_zero (refl, h.value_no_zero)),
  split_chr-append b':' l.name l.value h.name_no_colon,
)

pub line_text-no_newline : (l : HeaderLine) → IsSendable l → All (is_not b'\n') (line_text l)
line_text-no_newline l h =
    All-append (is_not b'\n') l.name (b':' ∷ l.value) h.name_no_newline (refl, h.value_no_newline)

pub line_text-no_zero : (l : HeaderLine) → IsSendable l → All (is_not 0) (line_text l)
line_text-no_zero l h =
    All-append (is_not 0) l.name (b':' ∷ l.value) h.name_no_zero (refl, h.value_no_zero)

pub is_empty-append : (a : Bytes) (c : ℕ) (b : Bytes) → is_empty (a ++ (c ∷ b)) ≡ false
is_empty-append [] c b = refl
is_empty-append (x ∷ a) c b = refl

pub length-header_text :
    (ls : List HeaderLine) (rest : Bytes)
    → length (header_text ls rest) ≡ length (header_text ls []) + length rest
length-header_text [] rest = omega arith
length-header_text (l ∷ ls) rest = omega (
  arith,
  length-append (line_text l) (crlf (header_text ls rest)),
  length-append (line_text l) (crlf (header_text ls [])),
  length-header_text ls rest,
)

pub length-lt-header_text :
    (ls : List HeaderLine) (rest : Bytes) → length ls < length (header_text ls rest)
length-lt-header_text [] rest = omega arith
length-lt-header_text (l ∷ ls) rest =
    omega (
      arith,
      length-append (line_text l) (crlf (header_text ls rest)),
      length-lt-header_text ls rest,
    )

module _ {S : Type 0} (L : LineStore S) where
  -- A line that arrives whole, in a round that begins with no line begun.
  pub loop_line :
      (f : ℕ) (s : S) (line rest : Bytes)
      → All (is_not b'\n') line
      → c_str (L.current s) ≡ []
      → append_loop L (suc f) s (line ++ crlf rest) ≡ (
          if (L.end_line line s).1
          then ((L.end_line line s).0, some rest)
          else append_loop L f (L.end_line line s).0 rest)
  loop_line f s line rest h e = go (line ++ crlf rest) refl
    where
      cut : split_chr b'\n' (line ++ crlf rest) ≡ some (line ++ (b'\r' ∷ []), rest)
      cut =
          ap (split_chr b'\n') (sym (append_assoc line (b'\r' ∷ []) (b'\n' ∷ rest)))
          ∙ split_chr-append b'\n' (line ++ (b'\r' ∷ [])) rest
              (All-append (is_not b'\n') line (b'\r' ∷ []) h (refl, tt))

      whole : ended L s (line ++ (b'\r' ∷ [])) ≡ L.end_line line s
      whole =
          ap (λ r. L.end_line (strip_cr (r ++ (line ++ (b'\r' ∷ [])))) s) e
          ∙ ap (λ r. L.end_line r s) (strip_cr-append line)

      go :
          (bs : Bytes)
          → line ++ crlf rest ≡ bs
          → append_loop L (suc f) s (line ++ crlf rest) ≡ (
              if (L.end_line line s).1
              then ((L.end_line line s).0, some rest)
              else append_loop L f (L.end_line line s).0 rest)
      go [] q = absurd (unfold split_chr in cc (cut, q))
      go (c ∷ cs) q = rw q (
          loop_some L f s c cs (rw q at cut)
          ∙ ap (λ (r : S × Bool). if r.1 then (r.0, some rest) else append_loop L f r.0 rest) whole)
