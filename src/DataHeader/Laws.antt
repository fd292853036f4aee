-- ===== src/DataHeader/Laws.antt =====
-- What src/dataheader.c reads: independent of how the text is cut, and what was sent.
use filemanager_httpd.Common.{
  ℕ, zero, suc, ◌-◌, ◌<◌, ◌≡◌, refl, ap, ◌∙◌, ◌⊎◌, inl, inr, Bool, true, false, Option, none, some,
  List, [], ◌∷◌, ◌++◌, append-nil, append_assoc, arith, if◌then◌else◌, length, All,
}
use filemanager_httpd.Common.Strings.{Bytes, c_str}
use filemanager_httpd.Common.Strings.Laws.{is_not, c_str-All}
use filemanager_httpd.HeaderLines
use filemanager_httpd.HeaderLines.{HeaderLine, split_line}
use filemanager_httpd.HeaderLines.Steps.{IsLawful}
use filemanager_httpd.HeaderLines.Streaming.{then_append, append_data_split}
use filemanager_httpd.HeaderLines.RoundTrip.{
  line_text, IsSendable, AreSendable, header_text, split_line-line_text, line_text-no_newline,
  line_text-no_zero, is_empty-append, length-header_text, length-lt-header_text, loop_line,
}
use filemanager_httpd.DataHeader.{DataHeader, new, end_line, line_store, append_data}

-- A line leaves nothing begun, but an empty one with bytes behind a zero byte.
end_line-current_cases :
    (b : Bytes) (s : DataHeader) → ((end_line b s).0.current ≡ b) ⊎ ((end_line b s).0.current ≡ [])
unfolding end_line
end_line-current_cases b s = ground arith

end_line-current :
    (b : Bytes) (s : DataHeader) → All (is_not 0) b → All (is_not 0) (end_line b s).0.current
end_line-current b s h = elim (end_line-current_cases b s) [ inl e ↦ rw e h | inr e ↦ rw e tt ]

line_store-IsLawful : IsLawful line_store
unfolding line_store
line_store-IsLawful = record {
  current-set = λ b s. refl;
  set-set = λ b c s. refl;
  end_line-set = λ b c s. ground arith;
  end_line-current = end_line-current;
}

-- The text of a header may be cut at any place: to append `a`, and then `b` unless the header was
-- complete in `a`, leaves the same lines and counts the same bytes as to append both at once. The
-- text `a`, and the line that was begun before, hold no zero byte.
pub append_data-append :
    (hdr : DataHeader) (a b : Bytes)
    → All (is_not 0) hdr.current
    → All (is_not 0) a
    → append_data hdr (a ++ b) ≡ then_append (length a) append_data (append_data hdr a) b
unfolding line_store append_data
append_data-append hdr a b clean n =
    append_data_split line_store line_store-IsLawful hdr a b clean n

end_line-empty : (s : DataHeader) → s.current ≡ [] → end_line [] s ≡ (s, true)
unfolding end_line
end_line-empty s e = ground arith

end_line-line_text :
    (l : HeaderLine) (s : DataHeader)
    → IsSendable l
    → end_line (line_text l) s ≡ (record s { lines = s.lines ++ l ∷ []; current = [] }, false)
unfolding end_line
end_line-line_text l s h = ground (
  arith,
  split_line-line_text l h,
  c_str-All (line_text l) (line_text-no_zero l h),
  is_empty-append l.name b':' l.value,
)

read_lines :
    (f : ℕ) (ls done : List HeaderLine) (rest : Bytes)
    → length ls < f
    → AreSendable ls
    → HeaderLines.append_loop line_store f
        (record { lines = done; current = [] })
        (header_text ls rest)
      ≡ (record { lines = done ++ ls; current = [] }, some rest)
unfolding line_store end_line
read_lines zero ls done rest h q = elim h [ ]
read_lines (suc f) [] done rest h q =
    loop_line line_store f (record { lines = done; current = [] }) [] rest tt
      (unfold c_str line_store in refl)
    ∙ ap
        (λ (r : DataHeader × Bool).
          if r.1 then (r.0, some rest) else HeaderLines.append_loop line_store f r.0 rest)
        (end_line-empty (record { lines = done; current = [] }) refl)
    ∙ rw append-nil
read_lines (suc f) (l ∷ ls) done rest h q =
    loop_line line_store f (record { lines = done; current = [] }) (line_text l)
      (header_text ls rest) (line_text-no_newline l q.0) (unfold c_str line_store in refl)
    ∙ ap
        (λ (r : DataHeader × Bool).
          if r.1
          then (r.0, some (header_text ls rest))
          else HeaderLines.append_loop line_store f r.0 (header_text ls rest))
        (end_line-line_text l (record { lines = done; current = [] }) q.0)
    ∙ read_lines f ls (done ++ l ∷ []) rest (omega arith) q.1
    ∙ ap (λ r. (record { lines = r; current = [] }, some rest)) (append_assoc done (l ∷ []) ls)

-- A header that is sent, with any bytes behind it, is read to its end and no further: the lines
-- are those sent, in order, and the number returned is the length of the header.
pub append_data-header_text :
    (ls : List HeaderLine) (rest : Bytes)
    → AreSendable ls
    → append_data new (header_text ls rest)
      ≡ (record { lines = ls; current = [] }, some (length (header_text ls [])))
unfolding append_data new
append_data-header_text ls rest q =
    ap
      (λ (r : DataHeader × Option Bytes). (
        r.0,
        elim r.1 as (λ _. Option ℕ) [
          | none ↦ none
          | some left ↦ some (length (header_text ls rest) - length left)
        ],
      ))
      (read_lines (length (header_text ls rest)) ls [] rest
        (omega (arith, length-lt-header_text ls rest)) q)
    ∙ ap (λ n. (record { lines = ls; current = [] }, some n))
        (omega (arith, length-header_text ls rest))
