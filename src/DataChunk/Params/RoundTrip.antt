-- ===== src/DataChunk/Params/RoundTrip.antt =====
-- Lists of parameters as they are written, for `dch_extractParam` of src/datachunk.c and the loops over it.
use filemanager_httpd.Common.{
  ℕ, zero, suc, ◌≤◌, ◌<◌, ◌≡◌, refl, sym, ap, ◌∙◌, Bool, true, false, List, [], ◌∷◌, ◌++◌, map,
  append-nil, append_assoc, arith, ◌==◌, if◌then◌else◌, length, All, length-append, All-append,
}
use filemanager_httpd.Common.Strings.{Bytes}
use filemanager_httpd.Common.Strings.Laws.{is_not, split_chr-append, split_chr-absent, first_is}
use filemanager_httpd.DataChunk.{
  is_ws, skip_leading_ws, trim_trailing_ws, trim_ws, extract_till_chr, extract_value, extract_param,
  shift_after_chr,
}
use filemanager_httpd.DataChunk.Params.{params_loop, params}
use filemanager_httpd.DataChunk.Params.Writing.{
  Written, text_of, value_text, param_text, written, IsValue, IsWritten, AreWritten, pair,
  ws-is_not, skip_leading_ws-text, trim_trailing_ws-text, trim_ws-text,
}

-- What is left of the line behind the last parameter holds white space only.
abbrev left_behind : Written → Bytes
left_behind w = if w.is_quoted then w.behind_value ++ [] else []

module _ (d : ℕ) (no_ws : is_ws d ≡ false) where
  extract_till_chr-some :
      (before more : Bytes)
      → All (is_not d) before
      → extract_till_chr (before ++ (d ∷ more)) d
        ≡ record { found = true; dch = more; sub_chunk = before }
  unfolding extract_till_chr
  extract_till_chr-some before more h = rw (split_chr-append d before more h, extract_till_chr) refl

  extract_till_chr-none :
      (text : Bytes)
      → All (is_not d) text
      → extract_till_chr text d ≡ record { found = false; dch = []; sub_chunk = text }
  unfolding extract_till_chr
  extract_till_chr-none text h = rw (split_chr-absent d text h, extract_till_chr) refl

  -- A value without a quote in front of it.
  extract_bare :
      (c : ℕ) (cs line text : Bytes) (found : Bool)
      → (c == b'"') ≡ false
      → extract_till_chr (c ∷ cs) d ≡ record { found = found; dch = line; sub_chunk = text }
      → extract_value (c ∷ cs) d ≡ (line, trim_trailing_ws text)
  unfolding extract_value
  extract_bare c cs line text found h e =
      rw (h, extract_value) (ap (λ x. (x.dch, trim_trailing_ws x.sub_chunk)) e)

  extract_value-more :
      (b : Bool) (value behind more : Bytes)
      → IsValue d b value
      → All is_ws behind
      → extract_value (text_of b value behind (d ∷ more)) d ≡ (more, value)
  unfolding extract_value extract_till_chr shift_after_chr
  extract_value-more true value behind more h k = ground (
    arith,
    split_chr-append b'"' value (behind ++ (d ∷ more)) h,
    split_chr-append d behind more (ws-is_not d behind no_ws k),
  )
  extract_value-more false [] behind more h k = absurd (ground (arith, h.1))
  extract_value-more false (c ∷ cs) behind more h k =
      extract_bare c (cs ++ (behind ++ (d ∷ more))) more ((c ∷ cs) ++ behind) true
        (ground (arith, h.1))
        (ap (λ r. extract_till_chr r d) (sym (append_assoc (c ∷ cs) behind (d ∷ more)))
          ∙ extract_till_chr-some ((c ∷ cs) ++ behind) more
              (All-append (is_not d) (c ∷ cs) behind h.0 (ws-is_not d behind no_ws k)))
      ∙ ap (λ v. (more, v)) (trim_trailing_ws-text (c ∷ cs) behind k h.2)

  extract_value-last :
      (b : Bool) (value behind : Bytes)
      → IsValue d b value
      → All is_ws behind
      → extract_value (text_of b value behind []) d ≡ ((if b then behind ++ [] else []), value)
  unfolding extract_value extract_till_chr shift_after_chr
  extract_value-last true value behind h k = ground (
    arith,
    split_chr-append b'"' value (behind ++ []) h,
    split_chr-absent d (behind ++ []) (rw append-nil (ws-is_not d behind no_ws k)),
  )
  extract_value-last false [] behind h k = absurd (ground (arith, h.1))
  extract_value-last false (c ∷ cs) behind h k =
      extract_bare c (cs ++ (behind ++ [])) [] ((c ∷ cs) ++ behind) false (ground (arith, h.1)) (
        ap (λ r. extract_till_chr ((c ∷ cs) ++ r) d) (append-nil behind)
        ∙ extract_till_chr-none ((c ∷ cs) ++ behind)
            (All-append (is_not d) (c ∷ cs) behind h.0 (ws-is_not d behind no_ws k)))
      ∙ ap (λ v. ([], v)) (trim_trailing_ws-text (c ∷ cs) behind k h.2)

  text_of-starts :
      (b : Bool) (value behind rest : Bytes)
      → IsValue d b value
      → first_is is_ws (text_of b value behind rest) ≡ false
  unfolding is_ws
  text_of-starts true value behind rest h = refl
  text_of-starts false [] behind rest h = absurd (ground (arith, h.1))
  text_of-starts false (c ∷ cs) behind rest h = ground (arith, h.1)

  extract_param-split :
      (name_text rest buf line value : Bytes)
      → All (is_not b'=') name_text
      → extract_value (skip_leading_ws rest) d ≡ (line, value)
      → extract_param (name_text ++ (b'=' ∷ rest)) buf d
        ≡ record { found = true; param_line = line; name = trim_ws name_text; value = value }
  unfolding extract_param extract_till_chr
  extract_param-split name_text rest buf line value h e =
      ground (arith, split_chr-append b'=' name_text rest h, e)

  extract_param-written :
      (w : Written) (rest buf line : Bytes)
      → IsWritten d w
      → extract_value (value_text w rest) d ≡ (line, w.value)
      → extract_param (param_text w rest) buf d
        ≡ record { found = true; param_line = line; name = w.name; value = w.value }
  unfolding is_ws
  extract_param-written w rest buf line h e =
      let b = h.blanks in
      let starts = text_of-starts w.is_quoted w.value w.behind_value rest h.is_value in
      extract_param-split (w.before ++ (w.name ++ w.behind_name))
        (w.behind_equals ++ value_text w rest) buf line w.value
        (All-append (is_not b'=') w.before _ (ws-is_not b'=' w.before refl b.0)
          (All-append (is_not b'=') w.name _ h.no_equals (ws-is_not b'=' w.behind_name refl b.1)))
        (ap (λ t. extract_value t d)
            (skip_leading_ws-text w.behind_equals (value_text w rest) b.2 starts)
          ∙ e)
      ∙ ap (λ n. record { found = true; param_line = line; name = n; value = w.value })
          (trim_ws-text w.before w.name w.behind_name b.0 b.1 h.starts h.ends)

  -- Behind the last parameter no other one is found.
  params_loop-blank :
      (fuel : ℕ) (line buf : Bytes) → All is_ws line → params_loop fuel line buf d ≡ []
  unfolding params_loop extract_param extract_till_chr
  params_loop-blank zero line buf h = refl
  params_loop-blank (suc fuel) line buf h =
      rw
        (
          params_loop,
          extract_param,
          extract_till_chr,
          split_chr-absent b'=' line (ws-is_not b'=' line refl h),
        )
        refl

  left_behind-is_ws : (w : Written) → IsWritten d w → All is_ws (left_behind w)
  left_behind-is_ws w h = go w.is_quoted
    where
      go : (b : Bool) → All is_ws (if b then w.behind_value ++ [] else [])
      go true = rw append-nil h.blanks.3
      go false = tt

  length-text_of :
      (b : Bool) (value behind rest : Bytes) → length rest ≤ length (text_of b value behind rest)
  length-text_of true value behind rest =
      omega (arith, length-append value (b'"' ∷ (behind ++ rest)), length-append behind rest)
  length-text_of false value behind rest =
      omega (arith, length-append value (behind ++ rest), length-append behind rest)

  length-param_text : (w : Written) (rest : Bytes) → length rest < length (param_text w rest)
  length-param_text w rest = omega (
    arith,
    length-append (w.before ++ (w.name ++ w.behind_name))
        (b'=' ∷ (w.behind_equals ++ value_text w rest)),
    length-append w.behind_equals (value_text w rest),
    length-text_of w.is_quoted w.value w.behind_value rest,
  )

  length-le-written : (ws : List Written) → length ws ≤ length (written d ws)
  length-le-written [] = omega arith
  length-le-written (w ∷ []) = omega (arith, length-param_text w [])
  length-le-written (w ∷ v ∷ ws) =
      omega (arith, length-param_text w (d ∷ written d (v ∷ ws)), length-le-written (v ∷ ws))

  params_loop-written :
      (fuel : ℕ) (ws : List Written) (buf : Bytes)
      → length ws ≤ fuel
      → AreWritten d ws
      → params_loop fuel (written d ws) buf d ≡ map pair ws
  unfolding params_loop
  params_loop-written fuel [] buf h q = params_loop-blank fuel [] buf tt
  params_loop-written zero (w ∷ ws) buf h q = elim h [ ]
  params_loop-written (suc fuel) (w ∷ []) buf h q =
      let e = extract_value-last w.is_quoted w.value w.behind_value q.0.is_value q.0.blanks.3 in
      rw (params_loop, extract_param-written w [] buf _ q.0 e)
        (ap (λ r. pair w ∷ r)
          (params_loop-blank fuel (left_behind w) w.value (left_behind-is_ws w q.0)))
  params_loop-written (suc fuel) (w ∷ v ∷ ws) buf h q =
      let more = written d (v ∷ ws) in
      let e =
        extract_value-more w.is_quoted w.value w.behind_value more q.0.is_value q.0.blanks.3 in
      rw (params_loop, extract_param-written w (d ∷ more) buf more q.0 e)
        (ap (λ r. pair w ∷ r) (params_loop-written fuel (v ∷ ws) w.value (omega arith) q.1))

  -- The loop reads back every list of parameters, in order, that is written with the delimiter between
  -- them: a value with quotes holds any bytes but a quote, one without them is not empty, holds no
  -- delimiter, and neither starts with a quote nor has white space at its ends. White space may stand in
  -- front of a name, around the equals sign and behind a value. A name is not empty, holds no equals sign
  -- and has no white space at its ends; the delimiter is no white space.
  pub params-written : (ws : List Written) → AreWritten d ws → params (written d ws) d ≡ map pair ws
  unfolding params
  params-written ws q = params_loop-written _ ws [] (length-le-written ws) q
