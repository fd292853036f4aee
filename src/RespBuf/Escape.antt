-- ===== src/RespBuf/Escape.antt =====
-- The escaping of HTML in src/respbuf.c keeps markup out, and loses nothing.
use filemanager_httpd.Common.{
  ℕ, zero, suc, ◌≤◌, ◌<◌, ◌≡◌, refl, ap, ◌∙◌, inl, inr, Bool, true, not, ◌||◌, none, some, [], ◌∷◌,
  ◌++◌, append-nil, append_assoc, arith, ◌==◌, if◌then◌else◌, Option-cases, length, drop, All,
  length-append, All-append,
}
use filemanager_httpd.Common.Strings.{Bytes, codes, starts_with}
use filemanager_httpd.RespBuf.{RespBuf, replacement, escape_loop, append_data_escape_html}

-- The bytes one by one, each as it stands in the body.
abbrev escaped : Bytes → Bytes
escaped [] = []
escaped (c ∷ cs) =
    elim (replacement c) as (λ _. Bytes) [ none ↦ c ∷ [] | some repl ↦ repl ] ++ escaped cs

escape_loop-escaped :
    (out run bytes : Bytes) → escape_loop out run bytes ≡ out ++ (run ++ escaped bytes)
unfolding escape_loop
escape_loop-escaped out run [] = rw append-nil
escape_loop-escaped out run (c ∷ cs) = elim (Option-cases (replacement c)) [
  | inl e ↦
      rw (e, escape_loop)
        (escape_loop-escaped out (run ++ c ∷ []) cs
          ∙ ap (λ r. out ++ r) (append_assoc run (c ∷ []) (escaped cs)))
  | inr (repl, e) ↦
      rw (e, escape_loop)
        (escape_loop-escaped ((out ++ run) ++ repl) [] cs
          ∙ append_assoc (out ++ run) repl (escaped cs)
          ∙ append_assoc out run (repl ++ escaped cs))
]

-- A byte that begins or ends no tag and no attribute.
abbrev pub is_inert : ℕ → Bool
is_inert c = not (c == b'<' || (c == b'>' || (c == b'"' || c == b'\'')))

replacement-inert : (c : ℕ) {r : Bytes} → replacement c ≡ some r → All is_inert r
unfolding replacement
replacement-inert c e = ground arith

replacement-none : (c : ℕ) → replacement c ≡ none → is_inert c ≡ true
unfolding replacement
replacement-none c e = ground arith

All-escaped : (bytes : Bytes) → All is_inert (escaped bytes)
All-escaped [] = tt
All-escaped (c ∷ cs) = elim (Option-cases (replacement c)) [
  | inl e ↦ rw e (replacement-none c e, All-escaped cs)
  | inr (repl, e) ↦
      rw e (All-append is_inert repl (escaped cs) (replacement-inert c e) (All-escaped cs))
]

-- What a browser reads: the five entities for the bytes that they stand for, and every other byte
-- for itself.
pub unescape : ℕ → Bytes → Bytes
unescape zero bs = []
unescape (suc fuel) [] = []
unescape (suc fuel) (c ∷ cs) =
    let plain = c ∷ unescape fuel cs in
    let entity = λ (d k : ℕ). d ∷ unescape fuel (drop k (c ∷ cs)) in
    if starts_with (c ∷ cs) (codes "&quot;")
    then entity b'"' 6
    else if starts_with (c ∷ cs) (codes "&apos;")
    then entity b'\'' 6
    else if starts_with (c ∷ cs) (codes "&amp;")
    then entity b'&' 5
    else if starts_with (c ∷ cs) (codes "&lt;")
    then entity b'<' 4
    else if starts_with (c ∷ cs) (codes "&gt;")
    then entity b'>' 4
    else plain

unescape-replacement :
    (f c : ℕ) (r rest : Bytes)
    → replacement c ≡ some r
    → unescape (suc f) (r ++ rest) ≡ c ∷ unescape f rest
unfolding replacement unescape starts_with
unescape-replacement f c r rest e = ground arith

unescape-plain :
    (f c : ℕ) (rest : Bytes)
    → replacement c ≡ none
    → unescape (suc f) (c ∷ rest) ≡ c ∷ unescape f rest
unfolding replacement unescape starts_with
unescape-plain f c rest e = ground arith

unescape-escaped : (f : ℕ) (bytes : Bytes) → length bytes ≤ f → unescape f (escaped bytes) ≡ bytes
unescape-escaped f [] h = nothing f
  where
    nothing : (f : ℕ) → unescape f [] ≡ []
    nothing zero = unfold unescape in refl
    nothing (suc f) = unfold unescape in refl
unescape-escaped zero (c ∷ cs) h = elim h [ ]
unescape-escaped (suc f) (c ∷ cs) h = elim (Option-cases (replacement c)) [
  | inl e ↦
      rw e
        (unescape-plain f c (escaped cs) e ∙ ap (λ r. c ∷ r) (unescape-escaped f cs (omega arith)))
  | inr (repl, e) ↦ rw e (
      unescape-replacement f c repl (escaped cs) e
      ∙ ap (λ r. c ∷ r) (unescape-escaped f cs (omega arith)))
]

length-replacement : (c : ℕ) (r : Bytes) → replacement c ≡ some r → 0 < length r
unfolding replacement
length-replacement c r e = ground arith

length-le-escaped : (bytes : Bytes) → length bytes ≤ length (escaped bytes)
length-le-escaped [] = omega arith
length-le-escaped (c ∷ cs) = elim (Option-cases (replacement c)) [
  | inl e ↦ rw e (omega (arith, length-le-escaped cs))
  | inr (repl, e) ↦ rw e (
      omega
        (arith, length-append repl (escaped cs), length-replacement c repl e, length-le-escaped cs))
]

-- A text that is put into the body as HTML adds a piece that holds no bracket and no quote, and that
-- a browser reads as that text; the body in front and the header stay as they were. The
-- response has a body.
pub append_data_escape_html_lem :
    (bytes body : Bytes) (resp : RespBuf)
    → resp.body ≡ some body
    → (piece : Bytes) × (append_data_escape_html bytes resp
        ≡ some (record resp { body = some (body ++ piece) }))
      × All is_inert piece
      × (unescape (length piece) piece ≡ bytes)
unfolding append_data_escape_html
append_data_escape_html_lem bytes body resp e = (
  escaped bytes,
  rw (e, append_data_escape_html)
      (ap (λ r. some (record resp { body = some r })) (escape_loop-escaped body [] bytes)),
  All-escaped bytes,
  unescape-escaped (length (escaped bytes)) bytes (length-le-escaped bytes),
)
