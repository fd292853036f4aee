-- ===== src/ContentPart/Fields.antt =====
-- src/contentpart.c on a field of a form, as a browser sends it.
use filemanager_httpd.Common.{
  ℕ, ◌≡◌, refl, sym, ap, ◌∙◌, Bool, true, false, not, ◌&&◌, Option, some, List, [], ◌∷◌, ◌++◌,
  append_assoc, arith, ◌==◌, length, drop, All, All-append,
}
use filemanager_httpd.Common.Strings.{
  Bytes, codes, drop_while, split_chr, to_lower, equal_ignore_case,
}
use filemanager_httpd.Common.Strings.Laws.{is_not, split_chr-append, c_str-All}
use filemanager_httpd.DataChunk.{equals_str_ignore_case, dup_to_str, init_with_str, extract_param}
use filemanager_httpd.DataChunk.Params.{params, params_loop}
use filemanager_httpd.HeaderLines.{HeaderLine, header_val}
use filemanager_httpd.HeaderLines.RoundTrip.{IsSendable, header_text, line_text, crlf}
use filemanager_httpd.DataHeader
use filemanager_httpd.DataHeader.{get_header_val}
use filemanager_httpd.DataHeader.Laws.{append_data-header_text}
use filemanager_httpd.FileSystem.{FileOps}
use filemanager_httpd.ContentPart
use filemanager_httpd.ContentPart.{
  ContentPart, set_param, set_params, read_disposition, open_store, end_header, store_to, store,
  is_in_header, behind_header, append_data,
}

-- The header line of a field.
abbrev pub disposition : Bytes → HeaderLine
disposition name = record {
  name = codes "Content-Disposition";
  value = codes " form-data; name=\"" ++ (name ++ codes "\"");
}

-- A field's header and its text.
abbrev pub field : Bytes → Bytes → Bytes
field name text = header_text (disposition name ∷ []) text

-- A name without quotes, line breaks and zero bytes.
abbrev pub is_plain_byte : ℕ → Bool
is_plain_byte c = not (c == b'"') && (not (c == b'\n') && not (c == 0))

plain-All :
    (p : ℕ → Bool) (name : Bytes)
    → ((c : ℕ) → is_plain_byte c ≡ true → p c ≡ true)
    → All is_plain_byte name
    → All p name
plain-All p [] h a = tt
plain-All p (c ∷ cs) h a = (h c a.0, plain-All p cs h a.1)

extract_param-name :
    (name buf : Bytes)
    → All (is_not b'"') name
    → extract_param (codes " name=\"" ++ (name ++ codes "\"")) buf b';'
      ≡ record { found = true; param_line = []; name = codes "name"; value = name }
unfolding extract_param
extract_param-name name buf h = let s = split_chr-append b'"' name [] h in ground (arith, s)

extract_param-end : (buf : Bytes) (d : ℕ) → (extract_param [] buf d).found ≡ false
unfolding extract_param
extract_param-end buf d = refl

params-name :
    (name : Bytes)
    → All (is_not b'"') name
    → params (codes " name=\"" ++ (name ++ codes "\"")) b';' ≡ (codes "name", name) ∷ []
unfolding params params_loop
params-name name h =
    let p = extract_param-name name [] h in
    let e = extract_param-end name b';' in ground (arith, p, e)

abbrev all_of : (ℕ → Bool) → Bytes → Bool
all_of p [] = true
all_of p (c ∷ cs) = p c && all_of p cs

all_of-All : (p : ℕ → Bool) (bs : Bytes) → all_of p bs ≡ true → All p bs
all_of-All p [] h = tt
all_of-All p (c ∷ cs) h = (ground (arith, h), all_of-All p cs (ground (arith, h)))

abbrev value_of : Bytes → Bytes
value_of name = codes "form-data; name=\"" ++ (name ++ codes "\"")

init-value : (name : Bytes) → All (is_not 0) name → init_with_str (value_of name) ≡ value_of name
unfolding init_with_str
init-value name h = c_str-All (value_of name) (
    All-append (is_not 0) (codes "form-data; name=\"") (name ++ codes "\"")
      (all_of-All (is_not 0) (codes "form-data; name=\"") refl)
      (All-append (is_not 0) name (codes "\"") h (refl, tt)))

read_disposition-field :
    (name : Bytes) (part : ContentPart)
    → All (is_not b'"') name
    → All (is_not 0) name
    → read_disposition (some (value_of name)) part ≡ record part { name = some name }
unfolding read_disposition split_chr set_param dup_to_str equals_str_ignore_case equal_ignore_case
    to_lower
read_disposition-field name part h z =
    rw (init-value name z, params-name name h, c_str-All name z) refl

header_val-field :
    (name : Bytes)
    → get_header_val
        (record { lines = disposition name ∷ []; current = [] })
        (codes "Content-Disposition")
      ≡ some (value_of name)
unfolding get_header_val header_val equal_ignore_case to_lower drop_while
header_val-field name = refl

disposition-IsSendable : (name : Bytes) → All is_plain_byte name → IsSendable (disposition name)
disposition-IsSendable name h = record {
  name_no_colon = all_of-All (is_not b':') (codes "Content-Disposition") refl;
  name_no_zero = all_of-All (is_not 0) (codes "Content-Disposition") refl;
  name_no_newline = all_of-All (is_not b'\n') (codes "Content-Disposition") refl;
  value_no_zero =
      All-append (is_not 0) (codes " form-data; name=\"") (name ++ codes "\"")
        (all_of-All (is_not 0) (codes " form-data; name=\"") refl)
        (All-append (is_not 0) name (codes "\"")
          (plain-All (is_not 0) name (λ c k. ground (arith, k)) h) (refl, tt));
  value_no_newline =
      All-append (is_not b'\n') (codes " form-data; name=\"") (name ++ codes "\"")
        (all_of-All (is_not b'\n') (codes " form-data; name=\"") refl)
        (All-append (is_not b'\n') name (codes "\"")
          (plain-All (is_not b'\n') name (λ c k. ground (arith, k)) h) (refl, tt));
}

header_text-append :
    (ls : List HeaderLine) (text : Bytes) → header_text ls text ≡ header_text ls [] ++ text
header_text-append [] text = refl
header_text-append (l ∷ ls) text =
    ap (λ t. line_text l ++ crlf t) (header_text-append ls text)
    ∙ sym (append_assoc (line_text l) (crlf (header_text ls [])) text)

drop-all : (xs ys : Bytes) → drop (length xs) (xs ++ ys) ≡ ys
drop-all [] ys = refl
drop-all (x ∷ xs) ys = drop-all xs ys

-- What is left of a part's bytes behind its header.
drop-header :
    (ls : List HeaderLine) (text : Bytes)
    → drop (length (header_text ls [])) (header_text ls text) ≡ text
drop-header ls text =
    ap (drop (length (header_text ls []))) (header_text-append ls text)
    ∙ drop-all (header_text ls []) text

module _ {W : Type 0} (ops : FileOps W) where
  -- The part for a field, with its header.
  abbrev pub field_part : Option Bytes → Bytes → Bytes → ContentPart
  field_part dest_dir name text = record (ContentPart.new dest_dir) {
    header = record { lines = disposition name ∷ []; current = [] };
    name = some name;
    body = some text;
  }

  abbrev part_with : Option Bytes → DataHeader.DataHeader → ContentPart
  part_with dest_dir header = record (ContentPart.new dest_dir) { header = header }

  end_header-field :
      (dest_dir : Option Bytes) (name : Bytes) (w : W)
      → All is_plain_byte name
      → end_header ops
          (part_with dest_dir (record { lines = disposition name ∷ []; current = [] }))
          w
        ≡ (field_part dest_dir name [], w)
  unfolding end_header ContentPart.new open_store
  end_header-field dest_dir name w h =
      let part = part_with dest_dir (record { lines = disposition name ∷ []; current = [] }) in
      ap (λ p. open_store ops p.file_name p.dest_dir p w)
        (ap (λ o. read_disposition o part) (header_val-field name)
          ∙ read_disposition-field name part
              (plain-All (is_not b'"') name (λ c k. ground (arith, k)) h)
              (plain-All (is_not 0) name (λ c k. ground (arith, k)) h))

  -- A field of a form that arrives in one piece, with a name without quotes, line breaks and zero bytes:
  -- the part has the name and the text, whatever bytes the text holds, and the disk is as it was.
  pub append_data-field :
      (fuel : ℕ) (dest_dir : Option Bytes) (name text : Bytes) (w : W)
      → All is_plain_byte name
      → append_data ops fuel (ContentPart.new dest_dir) (field name text) w
        ≡ some (field_part dest_dir name text, w)
  unfolding append_data behind_header ContentPart.new store
  append_data-field fuel dest_dir name text w h =
      ap
        (λ (r : DataHeader.DataHeader × Option ℕ).
          behind_header ops fuel (field name text) (part_with dest_dir r.0) r.1 w)
        (append_data-header_text (disposition name ∷ []) text (disposition-IsSendable name h, tt))
      ∙ (ap
            (λ (r : ContentPart × W).
              store ops fuel (drop (length (field name [])) (field name text)) r.0 r.1)
            (end_header-field dest_dir name w h)
          ∙ ap (λ t. some (field_part dest_dir name t, w))
              (drop-header (disposition name ∷ []) text))
