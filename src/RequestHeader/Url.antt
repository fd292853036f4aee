-- ===== src/RequestHeader/Url.antt =====
-- The decoding of the path in `decodeRequestStartLine` of src/requestheader.c.
use filemanager_httpd.Common.{ℕ, ◌%◌, Bool, ◌||◌, [], ◌∷◌, ◌==◌, if◌then◌else◌}
use filemanager_httpd.Common.Strings.{Bytes, c_str}
use filemanager_httpd.Common.Strings.Number.{strtoul}

-- `*((unsigned char*)dest) = strtoul(num, NULL, 16);`
unfoldable pub hex_byte : Bytes → ℕ
unfolding c_str strtoul
hex_byte num = strtoul 16 (c_str num) % 256

abbrev ends_path : ℕ → Bool
ends_path c = c == b' ' || c == b'?'

-- The decoded bytes, and what is left from the byte that ended the path. The bytes are those of a
-- string, so none is zero. Behind a percent sign two bytes are taken, whatever they are, or as
-- many as there are.
unfoldable pub decode_path : Bytes → Bytes × Bytes
unfolding hex_byte
decode_path [] = ([], [])
decode_path (c ∷ []) =
    if ends_path c then ([], c ∷ []) else ((if c == b'%' then hex_byte [] else c) ∷ [], [])
decode_path (c ∷ a ∷ []) =
    let next = decode_path (a ∷ []) in
    if ends_path c
    then ([], c ∷ a ∷ [])
    else if c == b'%'
    then (hex_byte (a ∷ []) ∷ [], [])
    else (c ∷ next.0, next.1)
decode_path (c ∷ a ∷ b ∷ cs) =
    let next = decode_path (a ∷ b ∷ cs) in
    let behind = decode_path cs in
    if ends_path c
    then ([], c ∷ a ∷ b ∷ cs)
    else if c == b'%'
    then (hex_byte (a ∷ b ∷ []) ∷ behind.0, behind.1)
    else (c ∷ next.0, next.1)
