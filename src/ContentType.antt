-- ===== src/ContentType.antt =====
-- src/contenttype.c: the content type of a file, by the extension of its name.
pub mod Laws
use filemanager_httpd.Common.{
  ℕ, zero, suc, ◌+◌, ◌-◌, ◌*◌, ◌/◌, ◌%◌, ◌^◌, ◌≤◌, ◌<◌, min, ◌≡◌, refl, sym, ap, ◌∙◌, ◌≢◌, ◌↔◌, ◌⊎◌,
  inl, inr, Bool, true, false, not, ◌&&◌, ◌||◌, Option, none, some, List, [], ◌∷◌, ◌++◌, map,
  append-nil, append_assoc, arith, ltb, leb, ◌==◌, if◌then◌else◌, ltb→lt, lt→ltb, le→ltb, leb→le,
  ==_iff, Bool-cases, Option-cases, length, get_elem?, get_or, take, drop, replicate, is_empty, All,
  length-append, take-append-drop, length-drop, All-append,
}
use filemanager_httpd.Common.Strings.{
  Bytes, codes, take_while, drop_while, trim_end, c_str, split_chr, contains_chr, equal, to_lower,
  equal_ignore_case, starts_with, starts_with_ignore_case,
}

-- What stands before the last `c`, and what stands behind it.
unfoldable pub split_last_chr : ℕ → Bytes → Option (Bytes × Bytes)
split_last_chr c [] = none
split_last_chr c (d ∷ ds) = elim (split_last_chr c ds) [
  | none ↦ if d == c then some ([], ds) else none
  | some (a, b) ↦ some (d ∷ a, b)
]

-- The table, extensions first.
abbrev pub mime_types : List (Bytes × Bytes)
mime_types =
    (codes "aac", codes "audio/x-hx-aac-adts")
    ∷ (codes "avi", codes "video/x-msvideo")
    ∷ (codes "bmp", codes "image/bmp")
    ∷ (codes "bz2", codes "application/x-bzip2")
    ∷ (codes "c", codes "text/x-c")
    ∷ (codes "conf", codes "text/plain")
    ∷ (codes "css", codes "text/css")
    ∷ (codes "csv", codes "text/csv")
    ∷ (codes "deb", codes "application/x-debian-package")
    ∷ (codes "doc", codes "application/msword")
    ∷ (codes "flv", codes "video/x-flv")
    ∷ (codes "gif", codes "image/gif")
    ∷ (codes "gz", codes "application/gzip")
    ∷ (codes "htm", codes "text/html; charset=utf-8")
    ∷ (codes "html", codes "text/html; charset=utf-8")
    ∷ (codes "java", codes "text/plain")
    ∷ (codes "jar", codes "application/jar")
    ∷ (codes "jpe", codes "image/jpeg")
    ∷ (codes "jpeg", codes "image/jpeg")
    ∷ (codes "jpg", codes "image/jpeg")
    ∷ (codes "js", codes "text/javascript")
    ∷ (codes "json", codes "application/json")
    ∷ (codes "jsp", codes "text/html; charset=utf-8")
    ∷ (codes "m3u", codes "audio/x-mpegurl")
    ∷ (codes "mid", codes "audio/midi")
    ∷ (codes "midi", codes "audio/midi")
    ∷ (codes "mjs", codes "text/javascript")
    ∷ (codes "mov", codes "video/quicktime")
    ∷ (codes "mp2", codes "audio/mpeg")
    ∷ (codes "mp3", codes "audio/mpeg")
    ∷ (codes "mp4", codes "video/mp4")
    ∷ (codes "mpe", codes "video/mpeg")
    ∷ (codes "mpeg", codes "video/mpeg")
    ∷ (codes "mpg", codes "video/mpeg")
    ∷ (codes "ogg", codes "video/ogg")
    ∷ (codes "pdf", codes "application/pdf")
    ∷ (codes "png", codes "image/png")
    ∷ (codes "ppt", codes "application/vnd.ms-powerpoint")
    ∷ (codes "ps", codes "application/postscript")
    ∷ (codes "qt", codes "video/quicktime")
    ∷ (codes "ra", codes "audio/x-realaudio")
    ∷ (codes "ram", codes "audio/x-pn-realaudio")
    ∷ (codes "rtf", codes "text/rtf")
    ∷ (codes "sh", codes "text/plain; charset=utf-8")
    ∷ (codes "sql", codes "application/sql")
    ∷ (codes "svg", codes "image/svg+xml")
    ∷ (codes "svgz", codes "image/svg+xml")
    ∷ (codes "tar", codes "application/x-tar")
    ∷ (codes "tif", codes "image/tiff")
    ∷ (codes "tiff", codes "image/tiff")
    ∷ (codes "tsv", codes "text/tab-separated-values; charset=utf-8")
    ∷ (codes "txt", codes "text/plain; charset=utf-8")
    ∷ (codes "wasm", codes "application/wasm")
    ∷ (codes "wav", codes "audio/x-wav")
    ∷ (codes "wma", codes "audio/x-ms-wma")
    ∷ (codes "wmv", codes "video/x-ms-wmv")
    ∷ (codes "wmx", codes "video/x-ms-wmx")
    ∷ (codes "xls", codes "application/vnd.ms-excel")
    ∷ (codes "xml", codes "text/xml; charset=utf-8")
    ∷ (codes "xpm", codes "image/x-xpmi")
    ∷ (codes "xsl", codes "text/xml; charset=utf-8")
    ∷ (codes "zip", codes "application/zip")
    ∷ []

-- The type of the first row with this extension.
unfoldable pub find_mime : Bytes → List (Bytes × Bytes) → Option Bytes
unfolding equal_ignore_case
find_mime ext [] = none
find_mime ext (row ∷ rows) =
    let rest = find_mime ext rows in if equal_ignore_case ext row.0 then some row.1 else rest

abbrev pub content_type_of : Bytes → Bytes
content_type_of ext = elim (find_mime ext mime_types) [
  | none ↦ codes "application/octet-stream"
  | some mime ↦ mime
]

abbrev pub ends_with_slash : Bytes → Bool
ends_with_slash [] = false
ends_with_slash (c ∷ []) = c == b'/'
ends_with_slash (c ∷ d ∷ ds) = ends_with_slash (d ∷ ds)

-- From the last slash on, or the whole name.
abbrev pub name_part : Bytes → Option (Bytes × Bytes) → Bytes
name_part fname none = fname
name_part fname (some (dir, name)) = b'/' ∷ name

-- The extension: "txt" where there is none, or where the name starts with its only dot. A part that
-- starts with the dot is the whole name, since any other one starts with the slash.
abbrev pub ext_part : Option (Bytes × Bytes) → Bytes
ext_part none = codes "txt"
ext_part (some (before, ext)) =
    if is_empty before || ends_with_slash before then codes "txt" else ext

-- What the two calls of `strrchr` find.
abbrev pub ext_of : Bytes → Bytes
ext_of fname = ext_part (split_last_chr b'.' (name_part fname (split_last_chr b'/' fname)))

-- `cttype_getContentTypeByFileExt`
unfoldable pub get_content_type_by_file_ext : Bytes → Bytes
unfolding split_last_chr find_mime
get_content_type_by_file_ext fname = content_type_of (ext_of fname)
