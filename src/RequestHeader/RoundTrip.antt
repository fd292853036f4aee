-- ===== src/RequestHeader/RoundTrip.antt =====
-- A path that a client encodes is decoded by src/requestheader.c to the path that was meant.
use filemanager_httpd.Common.{
  ◌≤◌, Bool-cases, ℕ, zero, suc, ◌+◌, ◌-◌, ◌/◌, ◌%◌, ◌<◌, ◌≡◌, refl, inl, inr, Bool, true, ◌&&◌,
  ◌||◌, [], ◌∷◌, ◌++◌, arith, ltb, leb, ◌==◌, if◌then◌else◌, ==_iff,
}
use mathlib.Core.Path.{subst}
use filemanager_httpd.Common.Strings.{Bytes}
use filemanager_httpd.RequestHeader.Url.{hex_byte, decode_path}

abbrev hex_digit : ℕ → ℕ
hex_digit n = if ltb n 10 then b'0' + n else b'A' + (n - 10)

-- Letters, digits and the slash stand for themselves.
abbrev is_plain : ℕ → Bool
is_plain c =
    leb b'a' c && leb c b'z' || leb b'A' c && leb c b'Z' || leb b'0' c && leb c b'9' || c == b'/'

-- What a client sends for a path.
pub encode_path : Bytes → Bytes
encode_path [] = []
encode_path (c ∷ cs) =
    if is_plain c
    then c ∷ encode_path cs
    else b'%' ∷ hex_digit (c / 16) ∷ hex_digit (c % 16) ∷ encode_path cs

abbrev pub AreBytes : Bytes → Type 0
AreBytes [] = Unit
AreBytes (c ∷ cs) = (c < 256) × AreBytes cs

-- The test holds of `count` numbers, from `start` on.
passes_from : (ℕ → Bool) → ℕ → ℕ → Bool
passes_from test start zero = true
passes_from test start (suc count) = test start && passes_from test (suc start) count

passes_from-at :
    (test : ℕ → Bool) (start count c : ℕ)
    → passes_from test start count ≡ true
    → start ≤ c
    → c < start + count
    → test c ≡ true
unfolding passes_from
passes_from-at test start zero c h low high = absurd (omega arith)
passes_from-at test start (suc count) c h low high = elim (Bool-cases (start == c)) [
  | inl e ↦ subst (λ n. test n ≡ true) ((==_iff start c).0 e) (ground arith)
  | inr e ↦ passes_from-at test (suc start) count c (ground arith) (ground arith) (omega arith)
]

hex_table :
    passes_from (λ c. hex_byte (hex_digit (c / 16) ∷ hex_digit (c % 16) ∷ []) == c) 0 256 ≡ true
unfolding passes_from hex_byte
hex_table = refl

hex_byte-hex_digit : (c : ℕ) → c < 256 → hex_byte (hex_digit (c / 16) ∷ hex_digit (c % 16) ∷ []) ≡ c
hex_byte-hex_digit c h =
    (==_iff _ c).0 (passes_from-at _ 0 256 c hex_table (omega arith) (omega arith))

unfoldable pub stops : Bytes → Bool
stops [] = true
stops (c ∷ cs) = c == b' ' || c == b'?'

decode_path-percent :
    (a b : ℕ) (cs : Bytes)
    → decode_path (b'%' ∷ a ∷ b ∷ cs)
      ≡ (hex_byte (a ∷ b ∷ []) ∷ (decode_path cs).0, (decode_path cs).1)
unfolding decode_path
decode_path-percent a b cs = refl

decode_path-plain :
    (c : ℕ) (cs : Bytes)
    → is_plain c ≡ true
    → decode_path (c ∷ cs) ≡ (c ∷ (decode_path cs).0, (decode_path cs).1)
unfolding decode_path
decode_path-plain c [] h = ground arith
decode_path-plain c (a ∷ []) h = ground arith
decode_path-plain c (a ∷ b ∷ cs) h = ground arith

decode_path-stops : (rest : Bytes) → stops rest ≡ true → decode_path rest ≡ ([], rest)
unfolding decode_path stops
decode_path-stops [] h = refl
decode_path-stops (c ∷ []) h = ground arith
decode_path-stops (c ∷ a ∷ []) h = ground arith
decode_path-stops (c ∷ a ∷ b ∷ cs) h = ground arith

-- The decoder gives back every path of bytes from its encoded form, and stops at the blank or the
-- query mark behind it, or at the end.
pub decode_path-encode_path :
    (path rest : Bytes)
    → AreBytes path
    → stops rest ≡ true
    → decode_path (encode_path path ++ rest) ≡ (path, rest)
unfolding encode_path
decode_path-encode_path [] rest h e = decode_path-stops rest e
decode_path-encode_path (c ∷ cs) rest h e = elim (Bool-cases (is_plain c)) [
  | inl p ↦
      ground (
        arith,
        decode_path-plain c (encode_path cs ++ rest) p,
        decode_path-encode_path cs rest h.1 e,
      )
  | inr p ↦ ground (
    arith,
    decode_path-percent (hex_digit (c / 16)) (hex_digit (c % 16)) (encode_path cs ++ rest),
    hex_byte-hex_digit c h.0,
    decode_path-encode_path cs rest h.1 e,
  )
]
