-- ===== src/Common/Strings/Number.antt =====
-- `strtoul` and `strtoull` of the C library, for a 64-bit `unsigned long`.
use Prim.Native.Nat.{ℕ, ◌+◌, ◌-◌, ◌*◌, ◌%◌, ◌^◌}
use mathlib.Core.Bool.{Bool, true, false, ◌&&◌, ◌||◌}
use mathlib.Core.List.{[], ◌∷◌}
use mathlib.Core.Option.{Option, none, some}
use filemanager_httpd.Common.Tests.{◌==◌, leb, ltb, if◌then◌else◌}
use filemanager_httpd.Common.Strings.{Bytes, drop_while}

-- The value of a digit or letter; 36 for any other byte.
unfoldable pub digit_value : ℕ → ℕ
digit_value c =
    if leb b'0' c && leb c b'9'
    then c - b'0'
    else if leb b'a' c && leb c b'z'
    then c - b'a' + 10
    else if leb b'A' c && leb c b'Z'
    then c - b'A' + 10
    else 36

unfoldable pub is_digit : ℕ → ℕ → Bool
unfolding digit_value
is_digit base c = ltb (digit_value c) base

-- The number that the leading digits write.
unfoldable pub read_digits : ℕ → ℕ → Bytes → ℕ
unfolding is_digit
read_digits base acc [] = acc
read_digits base acc (c ∷ cs) =
    let rest = read_digits base (acc * base + digit_value c) cs in
    if is_digit base c then rest else acc

abbrev is_space : ℕ → Bool
is_space c = c == b' ' || leb 9 c && leb c 13

abbrev is_x : ℕ → Bool
is_x c = c == b'x' || c == b'X'

-- The base that is meant, and the text behind a prefix "0x".
abbrev pub choose_base : ℕ → Bytes → ℕ × Bytes
choose_base base (a ∷ b ∷ c ∷ cs) =
    if (base == 16 || base == 0) && (a == b'0' && (is_x b && is_digit 16 c))
    then (16, c ∷ cs)
    else if base == 0
    then (if a == b'0' then 8 else 10, a ∷ b ∷ c ∷ cs)
    else (base, a ∷ b ∷ c ∷ cs)
choose_base base (a ∷ cs) =
    if base == 0 then (if a == b'0' then 8 else 10, a ∷ cs) else (base, a ∷ cs)
choose_base base [] = (base, [])

abbrev pub ulong_mod : ℕ
ulong_mod = 2 ^ 64

-- Out of range gives ULONG_MAX; a minus sign negates modulo 2^64. `none`: no digit was read.
abbrev pub signed_digits : Bool → ℕ × Bytes → Option ℕ
signed_digits minus (base, []) = none
signed_digits minus (base, c ∷ cs) =
    let n = read_digits base 0 (c ∷ cs) in
    if is_digit base c
    then some (
        if leb ulong_mod n then ulong_mod - 1 else if minus then (ulong_mod - n) % ulong_mod else n)
    else none

abbrev pub strip_sign : ℕ → Bytes → Option ℕ
strip_sign base [] = none
strip_sign base (c ∷ cs) =
    if c == b'-'
    then signed_digits true (choose_base base cs)
    else if c == b'+'
    then signed_digits false (choose_base base cs)
    else signed_digits false (choose_base base (c ∷ cs))

-- `none`: no number was found, and the C function returns 0 with `endptr` at the start.
unfoldable pub strtoul? : ℕ → Bytes → Option ℕ
unfolding drop_while read_digits
strtoul? base bs = strip_sign base (drop_while is_space bs)

unfoldable pub strtoul : ℕ → Bytes → ℕ
unfolding strtoul?
strtoul base bs = elim (strtoul? base bs) [ none ↦ 0 | some n ↦ n ]
