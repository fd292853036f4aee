-- ===== src/Common/Strings/Print.antt =====
-- Numbers as `sprintf` writes them.
use Prim.Native.Nat.{ℕ, zero, suc, ◌+◌, ◌-◌, ◌/◌, ◌%◌}
use mathlib.Core.List.{[], ◌∷◌, ◌++◌}
use filemanager_httpd.Common.Tests.{ltb, if◌then◌else◌}
use filemanager_httpd.Common.Strings.{Bytes}

abbrev digit : ℕ → ℕ
digit n = if ltb n 10 then b'0' + n else b'a' + (n - 10)

-- At most `fuel` digits of a number.
unfoldable print_digits : ℕ → ℕ → ℕ → Bytes
print_digits zero base n = []
print_digits (suc fuel) base n =
    let rest = print_digits fuel base (n / base) in
    if ltb n base then digit n ∷ [] else rest ++ digit (n % base) ∷ []

-- `%llu`: 20 digits are enough for 64 bits.
unfoldable pub print_decimal : ℕ → Bytes
unfolding print_digits
print_decimal n = print_digits 20 10 n

-- `%x`: 8 digits are enough for 32 bits.
unfoldable pub print_hex : ℕ → Bytes
unfolding print_digits
print_hex n = print_digits 8 16 n

-- `%llx`: 16 digits are enough for 64 bits.
unfoldable pub print_hex_64 : ℕ → Bytes
unfolding print_digits
print_hex_64 n = print_digits 16 16 n
