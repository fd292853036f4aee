-- ===== src/Common/Strings.antt =====
-- Text as the C library handles it: bytes, strings that end at their first zero byte, and searches.
pub mod Laws
pub mod Number
pub mod Print
use Prim.Native.Nat.{ℕ, ◌+◌}
use Prim.Native.Char.{code}
use Prim.Native.String.{String}
use mathlib.Core.Path.{◌≡◌, refl}
use mathlib.Core.Logic.{◌↔◌}
use mathlib.Core.Bool.{Bool, true, false, not, ◌&&◌, ◌||◌}
use mathlib.Core.List.{List, [], ◌∷◌, ◌++◌}
use mathlib.Core.Option.{Option, none, some}
use native.Mathlib.Omega.{arith}
use filemanager_httpd.Common.Tests.{◌==◌, leb, ltb, if◌then◌else◌}

abbrev pub Bytes : Type 0
Bytes = List ℕ

-- The bytes of a literal; every literal here is ASCII.
abbrev pub codes : String → Bytes
codes String.[] = []
codes (String.◌∷◌ c s) = code c ∷ codes s

-- Bytes up to the first that fails the test, and those from there on.
unfoldable pub take_while : (ℕ → Bool) → Bytes → Bytes
take_while p [] = []
take_while p (c ∷ cs) = if p c then c ∷ take_while p cs else []

unfoldable pub drop_while : (ℕ → Bool) → Bytes → Bytes
drop_while p [] = []
drop_while p (c ∷ cs) = if p c then drop_while p cs else c ∷ cs

-- `while( len && p(data[len-1]) ) --len;`
unfoldable pub trim_end : (ℕ → Bool) → Bytes → Bytes
trim_end p [] = []
trim_end p (c ∷ cs) = elim (trim_end p cs) [ [] ↦ if p c then [] else c ∷ [] | d ∷ ds ↦ c ∷ d ∷ ds ]

-- The string that starts at these bytes.
unfoldable pub c_str : Bytes → Bytes
unfolding take_while
c_str = take_while (λ c. not (c == 0))

-- `memchr`: what stands before the first `c`, and what stands behind it.
unfoldable pub split_chr : ℕ → Bytes → Option (Bytes × Bytes)
split_chr c [] = none
split_chr c (d ∷ ds) =
    let rest = split_chr c ds in
    if d == c then some ([], ds) else elim rest [ none ↦ none | some (a, b) ↦ some (d ∷ a, b) ]

unfoldable pub contains_chr : ℕ → Bytes → Bool
contains_chr c [] = false
contains_chr c (d ∷ ds) = d == c || contains_chr c ds

-- `memcmp` and `strcmp` for equality.
unfoldable pub equal : Bytes → Bytes → Bool
equal [] [] = true
equal [] (d ∷ ds) = false
equal (c ∷ cs) [] = false
equal (c ∷ cs) (d ∷ ds) = c == d && equal cs ds

unfoldable pub to_lower : ℕ → ℕ
to_lower c = if leb b'A' c && leb c b'Z' then c + 32 else c

-- `strcasecmp` for equality.
unfoldable pub equal_ignore_case : Bytes → Bytes → Bool
unfolding to_lower
equal_ignore_case [] [] = true
equal_ignore_case (x ∷ xs) (y ∷ ys) = to_lower x == to_lower y && equal_ignore_case xs ys
equal_ignore_case _ _ = false

-- The second text stands at the start of the first.
unfoldable pub starts_with : Bytes → Bytes → Bool
starts_with _ [] = true
starts_with (x ∷ xs) (y ∷ ys) = x == y && starts_with xs ys
starts_with [] (y ∷ ys) = false

unfoldable pub starts_with_ignore_case : Bytes → Bytes → Bool
unfolding to_lower
starts_with_ignore_case _ [] = true
starts_with_ignore_case (x ∷ xs) (y ∷ ys) =
    to_lower x == to_lower y && starts_with_ignore_case xs ys
starts_with_ignore_case [] (y ∷ ys) = false
