-- ===== src/Tests/Bytes.antt =====
-- Predicates on the bytes of a literal text, for the tests.
use filemanager_httpd.Common.{ℕ, ◌≡◌, Bool, true, ◌&&◌, [], ◌∷◌, arith, All}
use filemanager_httpd.Common.Strings.{Bytes}

abbrev pub all : (ℕ → Bool) → Bytes → Bool
all p [] = true
all p (c ∷ cs) = p c && all p cs

pub all-All : (p : ℕ → Bool) (bs : Bytes) → all p bs ≡ true → All p bs
all-All p [] h = tt
all-All p (c ∷ cs) h = (ground arith, all-All p cs (ground arith))
