-- ===== src/DataChunk/Params/Writing.antt =====
-- How parameters for `dch_extractParam` of src/datachunk.c are written, and the trims of their texts.
use filemanager_httpd.Common.{
  ℕ, ◌≡◌, ap, ◌∙◌, Bool, true, false, not, ◌&&◌, List, [], ◌∷◌, ◌++◌, arith, ◌==◌, All,
}
use filemanager_httpd.Common.Strings.{Bytes}
use filemanager_httpd.Common.Strings.Laws.{
  is_not, drop_while_keep, drop_while-append, trim_end_keep, trim_end-All, first_is, last_is,
}
use filemanager_httpd.DataChunk.{is_ws, skip_leading_ws, trim_trailing_ws, trim_ws}

-- A parameter as it is written: with or without quotes, and with white space in front of the name, on
-- both sides of the equals sign and behind the value.
pub record Written : Type 0 where
  pub name : Bytes
  pub value : Bytes
  pub is_quoted : Bool
  pub before : Bytes
  pub behind_name : Bytes
  pub behind_equals : Bytes
  pub behind_value : Bytes

-- What stands behind the equals sign and its blanks.
abbrev pub text_of : Bool → Bytes → Bytes → Bytes → Bytes
text_of true value behind rest = b'"' ∷ (value ++ (b'"' ∷ (behind ++ rest)))
text_of false value behind rest = value ++ (behind ++ rest)

abbrev pub value_text : Written → Bytes → Bytes
value_text w rest = text_of w.is_quoted w.value w.behind_value rest

abbrev pub param_text : Written → Bytes → Bytes
param_text w rest =
    (w.before ++ (w.name ++ w.behind_name)) ++ (b'=' ∷ (w.behind_equals ++ value_text w rest))

-- The delimiter stands between the parameters.
abbrev pub written : ℕ → List Written → Bytes
written d [] = []
written d (w ∷ []) = param_text w []
written d (w ∷ v ∷ ws) = param_text w (d ∷ written d (v ∷ ws))

abbrev not_ws : ℕ → Bool
not_ws c = not (is_ws c)

-- With quotes any value that holds none; without them one that is not empty, holds no delimiter, has no
-- white space at its ends and does not start with a quote.
abbrev pub IsValue : ℕ → Bool → Bytes → Type 0
IsValue d true value = All (is_not b'"') value
IsValue d false value =
    All (is_not d) value
    × (first_is (λ c. not (is_ws c) && not (c == b'"')) value ≡ true)
    × (last_is is_ws value ≡ false)

-- The name is not empty, holds no equals sign, and has no white space at its ends.
pub record IsWritten (d : ℕ) (w : Written) : Type 0 where
  pub no_equals : All (is_not b'=') w.name
  pub starts : first_is (λ c. not (is_ws c)) w.name ≡ true
  pub ends : last_is is_ws w.name ≡ false
  pub is_value : IsValue d w.is_quoted w.value
  pub blanks :
      All is_ws w.before
      × All is_ws w.behind_name
      × All is_ws w.behind_equals
      × All is_ws w.behind_value

abbrev pub AreWritten : ℕ → List Written → Type 0
AreWritten d [] = Unit
AreWritten d (w ∷ ws) = IsWritten d w × AreWritten d ws

abbrev pub pair : Written → Bytes × Bytes
pair w = (w.name, w.value)

pub ws-is_not : (c : ℕ) (bs : Bytes) → is_ws c ≡ false → All is_ws bs → All (is_not c) bs
unfolding is_ws
ws-is_not c [] h k = tt
ws-is_not c (x ∷ bs) h k = (ground (arith, k.0), ws-is_not c bs h k.1)

pub skip_leading_ws-text :
    (before text : Bytes)
    → All is_ws before
    → first_is is_ws text ≡ false
    → skip_leading_ws (before ++ text) ≡ text
unfolding skip_leading_ws
skip_leading_ws-text before text h k =
    drop_while-append is_ws before text h ∙ drop_while_keep is_ws text k

pub trim_trailing_ws-text :
    (text behind : Bytes)
    → All is_ws behind
    → last_is is_ws text ≡ false
    → trim_trailing_ws (text ++ behind) ≡ text
unfolding trim_trailing_ws
trim_trailing_ws-text text behind h k =
    trim_end-All is_ws text behind h ∙ trim_end_keep is_ws text k

pub starts-text :
    (text behind : Bytes)
    → first_is (λ c. not (is_ws c)) text ≡ true
    → first_is is_ws (text ++ behind) ≡ false
starts-text [] behind h = absurd (ground arith)
starts-text (c ∷ cs) behind h = ground arith

pub trim_ws-text :
    (before name behind : Bytes)
    → All is_ws before
    → All is_ws behind
    → first_is (λ c. not (is_ws c)) name ≡ true
    → last_is is_ws name ≡ false
    → trim_ws (before ++ (name ++ behind)) ≡ name
unfolding trim_ws
trim_ws-text before name behind h k s e =
    ap trim_trailing_ws (skip_leading_ws-text before (name ++ behind) h (starts-text name behind s))
    ∙ trim_trailing_ws-text name behind k e
