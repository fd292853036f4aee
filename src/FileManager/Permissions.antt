-- ===== src/FileManager/Permissions.antt =====
-- src/filemanager.c: permissions, as the folder's page shows them and as a form sends them back.
use filemanager_httpd.Common.{
  ℕ, zero, suc, ◌<◌, ◌≡◌, refl, ap, ◌⊎◌, inl, inr, Bool, true, false, ◌&&◌, Option, none, some,
  List, [], ◌∷◌, arith, ◌==◌, if◌then◌else◌, ==_iff, Bool-cases,
}
use filemanager_httpd.Common.Strings.{Bytes, codes, equal}
use Prim.Native.Nat.{bit_and, bit_or}

abbrev pub file_perm_disp : List Bytes
file_perm_disp =
    codes "---"
    ∷ codes "r--"
    ∷ codes "-w-"
    ∷ codes "rw-"
    ∷ codes "--x"
    ∷ codes "r-x"
    ∷ codes "-wx"
    ∷ codes "rwx"
    ∷ []

-- A row of `gFilePerm`: the mask, and the bits for each of the texts above.
pub record FilePerm : Type 0 where
  pub name : Bytes
  pub mask : ℕ
  pub value : List ℕ

abbrev pub user_perm : FilePerm
user_perm = record {
  name = codes "user";
  mask = 448;
  value = 0 ∷ 256 ∷ 128 ∷ 384 ∷ 64 ∷ 320 ∷ 192 ∷ 448 ∷ [];
}

abbrev pub group_perm : FilePerm
group_perm = record {
  name = codes "group";
  mask = 56;
  value = 0 ∷ 32 ∷ 16 ∷ 48 ∷ 8 ∷ 40 ∷ 24 ∷ 56 ∷ [];
}

abbrev pub others_perm : FilePerm
others_perm = record { name = codes "others"; mask = 7; value = 0 ∷ 4 ∷ 2 ∷ 6 ∷ 1 ∷ 5 ∷ 3 ∷ 7 ∷ [] }

-- The value that stands where the text stands.
unfoldable pub find_perm : Bytes → List Bytes → List ℕ → Option ℕ
unfolding equal
find_perm perm (disp ∷ disps) (v ∷ vs) =
    let rest = find_perm perm disps vs in if equal perm disp then some v else rest
find_perm perm disps vs = none

-- One round of the loop of `chmod_file` over the groups; `none`: the parameter is not valid.
unfoldable pub add_perm : Option ℕ → Bytes → FilePerm → Option ℕ
unfolding find_perm
add_perm none perm group = none
add_perm (some mode) perm group = elim (find_perm perm file_perm_disp group.value) [
  | none ↦ none
  | some v ↦ some (bit_or mode v)
]

-- The mode for the texts for the user, the group and others.
unfoldable pub chmod_mode : Bytes → Bytes → Bytes → Option ℕ
unfolding add_perm
chmod_mode puser pgroup pothers =
    add_perm (add_perm (add_perm (some 0) puser user_perm) pgroup group_perm) pothers others_perm

-- The options of the page for a group: the texts, of which those with the mode's bits are selected.
unfoldable pub options : ℕ → FilePerm → List Bytes → List ℕ → List (Bool × Bytes)
options mode group (disp ∷ disps) (v ∷ vs) =
    (bit_and mode group.mask == v, disp) ∷ options mode group disps vs
options mode group disps vs = []

abbrev pub perm_options : ℕ → FilePerm → List (Bool × Bytes)
perm_options mode group = options mode group file_perm_disp group.value

-- The texts that are selected.
abbrev pub selected : List (Bool × Bytes) → List Bytes
selected [] = []
selected ((true, disp) ∷ os) = disp ∷ selected os
selected ((false, disp) ∷ os) = selected os

-- The texts that a browser sends back: for each group the one that is selected, where it is one.
abbrev pub sent_mode : List Bytes → List Bytes → List Bytes → Option ℕ
sent_mode (u ∷ []) (g ∷ []) (o ∷ []) = chmod_mode u g o
sent_mode us gs os = none

abbrev pub resent : ℕ → Option ℕ
resent mode =
    sent_mode (selected (perm_options mode user_perm)) (selected (perm_options mode group_perm))
      (selected (perm_options mode others_perm))

abbrev is_mode : ℕ → Option ℕ → Bool
is_mode mode none = false
is_mode mode (some m) = m == mode

abbrev all_below : (ℕ → Bool) → ℕ → Bool
all_below p zero = true
all_below p (suc n) = p n && all_below p n

all_below-at : (p : ℕ → Bool) (n k : ℕ) → all_below p n ≡ true → k < n → p k ≡ true
all_below-at p zero k h l = ground arith
all_below-at p (suc n) k h l = go (all_below-at p n k) (Bool-cases (k == n))
  where
    go :
        (all_below p n ≡ true → k < n → p k ≡ true)
        → ((k == n ≡ true) ⊎ (k == n ≡ false))
        → p k ≡ true
    go ih (inl e) = rw ((==_iff k n).0 e) (ground (arith, h))
    go ih (inr e) = ih (ground (arith, h)) (ground (arith, e, l))

is_mode-some : (mode : ℕ) (o : Option ℕ) → is_mode mode o ≡ true → o ≡ some mode
is_mode-some mode none h = ground arith
is_mode-some mode (some m) h = ap some ((==_iff m mode).0 h)

-- The permissions that the page shows, sent back unchanged, give the same mode: for each group one text
-- is selected, and `chmod_file` makes the mode of the three.
pub resent_lem : (mode : ℕ) → mode < 512 → resent mode ≡ some mode
unfolding options chmod_mode equal
resent_lem mode h =
    is_mode-some mode (resent mode) (all_below-at (λ m. is_mode m (resent m)) 512 mode refl h)
