-- ===== src/Common/Strings/Laws.antt =====
-- Laws of the searches and trims of Strings.
use Prim.Native.Nat.{ℕ}
use mathlib.Core.Path.{◌≡◌, refl}
use mathlib.Core.Logic.{◌↔◌, inl, inr}
use mathlib.Core.Bool.{Bool, true, false, not}
use mathlib.Core.List.{[], ◌∷◌, ◌++◌}
use mathlib.Core.Option.{none, some}
use native.Mathlib.Omega.{arith}
use filemanager_httpd.Common.Tests.{◌==◌, Bool-cases, Option-cases}
use filemanager_httpd.Common.Lists.{All}
use filemanager_httpd.Common.Strings.{
  Bytes, take_while, drop_while, trim_end, c_str, split_chr, equal,
}

abbrev pub is_not : ℕ → ℕ → Bool
is_not c d = not (d == c)

pub split_chr-some :
    (c : ℕ) (bs : Bytes) {a b : Bytes}
    → split_chr c bs ≡ some (a, b)
    → (bs ≡ a ++ (c ∷ b)) × All (is_not c) a
unfolding split_chr
split_chr-some c [] h = cc
split_chr-some c (d ∷ ds) {a} {b} h = elim (Bool-cases (d == c)) [
  | inl e ↦ ground arith
  | inr e ↦ elim (Option-cases (split_chr c ds)) [
    | inl n ↦ ground arith
    | inr ((x, y), s) ↦ ground (arith, split_chr-some c ds s)
  ]
]

pub split_chr-none : (c : ℕ) (bs : Bytes) → split_chr c bs ≡ none → All (is_not c) bs
unfolding split_chr
split_chr-none c [] h = tt
split_chr-none c (d ∷ ds) h = ground (arith, split_chr-none c ds)

pub split_chr-append :
    (c : ℕ) (a b : Bytes) → All (is_not c) a → split_chr c (a ++ (c ∷ b)) ≡ some (a, b)
unfolding split_chr
split_chr-append c [] b h = ground arith
split_chr-append c (x ∷ a) b h = ground (arith, split_chr-append c a b h.1)

pub split_chr-absent : (c : ℕ) (bs : Bytes) → All (is_not c) bs → split_chr c bs ≡ none
unfolding split_chr
split_chr-absent c [] h = refl
split_chr-absent c (x ∷ a) h = ground (arith, split_chr-absent c a h.1)

pub split_chr-append_left :
    (c : ℕ) (a b : Bytes) {l r : Bytes}
    → All (is_not c) a
    → split_chr c b ≡ some (l, r)
    → split_chr c (a ++ b) ≡ some (a ++ l, r)
unfolding split_chr
split_chr-append_left c [] b h e = e
split_chr-append_left c (x ∷ a) b h e = ground (arith, split_chr-append_left c a b h.1 e)

module _ (p : ℕ → Bool) where
  pub take_while-append-drop_while : (bs : Bytes) → take_while p bs ++ drop_while p bs ≡ bs
  unfolding take_while drop_while
  take_while-append-drop_while [] = refl
  take_while-append-drop_while (c ∷ cs) = ground (arith, take_while-append-drop_while cs)

  pub All-take_while : (bs : Bytes) → All p (take_while p bs)
  unfolding take_while
  All-take_while [] = tt
  All-take_while (c ∷ cs) = ground (arith, All-take_while cs)

  pub take_while-All : (bs : Bytes) → All p bs → take_while p bs ≡ bs
  unfolding take_while
  take_while-All [] h = refl
  take_while-All (c ∷ cs) h = ground (arith, take_while-All cs h.1)

  pub take_while-append : (a b : Bytes) → All p a → take_while p (a ++ b) ≡ a ++ take_while p b
  unfolding take_while
  take_while-append [] b h = refl
  take_while-append (c ∷ a) b h = ground (arith, take_while-append a b h.1)

  pub drop_while-append : (a b : Bytes) → All p a → drop_while p (a ++ b) ≡ drop_while p b
  unfolding drop_while
  drop_while-append [] b h = refl
  drop_while-append (c ∷ a) b h = ground (arith, drop_while-append a b h.1)

  pub drop_while-All : (bs : Bytes) → All p bs → drop_while p bs ≡ []
  unfolding drop_while
  drop_while-All [] h = refl
  drop_while-All (c ∷ cs) h = ground (arith, drop_while-All cs h.1)

  -- The first, and the last, byte passes the test.
  abbrev pub first_is : Bytes → Bool
  first_is [] = false
  first_is (c ∷ cs) = p c

  abbrev pub last_is : Bytes → Bool
  last_is [] = false
  last_is (c ∷ []) = p c
  last_is (c ∷ d ∷ ds) = last_is (d ∷ ds)

  pub drop_while_keep : (bs : Bytes) → first_is bs ≡ false → drop_while p bs ≡ bs
  unfolding drop_while
  drop_while_keep [] h = refl
  drop_while_keep (c ∷ cs) h = ground arith

  pub first_is-drop_while : (bs : Bytes) → first_is (drop_while p bs) ≡ false
  unfolding drop_while
  first_is-drop_while [] = refl
  first_is-drop_while (c ∷ cs) = ground (arith, first_is-drop_while cs)

  pub trim_end_keep : (bs : Bytes) → last_is bs ≡ false → trim_end p bs ≡ bs
  unfolding trim_end
  trim_end_keep [] h = refl
  trim_end_keep (c ∷ []) h = ground arith
  trim_end_keep (c ∷ d ∷ ds) h = rw (trim_end_keep (d ∷ ds) h, trim_end)

  pub trim_end-All : (a b : Bytes) → All p b → trim_end p (a ++ b) ≡ trim_end p a
  unfolding trim_end
  trim_end-All [] [] h = refl
  trim_end-All [] (c ∷ b) h = ground (arith, trim_end-All [] b h.1)
  trim_end-All (c ∷ a) b h = ground (arith, trim_end-All a b h)

  pub trim_end_split : (bs : Bytes) → (t : Bytes) × (bs ≡ trim_end p bs ++ t) × All p t
  unfolding trim_end
  trim_end_split [] = ([], refl, tt)
  trim_end_split (c ∷ cs) = elim (Bool-cases (p c)) [
    | inl e ↦ step (trim_end_split cs) (trim_end p cs) refl e
    | inr e ↦ keep (trim_end_split cs) (trim_end p cs) refl e
  ]
    where
      step :
          ((t : Bytes) × (cs ≡ trim_end p cs ++ t) × All p t)
          → (k : Bytes) → trim_end p cs ≡ k
          → p c ≡ true
          → (t : Bytes) × (c ∷ cs ≡ trim_end p (c ∷ cs) ++ t) × All p t
      step (t, e, h) [] n q = (c ∷ t, ground arith, ground arith)
      step (t, e, h) (x ∷ k) n q = (t, ground arith, h)

      keep :
          ((t : Bytes) × (cs ≡ trim_end p cs ++ t) × All p t)
          → (k : Bytes) → trim_end p cs ≡ k
          → p c ≡ false
          → (t : Bytes) × (c ∷ cs ≡ trim_end p (c ∷ cs) ++ t) × All p t
      keep (t, e, h) [] n q = (t, ground arith, h)
      keep (t, e, h) (x ∷ k) n q = (t, ground arith, h)

  pub last_is-trim_end : (bs : Bytes) → last_is (trim_end p bs) ≡ false
  unfolding trim_end
  last_is-trim_end [] = refl
  last_is-trim_end (c ∷ cs) = go (trim_end p cs) refl (last_is-trim_end cs)
    where
      go :
          (k : Bytes)
          → trim_end p cs ≡ k
          → last_is (trim_end p cs) ≡ false
          → last_is (trim_end p (c ∷ cs)) ≡ false
      go [] e h = ground arith
      go (x ∷ k) e h = rw (e, trim_end) (rw e at h)

  pub last_is-append : (a : Bytes) (c : ℕ) (b : Bytes) → last_is (a ++ (c ∷ b)) ≡ last_is (c ∷ b)
  last_is-append [] c b = refl
  last_is-append (x ∷ []) c b = refl
  last_is-append (x ∷ y ∷ a) c b = last_is-append (y ∷ a) c b

  pub last_is-All :
      (q : ℕ → Bool) (bs : Bytes)
      → ((c : ℕ) → q c ≡ true → p c ≡ false)
      → All q bs
      → last_is bs ≡ false
  last_is-All q [] f h = refl
  last_is-All q (c ∷ []) f h = f c h.0
  last_is-All q (c ∷ d ∷ ds) f h = last_is-All q (d ∷ ds) f h.1

  pub first_is-trim_end : (bs : Bytes) → first_is bs ≡ false → first_is (trim_end p bs) ≡ false
  unfolding trim_end
  first_is-trim_end [] h = refl
  first_is-trim_end (c ∷ cs) h = go (trim_end p cs) refl
    where
      go : (k : Bytes) → trim_end p cs ≡ k → first_is (trim_end p (c ∷ cs)) ≡ false
      go [] e = ground arith
      go (x ∷ k) e = rw (e, trim_end) h

pub equal_iff : (cs ds : Bytes) → (equal cs ds ≡ true) ↔ (cs ≡ ds)
unfolding equal
equal_iff [] [] = ground arith
equal_iff [] (d ∷ ds) = ground arith
equal_iff (c ∷ cs) [] = ground arith
equal_iff (c ∷ cs) (d ∷ ds) = ground (arith, equal_iff cs ds)

pub equal_refl : (a : Bytes) → equal a a ≡ true
equal_refl a = (equal_iff a a).1 refl

pub c_str-All : (bs : Bytes) → All (is_not 0) bs → c_str bs ≡ bs
unfolding c_str
c_str-All bs h = take_while-All (is_not 0) bs h
