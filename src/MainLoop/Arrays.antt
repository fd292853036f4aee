-- ===== src/MainLoop/Arrays.antt =====
-- Arrays of src/main.c: entries that are read and set at a place that is known.
use filemanager_httpd.Common.{
  ℕ, ◌+◌, ◌≡◌, refl, sym, ap, ◌∙◌, some, List, [], ◌∷◌, ◌++◌, append_assoc, arith, length,
  get_elem?, take, length-append,
}
use filemanager_httpd.MainLoop.{set_elem}

module _ {A : Type 0} where
  pub get_elem?-append :
      (xs : List A) (y : A) (ys : List A) → get_elem? (xs ++ y ∷ ys) (length xs) ≡ some y
  get_elem?-append [] y ys = refl
  get_elem?-append (x ∷ xs) y ys = get_elem?-append xs y ys

  pub set_elem-append :
      (xs : List A) (x y : A) (ys : List A) → set_elem (length xs) x (xs ++ y ∷ ys) ≡ xs ++ x ∷ ys
  set_elem-append [] x y ys = refl
  set_elem-append (z ∷ xs) x y ys = ap (λ zs. z ∷ zs) (set_elem-append xs x y ys)

  pub take-append : (xs ys : List A) → take (length xs) (xs ++ ys) ≡ xs
  take-append [] ys = refl
  take-append (x ∷ xs) ys = ap (λ zs. x ∷ zs) (take-append xs ys)

  -- Behind two stretches of the array.
  pub get_elem?-behind :
      (i : ℕ) (xs ys : List A) (z : A) (zs : List A)
      → i ≡ length xs + length ys
      → get_elem? (xs ++ (ys ++ z ∷ zs)) i ≡ some z
  get_elem?-behind i xs ys z zs e =
      ap (λ ws. get_elem? ws i) (sym (append_assoc xs ys (z ∷ zs)))
      ∙ ap (get_elem? ((xs ++ ys) ++ z ∷ zs)) (omega (arith, length-append xs ys))
      ∙ get_elem?-append (xs ++ ys) z zs

  pub set_elem-behind :
      (i : ℕ) (xs ys : List A) (y z : A) (zs : List A)
      → i ≡ length xs + length ys
      → set_elem i y (xs ++ (ys ++ z ∷ zs)) ≡ xs ++ (ys ++ y ∷ zs)
  set_elem-behind i xs ys y z zs e =
      ap (set_elem i y) (sym (append_assoc xs ys (z ∷ zs)))
      ∙ ap (λ n. set_elem n y ((xs ++ ys) ++ z ∷ zs)) (omega (arith, length-append xs ys))
      ∙ set_elem-append (xs ++ ys) y z zs
      ∙ append_assoc xs ys (y ∷ zs)
