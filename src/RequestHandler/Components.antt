-- ===== src/RequestHandler/Components.antt =====
-- What src/reqhandler.c refuses of a path, by the path's components.
use filemanager_httpd.Common.{
  ℕ, suc, ◌-◌, ◌≤◌, ◌≡◌, refl, ap, ◌∙◌, ◌⊎◌, inl, inr, Bool, true, false, not, ◌||◌, List, [], ◌∷◌,
  ◌++◌, arith, ◌==◌, if◌then◌else◌, ==_iff, Bool-cases, length, drop, All,
}
use filemanager_httpd.Common.Strings.{Bytes, codes, equal, starts_with}
use filemanager_httpd.Common.Strings.Laws.{equal_iff}
use mathlib.Core.Path.{subst}
use filemanager_httpd.RequestHandler.Routing.{contains_up, leads_up}

-- The part in front of the first slash, and the other parts between slashes.
abbrev pub components : Bytes → Bytes × List Bytes
components [] = ([], [])
components (c ∷ cs) = let r = components cs in if c == b'/' then ([], r.0 ∷ r.1) else (c ∷ r.0, r.1)

abbrev pub is_plain : Bytes → Bool
is_plain name = not (equal name (codes ".."))

abbrev ends_up : Bytes → Bool
ends_up [] = false
ends_up (c ∷ cs) = equal (c ∷ cs) (codes "/..") || ends_up cs

equal_up-drop :
    (cs : Bytes)
    → equal cs (codes "/..") ≡ true
    → (3 ≤ length cs) × (equal (drop (length cs - 3) cs) (codes "/..") ≡ true)
unfolding equal
equal_up-drop cs h = rw ((equal_iff cs (codes "/..")).0 h) (omega arith, refl)

drop-suc :
    (c : ℕ) (cs : Bytes)
    → 3 ≤ length cs
    → drop (suc (length cs) - 3) (c ∷ cs) ≡ drop (length cs - 3) cs
drop-suc c cs h = ap (λ n. drop n (c ∷ cs)) (suc_sub (length cs) h)
  where
    suc_sub : (n : ℕ) → 3 ≤ n → suc n - 3 ≡ suc (n - 3)
    suc_sub n h = omega arith

ends_up-drop :
    (cs : Bytes)
    → ends_up cs ≡ true
    → (3 ≤ length cs) × (equal (drop (length cs - 3) cs) (codes "/..") ≡ true)
ends_up-drop [] h = ground arith
ends_up-drop (c ∷ cs) h = go (ends_up-drop cs) (Bool-cases (equal (c ∷ cs) (codes "/..")))
  where
    go :
        (ends_up cs ≡ true
          → (3 ≤ length cs) × (equal (drop (length cs - 3) cs) (codes "/..") ≡ true))
        → ((equal (c ∷ cs) (codes "/..") ≡ true) ⊎ (equal (c ∷ cs) (codes "/..") ≡ false))
        → (3 ≤ length (c ∷ cs)) × (equal (drop (length (c ∷ cs) - 3) (c ∷ cs)) (codes "/..") ≡ true)
    go ih (inl e) = equal_up-drop (c ∷ cs) e
    go ih (inr e) =
        let i = ih (ground (arith, h, e)) in
        (omega arith, ap (λ ds. equal ds (codes "/..")) (drop-suc c cs i.0) ∙ i.1)

first-up :
    (cs : Bytes)
    → equal (components cs).0 (codes "..") ≡ true
    → starts_with (b'/' ∷ cs) (codes "/../") || equal (b'/' ∷ cs) (codes "/..") ≡ true
unfolding equal starts_with
first-up [] h = ground arith
first-up (c ∷ []) h = ground arith
first-up (c ∷ d ∷ []) h = ground arith
first-up (c ∷ d ∷ e ∷ cs) h = ground arith

first_plain :
    (c : ℕ) (cs : Bytes)
    → contains_up (c ∷ cs) ≡ false
    → ends_up (c ∷ cs) ≡ false
    → c ≡ b'/'
    → is_plain (components cs).0 ≡ true
unfolding contains_up
first_plain c cs h k e =
    let u = first-up cs in
    let h2 = subst (λ d. contains_up (d ∷ cs) ≡ false) e h in
    let k2 = subst (λ d. ends_up (d ∷ cs) ≡ false) e k in ground (arith, u, h2, k2)

components_plain :
    (cs : Bytes) → contains_up cs ≡ false → ends_up cs ≡ false → All is_plain (components cs).1
unfolding contains_up
components_plain [] h k = tt
components_plain (c ∷ cs) h k =
    go (components_plain cs (ground (arith, h)) (ground (arith, k))) (Bool-cases (c == b'/'))
  where
    go :
        All is_plain (components cs).1
        → ((c == b'/' ≡ true) ⊎ (c == b'/' ≡ false))
        → All is_plain (components (c ∷ cs)).1
    go rest (inl e) = rw e (first_plain c cs h k ((==_iff c b'/').0 e), rest)
    go rest (inr e) = rw e rest

contains_up-length : (cs : Bytes) → contains_up cs ≡ true → 3 ≤ length cs
unfolding contains_up starts_with
contains_up-length [] h = ground arith
contains_up-length (c ∷ []) h = ground arith
contains_up-length (c ∷ d ∷ []) h = ground arith
contains_up-length (c ∷ d ∷ e ∷ cs) h = omega arith

pub leads_up_plain : (url : Bytes) → leads_up url ≡ false → All is_plain (components url).1
unfolding leads_up
leads_up_plain url h =
    components_plain url (go (Bool-cases (contains_up url))) (go2 (Bool-cases (ends_up url)))
  where
    go : ((contains_up url ≡ true) ⊎ (contains_up url ≡ false)) → contains_up url ≡ false
    go (inl e) = let d = contains_up-length url e in ground (arith, h, d)
    go (inr e) = e

    go2 : ((ends_up url ≡ true) ⊎ (ends_up url ≡ false)) → ends_up url ≡ false
    go2 (inl e) = let d = ends_up-drop url e in ground (arith, h, d)
    go2 (inr e) = e

components-append :
    (a b : Bytes)
    → ((components (a ++ (b'/' ∷ b))).0 ≡ (components a).0)
      × ((components (a ++ (b'/' ∷ b))).1
          ≡ (components a).1 ++ ((components b).0 ∷ (components b).1))
components-append [] b = (refl, refl)
components-append (c ∷ a) b = let ih = components-append a b in go ih (Bool-cases (c == b'/'))
  where
    go :
        ((components (a ++ (b'/' ∷ b))).0 ≡ (components a).0)
          × ((components (a ++ (b'/' ∷ b))).1
              ≡ (components a).1 ++ ((components b).0 ∷ (components b).1))
        → ((c == b'/' ≡ true) ⊎ (c == b'/' ≡ false))
        → ((components (c ∷ (a ++ (b'/' ∷ b)))).0 ≡ (components (c ∷ a)).0)
          × ((components (c ∷ (a ++ (b'/' ∷ b)))).1
              ≡ (components (c ∷ a)).1 ++ ((components b).0 ∷ (components b).1))
    go ih (inl e) = rw (e, ih.0, ih.1) (refl, refl)
    go ih (inr e) = rw (e, ih.0, ih.1) (refl, refl)

All-of-append : (xs ys : List Bytes) → All is_plain (xs ++ ys) → All is_plain xs × All is_plain ys
All-of-append [] ys h = (tt, h)
All-of-append (x ∷ xs) ys h = let r = All-of-append xs ys h.1 in ((h.0, r.0), r.1)

-- The parts of a plain path that is split at a slash.
pub plain_split :
    (a b : Bytes)
    → All is_plain (components (a ++ (b'/' ∷ b))).1
    → All is_plain (components a).1 × All is_plain (components (b'/' ∷ b)).1
plain_split a b h =
    All-of-append (components a).1 ((components b).0 ∷ (components b).1)
      (rw (components-append a b).1 at h)
