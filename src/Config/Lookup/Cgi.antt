-- ===== src/Config/Lookup/Cgi.antt =====
-- What `config_findCGI` of src/fmconfig.c finds.
use filemanager_httpd.Common.{
  ℕ, ◌≡◌, refl, sym, ap, ◌∙◌, ◌≢◌, ◌⊎◌, inl, inr, Bool, true, false, Option, none, some, List, [],
  ◌∷◌, ◌++◌, map, arith, ◌==◌, if◌then◌else◌, ==_iff, Bool-cases, is_empty,
}
use filemanager_httpd.Common.Strings.{Bytes, codes}
use mathlib.Core.Option.{some-injective, none-ne-some}
use mathlib.Core.Path.{subst}
use filemanager_httpd.Config.{Config, get_sys_path_for_url_path}
use filemanager_httpd.Config.Lookup.{
  slash_splits, FoundCgi, is_cgi, if_regular, found_or, with_sub_path, cgi_exe_for, find_cgi_loop,
  find_cgi_buffers, find_cgi,
}
use filemanager_httpd.FileSystem.{FileSystem, is_stat, s_isreg}

-- The text in two parts, of which the second one starts with a slash.
pub record IsSplit (url : Bytes) (before : Bytes) (after : Bytes) : Type 0 where
  pub whole : url ≡ before ++ after
  pub more : Bytes
  pub slash : after ≡ b'/' ∷ more

abbrev AreSplits : Bytes → List (Bytes × Bytes) → Type 0
AreSplits url [] = Unit
AreSplits url ((u, s) ∷ l) = IsSplit url u s × AreSplits url l

map-AreSplits :
    (c : ℕ) (url : Bytes) (l : List (Bytes × Bytes))
    → AreSplits url l
    → AreSplits (c ∷ url) (map (λ (s : Bytes × Bytes). (c ∷ s.0, s.1)) l)
map-AreSplits c url [] h = tt
map-AreSplits c url ((u, s) ∷ l) h = (
  record { whole = ap (λ t. c ∷ t) h.0.whole; more = h.0.more; slash = h.0.slash },
  map-AreSplits c url l h.1,
)

append-AreSplits :
    (url : Bytes) (l m : List (Bytes × Bytes))
    → AreSplits url l
    → AreSplits url m
    → AreSplits url (l ++ m)
append-AreSplits url [] m h k = k
append-AreSplits url ((u, s) ∷ l) m h k = (h.0, append-AreSplits url l m h.1 k)

slash_splits-AreSplits : (url : Bytes) → AreSplits url (slash_splits url)
unfolding slash_splits
slash_splits-AreSplits [] = tt
slash_splits-AreSplits (c ∷ cs) =
    append-AreSplits (c ∷ cs) (map (λ (s : Bytes × Bytes). (c ∷ s.0, s.1)) (slash_splits cs))
      (if c == b'/' then ([], c ∷ cs) ∷ [] else [])
      (map-AreSplits c cs (slash_splits cs) (slash_splits-AreSplits cs))
      (go (Bool-cases (c == b'/')))
  where
    go :
        ((c == b'/' ≡ true) ⊎ (c == b'/' ≡ false))
        → AreSplits (c ∷ cs) (if c == b'/' then ([], c ∷ cs) ∷ [] else [])
    go (inl e) =
        rw e
          (record { whole = refl; more = cs; slash = ap (λ d. d ∷ cs) ((==_iff c b'/').0 e) }, tt)
    go (inr e) = rw e tt

-- The program's URL path fits a pattern and leads to a regular file; behind it, from a slash on,
-- stands the rest of the path.
pub record IsFound (fs : FileSystem) (cfg : Config) (url : Bytes) (found : FoundCgi) : Type 0 where
  pub sub_path : Bytes
  pub has_sub_path : found.cgi_sub_path ≡ some sub_path
  pub split : IsSplit url found.cgi_url sub_path
  pub fits : is_cgi fs cfg (if is_empty found.cgi_url then codes "/" else found.cgi_url) ≡ true
  pub maps : get_sys_path_for_url_path cfg found.cgi_url ≡ some found.cgi_exe
  pub regular : is_stat s_isreg (fs.stat found.cgi_exe) ≡ true

module _ (fs : FileSystem) (cfg : Config) where
  if_regular_lem :
      (o : Option Bytes) (exe : Bytes)
      → if_regular fs o ≡ some exe
      → (o ≡ some exe) × (is_stat s_isreg (fs.stat exe) ≡ true)
  if_regular_lem none exe h = ground arith
  if_regular_lem (some e) exe h = go (Bool-cases (is_stat s_isreg (fs.stat e)))
    where
      go :
          ((is_stat s_isreg (fs.stat e) ≡ true) ⊎ (is_stat s_isreg (fs.stat e) ≡ false))
          → (some e ≡ some exe) × (is_stat s_isreg (fs.stat exe) ≡ true)
      go (inl k) =
          let q = rw k at h in
          (q, subst (λ x. is_stat s_isreg (fs.stat x) ≡ true) (some-injective _ _ q) k)
      go (inr k) = elim (none-ne-some _ (rw k at h)) [ ]

  cgi_exe_for_lem :
      (u exe : Bytes)
      → cgi_exe_for fs cfg u ≡ some exe
      → (get_sys_path_for_url_path cfg u ≡ some exe) × (is_stat s_isreg (fs.stat exe) ≡ true)
  unfolding cgi_exe_for
  cgi_exe_for_lem u exe h = if_regular_lem (get_sys_path_for_url_path cfg u) exe h

  -- Where the loop has not found a program, it goes on with `rest`.
  found_or-IsFound :
      (url u s : Bytes) (found : FoundCgi) (rest : Option FoundCgi) (o : Option Bytes)
      → IsSplit url u s
      → is_cgi fs cfg (if is_empty u then codes "/" else u) ≡ true
      → cgi_exe_for fs cfg u ≡ o
      → (rest ≡ some found → IsFound fs cfg url found)
      → found_or fs rest u (some s) o ≡ some found
      → IsFound fs cfg url found
  found_or-IsFound url u s found rest none sp fits eq k h = k h
  found_or-IsFound url u s found rest (some exe) sp fits eq k h =
      subst (λ f. IsFound fs cfg url f) (some-injective _ _ h)
        (record {
          sub_path = s;
          has_sub_path = refl;
          split = sp;
          fits = fits;
          maps = (cgi_exe_for_lem u exe eq).0;
          regular = (cgi_exe_for_lem u exe eq).1;
        })

  loop-IsFound :
      (url : Bytes) (l : List (Bytes × Bytes)) (found : FoundCgi)
      → AreSplits url l
      → find_cgi_loop fs cfg l ≡ some found
      → IsFound fs cfg url found
  unfolding find_cgi_loop
  loop-IsFound url [] found h e = elim (none-ne-some _ e) [ ]
  loop-IsFound url ((u, s) ∷ l) found h e =
      go (loop-IsFound url l found h.1)
        (Bool-cases (is_cgi fs cfg (if is_empty u then codes "/" else u)))
    where
      fits : Bool
      fits = is_cgi fs cfg (if is_empty u then codes "/" else u)

      go :
          (find_cgi_loop fs cfg l ≡ some found → IsFound fs cfg url found)
          → ((fits ≡ true) ⊎ (fits ≡ false))
          → IsFound fs cfg url found
      go ih (inl k) =
          found_or-IsFound url u s found (find_cgi_loop fs cfg l) (cgi_exe_for fs cfg u) h.0 k refl
            ih (rw k at e)
      go ih (inr k) = ih (rw k at e)

  with_sub_path_lem :
      (o : Option FoundCgi) (found : FoundCgi)
      → with_sub_path fs o ≡ some found
      → (o ≡ some found) × (found.cgi_sub_path ≢ none)
  with_sub_path_lem none found h = elim (none-ne-some _ h) [ ]
  with_sub_path_lem (some f) found h = go f.cgi_sub_path refl h
    where
      go :
          (o : Option Bytes)
          → f.cgi_sub_path ≡ o
          → (elim o as (λ _. Option FoundCgi) [ none ↦ none | some sub ↦ some f ]) ≡ some found
          → (some f ≡ some found) × (found.cgi_sub_path ≢ none)
      go none e h = elim (none-ne-some _ h) [ ]
      go (some sub) e h = (
        h,
        λ k.
            none-ne-some _
              (sym k ∙ sym (ap (λ (g : FoundCgi). g.cgi_sub_path) (some-injective _ _ h)) ∙ e),
      )

  -- What `config_findCGI` finds is a regular file whose URL path fits a pattern, and the rest of the
  -- path from a slash on. There is such a rest whenever a file is found.
  pub find_cgi-IsFound :
      (url : Bytes) (found : FoundCgi) → find_cgi fs cfg url ≡ some found → IsFound fs cfg url found
  unfolding find_cgi find_cgi_buffers
  find_cgi-IsFound url found h =
      let w = with_sub_path_lem (find_cgi_buffers fs cfg url) found h in
      loop-IsFound url (slash_splits url) found (slash_splits-AreSplits url)
        (buffers_looped (Bool-cases (is_cgi fs cfg url)) (cgi_exe_for fs cfg url) refl w.0 w.1)
    where
      rest : Option FoundCgi
      rest = find_cgi_loop fs cfg (slash_splits url)

      buffers_looped :
          ((is_cgi fs cfg url ≡ true) ⊎ (is_cgi fs cfg url ≡ false))
          → (o : Option Bytes) → cgi_exe_for fs cfg url ≡ o
          → find_cgi_buffers fs cfg url ≡ some found
          → found.cgi_sub_path ≢ none
          → rest ≡ some found
      buffers_looped (inr k) o e h n = rw k at h
      buffers_looped (inl k) none e h n = rw (k, e) at h
      buffers_looped (inl k) (some exe) e h n =
          elim (n
            (sym (ap (λ (g : FoundCgi). g.cgi_sub_path) (some-injective _ _ (rw (k, e) at h))))) [ ]
