-- ===== src/Config/Shares.antt =====
-- Which share src/fmconfig.c takes for a request's path.
use filemanager_httpd.Common.{
  ◌≤◌, ◌<◌, ◌≡◌, refl, sym, ap, ◌∙◌, ◌⊎◌, inl, inr, Bool, true, false, not, ◌&&◌, ◌||◌, Option,
  none, some, List, [], ◌∷◌, ◌++◌, append-nil, append_assoc, arith, ltb, leb, get_or, ◌==◌,
  if◌then◌else◌, Bool-cases, length, drop, is_empty, All, All-append,
}
use filemanager_httpd.Common.Strings.{Bytes, codes, starts_with}
use mathlib.Core.Path.{subst}
use filemanager_httpd.Config.{
  Share, Config, share_matches, best_share, root_as_empty, share_sys_path,
  get_sys_path_for_url_path,
}

-- The path is the other one, or leads to it at a slash.
unfoldable pub leads_to : Bytes → Bytes → Bool
leads_to [] [] = true
leads_to [] (d ∷ url) = d == b'/'
leads_to (c ∷ u) [] = false
leads_to (c ∷ u) (d ∷ url) = c == d && leads_to u url

unfoldable pub holds_path : Bytes → Share → Bool
unfolding leads_to
holds_path url share = leads_to share.urlpath url

fits_leads_to :
    (u url : Bytes)
    → leads_to u url ≡ (
        leb (length u) (length url)
        && (starts_with url u && (length u == length url || get_or url (length u) 0 == b'/')))
unfolding leads_to starts_with
fits_leads_to [] [] = refl
fits_leads_to [] (d ∷ url) = ground arith
fits_leads_to (c ∷ u) [] = ground arith
fits_leads_to (c ∷ u) (d ∷ url) = ground (arith, fits_leads_to u url)

-- What the code tests of the share.
pub holds_path_lem :
    (url : Bytes) (share : Share)
    → holds_path url share ≡ leb (length share.urlpath) (length url) && share_matches url share
unfolding holds_path share_matches
holds_path_lem url share = fits_leads_to share.urlpath url

abbrev pub is_shorter : Bytes → Share → Share → Bool
is_shorter url s t = not (holds_path url t) || ltb (length t.urlpath) (length s.urlpath)

abbrev pub is_no_longer : Bytes → Share → Share → Bool
is_no_longer url s t = not (holds_path url t) || leb (length t.urlpath) (length s.urlpath)

-- The share is the first of those with the longest path that hold the request's.
pub record IsBest (url : Bytes) (shares : List Share) (s : Share) : Type 0 where
  pub before : List Share
  pub after : List Share
  pub stands : shares ≡ before ++ (s ∷ after)
  pub holds : holds_path url s ≡ true
  pub before_shorter : All (is_shorter url s) before
  pub after_no_longer : All (is_no_longer url s) after

abbrev pub IsBestOf : Bytes → List Share → Option Share → Type 0
IsBestOf url shares none = All (λ s. not (holds_path url s)) shares
IsBestOf url shares (some s) = IsBest url shares s

abbrev picked : Bytes → Option Share → Share → Option Share
picked url best cur =
    if leb (length cur.urlpath) (length url)
      && (elim best as (λ _. Bool) [
        | none ↦ true
        | some b ↦ ltb (length b.urlpath) (length cur.urlpath)
      ]
          && share_matches url cur)
    then some cur
    else best

weaken_shorter :
    (url : Bytes) (s cur : Share) (ts : List Share)
    → length s.urlpath < length cur.urlpath
    → All (is_no_longer url s) ts
    → All (is_shorter url cur) ts
weaken_shorter url s cur [] h a = tt
weaken_shorter url s cur (t ∷ ts) h a = (ground arith, weaken_shorter url s cur ts h a.1)

shorter-no_longer :
    (url : Bytes) (s : Share) (ts : List Share)
    → All (is_shorter url s) ts
    → All (is_no_longer url s) ts
shorter-no_longer url s [] a = tt
shorter-no_longer url s (t ∷ ts) a = (ground arith, shorter-no_longer url s ts a.1)

none_shorter :
    (url : Bytes) (cur : Share) (ts : List Share)
    → All (λ s. not (holds_path url s)) ts
    → All (is_shorter url cur) ts
none_shorter url cur [] a = tt
none_shorter url cur (t ∷ ts) a = (ground arith, none_shorter url cur ts a.1)

module _ (url : Bytes) (cur : Share) (done : List Share) where
  from_none :
      All (λ s. not (holds_path url s)) done
      → IsBestOf url (done ++ (cur ∷ [])) (picked url none cur)
  from_none a = go (Bool-cases (holds_path url cur))
    where
      go :
          ((holds_path url cur ≡ true) ⊎ (holds_path url cur ≡ false))
          → IsBestOf url (done ++ (cur ∷ [])) (picked url none cur)
      go (inl h) =
          rw (← holds_path_lem url cur, h)
            (record {
              before = done;
              after = [];
              stands = refl;
              holds = h;
              before_shorter = none_shorter url cur done a;
              after_no_longer = tt;
            })
      go (inr h) =
          rw (← holds_path_lem url cur, h) (All-append _ done (cur ∷ []) a (ground arith, tt))

  from_some :
      (b : Share) → IsBest url done b → IsBestOf url (done ++ (cur ∷ [])) (picked url (some b) cur)
  from_some b w = go (
      Bool-cases (
        leb (length cur.urlpath) (length url)
        && (ltb (length b.urlpath) (length cur.urlpath) && share_matches url cur)))
    where
      test : Bool
      test =
          leb (length cur.urlpath) (length url)
          && (ltb (length b.urlpath) (length cur.urlpath) && share_matches url cur)

      go :
          ((test ≡ true) ⊎ (test ≡ false))
          → IsBestOf url (done ++ (cur ∷ [])) (picked url (some b) cur)
      go (inl h) = rw h (record {
        before = done;
        after = [];
        stands = refl;
        holds = ground (arith, holds_path_lem url cur);
        before_shorter = subst (All (is_shorter url cur)) (sym w.stands) (
            weaken_shorter url b cur (w.before ++ (b ∷ w.after)) (ground arith) (
              All-append _ w.before (b ∷ w.after)
                (shorter-no_longer url b w.before w.before_shorter)
                (ground arith, w.after_no_longer)));
        after_no_longer = tt;
      })
      go (inr h) = rw h (record {
        before = w.before;
        after = w.after ++ (cur ∷ []);
        stands =
            ap (λ r. r ++ (cur ∷ [])) w.stands ∙ append_assoc w.before (b ∷ w.after) (cur ∷ []);
        holds = w.holds;
        before_shorter = w.before_shorter;
        after_no_longer =
            All-append _ w.after (cur ∷ []) w.after_no_longer
              (ground (arith, holds_path_lem url cur), tt);
      })

picked-IsBestOf :
    (url : Bytes) (best : Option Share) (cur : Share) (done : List Share)
    → IsBestOf url done best
    → IsBestOf url (done ++ (cur ∷ [])) (picked url best cur)
picked-IsBestOf url none cur done h = from_none url cur done h
picked-IsBestOf url (some b) cur done h = from_some url cur done b h

best_share-IsBestOf_onto :
    (url : Bytes) (more : List Share) (best : Option Share) (done : List Share)
    → IsBestOf url done best
    → IsBestOf url (done ++ more) (best_share url best more)
unfolding best_share
best_share-IsBestOf_onto url [] best done h = rw append-nil h
best_share-IsBestOf_onto url (cur ∷ more) best done h =
    subst (λ l. IsBestOf url l (best_share url best (cur ∷ more)))
      (append_assoc done (cur ∷ []) more)
      (best_share-IsBestOf_onto url more (picked url best cur) (done ++ (cur ∷ []))
        (picked-IsBestOf url best cur done h))

starts_with_split : (url u : Bytes) → starts_with url u ≡ true → url ≡ u ++ drop (length u) url
unfolding starts_with
starts_with_split url [] h = refl
starts_with_split [] (c ∷ u) h = cc
starts_with_split (d ∷ url) (c ∷ u) h = ground (arith, starts_with_split url u)

-- Of a request's path, the part behind the share's is put behind the share's path on the disk.
pub record Mapped (url : Bytes) (shares : List Share) (sys_path : Bytes) : Type 0 where
  pub share : Share
  pub is_best : IsBest url shares share
  pub behind : Bytes
  pub splits : url ≡ share.urlpath ++ behind
  pub maps : sys_path ≡ (
      if not (is_empty behind)
      then share.syspath ++ behind
      else if is_empty share.syspath
      then codes "/"
      else share.syspath)

abbrev pub IsMapping : Bytes → List Share → Option Bytes → Type 0
IsMapping url shares none = All (λ s. not (holds_path url s)) shares
IsMapping url shares (some sys_path) = Mapped url shares sys_path

ltb-drop :
    (u url : Bytes)
    → length u ≤ length url
    → ltb (length u) (length url) ≡ not (is_empty (drop (length u) url))
ltb-drop [] [] h = refl
ltb-drop [] (c ∷ url) h = ground arith
ltb-drop (c ∷ u) [] h = elim h [ ]
ltb-drop (c ∷ u) (d ∷ url) h = ground (arith, ltb-drop u url (omega arith))

IsBest-Mapped :
    (url : Bytes) (shares : List Share) (s : Share)
    → IsBest url shares s
    → Mapped url shares (share_sys_path url s)
unfolding share_sys_path share_matches
IsBest-Mapped url shares s w = record {
  share = s;
  is_best = w;
  behind = drop (length s.urlpath) url;
  splits = starts_with_split url s.urlpath (ground (arith, w.holds, holds_path_lem url s));
  maps = rw (← ltb-drop s.urlpath url (ground (arith, w.holds, holds_path_lem url s)));
}

-- The path on the disk is that of the first of the shares with the longest path that hold the
-- request's, with what stands behind the share's path; there is none exactly where no share
-- holds the request's path. The path "/" counts as the empty one.
pub get_sys_path_for_url_path_lem :
    (cfg : Config) (url : Bytes)
    → IsMapping (root_as_empty url) cfg.shares (get_sys_path_for_url_path cfg url)
unfolding get_sys_path_for_url_path
get_sys_path_for_url_path_lem cfg url =
    go (best_share (root_as_empty url) none cfg.shares) refl
      (best_share-IsBestOf_onto (root_as_empty url) cfg.shares none [] tt)
  where
    go :
        (o : Option Share)
        → best_share (root_as_empty url) none cfg.shares ≡ o
        → IsBestOf (root_as_empty url) cfg.shares (best_share (root_as_empty url) none cfg.shares)
        → IsMapping (root_as_empty url) cfg.shares (get_sys_path_for_url_path cfg url)
    go none e h = rw (e, get_sys_path_for_url_path) (rw e at h)
    go (some s) e h =
        rw (e, get_sys_path_for_url_path)
          (IsBest-Mapped (root_as_empty url) cfg.shares s (rw e at h))
