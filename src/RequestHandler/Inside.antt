-- ===== src/RequestHandler/Inside.antt =====
-- Where on the disk the paths lie that src/reqhandler.c lets pass.
use filemanager_httpd.Common.{
  ◌≡◌, refl, ◌⊎◌, inl, inr, true, false, not, ◌||◌, some, List, [], ◌∷◌, ◌++◌, arith, ◌==◌,
  if◌then◌else◌, Bool-cases, length, get_or, is_empty, All,
}
use filemanager_httpd.Common.Strings.{Bytes, codes}
use mathlib.Core.Path.{subst}
use filemanager_httpd.Config.{
  Share, Config, root_as_empty, share_matches, get_sys_path_for_url_path,
}
use filemanager_httpd.Config.Shares.{
  IsMapping, Mapped, holds_path_lem, get_sys_path_for_url_path_lem,
}
use filemanager_httpd.RequestHandler.Components.{components, is_plain, plain_split}

abbrev AtSlash : Bytes → Type 0
AtSlash behind = (behind ≡ []) ⊎ ((more : Bytes) × (behind ≡ b'/' ∷ more))

behind-AtSlash :
    (u b : Bytes)
    → length u == length (u ++ b) || get_or (u ++ b) (length u) 0 == b'/' ≡ true
    → AtSlash b
behind-AtSlash [] [] h = inl refl
behind-AtSlash [] (c ∷ cs) h = inr (cs, ground arith)
behind-AtSlash (c ∷ u) b h = behind-AtSlash u b (ground (arith, h))

-- A path on the disk that is a share's path with a part of a request's path behind, in which no
-- component behind a slash is "..".
pub record IsInside (cfg : Config) (sys_path : Bytes) : Type 0 where
  pub share : Share
  pub before : List Share
  pub after : List Share
  pub shared : cfg.shares ≡ before ++ (share ∷ after)
  pub behind : Bytes
  pub at_slash : AtSlash behind
  pub plain : All is_plain (components behind).1
  pub maps : sys_path ≡ (
      if not (is_empty behind)
      then share.syspath ++ behind
      else if is_empty share.syspath
      then codes "/"
      else share.syspath)

plain_behind :
    (u b : Bytes) → AtSlash b → All is_plain (components (u ++ b)).1 → All is_plain (components b).1
plain_behind u b (inl e) h = rw e tt
plain_behind u b (inr (more, e)) h = rw e (plain_split u more (rw e at h)).1

root_as_empty_plain :
    (url : Bytes)
    → All is_plain (components url).1
    → All is_plain (components (root_as_empty url)).1
root_as_empty_plain [] h = h
root_as_empty_plain (c ∷ []) h = go (Bool-cases (c == b'/'))
  where
    go :
        ((c == b'/' ≡ true) ⊎ (c == b'/' ≡ false))
        → All is_plain (components (root_as_empty (c ∷ []))).1
    go (inl e) = rw e tt
    go (inr e) = rw (e, e) tt
root_as_empty_plain (c ∷ d ∷ cs) h = h

share_matches-at :
    (url : Bytes) (share : Share)
    → share_matches url share ≡ true
    → length share.urlpath == length url || get_or url (length share.urlpath) 0 == b'/' ≡ true
unfolding share_matches
share_matches-at url share h = ground (arith, h)

Mapped-IsInside :
    (cfg : Config) (url sys_path : Bytes)
    → All is_plain (components url).1
    → Mapped url cfg.shares sys_path
    → IsInside cfg sys_path
Mapped-IsInside cfg url sys_path h m = record {
  share = m.share;
  before = m.is_best.before;
  after = m.is_best.after;
  shared = m.is_best.stands;
  behind = m.behind;
  at_slash = at;
  plain = plain_behind m.share.urlpath m.behind at (rw m.splits at h);
  maps = m.maps;
}
  where
    at : AtSlash m.behind
    at = behind-AtSlash m.share.urlpath m.behind (
        subst
          (λ l.
            length m.share.urlpath == length l || get_or l (length m.share.urlpath) 0 == b'/'
            ≡ true)
          m.splits
          (share_matches-at url m.share
            (ground (arith, m.is_best.holds, holds_path_lem url m.share))))

-- A path on the disk for a path of a request in which no component behind a slash is "..".
pub sys_path-IsInside :
    (cfg : Config) (url sys_path : Bytes)
    → All is_plain (components url).1
    → get_sys_path_for_url_path cfg url ≡ some sys_path
    → IsInside cfg sys_path
sys_path-IsInside cfg url sys_path h e =
    Mapped-IsInside cfg (root_as_empty url) sys_path (root_as_empty_plain url h)
      (subst (IsMapping (root_as_empty url) cfg.shares) e (get_sys_path_for_url_path_lem cfg url))
