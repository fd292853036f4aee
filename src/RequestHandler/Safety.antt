-- ===== src/RequestHandler/Safety.antt =====
-- Where the files and folders lie that src/reqhandler.c opens for a path.
use filemanager_httpd.Common.{
  ℕ, ◌≡◌, refl, sym, ap, ◌∙◌, ◌⊎◌, inl, inr, Bool, true, false, Option, none, some, List, ◌++◌,
  ◌==◌, if◌then◌else◌, All,
}
use filemanager_httpd.Common.Strings.{Bytes}
use Prim.Native.Nat.{Ordering}
use mathlib.Core.Path.{subst}
use filemanager_httpd.Folder.{FolderEntry, Folder, Stat}
use filemanager_httpd.FileSystem.{Errno, FileSystem, enotdir}
use filemanager_httpd.Config.{Config, get_sys_path_for_url_path}
use filemanager_httpd.Config.Lookup.{FoundCgi, find_cgi, get_index_file, get_sub_shares_for_path}
use filemanager_httpd.Config.Lookup.Cgi.{IsFound, find_cgi-IsFound}
use filemanager_httpd.RequestHandler.Components.{components, is_plain, leads_up_plain, plain_split}
use filemanager_httpd.RequestHandler.Inside.{IsInside, sys_path-IsInside}
use filemanager_httpd.RequestHandler.Routing.{
  leads_up, Target, Route, add_slash, list_folder, run_cgi, serve_file, show_error, locate_failed,
  found_target, stat_target, sub_shares_target, with_index, index_target_of, locate_at, locate,
  index_target, route_of, folder_route, route_target, route, last_byte,
}

-- The path on the disk that a route uses.
abbrev pub route_path : Route → Option Bytes
route_path add_slash = none
route_path (list_folder p) = p
route_path (run_cgi p url sub_path) = p
route_path (serve_file p) = p
route_path (show_error e) = none

module _ (fs : FileSystem) (cfg : Config) where
  -- A path inside a share, or the index file of a folder inside a share.
  pub record IsServed (p : Bytes) : Type 0 where
    pub dir : Bytes
    pub inside : IsInside cfg dir
    pub same : (p ≡ dir) ⊎ ((get_index_file fs cfg dir).0 ≡ some p)

  abbrev pub AllServed : Option Bytes → Type 0
  AllServed none = Unit
  AllServed (some p) = IsServed p

  abbrev AllInside : Option Bytes → Type 0
  AllInside none = Unit
  AllInside (some p) = IsInside cfg p

  served : (o : Option Bytes) → AllInside o → AllServed o
  served none h = tt
  served (some p) h = record { dir = p; inside = h; same = inl refl }

  found-IsInside :
      (url : Bytes) (found : FoundCgi)
      → All is_plain (components url).1
      → IsFound fs cfg url found
      → IsInside cfg found.cgi_exe
  found-IsInside url found h f =
      sys_path-IsInside cfg found.cgi_url found.cgi_exe
        (plain_split found.cgi_url f.split.more (
          subst (λ u. All is_plain (components u).1)
            (f.split.whole ∙ ap (λ s. found.cgi_url ++ s) f.split.slash) h)).0
        f.maps

  module _ (qsort : (FolderEntry → FolderEntry → Ordering) → List FolderEntry → List FolderEntry)
      (strcoll : Bytes → Bytes → Ordering) where
    found_target-IsInside :
        (url p : Bytes) (o : Option FoundCgi)
        → All is_plain (components url).1
        → IsInside cfg p
        → find_cgi fs cfg url ≡ o
        → AllInside (found_target fs qsort strcoll cfg p o).sys_path
    found_target-IsInside url p none h k e = k
    found_target-IsInside url p (some found) h k e =
        found-IsInside url found h (find_cgi-IsFound fs cfg url found e)

    failed-IsInside :
        (url p : Bytes) (e : Errno)
        → All is_plain (components url).1
        → IsInside cfg p
        → AllInside (locate_failed fs qsort strcoll cfg url p e).sys_path
    unfolding locate_failed
    failed-IsInside url p enotdir h k = found_target-IsInside url p (find_cgi fs cfg url) h k refl
    failed-IsInside url p e h k = k

    stat_target-IsInside :
        (url p : Bytes) (r : Stat ⊎ Errno)
        → All is_plain (components url).1
        → IsInside cfg p
        → AllInside (stat_target fs qsort strcoll cfg url p r).sys_path
    unfolding stat_target
    stat_target-IsInside url p (inl st) h k = k
    stat_target-IsInside url p (inr e) h k = failed-IsInside url p e h k

    sub_shares_target-IsInside :
        (o : Option Folder) → AllInside (sub_shares_target fs qsort strcoll cfg o).sys_path
    sub_shares_target-IsInside none = tt
    sub_shares_target-IsInside (some folder) = tt

    locate_at-IsInside :
        (url : Bytes) (o : Option Bytes)
        → All is_plain (components url).1
        → get_sys_path_for_url_path cfg url ≡ o
        → AllInside (locate_at fs qsort strcoll cfg url o).sys_path
    unfolding locate_at
    locate_at-IsInside url none h e =
        sub_shares_target-IsInside (get_sub_shares_for_path fs qsort strcoll cfg url)
    locate_at-IsInside url (some p) h e =
        stat_target-IsInside url p (fs.stat p) h (sys_path-IsInside cfg url p h e)

    with_index_served :
        (t : Target) (dir : Bytes) (o : Option Bytes) (e : Option Errno)
        → IsInside cfg dir
        → AllServed t.sys_path
        → (get_index_file fs cfg dir).0 ≡ o
        → AllServed (with_index fs qsort strcoll cfg t o e).sys_path
    with_index_served t dir none e h k q = k
    with_index_served t dir (some p) e h k q = record { dir = dir; inside = h; same = inr q }

    index_served :
        (t : Target) (f : Option Folder) (o : Option Bytes)
        → t.sys_path ≡ o
        → AllInside o
        → AllServed (index_target_of fs qsort strcoll cfg t f o).sys_path
    unfolding index_target_of
    index_served t (some f) o e h = subst AllServed (sym e) (served o h)
    index_served t none none e h = subst AllServed (sym e) tt
    index_served t none (some dir) e h =
        with_index_served t dir (get_index_file fs cfg dir).0 (get_index_file fs cfg dir).1 h
          (subst AllServed (sym e) (served (some dir) h)) refl

    if_served :
        (b : Bool) (r s : Route)
        → AllServed (route_path r)
        → AllServed (route_path s)
        → AllServed (route_path (if b then r else s))
    if_served true r s h k = h
    if_served false r s h k = k

    route_of_served :
        (url : Bytes) (t : Target)
        → AllServed t.sys_path
        → AllServed (route_path (route_of fs qsort strcoll cfg url t))
    unfolding route_of
    route_of_served url t h = go t.sys_errno refl
      where
        go :
            (e : Option Errno)
            → t.sys_errno ≡ e
            → AllServed (route_path (route_of fs qsort strcoll cfg url t))
        go (some e) q = rw q tt
        go none q = rw q (
            if_served t.is_folder (list_folder t.sys_path) _ h (
              if_served t.is_cgi (run_cgi t.sys_path _ t.cgi_sub_path) (serve_file t.sys_path) h h))

    abbrev pub RouteServed : Option Route → Type 0
    RouteServed none = Unit
    RouteServed (some r) = AllServed (route_path r)

    if-RouteServed :
        (b : Bool) (r s : Option Route)
        → RouteServed r
        → RouteServed s
        → RouteServed (if b then r else s)
    if-RouteServed true r s h k = h
    if-RouteServed false r s h k = k

    folder_route_served :
        (url : Bytes) (t : Target) (o : Option ℕ)
        → AllInside t.sys_path
        → RouteServed (folder_route fs qsort strcoll cfg url t o)
    unfolding folder_route index_target
    folder_route_served url t none h = tt
    folder_route_served url t (some c) h =
        if_served (c == b'/')
          (route_of fs qsort strcoll cfg url (index_target fs qsort strcoll cfg t)) add_slash
          (route_of_served url (index_target fs qsort strcoll cfg t)
            (index_served t t.folder t.sys_path refl h))
          tt

    route_target_served :
        (url : Bytes) (t : Target) (o : Option Errno)
        → AllInside t.sys_path
        → RouteServed (route_target fs qsort strcoll cfg url t o)
    unfolding route_target
    route_target_served url t (some e) h = route_of_served url t (served t.sys_path h)
    route_target_served url t none h =
        if-RouteServed t.is_folder (folder_route fs qsort strcoll cfg url t (last_byte url))
          (some (route_of fs qsort strcoll cfg url t)) (folder_route_served url t (last_byte url) h)
          (route_of_served url t (served t.sys_path h))

    -- For a path that is not refused, the file, folder or program that the handler goes to is a share's
    -- path with a part of the path behind in which no component is "..", or the index file of such a
    -- folder.
    pub route-RouteServed :
        (url : Bytes) → leads_up url ≡ false → RouteServed (route fs qsort strcoll cfg url)
    unfolding route locate
    route-RouteServed url h =
        let t = locate fs qsort strcoll cfg url in
        route_target_served url t t.sys_errno
          (locate_at-IsInside url (get_sys_path_for_url_path cfg url) (leads_up_plain url h) refl)
