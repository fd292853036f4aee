-- ===== src/RequestHandler/Usable.antt =====
-- For what paths src/reqhandler.c finds something to do.
use filemanager_httpd.Common.{
  ℕ, ◌≡◌, refl, ◌⊎◌, inl, inr, Bool, true, false, ◌||◌, Option, none, some, List, [], ◌∷◌, arith,
  ◌==◌, if◌then◌else◌,
}
use filemanager_httpd.Common.Strings.{Bytes}
use Prim.Native.Nat.{Ordering}
use filemanager_httpd.Folder.{FolderEntry, Folder, Stat}
use filemanager_httpd.FileSystem.{Errno, FileSystem, enotdir}
use filemanager_httpd.Config.{Config, get_sys_path_for_url_path}
use filemanager_httpd.Config.Lookup.{FoundCgi, find_cgi, get_index_file, get_sub_shares_for_path}
use filemanager_httpd.RequestHandler.Routing.{
  Target, Route, add_slash, serve_file, locate_failed, locate_at, locate, index_target, route_of,
  folder_route, route_target, route, last_byte, found_target, stat_target, sub_shares_target,
  with_index, index_target_of,
}

abbrev pub is_some {ℓ} : {A : Type ℓ} → Option A → Bool
is_some none = false
is_some (some a) = true

-- A target that is neither a folder nor an error has a path on the disk.
abbrev is_usable : Target → Bool
is_usable t = is_some t.sys_errno || (t.is_folder || is_some t.sys_path)

abbrev pub is_usable_route : Option Route → Bool
is_usable_route none = false
is_usable_route (some (serve_file none)) = false
is_usable_route (some r) = true

module _ (fs : FileSystem)
    (qsort : (FolderEntry → FolderEntry → Ordering) → List FolderEntry → List FolderEntry)
    (strcoll : Bytes → Bytes → Ordering) (cfg : Config) where
  failed_usable :
      (url p : Bytes) (e : Errno) → is_usable (locate_failed fs qsort strcoll cfg url p e) ≡ true
  unfolding locate_failed
  failed_usable url p enotdir = go (find_cgi fs cfg url)
    where
      go : (o : Option FoundCgi) → is_usable (found_target fs qsort strcoll cfg p o) ≡ true
      go none = refl
      go (some f) = refl
  failed_usable url p e = refl

  locate_at_usable :
      (url : Bytes) (o : Option Bytes) → is_usable (locate_at fs qsort strcoll cfg url o) ≡ true
  unfolding locate_at stat_target
  locate_at_usable url none = go (get_sub_shares_for_path fs qsort strcoll cfg url)
    where
      go : (o : Option Folder) → is_usable (sub_shares_target fs qsort strcoll cfg o) ≡ true
      go none = refl
      go (some f) = refl
  locate_at_usable url (some p) = go (fs.stat p)
    where
      go : (r : Stat ⊎ Errno) → is_usable (stat_target fs qsort strcoll cfg url p r) ≡ true
      go (inl st) = ground arith
      go (inr e) = failed_usable url p e

  route_of_usable :
      (url : Bytes) (t : Target)
      → is_usable t ≡ true
      → is_usable_route (some (route_of fs qsort strcoll cfg url t)) ≡ true
  unfolding route_of
  route_of_usable url t h = ground arith

  index_usable :
      (t : Target) (f : Option Folder) (o : Option Bytes)
      → t.is_folder ≡ true
      → is_usable (index_target_of fs qsort strcoll cfg t f o) ≡ true
  unfolding index_target_of
  index_usable t (some f) o h = ground arith
  index_usable t none none h = ground arith
  index_usable t none (some dir) h = go (get_index_file fs cfg dir).0 (get_index_file fs cfg dir).1
    where
      go :
          (p : Option Bytes) (e : Option Errno)
          → is_usable (with_index fs qsort strcoll cfg t p e) ≡ true
      go none e = ground arith
      go (some p) e = ground arith

  folder_route_usable :
      (url : Bytes) (t : Target) (c : ℕ)
      → t.is_folder ≡ true
      → is_usable_route (folder_route fs qsort strcoll cfg url t (some c)) ≡ true
  unfolding folder_route index_target
  folder_route_usable url t c h = go (c == b'/') (
      route_of_usable url (index_target_of fs qsort strcoll cfg t t.folder t.sys_path)
        (index_usable t t.folder t.sys_path h))
    where
      go :
          (b : Bool)
          → is_usable_route (
              some (
                route_of fs qsort strcoll cfg url
                  (index_target_of fs qsort strcoll cfg t t.folder t.sys_path)))
            ≡ true
          → is_usable_route (
              some (
                if b
                then route_of fs qsort strcoll cfg url
                    (index_target_of fs qsort strcoll cfg t t.folder t.sys_path)
                else add_slash))
            ≡ true
      go true h = h
      go false h = refl

  last_byte-cons : (c : ℕ) (cs : Bytes) → (d : ℕ) × (last_byte (c ∷ cs) ≡ some d)
  last_byte-cons c [] = (c, refl)
  last_byte-cons c (d ∷ cs) = last_byte-cons d cs

  -- For a path that is not empty there is a route, and a file that it serves has a path.
  pub route_usable :
      (c : ℕ) (cs : Bytes) → is_usable_route (route fs qsort strcoll cfg (c ∷ cs)) ≡ true
  unfolding route locate route_target
  route_usable c cs =
      go (locate_at fs qsort strcoll cfg (c ∷ cs) (get_sys_path_for_url_path cfg (c ∷ cs)))
        (locate_at_usable (c ∷ cs) (get_sys_path_for_url_path cfg (c ∷ cs)))
    where
      by_folder :
          (t : Target) (b : Bool)
          → t.is_folder ≡ b
          → is_usable t ≡ true
          → is_usable_route (
              if b
              then folder_route fs qsort strcoll cfg (c ∷ cs) t (last_byte (c ∷ cs))
              else some (route_of fs qsort strcoll cfg (c ∷ cs) t))
            ≡ true
      by_folder t true e h =
          let l = last_byte-cons c cs in rw l.1 (folder_route_usable (c ∷ cs) t l.0 e)
      by_folder t false e h = route_of_usable (c ∷ cs) t h

      by_errno :
          (t : Target) (o : Option Errno)
          → is_usable t ≡ true
          → is_usable_route (route_target fs qsort strcoll cfg (c ∷ cs) t o) ≡ true
      by_errno t (some e) h = route_of_usable (c ∷ cs) t h
      by_errno t none h = by_folder t t.is_folder refl h

      go :
          (t : Target)
          → is_usable t ≡ true
          → is_usable_route (route_target fs qsort strcoll cfg (c ∷ cs) t t.sys_errno) ≡ true
      go t h = by_errno t t.sys_errno h
