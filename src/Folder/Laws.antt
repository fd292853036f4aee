-- ===== src/Folder/Laws.antt =====
-- src/folder.c: the room for the entries, and what a folder that was read holds.
use filemanager_httpd.Common.{
  ℕ, suc, ◌≤◌, ◌≡◌, refl, ap, inl, inr, Bool, true, false, not, ◌&&◌, Option, some, List, [], ◌∷◌,
  ◌++◌, arith, sym, ◌∙◌, append-nil, append_assoc, ◌+◌, ◌%◌, if◌then◌else◌, none, ltb, lt→ltb,
  Bool-cases, Option-cases, length, All, length-append, All-append,
}
use filemanager_httpd.Common.Strings.{Bytes, c_str}
use filemanager_httpd.Common.Strings.Laws.{is_not, All-take_while, c_str-All}
use Prim.Native.Nat.{Ordering}
use filemanager_httpd.DataChunk.{dup_to_str}
use filemanager_httpd.Folder.{
  FolderEntry, Folder, new, grow, add_entry_chunk, add_entry, folder_ent_compare,
  ensure_ends_with_slash, Stat, s_isdir, is_dots, sort_entries, read_entries, load_dir, permissions,
}

-- The array has room for the entries and, behind them, for the one that ends it.
abbrev pub HasRoom : Folder → Type 0
HasRoom folder = length folder.entries ≤ folder.entry_alloc

abbrev pub is_entry : FolderEntry → Bool
is_entry e = not (is_dots e.file_name) && ltb e.mode 512

abbrev pub not_dir : FolderEntry → Bool
not_dir e = not e.is_dir

add_entry-HasRoom :
    (name : Bytes) (is_dir : Bool) (mode size : ℕ) (folder : Folder)
    → HasRoom folder
    → HasRoom (add_entry name is_dir mode size folder)
unfolding add_entry add_entry_chunk grow
add_entry-HasRoom name is_dir mode size folder h = ground (
  arith,
  length-append folder.entries (
      record {
        file_name = dup_to_str (c_str name);
        is_dir = is_dir;
        mode = permissions mode;
        size = size;
      }
      ∷ []),
)

c_str-c_str : (bs : Bytes) → dup_to_str (c_str bs) ≡ c_str bs
unfolding c_str dup_to_str
c_str-c_str bs = c_str-All (c_str bs) (All-take_while (is_not 0) bs)

is_entry-dup_to_str :
    (name : Bytes) (mode : ℕ)
    → is_dots (c_str name) ≡ false
    → not (is_dots (dup_to_str (c_str name))) && ltb (permissions mode) 512 ≡ true
is_entry-dup_to_str name mode h = rw (c_str-c_str name, h) (ground arith)

add_entry-is_entry :
    (name : Bytes) (is_dir : Bool) (mode size : ℕ) (folder : Folder)
    → is_dots (c_str name) ≡ false
    → All is_entry folder.entries
    → All is_entry (add_entry name is_dir mode size folder).entries
unfolding add_entry add_entry_chunk
add_entry-is_entry name is_dir mode size folder h a =
    All-append is_entry folder.entries _ a (is_entry-dup_to_str name mode h, tt)

module _ (strcoll : Bytes → Bytes → Ordering) where
  abbrev is_gt : Ordering → Bool
  is_gt Ordering.gt = true
  is_gt _ = false

  -- No entry is to stand behind the next one.
  abbrev pub IsOrdered : List FolderEntry → Type 0
  IsOrdered [] = Unit
  IsOrdered (a ∷ []) = Unit
  IsOrdered (a ∷ b ∷ es) = (is_gt (folder_ent_compare strcoll a b) ≡ false) × IsOrdered (b ∷ es)

  not_dir-behind :
      (a : FolderEntry) (es : List FolderEntry)
      → not_dir a ≡ true
      → IsOrdered (a ∷ es)
      → All not_dir es
  not_dir-behind a [] h o = tt
  not_dir-behind a (b ∷ es) h o =
      let k : not_dir b ≡ true = ground (arith, o.0) in (k, not_dir-behind b es k o.1)

  -- Folders first.
  pub record AreSplit (es : List FolderEntry) : Type 0 where
    pub dirs : List FolderEntry
    pub files : List FolderEntry
    pub splits : es ≡ dirs ++ files
    pub are_dirs : All (λ e. e.is_dir) dirs
    pub are_files : All not_dir files

  IsOrdered-tail : (a : FolderEntry) (es : List FolderEntry) → IsOrdered (a ∷ es) → IsOrdered es
  IsOrdered-tail a [] o = tt
  IsOrdered-tail a (b ∷ es) o = o.1

  IsOrdered-AreSplit : (es : List FolderEntry) → IsOrdered es → AreSplit es
  IsOrdered-AreSplit [] o = record {
    dirs = [];
    files = [];
    splits = refl;
    are_dirs = tt;
    are_files = tt;
  }
  IsOrdered-AreSplit (a ∷ es) o = elim (Bool-cases a.is_dir) [
    | inl e ↦
        let rest = IsOrdered-AreSplit es (IsOrdered-tail a es o) in
        record {
          dirs = a ∷ rest.dirs;
          files = rest.files;
          splits = ap (λ fs. a ∷ fs) rest.splits;
          are_dirs = (e, rest.are_dirs);
          are_files = rest.are_files;
        }
    | inr e ↦
        let k : not_dir a ≡ true = ground arith in
        record {
          dirs = [];
          files = a ∷ es;
          splits = refl;
          are_dirs = tt;
          are_files = (k, not_dir-behind a es k o);
        }
  ]

-- How many of the entries pass the test.
unfoldable pub count : (FolderEntry → Bool) → List FolderEntry → ℕ
count p [] = 0
count p (e ∷ es) = if p e then 1 + count p es else count p es

All-count :
    (p : FolderEntry → Bool) (es : List FolderEntry) → All p es → count (λ e. not (p e)) es ≡ 0
unfolding count
All-count p [] h = refl
All-count p (e ∷ es) h = ground (arith, h.0, All-count p es h.1)

count-All :
    (p : FolderEntry → Bool) (es : List FolderEntry) → count (λ e. not (p e)) es ≡ 0 → All p es
unfolding count
count-All p [] h = tt
count-All p (e ∷ es) h = (ground arith, count-All p es (ground arith))

-- What a folder keeps while its entries are read.
pub record IsSound (folder : Folder) : Type 0 where
  pub has_room : HasRoom folder
  pub are_entries : All is_entry folder.entries

module _ (stat : Bytes → Option Stat) where
  -- The entries of a folder, by the names in it: one for each file that `stat` finds but "." and "..".
  unfoldable pub listed : Bytes → List Bytes → List FolderEntry
  unfolding c_str
  listed dir [] = []
  listed dir (name ∷ names) =
      let rest = listed dir names in
      if is_dots (c_str name) then rest else elim (stat (dir ++ c_str name)) [
        | none ↦ rest
        | some st ↦
            record {
              file_name = c_str name;
              is_dir = s_isdir st.st_mode;
              mode = st.st_mode % 512;
              size = st.st_size;
            }
            ∷ rest
      ]

module _ (stat : Bytes → Option Stat)
    (qsort : (FolderEntry → FolderEntry → Ordering) → List FolderEntry → List FolderEntry)
    (strcoll : Bytes → Bytes → Ordering) where
  -- What is added to a folder while the entries are read fits into the array, with the one that
  -- ends it; and the entries are neither "." nor "..", with the permission bits for the mode.
  pub read_entries-IsSound :
      (dir : Bytes) (names : List Bytes) (folder : Folder)
      → IsSound folder
      → IsSound (read_entries stat qsort strcoll dir names folder)
  unfolding read_entries
  read_entries-IsSound dir [] folder h = h
  read_entries-IsSound dir (name ∷ names) folder h = elim (Bool-cases (is_dots (c_str name))) [
    | inl e ↦ rw e (read_entries-IsSound dir names folder h)
    | inr e ↦ rw e (elim (Option-cases (stat (dir ++ c_str name))) [
      | inl k ↦ rw k (read_entries-IsSound dir names folder h)
      | inr (st, k) ↦ rw k (
          read_entries-IsSound dir names
            (add_entry name (s_isdir st.st_mode) st.st_mode st.st_size folder)
            (record {
              has_room =
                  add_entry-HasRoom name (s_isdir st.st_mode) st.st_mode st.st_size folder
                    h.has_room;
              are_entries =
                  add_entry-is_entry name (s_isdir st.st_mode) st.st_mode st.st_size folder e
                    h.are_entries;
            }))
    ])
  ]

  read_entries-listed :
      (dir : Bytes) (names : List Bytes) (folder : Folder)
      → (read_entries stat qsort strcoll dir names folder).entries
        ≡ folder.entries ++ listed stat dir names
  unfolding read_entries listed add_entry add_entry_chunk
  read_entries-listed dir [] folder = sym (append-nil folder.entries)
  read_entries-listed dir (name ∷ names) folder = elim (Bool-cases (is_dots (c_str name))) [
    | inl e ↦ rw e (read_entries-listed dir names folder)
    | inr e ↦ rw e (elim (Option-cases (stat (dir ++ c_str name))) [
      | inl k ↦ rw k (read_entries-listed dir names folder)
      | inr (st, k) ↦ rw k (
          read_entries-listed dir names
            (add_entry name (s_isdir st.st_mode) st.st_mode st.st_size folder)
          ∙ append_assoc folder.entries _ (listed stat dir names)
          ∙ rw (c_str-c_str name) refl)
    ])
  ]

  -- What `qsort` does to these entries: it keeps them, each as often as it is there, and puts them in
  -- order.
  pub record IsSorting (es fs : List FolderEntry) : Type 0 where
    pub keeps : (p : FolderEntry → Bool) → count p fs ≡ count p es
    pub ordered : IsOrdered strcoll fs

  sort_entries-sorted :
      (folder : Folder)
      → IsSorting folder.entries (qsort (folder_ent_compare strcoll) folder.entries)
      → IsSorting folder.entries (sort_entries qsort strcoll folder).entries
  unfolding sort_entries
  sort_entries-sorted folder h = go folder.entries folder.entry_alloc h
    where
      go :
          (es : List FolderEntry) (n : ℕ)
          → IsSorting es (qsort (folder_ent_compare strcoll) es)
          → IsSorting es
              (sort_entries qsort strcoll (record { entries = es; entry_alloc = n })).entries
      go [] n h = record { keeps = λ p. refl; ordered = tt }
      go (a ∷ []) n h = record { keeps = λ p. refl; ordered = tt }
      go (a ∷ b ∷ es) n h = rw (lt→ltb 1 (suc (suc (length es))) (omega arith)) h

  -- A folder that can be opened is loaded: its entries are just those of `listed`, each as often, which
  -- has one for each name that `stat` finds but "." and "..", with the permission bits for the mode. The
  -- subfolders stand first, then the files, and no entry is to stand behind the next one. `qsort` sorts
  -- what was read.
  pub load_dir_lem :
      (dir : Bytes) (names : List Bytes)
      → (let read = read_entries stat qsort strcoll (ensure_ends_with_slash dir) names new in
          IsSorting read.entries (qsort (folder_ent_compare strcoll) read.entries))
      → (folder : Folder) × (load_dir stat qsort strcoll dir (inl names) ≡ (some folder, 0))
        × ((p : FolderEntry → Bool)
            → count p folder.entries ≡ count p (listed stat (ensure_ends_with_slash dir) names))
        × AreSplit strcoll folder.entries
        × IsOrdered strcoll folder.entries
        × All is_entry folder.entries
  unfolding load_dir new
  load_dir_lem dir names h =
      let read = read_entries stat qsort strcoll (ensure_ends_with_slash dir) names new in
      let sorted = sort_entries-sorted read h in
      let sound = read_entries-IsSound (ensure_ends_with_slash dir) names new new-IsSound in
      (
        sort_entries qsort strcoll read,
        refl,
        λ p.
            sorted.keeps p
            ∙ ap (count p) (read_entries-listed (ensure_ends_with_slash dir) names new),
        IsOrdered-AreSplit strcoll _ sorted.ordered,
        sorted.ordered,
        count-All is_entry _ (
            sorted.keeps (λ e. not (is_entry e))
            ∙ All-count is_entry read.entries sound.are_entries),
      )
    where
      new-IsSound : IsSound new
      new-IsSound = record { has_room = omega arith; are_entries = tt }
