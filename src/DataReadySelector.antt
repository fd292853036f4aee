-- ===== src/DataReadySelector.antt =====
-- src/datareadyselector.c: the file descriptors that the next `select` waits for.
use filemanager_httpd.Common.{
  ℕ, ◌+◌, ◌≤◌, ◌<◌, ◌≡◌, lt→ltb, ◌∷◌, Bool, true, false, ◌&&◌, ◌||◌, List, [], arith, ltb, leb,
  ◌==◌, if◌then◌else◌,
}

-- FD_SETSIZE of the C library: the bits of an `fd_set`.
abbrev pub fd_setsize : ℕ
fd_setsize = 1024

-- An `fd_set`: its members, and whether a bit behind its end was set, which is another object's memory.
pub record FdSet : Type 0 where
  pub members : List ℕ
  pub is_overrun : Bool

abbrev pub fd_zero : FdSet
fd_zero = record { members = []; is_overrun = false }

-- `FD_SET`, which has no test of the descriptor.
unfoldable pub fd_set : ℕ → FdSet → FdSet
fd_set fd set =
    if ltb fd fd_setsize
    then record set { members = fd ∷ set.members }
    else record set { is_overrun = true }

unfoldable pub fd_isset : ℕ → List ℕ → Bool
fd_isset fd [] = false
fd_isset fd (x ∷ xs) = fd == x || fd_isset fd xs

-- `num_fds` is the first argument of `select`.
pub record DataReadySelector : Type 0 where
  pub read_fds : FdSet
  pub write_fds : FdSet
  pub num_fds : ℕ

unfoldable pub new : DataReadySelector
new = record { read_fds = fd_zero; write_fds = fd_zero; num_fds = 0 }

unfoldable pub set_read_fd : ℕ → DataReadySelector → DataReadySelector
unfolding fd_set
set_read_fd fd drs = record drs {
  read_fds = fd_set fd drs.read_fds;
  num_fds = if leb drs.num_fds fd then fd + 1 else drs.num_fds;
}

unfoldable pub set_write_fd : ℕ → DataReadySelector → DataReadySelector
unfolding fd_set
set_write_fd fd drs = record drs {
  write_fds = fd_set fd drs.write_fds;
  num_fds = if leb drs.num_fds fd then fd + 1 else drs.num_fds;
}

-- What `select` waits for: it looks at the descriptors below its first argument only.
unfoldable pub waits_to_read : DataReadySelector → ℕ → Bool
unfolding fd_isset
waits_to_read drs fd = ltb fd drs.num_fds && fd_isset fd drs.read_fds.members

unfoldable pub waits_to_write : DataReadySelector → ℕ → Bool
unfolding fd_isset
waits_to_write drs fd = ltb fd drs.num_fds && fd_isset fd drs.write_fds.members

abbrev pub AllBelow : ℕ → List ℕ → Type 0
AllBelow n [] = Unit
AllBelow n (fd ∷ fds) = (fd < n) × AllBelow n fds

-- Every member is below the first argument of `select`, and the sets stay within their memory.
pub record Watches (drs : DataReadySelector) : Type 0 where
  pub reads : AllBelow drs.num_fds drs.read_fds.members
  pub writes : AllBelow drs.num_fds drs.write_fds.members
  pub reads_fit : drs.read_fds.is_overrun ≡ false
  pub writes_fit : drs.write_fds.is_overrun ≡ false

-- The selector is sound, and waits for what the old one waits for, with the descriptors of the two tests.
pub record WaitsAlso (old drs : DataReadySelector) (to_read to_write : ℕ → Bool) : Type 0 where
  pub watches : Watches drs
  pub reading : (x : ℕ) → waits_to_read drs x ≡ to_read x || waits_to_read old x
  pub writing : (x : ℕ) → waits_to_write drs x ≡ to_write x || waits_to_write old x

AllBelow-mono : {n m : ℕ} (fds : List ℕ) → n ≤ m → AllBelow n fds → AllBelow m fds
AllBelow-mono [] h k = tt
AllBelow-mono (fd ∷ fds) h k = (omega arith, AllBelow-mono fds h k.1)

-- No member is lost or won where the bound grows.
fd_isset-bound :
    (x n m : ℕ) (fds : List ℕ)
    → n ≤ m
    → AllBelow n fds
    → ltb x m && fd_isset x fds ≡ ltb x n && fd_isset x fds
unfolding fd_isset
fd_isset-bound x n m [] h k = ground arith
fd_isset-bound x n m (fd ∷ fds) h k =
    let rest = fd_isset-bound x n m fds h k.1 in ground (arith, k.0)

-- Both ways to register a descriptor that an `fd_set` can hold: `select` then waits for this descriptor,
-- to read or to write, and for just what it waited for before, for the other purpose too.
pub set_fd-Watches :
    (fd : ℕ) (drs : DataReadySelector)
    → fd < fd_setsize
    → Watches drs
    → WaitsAlso drs (set_read_fd fd drs) (λ x. x == fd) (λ x. false)
      × WaitsAlso drs (set_write_fd fd drs) (λ x. false) (λ x. x == fd)
unfolding set_read_fd set_write_fd fd_set waits_to_read waits_to_write fd_isset
set_fd-Watches fd drs fits w = rw (lt→ltb fd fd_setsize fits) (
  record {
    watches = record {
      reads = (below, grow drs.read_fds.members w.reads);
      writes = grow drs.write_fds.members w.writes;
      reads_fit = w.reads_fit;
      writes_fit = w.writes_fit;
    };
    reading = λ x. added x drs.read_fds.members w.reads;
    writing = λ x. fd_isset-bound x drs.num_fds _ drs.write_fds.members (ground arith) w.writes;
  },
  record {
    watches = record {
      reads = grow drs.read_fds.members w.reads;
      writes = (below, grow drs.write_fds.members w.writes);
      reads_fit = w.reads_fit;
      writes_fit = w.writes_fit;
    };
    reading = λ x. fd_isset-bound x drs.num_fds _ drs.read_fds.members (ground arith) w.reads;
    writing = λ x. added x drs.write_fds.members w.writes;
  },
)
  where
    below : fd < (if leb drs.num_fds fd then fd + 1 else drs.num_fds)
    below = ground arith

    grow :
        (fds : List ℕ)
        → AllBelow drs.num_fds fds
        → AllBelow (if leb drs.num_fds fd then fd + 1 else drs.num_fds) fds
    grow fds h = AllBelow-mono fds (ground arith) h

    added :
        (x : ℕ) (fds : List ℕ)
        → AllBelow drs.num_fds fds
        → ltb x (if leb drs.num_fds fd then fd + 1 else drs.num_fds) && (x == fd || fd_isset x fds)
          ≡ x == fd || (ltb x drs.num_fds && fd_isset x fds)
    added x fds h =
        let e =
          fd_isset-bound x drs.num_fds (if leb drs.num_fds fd then fd + 1 else drs.num_fds) fds
            (ground arith) h in
        ground arith
