-- ===== src/ResponseSender/Reads.antt =====
-- src/responsesender.c: the loop of reads that `fillBuffer` has for a file.
use filemanager_httpd.Common.{
  ℕ, zero, suc, ◌+◌, ◌-◌, ◌≤◌, ◌≡◌, refl, sym, ap, ◌∙◌, ◌⊎◌, inl, inr, List, [], ◌∷◌, ◌++◌,
  append_assoc, arith, leb, leb→le, Bool-cases, length, take, drop, length-append, take-append-drop,
  length-drop,
}
use filemanager_httpd.Common.Strings.{Bytes}
use mathlib.Core.Path.{subst}
use filemanager_httpd.ResponseSender.{
  FileRead, read_bytes, read_would_block, read_failed, ReadStop, read_full, read_ended,
  read_blocked, read_error, read_file_loop,
}

-- The bytes that are still to be read, in order.
unfoldable pub pending : List FileRead → Bytes
pending [] = []
pending (read_bytes bytes ∷ reads) = bytes ++ pending reads
pending (read_would_block ∷ reads) = pending reads
pending (read_failed ∷ reads) = pending reads

-- `read` tells the end of the file, or an error; that it would block is neither.
pub data IsLast : FileRead → Type 0 where
  at_end : IsLast (read_bytes [])
  at_error : IsLast read_failed

-- The reads of which the results are gone ended with the file's end or with an error.
pub record Ended (reads left : List FileRead) : Type 0 where
  pub before : List FileRead
  pub last : FileRead
  pub is_last : IsLast last
  pub gone : reads ≡ before ++ (last ∷ left)

-- The last of the reads would block, as those behind the end of the list do.
abbrev pub IsBlocked : List FileRead → List FileRead → Type 0
IsBlocked reads left =
    ((before : List FileRead) × (reads ≡ before ++ (read_would_block ∷ left))) ⊎ (left ≡ [])

-- All the bytes were read that there is room for.
abbrev pub IsFull : ReadStop → ℕ → ℕ → Type 0
IsFull read_full n room = n ≡ room
IsFull _ n room = Unit

-- What the stop of the reads says of them.
abbrev pub AreStopped : ReadStop → List FileRead → List FileRead → Type 0
AreStopped read_ended reads left = Ended reads left
AreStopped read_error reads left = Ended reads left
AreStopped read_blocked reads left = IsBlocked reads left
AreStopped read_full reads left = Unit

pub AreStopped-behind :
    (stop : ReadStop) (x : FileRead) (reads left : List FileRead)
    → AreStopped stop reads left
    → AreStopped stop (x ∷ reads) left
AreStopped-behind read_full x reads left h = tt
AreStopped-behind read_blocked x reads left (inl b) = inl (x ∷ b.0, ap (λ r. x ∷ r) b.1)
AreStopped-behind read_blocked x reads left (inr e) = inr e
AreStopped-behind read_ended x reads left h = record {
  before = x ∷ h.before;
  last = h.last;
  is_last = h.is_last;
  gone = ap (λ r. x ∷ r) h.gone;
}
AreStopped-behind read_error x reads left h = record {
  before = x ∷ h.before;
  last = h.last;
  is_last = h.is_last;
  gone = ap (λ r. x ∷ r) h.gone;
}

pub IsFull-equal : (stop : ReadStop) (n : ℕ) {a b : ℕ} → a ≡ b → IsFull stop n a → IsFull stop n b
IsFull-equal stop n e h = subst (IsFull stop n) e h

-- What the loop of reads guarantees of its result.
pub record IsRead (got : Bytes) (room : ℕ) (reads : List FileRead)
    (q : Bytes × ReadStop × List FileRead) : Type 0 where
  pub conserved : q.0 ++ pending q.2 ≡ got ++ pending reads
  pub within : length q.0 ≤ length got + room
  pub stopped : AreStopped q.1 reads q.2
  pub full : IsFull q.1 (length q.0) (length got + room)

pub length-take : (n : ℕ) (bs : Bytes) → length (take n bs) ≤ n
length-take zero bs = omega arith
length-take (suc n) [] = omega arith
length-take (suc n) (b ∷ bs) = omega (arith, length-take n bs)

pub read_file_loop-IsRead :
    (got : Bytes) (room : ℕ) (reads : List FileRead)
    → IsRead got room reads (read_file_loop got room reads)
unfolding read_file_loop pending
read_file_loop-IsRead got zero reads = record {
  conserved = refl;
  within = omega arith;
  stopped = tt;
  full = omega arith;
}
read_file_loop-IsRead got (suc room) [] = record {
  conserved = refl;
  within = omega arith;
  stopped = inr refl;
  full = tt;
}
read_file_loop-IsRead got (suc room) (read_would_block ∷ reads) = record {
  conserved = refl;
  within = omega arith;
  stopped = inl ([], refl);
  full = tt;
}
read_file_loop-IsRead got (suc room) (read_failed ∷ reads) = record {
  conserved = refl;
  within = omega arith;
  stopped = record { before = []; last = read_failed; is_last = at_error; gone = refl };
  full = tt;
}
read_file_loop-IsRead got (suc room) (read_bytes [] ∷ reads) = record {
  conserved = refl;
  within = omega arith;
  stopped = record { before = []; last = read_bytes []; is_last = at_end; gone = refl };
  full = tt;
}
read_file_loop-IsRead got (suc room) (read_bytes (b ∷ bs) ∷ reads) =
    elim (Bool-cases (leb (length (b ∷ bs)) (suc room))) [
      | inl e ↦
          let all = read_file_loop-IsRead (got ++ b ∷ bs) (suc room - length (b ∷ bs)) reads in
          rw e (record {
            conserved = all.conserved ∙ append_assoc got (b ∷ bs) (pending reads);
            within = omega (
              arith,
              all.within,
              length-append got (b ∷ bs),
              leb→le (length (b ∷ bs)) (suc room) e,
            );
            stopped = AreStopped-behind _ (read_bytes (b ∷ bs)) reads _ all.stopped;
            full =
                IsFull-equal _ _
                  (omega (arith, length-append got (b ∷ bs), leb→le (length (b ∷ bs)) (suc room) e))
                  all.full;
          })
      | inr e ↦ rw e (record {
        conserved =
            append_assoc got (b ∷ take room bs) (drop room bs ++ pending reads)
            ∙ ap (λ xs. got ++ b ∷ xs)
                (sym (append_assoc (take room bs) (drop room bs) (pending reads))
                  ∙ ap (λ xs. xs ++ pending reads) (take-append-drop room bs));
        within = omega (arith, length-append got (b ∷ take room bs), length-take room bs);
        stopped = tt;
        full = ground (
          arith,
          length-append got (b ∷ take room bs),
          length-append (take room bs) (drop room bs),
          take-append-drop room bs,
          length-drop room bs,
          e,
        );
      })
    ]
