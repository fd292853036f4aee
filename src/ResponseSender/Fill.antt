-- ===== src/ResponseSender/Fill.antt =====
-- src/responsesender.c: what `fillBuffer` takes from a file of which the length is known.
use filemanager_httpd.Common.{
  ℕ, zero, suc, ◌+◌, ◌-◌, ◌≤◌, ◌≡◌, refl, sym, ap, ◌⊎◌, inl, inr, true, false, none, some, List, [],
  ◌∷◌, ◌++◌, append-nil, arith, ltb, if◌then◌else◌, length, replicate, length-append,
}
use filemanager_httpd.Common.Strings.{Bytes}
use filemanager_httpd.DataProcessingResult.{DataProcessingResult}
use filemanager_httpd.ResponseSender.{
  FileRead, Wire, ReadStop, ResponseSender, read_full, read_ended, read_blocked, read_error,
  read_file_loop, after_read, fill_known, closes_file,
}
use filemanager_httpd.ResponseSender.Reads.{
  pending, Ended, IsBlocked, IsRead, read_file_loop-IsRead,
}

-- As much as is left to be sent, but no more than the buffer holds.
abbrev pub fill_size : ℕ → ℕ
fill_size nbytes = if ltb nbytes 65536 then nbytes else 65536

-- What a fill makes of the bytes of a file: `got` is taken from it, and `zeros` bytes stand for what
-- the file lacks.
pub record IsFilled (nbytes fd : ℕ) (w : Wire) (r : ResponseSender) (v : Wire) : Type 0 where
  pub got : Bytes
  pub zeros : ℕ
  pub buffer : r.body ≡ some (got ++ replicate zeros 0)
  pub conserved : got ++ pending v.reads ≡ pending w.reads
  pub rest : r.nbytes ≡ some (nbytes - (length got + zeros))
  pub within : length got + zeros ≤ nbytes
  pub size : r.data_size ≡ length got + zeros
  pub file :
      ((zeros ≡ 0)
        × (r.file_desc ≡ some fd)
        × (v.closed ≡ w.closed)
        × ((length got ≡ fill_size nbytes) ⊎ IsBlocked w.reads v.reads))
      ⊎ ((length got + zeros ≡ fill_size nbytes)
          × Ended w.reads v.reads
          × (r.file_desc ≡ none)
          × (v.closed ≡ w.closed ++ fd ∷ []))

length-replicate : (n : ℕ) → length (replicate {A = ℕ} n 0) ≡ n
length-replicate zero = refl
length-replicate (suc n) = omega (arith, length-replicate n)

length-padded : (got : Bytes) (n : ℕ) → length (got ++ replicate n 0) ≡ length got + n
length-padded got n = omega (arith, length-append got (replicate n 0), length-replicate n)

abbrev IsFilledBy : ℕ → ℕ → Wire → ResponseSender × DataProcessingResult × Wire → Type 0
IsFilledBy nbytes fd w p = IsFilled nbytes fd w p.0 p.2

module _ (nbytes fd : ℕ) (r : ResponseSender) (dpr : DataProcessingResult) (w : Wire) where
  closed-IsFilled :
      (got : Bytes) (reads : List FileRead) (stop : ReadStop)
      → IsRead [] (fill_size nbytes) w.reads (got, stop, reads)
      → fill_size nbytes ≤ nbytes
      → Ended w.reads reads
      → closes_file stop ≡ true
      → IsFilledBy nbytes fd w (after_read nbytes (fill_size nbytes) fd r dpr w (got, stop, reads))
  unfolding after_read
  closed-IsFilled got reads stop q h ended e = rw e (record {
    got = got;
    zeros = fill_size nbytes - length got;
    buffer = refl;
    conserved = q.conserved;
    rest = ap (λ n. some (nbytes - n)) (length-padded got (fill_size nbytes - length got));
    within = omega (arith, q.within);
    size = length-padded got (fill_size nbytes - length got);
    file = inr (omega (arith, q.within), ended, refl, refl);
  })

  open-IsFilled :
      (got : Bytes) (reads : List FileRead) (stop : ReadStop)
      → IsRead [] (fill_size nbytes) w.reads (got, stop, reads)
      → fill_size nbytes ≤ nbytes
      → r.file_desc ≡ some fd
      → closes_file stop ≡ false
      → (length got ≡ fill_size nbytes) ⊎ IsBlocked w.reads reads
      → IsFilledBy nbytes fd w (after_read nbytes (fill_size nbytes) fd r dpr w (got, stop, reads))
  unfolding after_read
  open-IsFilled got reads stop q h opened e why = rw e (record {
    got = got;
    zeros = 0;
    buffer = ap some (sym (append-nil got));
    conserved = q.conserved;
    rest = ap (λ n. some (nbytes - n)) (omega arith);
    within = omega (arith, q.within);
    size = omega arith;
    file = inl (refl, opened, refl, why);
  })

  after_read-IsFilled :
      (q : Bytes × ReadStop × List FileRead)
      → IsRead [] (fill_size nbytes) w.reads q
      → fill_size nbytes ≤ nbytes
      → r.file_desc ≡ some fd
      → IsFilledBy nbytes fd w (after_read nbytes (fill_size nbytes) fd r dpr w q)
  after_read-IsFilled (got, read_ended, reads) q h k =
      closed-IsFilled got reads read_ended q h q.stopped refl
  after_read-IsFilled (got, read_error, reads) q h k =
      closed-IsFilled got reads read_error q h q.stopped refl
  after_read-IsFilled (got, read_full, reads) q h k =
      open-IsFilled got reads read_full q h k refl (inl (omega (arith, q.full)))
  after_read-IsFilled (got, read_blocked, reads) q h k =
      open-IsFilled got reads read_blocked q h k refl (inr q.stopped)

-- Each fill from an open file takes the file's next bytes, in order and without loss, and counts them off what is
-- still to be sent, which it never passes. Where the last read told
-- the file's early end or an error it closes the file, and pads with zeros up to what was to be filled;
-- else the file stays open, there are no zeros, and all that was to be filled is there or the last read
-- would block.
pub fill_known-IsFilled :
    (nbytes fd : ℕ) (r : ResponseSender) (dpr : DataProcessingResult) (w : Wire)
    → r.file_desc ≡ some fd
    → (let q = fill_known nbytes r dpr w in IsFilled nbytes fd w q.0 q.2)
unfolding fill_known
fill_known-IsFilled nbytes fd r dpr w e =
    rw (e, fill_known)
      (after_read-IsFilled nbytes fd r dpr w (read_file_loop [] (fill_size nbytes) w.reads)
        (read_file_loop-IsRead [] (fill_size nbytes) w.reads) (ground arith) e)
