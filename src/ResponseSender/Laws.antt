-- ===== src/ResponseSender/Laws.antt =====
-- src/responsesender.c: a response that is in memory as a whole reaches the client byte by byte.
use filemanager_httpd.Common.{
  ℕ, zero, suc, ◌+◌, ◌-◌, ◌≤◌, min, ◌≡◌, refl, sym, ap, ◌∙◌, inl, inr, Bool, true, false, not, ◌||◌,
  Option, none, some, List, [], ◌∷◌, ◌++◌, append_assoc, arith, ltb, leb, Bool-cases, length, take,
  drop, is_empty, take-append-drop,
}
use filemanager_httpd.Common.Strings.{Bytes}
use filemanager_httpd.DataProcessingResult.{DataProcessingResult}
use filemanager_httpd.ResponseSender.{
  WriteResult, wrote, write_would_block, write_failed, WriteStop, write_done, write_blocked,
  write_error, Wire, ResponseSender, Sending, write_loop, is_zero, after_write, send_loop,
  send_body, send,
}

drop-[] : (n : ℕ) → drop {A = ℕ} n [] ≡ []
drop-[] zero = refl
drop-[] (suc n) = refl

drop-drop : (k n : ℕ) (xs : Bytes) → drop k (drop n xs) ≡ drop (n + k) xs
drop-drop k zero xs = ap (λ m. drop m xs) (omega arith)
drop-drop k (suc n) [] = drop-[] k ∙ sym (drop-[] (suc n + k))
drop-drop k (suc n) (x ∷ xs) =
    let e : suc (n + k) ≡ suc n + k = omega arith in drop-drop k n xs ∙ ap (λ m. drop m (x ∷ xs)) e

drop-length : (n : ℕ) (xs : Bytes) → length xs ≤ n → drop n xs ≡ []
drop-length zero [] h = refl
drop-length zero (x ∷ xs) h = absurd (omega arith)
drop-length (suc n) [] h = refl
drop-length (suc n) (x ∷ xs) h = drop-length n xs (omega arith)

abbrev is_write_done : WriteStop → Bool
is_write_done write_done = true
is_write_done _ = false

-- What the loop over a buffer guarantees of its result.
record IsWritten (bytes : Bytes) (offset : ℕ) (sent : Bytes)
    (q : ℕ × WriteStop × List WriteResult × Bytes) : Type 0 where
  conserved : q.3 ++ drop q.0 bytes ≡ sent ++ drop offset bytes
  within : q.0 ≤ length bytes
  complete : is_write_done q.1 ≡ leb (length bytes) q.0

write_loop-IsWritten :
    (bytes : Bytes) (offset : ℕ) (ws : List WriteResult) (sent : Bytes)
    → offset ≤ length bytes
    → IsWritten bytes offset sent (write_loop bytes offset ws sent)
unfolding write_loop
write_loop-IsWritten bytes offset [] sent h = elim (Bool-cases (ltb offset (length bytes))) [
  | inl e ↦ rw e (record { conserved = refl; within = h; complete = ground arith })
  | inr e ↦ rw e (record { conserved = refl; within = h; complete = ground arith })
]
write_loop-IsWritten bytes offset (write_would_block ∷ ws) sent h =
    elim (Bool-cases (ltb offset (length bytes))) [
      | inl e ↦ rw e (record { conserved = refl; within = h; complete = ground arith })
      | inr e ↦ rw e (record { conserved = refl; within = h; complete = ground arith })
    ]
write_loop-IsWritten bytes offset (write_failed ∷ ws) sent h =
    elim (Bool-cases (ltb offset (length bytes))) [
      | inl e ↦ rw e (record { conserved = refl; within = h; complete = ground arith })
      | inr e ↦ rw e (record { conserved = refl; within = h; complete = ground arith })
    ]
write_loop-IsWritten bytes offset (wrote n ∷ ws) sent h =
    let wr = min n (length bytes - offset) in
    let rest =
      write_loop-IsWritten bytes (offset + wr) ws (sent ++ take wr (drop offset bytes))
        (ground arith) in
    elim (Bool-cases (ltb offset (length bytes))) [
      | inl e ↦ rw e (record {
        conserved =
            rest.conserved
            ∙ append_assoc sent (take wr (drop offset bytes)) (drop (offset + wr) bytes)
            ∙ ap (λ bs. sent ++ (take wr (drop offset bytes) ++ bs))
                (sym (drop-drop wr offset bytes))
            ∙ ap (λ bs. sent ++ bs) (take-append-drop wr (drop offset bytes));
        within = rest.within;
        complete = rest.complete;
      })
      | inr e ↦ rw e (record { conserved = refl; within = h; complete = ground arith })
    ]

-- What of the response in memory is still to be sent: of the header and of the body.
abbrev bytes_of : Option Bytes → Bytes
bytes_of none = []
bytes_of (some bytes) = bytes

abbrev left_of : Option Bytes → Option Bytes → ℕ → Bytes
left_of none body offset = drop offset (bytes_of body)
left_of (some header) body offset = drop offset header ++ bytes_of body

abbrev current : Option Bytes → Option Bytes → Bytes
current none body = bytes_of body
current (some header) body = header

unfoldable pub left : ResponseSender → Bytes
left r = left_of r.header r.body r.data_offset

-- Nothing of the response is in a file, and the offset is within what is being sent.
pub record IsInMemory (r : ResponseSender) : Type 0 where
  pub no_file : is_zero r.nbytes ≡ true
  pub within : r.data_offset ≤ length (current r.header r.body)

pub record IsSent (r : ResponseSender) (w : Wire) (s : Sending) : Type 0 where
  pub conserved : s.wire.sent ++ left s.rsndr ≡ w.sent ++ left r
  pub complete : not s.is_done || (s.dpr.close_conn || is_empty (left s.rsndr)) ≡ true
  pub in_memory : IsInMemory s.rsndr

-- The record of what a stopped loop of writes leaves.
abbrev written :
    ResponseSender → Wire → ℕ × WriteStop × List WriteResult × Bytes → ResponseSender × Wire
written r w q = (record r { data_offset = q.0 }, record w { writes = q.2; sent = q.3 })

-- A call of `send` on this response ends, and with a result as `IsSent` says.
abbrev Sends : ResponseSender → Wire → Option Sending → Type 0
Sends r w result = (s : Sending) × (result ≡ some s) × IsSent r w s

is_empty-drop :
    (b : Bool) (n : ℕ) (xs : Bytes) → true ≡ leb (length xs) n → (b || is_empty (drop n xs)) ≡ true
is_empty-drop b n xs h = rw (drop-length n xs (ground arith)) (ground arith)

send_loop-Sends :
    (fuel socket_fd : ℕ) (body : Bytes) (r : ResponseSender) (dpr : DataProcessingResult) (w : Wire)
    → (let r1 = record r { header = none; body = some body } in
        IsInMemory r1 → Sends r1 w (send_loop (suc fuel) socket_fd r1 body dpr w))
unfolding send_loop left
send_loop-Sends fuel socket_fd body r dpr w h =
    rw (h.no_file, send_loop)
      (next (write_loop body r.data_offset w.writes w.sent)
        (write_loop-IsWritten body r.data_offset w.writes w.sent h.within))
  where
    next :
        (q : ℕ × WriteStop × List WriteResult × Bytes)
        → IsWritten body r.data_offset w.sent q
        → (let r1 = record r { header = none; body = some body } in
            let v = written r1 w q in
            Sends r1 w (
              after_write q.1 socket_fd v.0 dpr v.1
                (some (record { rsndr = v.0; dpr = dpr; wire = v.1; is_done = true }))))
    next (o, write_done, ws, sent) p = (
      _,
      refl,
      record {
        conserved = p.conserved;
        complete = is_empty-drop dpr.close_conn o body p.complete;
        in_memory = record { no_file = h.no_file; within = p.within };
      },
    )
    next (o, write_blocked, ws, sent) p = (
      _,
      refl,
      record {
        conserved = p.conserved;
        complete = refl;
        in_memory = record { no_file = h.no_file; within = p.within };
      },
    )
    next (o, write_error, ws, sent) p = (
      _,
      refl,
      record {
        conserved = p.conserved;
        complete = refl;
        in_memory = record { no_file = h.no_file; within = p.within };
      },
    )

send_body-Sends :
    (fuel socket_fd : ℕ) (body : Option Bytes) (r : ResponseSender) (dpr : DataProcessingResult)
    (w : Wire)
    → (let r1 = record r { header = none; body = body } in
        IsInMemory r1 → Sends r1 w (send_body (suc fuel) socket_fd r1 dpr w))
unfolding send_body left
send_body-Sends fuel socket_fd none r dpr w h =
    (_, refl, record { conserved = refl; complete = ground arith; in_memory = h })
send_body-Sends fuel socket_fd (some body) r dpr w h = send_loop-Sends fuel socket_fd body r dpr w h

with_body : (xs ys us vs zs : Bytes) → xs ++ ys ≡ us ++ vs → xs ++ (ys ++ zs) ≡ us ++ (vs ++ zs)
with_body xs ys us vs zs e =
    sym (append_assoc xs ys zs) ∙ ap (λ ws. ws ++ zs) e ∙ append_assoc us vs zs

send-Sends :
    (fuel socket_fd : ℕ) (header body : Option Bytes) (r : ResponseSender)
    (dpr : DataProcessingResult) (w : Wire)
    → (let r1 = record r { header = header; body = body } in
        IsInMemory r1 → Sends r1 w (send (suc fuel) socket_fd r1 dpr w))
unfolding send left
send-Sends fuel socket_fd none body r dpr w h = send_body-Sends fuel socket_fd body r dpr w h
send-Sends fuel socket_fd (some header) body r dpr w h =
    next body (write_loop header r.data_offset w.writes w.sent)
      (write_loop-IsWritten header r.data_offset w.writes w.sent h.within)
  where
    next :
        (body : Option Bytes) (q : ℕ × WriteStop × List WriteResult × Bytes)
        → IsWritten header r.data_offset w.sent q
        → (let r1 = record r { header = some header; body = body } in
            let v = written r1 w q in
            let r2 = record r { header = none; body = body; data_offset = 0 } in
            Sends r1 w
              (after_write q.1 socket_fd v.0 dpr v.1 (send_body (suc fuel) socket_fd r2 dpr v.1)))
    next body (o, write_done, ws, sent) p =
        let r2 = record r { header = none; body = body; data_offset = 0 } in
        let w1 = record w { writes = ws; sent = sent } in
        let (s, e, is_sent) =
          send_body-Sends fuel socket_fd body r2 dpr w1
            (record { no_file = h.no_file; within = omega arith }) in
        (
          s,
          e,
          record {
            conserved =
                is_sent.conserved
                ∙ ap (λ bs. sent ++ (bs ++ bytes_of body))
                    (sym (drop-length o header (ground (arith, p.complete))))
                ∙ with_body sent (drop o header) w.sent (drop r.data_offset header) (bytes_of body)
                    p.conserved;
            complete = is_sent.complete;
            in_memory = is_sent.in_memory;
          },
        )
    next body (o, write_blocked, ws, sent) p = (
      _,
      refl,
      record {
        conserved =
            with_body sent (drop o header) w.sent (drop r.data_offset header) (bytes_of body)
              p.conserved;
        complete = refl;
        in_memory = record { no_file = h.no_file; within = p.within };
      },
    )
    next body (o, write_error, ws, sent) p = (
      _,
      refl,
      record {
        conserved =
            with_body sent (drop o header) w.sent (drop r.data_offset header) (bytes_of body)
              p.conserved;
        complete = refl;
        in_memory = record { no_file = h.no_file; within = p.within };
      },
    )

-- A response that is in memory is sent without loss and in order, whatever the socket takes at a
-- time: a call of `rsndr_send` ends, what the client has got and what is left make up the same bytes
-- before and after it, and where it reports the end without closing the connection nothing is left.
-- What it leaves is in memory again, so that the same holds of the next call.
pub send-IsSent :
    (fuel socket_fd : ℕ) (r : ResponseSender) (dpr : DataProcessingResult) (w : Wire)
    → IsInMemory r
    → (s : Sending) × (send (suc fuel) socket_fd r dpr w ≡ some s) × IsSent r w s
send-IsSent fuel socket_fd r dpr w h = send-Sends fuel socket_fd r.header r.body r dpr w h
