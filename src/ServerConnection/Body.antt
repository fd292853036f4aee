-- ===== src/ServerConnection/Body.antt =====
-- A body of known length, as src/serverconnection.c hands it to the request handler.
use filemanager_httpd.Common.{
  ℕ, zero, suc, ◌<◌, ◌≡◌, refl, ap, ◌∙◌, false, none, some, ◌∷◌, ◌++◌, arith, length, length-append,
}
use filemanager_httpd.Common.Strings.{Bytes}
use filemanager_httpd.DataProcessingResult.{DataProcessingResult}
use filemanager_httpd.ServerConnection.Handler.{HandlerOps, TakesAll}
use filemanager_httpd.ServerConnection.{
  RequestReadState, read_body, read_finished, ServerConnection, BodyTurn, process, end_of_length,
  body_turn, body_loop, append_body_data,
}
use filemanager_httpd.ServerConnection.ChunkSteps.{take-length, drop-length}

module _ {H : Type 0} (ops : HandlerOps H) (feed : H → Bytes → H) (law : TakesAll ops feed) where
  module _ (conn : ServerConnection H) (dpr : DataProcessingResult) where
    -- With `n` bytes of the body's length read.
    abbrev known : RequestReadState → H → ℕ → ℕ → Bytes → BodyTurn H
    known rrs h n m bol = record {
      conn = record conn {
        rrs = rrs;
        chunk_hdr = none;
        handler = some h;
        body_len = n;
        body_read_len = m;
      };
      dpr = dpr;
      bol = bol;
      is_broken = false;
    }

    process_known :
        (h : H) (d rest : Bytes)
        → process ops (length d) (known read_body h (length d) 0 (d ++ rest))
          ≡ known read_body (feed h d) (length d) (length d) rest
    unfolding process
    process_known h d rest =
        ground (arith, law.process_data-feed h d dpr, take-length d rest, drop-length d rest)

    turn_known :
        (h : H) (d rest : Bytes)
        → 0 < length d
        → body_turn ops (known read_body h (length d) 0 (d ++ rest))
          ≡ known read_finished (feed h d) (length d) (length d) rest
    unfolding body_turn end_of_length
    turn_known h d rest p = ground (arith, process_known h d rest, length-append d rest)

    loop_finished :
        (f : ℕ) (h : H) (n m : ℕ) (rest : Bytes)
        → body_loop ops f (known read_finished h n m rest) ≡ known read_finished h n m rest
    unfolding body_loop
    loop_finished zero h n m rest = refl
    loop_finished (suc f) h n m rest = refl

    loop_known :
        (f : ℕ) (h : H) (c : ℕ) (cs rest : Bytes)
        → body_loop ops (suc f) (known read_body h (length (c ∷ cs)) 0 ((c ∷ cs) ++ rest))
          ≡ known read_finished (feed h (c ∷ cs)) (length (c ∷ cs)) (length (c ∷ cs)) rest
    unfolding body_loop
    loop_known f h c cs rest =
        ap (body_loop ops f) (turn_known h (c ∷ cs) rest (omega arith))
        ∙ loop_finished f (feed h (c ∷ cs)) _ _ rest

  abbrev pub with_length : ServerConnection H → H → ℕ → Bytes → ServerConnection H
  with_length conn h n text = record conn {
    rrs = read_body;
    chunk_hdr = none;
    handler = some h;
    body_len = n;
    body_read_len = 0;
    unread = text;
  }

  -- Of a body with "Content-Length" that has arrived in full the handler gets just the body, reading
  -- the request is finished, and the bytes behind the body, the next request's, stay unread. The handler
  -- takes all the bytes it is given at once, as the one for a form does and the one for a CGI program may
  -- not.
  pub append_body_data-with_length :
      (conn : ServerConnection H) (dpr : DataProcessingResult) (h : H) (c : ℕ) (cs rest : Bytes)
      → let body = c ∷ cs in
        append_body_data ops (with_length conn h (length body) (body ++ rest)) dpr ≡ (
          record conn {
            rrs = read_finished;
            chunk_hdr = none;
            handler = some (feed h body);
            body_len = length body;
            body_read_len = length body;
            unread = rest;
          },
          dpr,
        )
  unfolding append_body_data
  append_body_data-with_length conn dpr h c cs rest =
      ap (λ (t : BodyTurn H). (record t.conn { unread = t.bol }, t.dpr))
        (loop_known (record conn { unread = (c ∷ cs) ++ rest }) dpr (length ((c ∷ cs) ++ rest)) h c
          cs rest)
