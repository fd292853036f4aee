-- ===== src/ServerConnection/Chunked.antt =====
-- A chunked body, as src/serverconnection.c hands it to the request
-- handler.
use filemanager_httpd.Common.{
  ℕ, zero, suc, ◌+◌, ◌^◌, ◌≤◌, ◌<◌, ◌≡◌, refl, ap, ◌∙◌, false, some, List, [], ◌∷◌, ◌++◌, arith,
  length, length-append,
}
use filemanager_httpd.Common.Strings.{Bytes, codes}
use filemanager_httpd.DataProcessingResult.{DataProcessingResult}
use filemanager_httpd.ServerConnection.Handler.{HandlerOps, TakesAll}
use filemanager_httpd.ServerConnection.{
  read_body, read_trailer, ServerConnection, BodyTurn, body_turn, body_loop, append_body_data,
}
use filemanager_httpd.ServerConnection.ChunkSteps.{
  Chunk, content, IsSized, AreSized, chunks_text, total, read_chunk_line-crlf, feed_all, in_chunk,
  at_trailer, body_turn-chunk, end_of_length-next, end_of_length-last,
}

module _ {H : Type 0} (ops : HandlerOps H) (feed : H → Bytes → H) (law : TakesAll ops feed) where
  module _ (conn : ServerConnection H) (dpr : DataProcessingResult) where
    length-chunks :
        (cs : List Chunk) (last rest : Bytes) → length cs ≤ length (chunks_text cs last rest)
    length-chunks [] last rest = omega arith
    length-chunks (c ∷ cs) last rest = omega (
      arith,
      length-append c.size_line (b'\n' ∷ (content c ++ (b'\r' ∷ b'\n' ∷ chunks_text cs last rest))),
      length-append c.others (b'\r' ∷ b'\n' ∷ chunks_text cs last rest),
      length-chunks cs last rest,
    )

    turn_next :
        (h : H) (m : ℕ) (d : Bytes) (cs : List Chunk) (last rest : Bytes)
        → 0 < length d
        → AreSized cs
        → IsSized last 0
        → m + length d + total cs < 2 ^ 64
        → body_turn ops (
            in_chunk ops feed law conn dpr h
              (m + length d)
              m
              (d ++ (b'\r' ∷ b'\n' ∷ chunks_text cs last rest)))
          ≡ elim cs [
            | [] ↦ at_trailer ops feed law conn dpr (feed h d) (m + length d) rest
            | c ∷ more ↦
                in_chunk ops feed law conn dpr
                  (feed h d)
                  (m + length d + length (content c))
                  (m + length d)
                  (content c ++ (b'\r' ∷ b'\n' ∷ chunks_text more last rest))
          ]
    turn_next h m d [] last rest p s l b =
        body_turn-chunk ops feed law conn dpr h m d _ p
        ∙ end_of_length-last ops feed law conn dpr (feed h d) (m + length d) last rest l
    turn_next h m d (c ∷ more) last rest p s l b =
        body_turn-chunk ops feed law conn dpr h m d _ p
        ∙ end_of_length-next ops feed law conn dpr (feed h d) (m + length d) c.size_line
            (content c ++ (b'\r' ∷ b'\n' ∷ chunks_text more last rest)) (length c.others) s.0
            (omega arith)

    loop_trailer :
        (f : ℕ) (h : H) (n : ℕ) (rest : Bytes)
        → body_loop ops f (at_trailer ops feed law conn dpr h n rest)
          ≡ at_trailer ops feed law conn dpr h n rest
    unfolding body_loop
    loop_trailer zero h n rest = refl
    loop_trailer (suc f) h n rest = refl

    -- The rounds from within a chunk, with enough fuel for those that are left.
    loop_chunks :
        (f : ℕ) (h : H) (m : ℕ) (c : Chunk) (cs : List Chunk) (last rest : Bytes)
        → length cs < f
        → AreSized cs
        → IsSized last 0
        → m + length (content c) + total cs < 2 ^ 64
        → body_loop ops f (
            in_chunk ops feed law conn dpr h
              (m + length (content c))
              m
              (content c ++ (b'\r' ∷ b'\n' ∷ chunks_text cs last rest)))
          ≡ at_trailer ops feed law conn dpr
              (feed_all ops feed law h (c ∷ cs))
              (m + total (c ∷ cs))
              rest
    unfolding body_loop
    loop_chunks zero h m c cs last rest k s l b = elim k [ ]
    loop_chunks (suc f) h m c [] last rest k s l b =
        ap (body_loop ops f) (turn_next h m (content c) [] last rest (omega arith) s l b)
        ∙ loop_trailer f (feed h (content c)) (m + length (content c)) rest
        ∙ ap (λ n. at_trailer ops feed law conn dpr (feed h (content c)) n rest) (omega arith)
    loop_chunks (suc f) h m c (d ∷ ds) last rest k s l b =
        ap (body_loop ops f) (turn_next h m (content c) (d ∷ ds) last rest (omega arith) s l b)
        ∙ loop_chunks f (feed h (content c)) (m + length (content c)) d ds last rest (omega arith)
            s.1 l (omega arith)
        ∙ ap (λ n. at_trailer ops feed law conn dpr (feed_all ops feed law h (c ∷ d ∷ ds)) n rest)
            (omega arith)

    abbrev first_turn : H → Bytes → BodyTurn H
    first_turn h bol = record {
      conn = record conn {
        rrs = read_body;
        chunk_hdr = some (codes "\r\n");
        handler = some h;
        body_len = 0;
        body_read_len = 0;
      };
      dpr = dpr;
      bol = bol;
      is_broken = false;
    }

    body_turn-first_size :
        (h : H) (line rest : Bytes) (k : ℕ)
        → IsSized line (suc k)
        → suc k < 2 ^ 64
        → body_turn ops (first_turn h (line ++ (b'\n' ∷ rest)))
          ≡ in_chunk ops feed law conn dpr h (suc k) 0 rest
    unfolding body_turn
    body_turn-first_size h line rest k s b =
        ground (arith, read_chunk_line-crlf line rest s.no_newline, s.reads)

    body_turn-first_last :
        (h : H) (line rest : Bytes)
        → IsSized line 0
        → body_turn ops (first_turn h (line ++ (b'\n' ∷ rest)))
          ≡ at_trailer ops feed law conn dpr h 0 rest
    unfolding body_turn
    body_turn-first_last h line rest s =
        ground (arith, read_chunk_line-crlf line rest s.no_newline, s.reads)

    loop_first :
        (f : ℕ) (h : H) (c : ℕ) (bs : Bytes)
        → body_loop ops (suc f) (first_turn h (c ∷ bs))
          ≡ body_loop ops f (body_turn ops (first_turn h (c ∷ bs)))
    unfolding body_loop
    loop_first f h c bs = refl

    loop_first_line :
        (f : ℕ) (h : H) (line rest : Bytes)
        → body_loop ops (suc f) (first_turn h (line ++ (b'\n' ∷ rest)))
          ≡ body_loop ops f (body_turn ops (first_turn h (line ++ (b'\n' ∷ rest))))
    loop_first_line f h [] rest = loop_first f h b'\n' rest
    loop_first_line f h (c ∷ cs) rest = loop_first f h c (cs ++ (b'\n' ∷ rest))

    loop_all :
        (f : ℕ) (h : H) (cs : List Chunk) (last rest : Bytes)
        → length cs ≤ f
        → AreSized cs
        → IsSized last 0
        → total cs < 2 ^ 64
        → body_loop ops (suc f) (first_turn h (chunks_text cs last rest))
          ≡ at_trailer ops feed law conn dpr (feed_all ops feed law h cs) (total cs) rest
    loop_all f h [] last rest k s l b =
        loop_first_line f h last rest
        ∙ ap (body_loop ops f) (body_turn-first_last h last rest l)
        ∙ loop_trailer f h 0 rest
    loop_all f h (c ∷ cs) last rest k s l b =
        let behind = content c ++ (b'\r' ∷ b'\n' ∷ chunks_text cs last rest) in
        loop_first_line f h c.size_line behind
        ∙ ap (body_loop ops f)
            (body_turn-first_size h c.size_line behind (length c.others) s.0 (omega arith))
        ∙ ap (λ n. body_loop ops f (in_chunk ops feed law conn dpr h n 0 behind)) (omega arith)
        ∙ loop_chunks f h 0 c cs last rest (omega arith) s.1 l (omega arith)
        ∙ ap (λ n. at_trailer ops feed law conn dpr (feed_all ops feed law h (c ∷ cs)) n rest)
            (omega arith)

  -- As `onFinishedHeader` leaves a connection, with these bytes in the read buffer.
  abbrev pub at_body : ServerConnection H → H → Bytes → ServerConnection H
  at_body conn h text = record conn {
    rrs = read_body;
    chunk_hdr = some (codes "\r\n");
    handler = some h;
    body_len = 0;
    body_read_len = 0;
    unread = text;
  }

  -- A chunked body that has arrived in full is decoded: the handler gets the chunks' bytes, in
  -- order and nothing else, the connection goes on to the trailer, and what stands behind the
  -- last chunk's line stays unread. The handler takes all it is given, the lines with the lengths
  -- may hold extensions, and the length of the body fits in 64 bits.
  pub append_body_data-chunks_text :
      (conn : ServerConnection H) (dpr : DataProcessingResult) (h : H) (cs : List Chunk)
      (last rest : Bytes)
      → AreSized cs
      → IsSized last 0
      → total cs < 2 ^ 64
      → append_body_data ops (at_body conn h (chunks_text cs last rest)) dpr ≡ (
        record conn {
          rrs = read_trailer;
          chunk_hdr = some [];
          handler = some (feed_all ops feed law h cs);
          body_len = total cs;
          body_read_len = total cs;
          unread = rest;
        },
        dpr,
      )
  unfolding append_body_data
  append_body_data-chunks_text conn dpr h cs last rest s l b =
      let text = chunks_text cs last rest in
      ap (λ (t : BodyTurn H). (record t.conn { unread = t.bol }, t.dpr))
        (loop_all (record conn { unread = text }) dpr (length text) h cs last rest
          (length-chunks conn dpr cs last rest) s l b)
