-- ===== src/ServerConnection/ChunkSteps.antt =====
-- The rounds of `appendBodyData` of src/serverconnection.c over a chunked body, one by one.
use filemanager_httpd.Common.{
  ℕ, suc, ◌+◌, ◌%◌, ◌^◌, ◌<◌, min, ◌≡◌, refl, ap, false, some, List, [], ◌∷◌, ◌++◌, arith, length,
  take, drop, All, length-append,
}
use filemanager_httpd.Common.Strings.{Bytes, c_str}
use filemanager_httpd.Common.Strings.Laws.{is_not, split_chr-append}
use filemanager_httpd.Common.Strings.Number.{strtoul}
use filemanager_httpd.DataProcessingResult.{DataProcessingResult}
use filemanager_httpd.ServerConnection.Handler.{HandlerOps, TakesAll}
use filemanager_httpd.ServerConnection.{
  read_body, read_trailer, ServerConnection, chunk_size_line, read_chunk_line, BodyTurn, process,
  end_of_length, body_turn,
}

-- A chunk as a client sends it: the line with its length, which may hold an extension, and its
-- bytes, at least one.
pub record Chunk : Type 0 where
  pub size_line : Bytes
  pub first : ℕ
  pub others : Bytes

abbrev pub content : Chunk → Bytes
content c = c.first ∷ c.others

-- The line has no newline, and stands for the chunk's length.
pub record IsSized (line : Bytes) (n : ℕ) : Type 0 where
  pub no_newline : All (is_not b'\n') line
  pub reads : strtoul 16 (c_str line) % 2 ^ 32 ≡ n

abbrev pub AreSized : List Chunk → Type 0
AreSized [] = Unit
AreSized (c ∷ cs) = IsSized c.size_line (length (content c)) × AreSized cs

-- From a chunk's length on: the chunks, and a last line that stands for 0.
abbrev pub chunks_text : List Chunk → Bytes → Bytes → Bytes
chunks_text [] last rest = last ++ (b'\n' ∷ rest)
chunks_text (c ∷ cs) last rest =
    c.size_line ++ (b'\n' ∷ (content c ++ (b'\r' ∷ b'\n' ∷ chunks_text cs last rest)))

abbrev pub total : List Chunk → ℕ
total [] = 0
total (c ∷ cs) = length (content c) + total cs

pub take-length : (a b : Bytes) → take (length a) (a ++ b) ≡ a
take-length [] b = refl
take-length (x ∷ a) b = ap (λ r. x ∷ r) (take-length a b)

pub drop-length : (a b : Bytes) → drop (length a) (a ++ b) ≡ b
drop-length [] b = refl
drop-length (x ∷ a) b = drop-length a b

pub read_chunk_line-crlf :
    (line rest : Bytes)
    → All (is_not b'\n') line
    → read_chunk_line (b'\r' ∷ b'\n' ∷ []) (line ++ (b'\n' ∷ rest))
      ≡ record { chunk_hdr = []; rest = rest; add_len = some (strtoul 16 (c_str line) % 2 ^ 32) }
unfolding read_chunk_line
read_chunk_line-crlf line rest h = rw (split_chr-append b'\n' line rest h, chunk_size_line)

read_chunk_line-nil :
    (line rest : Bytes)
    → All (is_not b'\n') line
    → read_chunk_line [] (b'\r' ∷ b'\n' ∷ (line ++ (b'\n' ∷ rest)))
      ≡ record { chunk_hdr = []; rest = rest; add_len = some (strtoul 16 (c_str line) % 2 ^ 32) }
unfolding read_chunk_line
read_chunk_line-nil line rest h =
    let two : min (suc (suc (length (line ++ (b'\n' ∷ rest))))) 2 ≡ 2 = omega arith in
    rw two (rw (split_chr-append b'\n' line rest h, chunk_size_line))

module _ {H : Type 0} (ops : HandlerOps H) (feed : H → Bytes → H) (law : TakesAll ops feed) where
  abbrev pub feed_all : H → List Chunk → H
  feed_all h [] = h
  feed_all h (c ∷ cs) = feed_all (feed h (content c)) cs

  module _ (conn : ServerConnection H) (dpr : DataProcessingResult) where
    -- In a chunk: `m` bytes of the body were read, `n` belong to the chunks that were begun.
    abbrev pub in_chunk : H → ℕ → ℕ → Bytes → BodyTurn H
    in_chunk h n m bol = record {
      conn = record conn {
        rrs = read_body;
        chunk_hdr = some [];
        handler = some h;
        body_len = n;
        body_read_len = m;
      };
      dpr = dpr;
      bol = bol;
      is_broken = false;
    }

    -- Behind the last chunk's line.
    abbrev pub at_trailer : H → ℕ → Bytes → BodyTurn H
    at_trailer h n bol = record {
      conn = record conn {
        rrs = read_trailer;
        chunk_hdr = some [];
        handler = some h;
        body_len = n;
        body_read_len = n;
      };
      dpr = dpr;
      bol = bol;
      is_broken = false;
    }

    abbrev pub behind_chunk : H → ℕ → Bytes → BodyTurn H
    behind_chunk h n bol = record {
      conn = record conn {
        rrs = read_body;
        chunk_hdr = some [];
        handler = some h;
        body_len = n;
        body_read_len = n;
      };
      dpr = dpr;
      bol = bol;
      is_broken = false;
    }

    process_chunk :
        (h : H) (m : ℕ) (d rest : Bytes)
        → process ops (length d) (in_chunk h (m + length d) m (d ++ rest))
          ≡ behind_chunk (feed h d) (m + length d) rest
    unfolding process
    process_chunk h m d rest =
        ground (arith, law.process_data-feed h d dpr, take-length d rest, drop-length d rest)

    pub body_turn-chunk :
        (h : H) (m : ℕ) (d rest : Bytes)
        → 0 < length d
        → body_turn ops (in_chunk h (m + length d) m (d ++ rest))
          ≡ end_of_length ops (behind_chunk (feed h d) (m + length d) rest)
    unfolding body_turn
    body_turn-chunk h m d rest p = ground (arith, process_chunk h m d rest, length-append d rest)

    pub end_of_length-next :
        (h : H) (n : ℕ) (line rest : Bytes) (k : ℕ)
        → IsSized line (suc k)
        → n + suc k < 2 ^ 64
        → end_of_length ops (behind_chunk h n (b'\r' ∷ b'\n' ∷ (line ++ (b'\n' ∷ rest))))
          ≡ in_chunk h (n + suc k) n rest
    unfolding end_of_length
    end_of_length-next h n line rest k s p =
        ground (arith, read_chunk_line-nil line rest s.no_newline, s.reads)

    pub end_of_length-last :
        (h : H) (n : ℕ) (line rest : Bytes)
        → IsSized line 0
        → end_of_length ops (behind_chunk h n (b'\r' ∷ b'\n' ∷ (line ++ (b'\n' ∷ rest))))
          ≡ at_trailer h n rest
    unfolding end_of_length
    end_of_length-last h n line rest s =
        ground (arith, read_chunk_line-nil line rest s.no_newline, s.reads)
