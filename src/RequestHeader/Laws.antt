-- ===== src/RequestHeader/Laws.antt =====
-- What src/requestheader.c reads: independent of how the text is cut.
use filemanager_httpd.Common.{
  ◌≡◌, refl, ◌⊎◌, inl, inr, Bool, none, some, List, [], ◌++◌, arith, Bool-cases, Option-cases,
  length, is_empty, All,
}
use filemanager_httpd.Common.Strings.{Bytes, c_str}
use filemanager_httpd.Common.Strings.Laws.{is_not}
use filemanager_httpd.HeaderLines.{HeaderLine}
use filemanager_httpd.HeaderLines.Steps.{IsLawful}
use filemanager_httpd.HeaderLines.Streaming.{then_append, append_data_split}
use filemanager_httpd.RequestHeader.{
  RequestHeader, end_header, end_request, line_store, append_data,
}

-- The bytes of the line that is incomplete: the request line, or a header line.
abbrev pub incomplete : RequestHeader → Bytes
incomplete req = elim req.headers [ none ↦ req.request | some hs ↦ req.current ]

module _ (authorized : Bytes → Bytes → Bool) where
  end_header-cases :
      (b : Bytes) (hs : List HeaderLine) (s : RequestHeader) (ls : List HeaderLine)
      → s.headers ≡ some ls
      → (incomplete (end_header authorized b hs s).0 ≡ b)
        ⊎ (incomplete (end_header authorized b hs s).0 ≡ [])
  unfolding end_header
  end_header-cases b hs s ls e = ground arith

  end_request-cases :
      (b : Bytes) (s : RequestHeader)
      → s.headers ≡ none
      → (incomplete (end_request b s).0 ≡ b) ⊎ (incomplete (end_request b s).0 ≡ [])
  unfolding end_request
  end_request-cases b s e = elim (Bool-cases (is_empty (c_str b))) [
    | inl x ↦ inl (ground arith)
    | inr x ↦ inr (ground arith)
  ]

  end_header-set :
      (b c : Bytes) (hs : List HeaderLine) (s : RequestHeader)
      → end_header authorized b hs (record s { current = c }) ≡ end_header authorized b hs s
  unfolding end_header
  end_header-set b c hs s = ground arith

  end_request-set :
      (b c : Bytes) (s : RequestHeader) → end_request b (record s { request = c }) ≡ end_request b s
  unfolding end_request
  end_request-set b c s = refl

  end_line-cases :
      (b : Bytes) (s : RequestHeader)
      → (incomplete ((line_store authorized).end_line b s).0 ≡ b)
        ⊎ (incomplete ((line_store authorized).end_line b s).0 ≡ [])
  unfolding line_store
  end_line-cases b s = elim (Option-cases s.headers) [
    | inl e ↦ ground (arith, end_request-cases b s e)
    | inr (hs, e) ↦ ground (arith, end_header-cases b hs s hs e)
  ]

  line_store-IsLawful : IsLawful (line_store authorized)
  unfolding line_store
  line_store-IsLawful = record {
    current-set = λ b s. ground arith;
    set-set = λ b c s. ground arith;
    end_line-set = λ b c s. elim (Option-cases s.headers) [
      | inl e ↦ ground (arith, end_request-set b c s)
      | inr (hs, e) ↦ ground (arith, end_header-set b c hs s)
    ];
    end_line-current = λ b s h. elim (end_line-cases b s) [ inl e ↦ rw e h | inr e ↦ rw e tt ];
  }

  -- The text of a request header may be cut at any place: to append `a`, and then `b` unless the
  -- header was complete in `a`, leaves the same request and counts the same bytes as to append both
  -- at once. The text `a`, and the line that was begun before, hold no zero byte.
  pub append_data-append_request :
      (req : RequestHeader) (a b : Bytes)
      → All (is_not 0) (incomplete req)
      → All (is_not 0) a
      → append_data authorized req (a ++ b)
        ≡ then_append (length a) (append_data authorized) (append_data authorized req a) b
  unfolding append_data
  append_data-append_request req a b clean n =
      append_data_split (line_store authorized) line_store-IsLawful req a b clean n
