-- ===== src/Auth/Laws.antt =====
-- src/auth.c: which requests are let in.
use filemanager_httpd.Common.{
  ℕ, ◌≡◌, refl, ap, ◌∙◌, ◌⊎◌, inl, inr, Bool, true, false, not, ◌&&◌, ◌||◌, Option, none, some,
  List, [], ◌∷◌, ◌++◌, map, append_assoc, sym, arith, if◌then◌else◌, Bool-cases, take,
}
use filemanager_httpd.Common.Strings.{
  Bytes, codes, take_while, drop_while, equal, to_lower, equal_ignore_case,
}
use filemanager_httpd.Common.Strings.Laws.{drop_while-append, drop_while_keep, equal_iff, first_is}
use mathlib.Core.Path.{subst}
use filemanager_httpd.DataChunk.{
  is_ws, extract_till_ws, skip_leading_ws, equals_str, equals_str_ignore_case,
}
use filemanager_httpd.DataChunk.Params.{params}
use filemanager_httpd.DataChunk.Params.Writing.{
  Written, written, param_text, value_text, starts-text, pair, IsWritten, AreWritten,
}
use filemanager_httpd.DataChunk.Params.RoundTrip.{params-written}
use filemanager_httpd.Auth.{
  Digest, no_digest, set_param, read_digest, get_digest_auth_credential, response_text,
  check_response, check_credential, authorize_digest, authorize_scheme, is_client_authorized,
}

-- The value of the last parameter with this name, or `value` where there is none.
unfoldable pub last_of : Bytes → Bytes → List (Bytes × Bytes) → Bytes
last_of name value [] = value
last_of name value ((n, v) ∷ ps) = last_of name (if equal n name then v else value) ps

abbrev pub last_param : Bytes → List (Bytes × Bytes) → Bytes
last_param name ps = last_of name [] ps

-- No parameter names another realm than the server's.
unfoldable pub are_realms_right : List (Bytes × Bytes) → Bool
are_realms_right [] = true
are_realms_right ((n, v) ∷ ps) =
    (not (equal n (codes "realm")) || equal v (codes "File Manager")) && are_realms_right ps

abbrev pub last_digest : Digest → List (Bytes × Bytes) → Digest
last_digest d ps = record {
  username = last_of (codes "username") d.username ps;
  nonce = last_of (codes "nonce") d.nonce ps;
  uri = last_of (codes "uri") d.uri ps;
  response = last_of (codes "response") d.response ps;
  nc = last_of (codes "nc") d.nc ps;
  cnonce = last_of (codes "cnonce") d.cnonce ps;
}

equal-cases : (a b : Bytes) → (a ≡ b) ⊎ (equal a b ≡ false)
equal-cases a b = elim (Bool-cases (equal a b)) [
  | inl e ↦ inl ((equal_iff a b).0 e)
  | inr e ↦ inr e
]

set_param-last :
    (name value : Bytes) (d : Digest) (ps : List (Bytes × Bytes))
    → last_digest (set_param name value d) ps ≡ last_digest d ((name, value) ∷ ps)
unfolding set_param equals_str last_of equal
set_param-last name value d ps = elim (equal-cases name (codes "username")) [
  | inl e ↦ rw e refl
  | inr h0 ↦ elim (equal-cases name (codes "realm")) [
    | inl e ↦ rw e refl
    | inr h1 ↦ elim (equal-cases name (codes "nonce")) [
      | inl e ↦ rw e refl
      | inr h2 ↦ elim (equal-cases name (codes "uri")) [
        | inl e ↦ rw e refl
        | inr h3 ↦ elim (equal-cases name (codes "response")) [
          | inl e ↦ rw e refl
          | inr h4 ↦ elim (equal-cases name (codes "nc")) [
            | inl e ↦ rw e refl
            | inr h5 ↦ elim (equal-cases name (codes "cnonce")) [
              | inl e ↦ rw e refl
              | inr h6 ↦ rw (h0, h1, h2, h3, h4, h5, h6) refl
            ]
          ]
        ]
      ]
    ]
  ]
]

read_digest-last :
    (ps : List (Bytes × Bytes)) (d : Digest)
    → read_digest ps d ≡ (if are_realms_right ps then some (last_digest d ps) else none)
unfolding read_digest are_realms_right equals_str last_of
read_digest-last [] d = refl
read_digest-last ((name, value) ∷ ps) d =
    rw (read_digest-last ps (set_param name value d), set_param-last name value d ps) (ground arith)

extract_scheme :
    (text : Bytes)
    → extract_till_ws (codes "Digest " ++ text)
      ≡ record { found = true; dch = drop_while is_ws text; sub_chunk = codes "Digest" }
unfolding extract_till_ws skip_leading_ws drop_while take_while
extract_scheme text = refl

-- White space in front of the first parameter is no more there behind the scheme.
without_blanks : List Written → List Written
without_blanks [] = []
without_blanks (w ∷ ws) = record w { before = [] } ∷ ws

drop_while-param_text :
    (d : ℕ) (w : Written) (rest : Bytes)
    → IsWritten d w
    → drop_while is_ws (param_text w rest) ≡ param_text (record w { before = [] }) rest
drop_while-param_text d w rest h =
    let t = b'=' ∷ (w.behind_equals ++ value_text w rest) in
    let starts =
      subst (λ r. first_is is_ws r ≡ false) (sym (append_assoc w.name w.behind_name t))
        (starts-text w.name (w.behind_name ++ t) h.starts) in
    ap (drop_while is_ws) (append_assoc w.before (w.name ++ w.behind_name) t)
    ∙ drop_while-append is_ws w.before ((w.name ++ w.behind_name) ++ t) h.blanks.0
    ∙ drop_while_keep is_ws ((w.name ++ w.behind_name) ++ t) starts

drop_while-written :
    (ws : List Written)
    → AreWritten b',' ws
    → drop_while is_ws (written b',' ws) ≡ written b',' (without_blanks ws)
unfolding drop_while without_blanks
drop_while-written [] q = refl
drop_while-written (w ∷ []) q = drop_while-param_text b',' w [] q.0
drop_while-written (w ∷ v ∷ ws) q = drop_while-param_text b',' w (b',' ∷ written b',' (v ∷ ws)) q.0

without_blanks-AreWritten :
    (ws : List Written) → AreWritten b',' ws → AreWritten b',' (without_blanks ws)
unfolding without_blanks
without_blanks-AreWritten [] q = tt
without_blanks-AreWritten (w ∷ ws) q = (
  record {
    no_equals = q.0.no_equals;
    starts = q.0.starts;
    ends = q.0.ends;
    is_value = q.0.is_value;
    blanks = (tt, q.0.blanks.1, q.0.blanks.2, q.0.blanks.3);
  },
  q.1,
)

pairs-without_blanks : (ws : List Written) → map pair (without_blanks ws) ≡ map pair ws
unfolding without_blanks
pairs-without_blanks [] = refl
pairs-without_blanks (w ∷ ws) = refl

-- The parameters behind the scheme.
params-behind :
    (ws : List Written)
    → AreWritten b',' ws
    → params (drop_while is_ws (written b',' ws)) b',' ≡ map pair ws
unfolding is_ws
params-behind ws q =
    ap (λ t. params t b',') (drop_while-written ws q)
    ∙ params-written b',' refl (without_blanks ws) (without_blanks-AreWritten ws q)
    ∙ pairs-without_blanks ws

module _ (md5 : Bytes → Bytes) where
  -- The response of RFC 2617 for the credential (the sum of user, realm and password), a request and
  -- the parameters of its header.
  abbrev pub right_response : Bytes → Bytes → List (Bytes × Bytes) → Bytes
  right_response credential method ps = md5 (
      credential
      ++ (codes ":"
          ++ (last_param (codes "nonce") ps
              ++ (codes ":"
                  ++ (last_param (codes "nc") ps
                      ++ (codes ":"
                          ++ (last_param (codes "cnonce") ps
                              ++ (codes ":auth:"
                                  ++ md5
                                      (method ++ (codes ":" ++ last_param (codes "uri") ps))))))))))

  -- The header's response is the right one for the user's credential, of which 32 bytes are taken.
  abbrev pub is_right : Bytes → List (Bytes × Bytes) → Option Bytes → Bool
  is_right method ps none = false
  is_right method ps (some credential) =
      equal (last_param (codes "response") ps) (right_response (take 32 credential) method ps)

  -- A digest header with its parameters in any order and with any others among them, each with or
  -- without quotes, with commas between them and white space around the commas and the equals signs, is
  -- accepted exactly if no parameter names another realm and the response is the right one for the
  -- credential of the user that it names (the first 32 bytes of what the lookup in the configuration
  -- gives); a user whom the lookup does not find is not let in. Of a parameter that is written twice the
  -- last one counts. A value with quotes holds none, and one without is not empty, holds no comma, and
  -- neither starts with a quote nor has white space at its ends; a name is not empty and holds no equals
  -- sign and no white space at its ends.
  pub is_client_authorized-written :
      (creds : List Bytes) (method : Bytes) (ws : List Written)
      → AreWritten b',' ws
      → is_client_authorized md5 creds (codes "Digest " ++ written b',' ws) method ≡ (
          are_realms_right (map pair ws)
          && is_right method
              (map pair ws)
              (get_digest_auth_credential md5 creds (last_param (codes "username") (map pair ws))))
  unfolding is_client_authorized authorize_scheme equals_str_ignore_case equal_ignore_case to_lower
      check_response check_credential response_text equals_str
  is_client_authorized-written creds method ws q =
      ap (authorize_scheme md5 creds method) (extract_scheme (written b',' ws))
      ∙ ap (λ qs. authorize_digest md5 creds method (read_digest qs no_digest)) (params-behind ws q)
      ∙ accepted (map pair ws)
    where
      at_user :
          (ps : List (Bytes × Bytes)) (b : Bool)
          → authorize_digest md5 creds method (if b then some (last_digest no_digest ps) else none)
            ≡ (elim (if b then some (last_digest no_digest ps) else none) as (λ _. Bool) [
              | none ↦ false
              | some d ↦
                  check_credential md5 method d
                    (get_digest_auth_credential md5 creds (last_param (codes "username") ps))
            ])
      at_user ps false = refl
      at_user ps true = refl

      by_realms :
          (ps : List (Bytes × Bytes)) (b : Bool) (c : Option Bytes)
          → (elim (if b then some (last_digest no_digest ps) else none) as (λ _. Bool) [
            | none ↦ false
            | some d ↦ check_credential md5 method d c
          ])
            ≡ (b && is_right method ps c)
      by_realms ps false c = refl
      by_realms ps true none = refl
      by_realms ps true (some c) = refl

      accepted :
          (ps : List (Bytes × Bytes))
          → authorize_digest md5 creds method (read_digest ps no_digest) ≡ (
              are_realms_right ps
              && is_right method ps
                  (get_digest_auth_credential md5 creds (last_param (codes "username") ps)))
      accepted ps =
          ap (authorize_digest md5 creds method) (read_digest-last ps no_digest)
          ∙ at_user ps (are_realms_right ps)
          ∙ by_realms ps (are_realms_right ps)
              (get_digest_auth_credential md5 creds (last_param (codes "username") ps))
