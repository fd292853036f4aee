-- ===== src/Auth.antt =====
-- src/auth.c, with `config_getDigestAuthCredential` of src/fmconfig.c: whether a request carries valid
-- credentials, by HTTP digest authentication. The MD5 sum, as 32 hexadecimal digits, is a parameter.
pub mod Laws
pub mod Credentials
use filemanager_httpd.Common.{
  ℕ, zero, suc, ◌+◌, ◌-◌, ◌*◌, ◌/◌, ◌%◌, ◌^◌, ◌≤◌, ◌<◌, min, ◌≡◌, refl, sym, ap, ◌∙◌, ◌≢◌, ◌↔◌, ◌⊎◌,
  inl, inr, Bool, true, false, not, ◌&&◌, ◌||◌, Option, none, some, List, [], ◌∷◌, ◌++◌, map,
  append-nil, append_assoc, arith, ltb, leb, ◌==◌, if◌then◌else◌, ltb→lt, lt→ltb, le→ltb, leb→le,
  ==_iff, Bool-cases, Option-cases, length, get_elem?, get_or, take, drop, replicate, is_empty, All,
  length-append, take-append-drop, length-drop, All-append,
}
use filemanager_httpd.Common.Strings.{
  Bytes, codes, take_while, drop_while, trim_end, c_str, split_chr, contains_chr, equal, to_lower,
  equal_ignore_case, starts_with, starts_with_ignore_case,
}
use filemanager_httpd.Common.Strings.Print.{print_hex_64}
use filemanager_httpd.DataChunk.{Extracted, extract_till_ws, equals_str, equals_str_ignore_case}
use filemanager_httpd.DataChunk.Params.{params}

abbrev pub fm_realm : Bytes
fm_realm = codes "File Manager"

-- `auth_getAuthResponseHeader`: the header, and the nonce that is kept for the next one. `now` is
-- the result of `time`.
unfoldable pub get_auth_response_header : ℕ → ℕ → Bytes × ℕ
unfolding print_hex_64
get_auth_response_header now next_nonce =
    let nonce = if next_nonce == 0 then now * 1000 % 2 ^ 64 else (next_nonce + 1) % 2 ^ 64 in
    (
      codes "Digest realm=\""
          ++ (fm_realm
              ++ (codes "\", nonce=\"" ++ (print_hex_64 nonce ++ codes "\", qop=\"auth\""))),
      nonce,
    )

-- What the header of the request tells; empty where it does not.
pub record Digest : Type 0 where
  pub username : Bytes
  pub nonce : Bytes
  pub uri : Bytes
  pub response : Bytes
  pub nc : Bytes
  pub cnonce : Bytes

abbrev pub no_digest : Digest
no_digest = record { username = []; nonce = []; uri = []; response = []; nc = []; cnonce = [] }

-- One round of the loop over the parameters, but for the realm.
unfoldable pub set_param : Bytes → Bytes → Digest → Digest
unfolding equals_str
set_param name value d =
    if equals_str name (codes "username")
    then record d { username = value }
    else if equals_str name (codes "realm")
    then d
    else if equals_str name (codes "nonce")
    then record d { nonce = value }
    else if equals_str name (codes "uri")
    then record d { uri = value }
    else if equals_str name (codes "response")
    then record d { response = value }
    else if equals_str name (codes "nc")
    then record d { nc = value }
    else if equals_str name (codes "cnonce")
    then record d { cnonce = value }
    else d

-- The loop; a realm that is not the server's ends it with `none`.
unfoldable pub read_digest : List (Bytes × Bytes) → Digest → Option Digest
unfolding set_param
read_digest [] d = some d
read_digest ((name, value) ∷ ps) d =
    let rest = read_digest ps (set_param name value d) in
    if equals_str name (codes "realm") && not (equals_str value fm_realm) then none else rest

-- The entry's text behind the user's name, in the first entry of the user: a colon and a password, or
-- 32 digits.
unfoldable pub find_credential : List Bytes → Bytes → Option (Bytes × Bytes)
find_credential [] user = none
find_credential (cred ∷ creds) user =
    let rest = find_credential creds user in
    let passwd = drop (length user) cred in
    if starts_with cred user
      && (starts_with passwd (codes ":") || (length passwd == 32 && not (contains_chr b':' passwd)))
    then some (cred, passwd)
    else rest

module _ (md5 : Bytes → Bytes) where
  -- Behind the search: the sum for a plain password.
  unfoldable pub encode_found : Bytes → Option (Bytes × Bytes) → Option Bytes
  unfolding starts_with
  encode_found user none = none
  encode_found user (some (cred, found)) = some (
      if starts_with found (codes ":")
      then md5 (take (length user + 1) cred ++ (fm_realm ++ found))
      else found)

  -- `config_getDigestAuthCredential`; without credentials in the configuration the list is empty.
  unfoldable pub get_digest_auth_credential : List Bytes → Bytes → Option Bytes
  unfolding encode_found
  get_digest_auth_credential creds user = encode_found user (find_credential creds user)

  -- The text whose sum is to be the response: its first 32 bytes are set to the credential.
  unfoldable pub response_text : Bytes → Bytes → Digest → Bytes
  response_text credential method d =
      take 32 credential
      ++ (codes ":"
          ++ (d.nonce
              ++ (codes ":"
                  ++ (d.nc
                      ++ (codes ":"
                          ++ (d.cnonce
                              ++ (codes ":auth:" ++ md5 (method ++ (codes ":" ++ d.uri)))))))))

  unfoldable pub check_credential : Bytes → Digest → Option Bytes → Bool
  unfolding response_text equals_str
  check_credential method d none = false
  check_credential method d (some credential) =
      equals_str d.response (md5 (response_text credential method d))

  unfoldable pub check_response : List Bytes → Bytes → Digest → Bool
  unfolding check_credential
  check_response creds method d =
      check_credential method d (get_digest_auth_credential creds d.username)

  -- Behind the loop over the parameters.
  abbrev pub authorize_digest : List Bytes → Bytes → Option Digest → Bool
  authorize_digest creds method none = false
  authorize_digest creds method (some d) = check_response creds method d

  -- Behind the first word of the header.
  unfoldable pub authorize_scheme : List Bytes → Bytes → Extracted → Bool
  unfolding equals_str_ignore_case
  authorize_scheme creds method e =
      if e.found && equals_str_ignore_case e.sub_chunk (codes "Digest")
      then authorize_digest creds method (read_digest (params e.dch b',') no_digest)
      else false

  -- `auth_isClientAuthorized`
  unfoldable pub is_client_authorized : List Bytes → Bytes → Bytes → Bool
  unfolding authorize_scheme
  is_client_authorized creds authorization method =
      authorize_scheme creds method (extract_till_ws authorization)
