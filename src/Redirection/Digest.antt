-- ===== src/Redirection/Digest.antt =====
-- redirection.py: the messages of the digest exchange and the parsing of the challenge.
use ansible_collection_intel.Prelude.{
  ℕ, suc, ◌+◌, ◌^◌, not, List, [], ◌∷◌, ◌++◌, Bytes, length, drop, take, at, le32, ltb, replicate,
}
use ansible_collection_intel.Errors.{
  Result, ok, ◌>>=◌, ◌>>◌, refuse, protocol, value_error, index_error, struct_error,
}
use ansible_collection_intel.Redirection.Session.{Crypto, Settings}

-- AUTH_URI, "/RedirectionService"
abbrev pub auth_uri : Bytes
auth_uri =
    0x2f ∷ 0x52 ∷ 0x65 ∷ 0x64 ∷ 0x69 ∷ 0x72 ∷ 0x65 ∷ 0x63 ∷ 0x74 ∷ 0x69 ∷ 0x6f ∷ 0x6e ∷ 0x53 ∷ 0x65
    ∷ 0x72 ∷ 0x76 ∷ 0x69 ∷ 0x63 ∷ 0x65 ∷ []

-- START_SESSION_IDER
abbrev pub start_session_ider : Bytes
start_session_ider = 0x10 ∷ 0 ∷ 0 ∷ 0 ∷ 0x49 ∷ 0x44 ∷ 0x45 ∷ 0x52 ∷ []

-- _AUTH_TYPE_QUERY
abbrev pub auth_type_query : Bytes
auth_type_query = 0x13 ∷ replicate 8 0

-- _SNC, "00000002"
abbrev pub snc : Bytes
snc = 0x30 ∷ 0x30 ∷ 0x30 ∷ 0x30 ∷ 0x30 ∷ 0x30 ∷ 0x30 ∷ 0x32 ∷ []

abbrev colon : Bytes
colon = 0x3a ∷ []

-- `_length_prefixed`
unfoldable pub length_prefixed : Bytes → Result Bytes
length_prefixed value = refuse (ltb 255 (length value)) protocol >> ok (length value ∷ value)

-- The header of an AuthenticateSession request of type 4, and the length of its payload.
abbrev pub auth_header : ℕ → Bytes
auth_header total = 0x13 ∷ 0 ∷ 0 ∷ 0 ∷ 4 ∷ le32 total

-- `_digest_type_query`
unfoldable pub digest_type_query : Settings → Result Bytes
unfolding length_prefixed
digest_type_query settings = do
  user ← length_prefixed settings.username
  uri ← length_prefixed auth_uri
  refuse (not (ltb (length settings.username + length auth_uri + 8) (2 ^ 32))) struct_error
  ok (
      auth_header (length settings.username + length auth_uri + 8)
      ++ (user ++ (0 ∷ 0 ∷ (uri ++ (0 ∷ 0 ∷ 0 ∷ 0 ∷ [])))))

-- `read_field` at `pos`: the field and the position behind it. The slice stops at the end of the data.
unfoldable pub read_field : Crypto → Bytes → ℕ → Result (Bytes × ℕ)
read_field crypto data_bytes pos =
    let value = take (at data_bytes pos) (drop (suc pos) data_bytes) in
    refuse (not (ltb pos (length data_bytes))) index_error
    >> (refuse (not (crypto.is_utf8 value)) value_error >> ok (value, suc pos + at data_bytes pos))

pub record Challenge : Type 0 where
  pub realm : Bytes
  pub nonce : Bytes
  pub qop : Bytes

-- `_parse_challenge`
unfoldable pub parse_challenge : Crypto → Bytes → Result Challenge
unfolding read_field
parse_challenge crypto data_bytes = do
  realm ← read_field crypto data_bytes 0
  nonce ← read_field crypto data_bytes realm.1
  qop ← read_field crypto data_bytes nonce.1
  ok (record { realm = realm.0; nonce = nonce.0; qop = qop.0 })

-- The digest of RFC 2617 with cnonce and qop.
abbrev pub digest_of : Crypto → Settings → Challenge → Bytes
digest_of crypto settings c =
    let ha1 =
      crypto.md5_hex (settings.username ++ (colon ++ (c.realm ++ (colon ++ settings.password)))) in
    let ha2 = crypto.md5_hex (0x50 ∷ 0x4f ∷ 0x53 ∷ 0x54 ∷ (colon ++ auth_uri)) in
    crypto.md5_hex (
      ha1
      ++ (colon
          ++ (c.nonce
              ++ (colon
                  ++ (snc ++ (colon ++ (crypto.cnonce ++ (colon ++ (c.qop ++ (colon ++ ha2))))))))))

-- The eight fields of the reply, in their order.
abbrev pub digest_fields : Crypto → Settings → Challenge → List Bytes
digest_fields crypto settings c =
    settings.username
    ∷ c.realm
    ∷ c.nonce
    ∷ auth_uri
    ∷ crypto.cnonce
    ∷ snc
    ∷ digest_of crypto settings c
    ∷ c.qop
    ∷ []

-- `_length_prefixed` of each field, one after the other.
unfoldable pub prefixed_fields : List Bytes → Result Bytes
unfolding length_prefixed
prefixed_fields [] = ok []
prefixed_fields (value ∷ values) = do
  front ← length_prefixed value
  back ← prefixed_fields values
  ok (front ++ back)

-- `total_len`: the lengths of all fields, and one byte for each
abbrev pub total_length : List Bytes → ℕ
total_length [] = 0
total_length (value ∷ values) = length value + 1 + total_length values

-- `_digest_response`. The total fits 32 bits: each length fits a byte.
unfoldable pub digest_response : Crypto → Settings → Challenge → Result Bytes
unfolding prefixed_fields
digest_response crypto settings c = do
  payload ← prefixed_fields (digest_fields crypto settings c)
  ok (auth_header (total_length (digest_fields crypto settings c)) ++ payload)
