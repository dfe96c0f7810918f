-- ===== src/Redirection/Fields.antt =====
-- redirection.py: the length-prefixed fields of the digest exchange can be read back, and the
-- length that the message declares is the length of its payload.
use ansible_collection_intel.Prelude.{
  ℕ, suc, ◌+◌, ◌≤◌, ◌≡◌, refl, sym, ap, ap₂, ◌∙◌, subst, Bool, true, false, List, [], ◌∷◌, ◌++◌,
  append_assoc, Bytes, length, length-append, drop, take-append_self, at, ltb, lt→ltb, arith,
}
use ansible_collection_intel.Errors.{Result, ok, err, ◌>>=◌, ◌>>◌, refuse, protocol}
use ansible_collection_intel.Redirection.Session.{Crypto, Settings}
use ansible_collection_intel.Redirection.Digest.{
  length_prefixed, prefixed_fields, total_length, Challenge, parse_challenge, read_field,
  digest_fields, digest_response, auth_header,
}

Fits : List Bytes → Type 0
Fits [] = Unit
Fits (v ∷ vs) = (length v ≤ 255) × Fits vs

-- The layout of the fields: a length byte and the bytes, each.
abbrev pub packed : List Bytes → Bytes
packed [] = []
packed (v ∷ vs) = (length v ∷ v) ++ packed vs

length-packed : (vs : List Bytes) → length (packed vs) ≡ total_length vs
length-packed [] = refl
length-packed (v ∷ vs) = omega (arith, length-append v (packed vs), length-packed vs)

-- What `_length_prefixed` of all the fields comes to: their layout, or the ProtocolError.
abbrev pub IsPacked : List Bytes → Result Bytes → Type 0
IsPacked vs (ok payload) = (payload ≡ packed vs) × (length payload ≡ total_length vs)
IsPacked vs (err e) = e ≡ protocol

prefixed_fields-IsPacked : (vs : List Bytes) → IsPacked vs (prefixed_fields vs)
unfolding prefixed_fields length_prefixed
prefixed_fields-IsPacked [] = (refl, refl)
prefixed_fields-IsPacked (v ∷ vs) =
    by_length (ltb 255 (length v)) (prefixed_fields vs) (prefixed_fields-IsPacked vs)
  where
    by_rest :
        (r : Result Bytes)
        → IsPacked vs r
        → IsPacked (v ∷ vs) (r >>= λ back. ok ((length v ∷ v) ++ back))
    by_rest (ok payload) h =
        (ap (λ x. length v ∷ v ++ x) h.0, omega (arith, length-append v payload, h.1))
    by_rest (err e) h = h

    by_length :
        (b : Bool) (r : Result Bytes)
        → IsPacked vs r
        → IsPacked
            (v ∷ vs)
            ((refuse b protocol >> ok (length v ∷ v)) >>= λ front. r >>= λ back. ok (front ++ back))
    by_length true r h = refl
    by_length false r h = by_rest r h

-- What `_digest_response` comes to: a message whose header declares the length of the payload
-- behind it, the eight fields in order; or the ProtocolError.
abbrev pub IsFramed : List Bytes → Result Bytes → Type 0
IsFramed fields (ok message) = message ≡ auth_header (length (packed fields)) ++ packed fields
IsFramed fields (err e) = e ≡ protocol

-- For any library, settings and challenge, the reply to a challenge is the eight fields, each with
-- its length byte, behind a header that declares their total length; the only error is the
-- ProtocolError.
pub digest_response-IsFramed :
    (crypto : Crypto) (settings : Settings) (c : Challenge)
    → IsFramed (digest_fields crypto settings c) (digest_response crypto settings c)
unfolding digest_response
digest_response-IsFramed crypto settings c =
    by_payload (digest_fields crypto settings c) (prefixed_fields (digest_fields crypto settings c))
      (prefixed_fields-IsPacked (digest_fields crypto settings c))
  where
    by_payload :
        (fields : List Bytes) (r : Result Bytes)
        → IsPacked fields r
        → IsFramed fields (r >>= λ payload. ok (auth_header (total_length fields) ++ payload))
    by_payload fields (ok payload) h =
        ap₂ (λ n x. auth_header n ++ x) (sym (length-packed fields)) h.0
    by_payload fields (err e) h = h

at-append : (front back : Bytes) (b : ℕ) → at (front ++ b ∷ back) (length front) ≡ b
at-append [] back b = refl
at-append (x ∷ front) back b = at-append front back b

drop-suc-append :
    (front back : Bytes) (b : ℕ) → drop (suc (length front)) (front ++ b ∷ back) ≡ back
drop-suc-append [] back b = refl
drop-suc-append (x ∷ front) back b = drop-suc-append front back b

-- A field is read back where it stands.
read_field-packed :
    (crypto : Crypto) (front value back : Bytes) (pos : ℕ)
    → pos ≡ length front
    → crypto.is_utf8 value ≡ true
    → read_field crypto (front ++ (length value ∷ value ++ back)) pos
      ≡ ok (value, suc pos + length value)
unfolding read_field
read_field-packed crypto front value back pos e u =
    rw
      (
        e,
        at-append front (value ++ back) (length value),
        drop-suc-append front (value ++ back) (length value),
        take-append_self value back,
        u,
        lt→ltb (length front) (length (front ++ (length value ∷ value ++ back)))
            (omega (arith, length-append front (length value ∷ value ++ back))),
      )
      refl

parse_challenge-fields :
    (crypto : Crypto) (bytes realm nonce qop : Bytes) (p q r : ℕ)
    → read_field crypto bytes 0 ≡ ok (realm, p)
    → read_field crypto bytes p ≡ ok (nonce, q)
    → read_field crypto bytes q ≡ ok (qop, r)
    → parse_challenge crypto bytes ≡ ok (record { realm = realm; nonce = nonce; qop = qop })
unfolding parse_challenge
parse_challenge-fields crypto bytes realm nonce qop p q r a b c = rw (a, b, c) refl

-- For any library and any three texts that it takes as UTF-8, whatever follows them: the challenge
-- with these fields is parsed into them.
pub parse_challenge-packed :
    (crypto : Crypto) (realm nonce qop rest : Bytes)
    → crypto.is_utf8 realm ≡ true
    → crypto.is_utf8 nonce ≡ true
    → crypto.is_utf8 qop ≡ true
    → parse_challenge crypto (packed (realm ∷ nonce ∷ qop ∷ []) ++ rest)
      ≡ ok (record { realm = realm; nonce = nonce; qop = qop })
parse_challenge-packed crypto realm nonce qop rest a b c =
    let third : Bytes = (length qop ∷ qop) ++ rest in
    let second : Bytes = (length nonce ∷ nonce) ++ third in
    let bytes : Bytes = packed (realm ∷ nonce ∷ qop ∷ []) ++ rest in
    let first : Bytes = (length realm ∷ realm) ++ second in
    let shape : bytes ≡ first =
      append_assoc (length realm ∷ realm) (packed (nonce ∷ qop ∷ [])) rest
      ∙ ap (λ x. (length realm ∷ realm) ++ x)
          (append_assoc (length nonce ∷ nonce) (packed (qop ∷ [])) rest
            ∙ ap (λ x. (length nonce ∷ nonce) ++ x) (append_assoc (length qop ∷ qop) [] rest)) in
    let shape₃ : ((length realm ∷ realm) ++ (length nonce ∷ nonce)) ++ (length qop ∷ qop ++ rest)
        ≡ first =
      append_assoc (length realm ∷ realm) (length nonce ∷ nonce) third in
    let q : ℕ = suc (suc 0 + length realm) + length nonce in
    subst (λ x. parse_challenge crypto x ≡ ok (record { realm = realm; nonce = nonce; qop = qop }))
      (sym shape)
      (parse_challenge-fields crypto first realm nonce qop _ _ _
        (read_field-packed crypto [] realm second 0 refl a)
        (read_field-packed crypto (length realm ∷ realm) nonce third (suc 0 + length realm)
          (omega arith) b)
        (subst (λ x. read_field crypto x q ≡ ok (qop, suc q + length qop)) shape₃
          (read_field-packed crypto ((length realm ∷ realm) ++ (length nonce ∷ nonce)) qop rest q
            (omega (arith, length-append realm (length nonce ∷ nonce))) c)))
