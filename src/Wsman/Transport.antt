-- ===== src/Wsman/Transport.antt =====
-- wsman.py: `_execute` and `_handle_response`. The state is what was posted; what a post comes to is
-- a parameter, which may depend on all posts so far.
use ansible_collection_intel.Prelude.{
  ℕ, zero, suc, Bool, true, false, not, ◌&&◌, Option, none, some, String, List, [], ◌∷◌, ◌++◌, leb,
  ltb, ◌==◌, str_eq, Dict, if◌then◌else◌,
}
use ansible_collection_intel.Errors.{
  Error, Result, ok, err, refuse, ◌>>◌, connection, tls_validation, authentication, timeout,
  protocol, os_error,
}
use ansible_collection_intel.Effect.{Effect, lift, ◌>>=◌ as ◌then◌}
use ansible_collection_intel.Wsman.Tree.{
  Element, namespace_of, local_name, children_of, find_child, find_by_local_name,
}
use ansible_collection_intel.Wsman.Request.{ns_soap, build_envelope}

pub record Response : Type 0 where
  pub status_code : ℕ
  -- the root of the parsed content, `none` for content that is no XML
  pub document : Option Element

-- What `session.post` comes to; `request_error` is any other of its exceptions.
pub data Outcome : Type 0 where
  read_timed_out ssl_failed connect_timed_out connection_failed request_error : Outcome
  responded : Response → Outcome

pub record Server : Type 0 where
  -- the outcome of the last of these posts
  pub outcome : List Element → Outcome
  -- the fresh message id behind these posts
  pub fresh_id : List Element → String

pub record Options : Type 0 where
  pub url : String
  pub max_retries : ℕ

abbrev pub Wire {ℓ} : Type ℓ → Type ℓ
Wire A = Effect (List Element) A

-- `response.ok`
unfoldable pub is_ok : ℕ → Bool
is_ok status_code = not (leb 400 status_code && ltb status_code 600)

unfoldable pub is_envelope : Element → Bool
is_envelope root =
    str_eq (local_name root) "Envelope"
    && elim (namespace_of root) [ none ↦ false | some namespace ↦ str_eq namespace ns_soap ]

-- `_raise_for_fault`
unfoldable pub raise_for_fault : Element → Result Element
unfolding find_by_local_name
raise_for_fault body = elim (find_by_local_name "Fault" body) [
  | none ↦ ok body
  | some fault ↦ err protocol
]

unfoldable pub body_of : Element → Result Element
unfolding find_child raise_for_fault
body_of root = elim (find_child ns_soap "Body" (children_of root)) [
  | none ↦ err protocol
  | some body ↦ raise_for_fault body
]

unfoldable pub parsed : Option Element → Result Element
unfolding is_envelope body_of
parsed none = err protocol
parsed (some root) = refuse (not (is_envelope root)) protocol >> body_of root

-- `_handle_response`
unfoldable pub handle_response : Response → Result Element
unfolding is_ok parsed
handle_response response =
    refuse (response.status_code == 401) authentication
    >> (refuse (not (is_ok response.status_code)) protocol >> parsed response.document)

-- `self._max_retries + 1 if retryable else 1`, less one: the attempts behind the first
unfoldable pub retries_allowed : ℕ → Bool → ℕ
retries_allowed max_retries retryable = if retryable then max_retries else 0

-- `raise classified`, or the rest of the loop where another attempt is allowed
abbrev pub retry_or {ℓ} : {A : Type ℓ} → Error → Option (Wire A) → Wire A
retry_or classified none = lift (err classified)
retry_or classified (some again) = again

-- the `try` of one attempt, of its outcome
unfoldable pub settle : Outcome → Option (Wire Element) → Wire Element
unfolding handle_response
settle read_timed_out again = lift (err (timeout true))
settle ssl_failed again = lift (err tls_validation)
settle connect_timed_out again = retry_or (timeout false) again
settle connection_failed again = retry_or connection again
settle request_error again = lift (err os_error)
settle (responded response) again = lift (handle_response response)

module _ (server : Server) where
  -- one attempt
  unfoldable pub attempt_post : Element → Option (Wire Element) → Wire Element
  unfolding settle
  attempt_post envelope again posts =
      settle (server.outcome (posts ++ envelope ∷ [])) again (posts ++ envelope ∷ [])

  -- the loop, with the number of attempts left behind this one
  unfoldable pub attempts : ℕ → Element → Wire Element
  unfolding attempt_post
  attempts zero envelope = attempt_post envelope none
  attempts (suc left) envelope = attempt_post envelope (some (attempts left envelope))

  -- `_execute`
  unfoldable pub execute :
      Options → String → String → Option Element → Dict String → Bool → Wire Element
  unfolding attempts build_envelope retries_allowed
  execute options action resource body selectors retryable posts =
      attempts (retries_allowed options.max_retries retryable)
        (build_envelope record {
          action = action;
          to = options.url;
          resource = resource;
          message_id = server.fresh_id posts;
          body = body;
          selectors = selectors;
        })
        posts
