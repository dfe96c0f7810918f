-- ===== src/Wsman/Outcomes.antt =====
-- wsman.py, `_execute` and `_handle_response`: which errors are raised, and which of them leaves open
-- whether the request took effect.
use ansible_collection_intel.Prelude.{
  ◌≡◌, ◌↔◌, ◌⊎◌, inl, inr, refl, sym, ap, ◌∙◌, subst, Bool, true, false, not, Option, none, some,
  String, List, Dict, ◌==◌, Option-cases,
}
use ansible_collection_intel.Errors.{
  ok_not_raised, Error, Result, err, refuse, ◌>>◌, err_injective, connection, tls_validation,
  authentication, timeout, protocol, os_error,
}
use ansible_collection_intel.Wsman.Tree.{Element, find_child, find_by_local_name, children_of}
use ansible_collection_intel.Wsman.Request.{ns_soap}
use ansible_collection_intel.Wsman.Transport.{
  Response, Outcome, read_timed_out, ssl_failed, connect_timed_out, connection_failed,
  request_error, responded, Server, Options, is_ok, is_envelope, raise_for_fault, body_of, parsed,
  handle_response, retries_allowed, execute,
}
use ansible_collection_intel.Wsman.Retries.{reported, IsExchange, envelope_of, execute-exchange}

-- The errors that an answer of the server can be.
abbrev pub IsHttpError : Error → Type 0
IsHttpError authentication = Unit
IsHttpError protocol = Unit
IsHttpError _ = ⊥

-- No other error is raised.
abbrev Only : Result Element → Type 0
Only r = (e : Error) → r ≡ err e → IsHttpError e

Only-raised : (raised : Error) → IsHttpError raised → Only (err raised)
Only-raised raised h e eq = subst IsHttpError (err_injective eq) h

Only-refuse :
    (b : Bool) (raised : Error) (r : Result Element)
    → IsHttpError raised
    → Only r
    → Only (refuse b raised >> r)
Only-refuse true raised r h k = Only-raised raised h
Only-refuse false raised r h k = k

Only-raise_for_fault : (body : Element) → Only (raise_for_fault body)
unfolding raise_for_fault
Only-raise_for_fault body = elim (Option-cases (find_by_local_name "Fault" body)) [
  | inl n ↦ rw (raise_for_fault, n) (λ e h. absurd (ok_not_raised h))
  | inr found ↦ rw (raise_for_fault, found.1) (Only-raised protocol tt)
]

Only-body_of : (root : Element) → Only (body_of root)
unfolding body_of
Only-body_of root = elim (Option-cases (find_child ns_soap "Body" (children_of root))) [
  | inl n ↦ rw (body_of, n) (Only-raised protocol tt)
  | inr found ↦ rw (body_of, found.1) (Only-raise_for_fault found.0)
]

Only-parsed : (document : Option Element) → Only (parsed document)
unfolding parsed
Only-parsed none = Only-raised protocol tt
Only-parsed (some root) =
    Only-refuse (not (is_envelope root)) protocol (body_of root) tt (Only-body_of root)

Only-handle_response : (response : Response) → Only (handle_response response)
unfolding handle_response
Only-handle_response response =
    Only-refuse (response.status_code == 401) authentication _ tt
      (Only-refuse (not (is_ok response.status_code)) protocol _ tt (Only-parsed response.document))

determinate : timeout false ≡ timeout true → ⊥
determinate e = cc

reported-indeterminate : (o : Outcome) → reported o ≡ err (timeout true) → o ≡ read_timed_out
reported-indeterminate read_timed_out h = refl
reported-indeterminate ssl_failed h = cc
reported-indeterminate connect_timed_out h = absurd (determinate (err_injective h))
reported-indeterminate connection_failed h = cc
reported-indeterminate request_error h = cc
reported-indeterminate (responded response) h =
    absurd (Only-handle_response response (timeout true) h)

-- The errors of an exchange that brought no answer.
abbrev pub IsNetworkError : Error → Type 0
IsNetworkError connection = Unit
IsNetworkError tls_validation = Unit
IsNetworkError (timeout indeterminate) = Unit
IsNetworkError os_error = Unit
IsNetworkError _ = ⊥

-- The errors that `_execute` can raise.
abbrev pub IsExchangeError : Error → Type 0
IsExchangeError e = IsNetworkError e ⊎ IsHttpError e

network :
    (raised e : Error)
    → IsNetworkError raised
    → Path (Result Element) (err raised) (err e)
    → IsExchangeError e
network raised e h eq = inl (subst IsNetworkError (err_injective eq) h)

reported-IsExchangeError : (o : Outcome) (e : Error) → reported o ≡ err e → IsExchangeError e
reported-IsExchangeError read_timed_out e h = network (timeout true) e tt h
reported-IsExchangeError ssl_failed e h = network tls_validation e tt h
reported-IsExchangeError connect_timed_out e h = network (timeout false) e tt h
reported-IsExchangeError connection_failed e h = network connection e tt h
reported-IsExchangeError request_error e h = network os_error e tt h
reported-IsExchangeError (responded response) e h = inr (Only-handle_response response e h)

module _ (server : Server) (options : Options) (action resource : String) (body : Option Element)
    (selectors : Dict String) (retryable : Bool) (posts : List Element) where
  abbrev exchange :
      IsExchange server
        (envelope_of server options action resource body selectors posts)
        posts
        (retries_allowed options.max_retries retryable)
        (execute server options action resource body selectors retryable posts)
  exchange = execute-exchange server options action resource body selectors retryable posts

  -- For every server and request, a read as well as a change: the request is reported as one that may
  -- have taken effect exactly where the last post timed out waiting for its answer.
  pub execute-indeterminate_iff :
      ((execute server options action resource body selectors retryable posts).0
        ≡ err (timeout true))
      ↔ (server.outcome (execute server options action resource body selectors retryable posts).1
          ≡ read_timed_out)
  execute-indeterminate_iff = (
    λ h. ap server.outcome exchange.posted ∙ reported-indeterminate _ (sym exchange.answered ∙ h),
    λ h. exchange.answered ∙ ap reported (sym (ap server.outcome exchange.posted) ∙ h),
  )

  -- For every server and request: what is raised is one of the errors for a connection, a TLS
  -- check, a timeout, the credentials or the protocol, or an exception of the HTTP library that none
  -- of these is.
  pub execute-IsExchangeError :
      (e : Error)
      → (execute server options action resource body selectors retryable posts).0 ≡ err e
      → IsExchangeError e
  execute-IsExchangeError e h = reported-IsExchangeError _ e (sym exchange.answered ∙ h)
