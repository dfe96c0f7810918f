-- ===== src/Wsman/Retries.antt =====
-- wsman.py, `_execute`: how often a request is sent, and what its failures are reported as.
use ansible_collection_intel.Prelude.{
  ℕ, zero, suc, ◌≤◌, ◌<◌, ◌≡◌, refl, sym, ap, ◌∙◌, subst, Bool, true, false, Option, none, some,
  String, List, [], ◌∷◌, ◌++◌, append_assoc, replicate, Dict, if◌then◌else◌, arith,
}
use ansible_collection_intel.Errors.{Result, err, connection, tls_validation, timeout, os_error}
use ansible_collection_intel.Wsman.Tree.{Element}
use ansible_collection_intel.Wsman.Request.{build_envelope}
use ansible_collection_intel.Wsman.Transport.{
  Outcome, read_timed_out, ssl_failed, connect_timed_out, connection_failed, request_error,
  responded, Server, Options, Wire, handle_response, retries_allowed, settle, attempt_post,
  attempts, execute,
}

-- The outcomes behind which a request may be sent again.
abbrev pub MayRetry : Outcome → Type 0
MayRetry connect_timed_out = Unit
MayRetry connection_failed = Unit
MayRetry _ = ⊥

-- What the caller is told of the outcome of the last attempt.
abbrev pub reported : Outcome → Result Element
reported read_timed_out = err (timeout true)
reported ssl_failed = err tls_validation
reported connect_timed_out = err (timeout false)
reported connection_failed = err connection
reported request_error = err os_error
reported (responded response) = handle_response response

module _ (server : Server) (envelope : Element) where
  -- the posts behind `n + 1` attempts
  abbrev pub posts_after : List Element → ℕ → List Element
  posts_after before n = before ++ replicate (suc n) envelope

  -- One envelope, sent `used + 1` times.
  pub record IsExchange (before : List Element) (bound : ℕ) (r : Result Element × List Element)
      : Type 0 where
    pub used : ℕ
    pub few : used ≤ bound
    pub posted : r.1 ≡ posts_after before used
    pub unsettled : (i : ℕ) → i < used → MayRetry (server.outcome (posts_after before i))
    pub answered : r.0 ≡ reported (server.outcome (posts_after before used))
    pub exhausted : MayRetry (server.outcome (posts_after before used)) → used ≡ bound

  first_try :
      (before : List Element) (bound : ℕ) (r : Result Element × List Element)
      → r.1 ≡ posts_after before 0
      → r.0 ≡ reported (server.outcome (posts_after before 0))
      → (MayRetry (server.outcome (posts_after before 0)) → 0 ≡ bound)
      → IsExchange before bound r
  first_try before bound r p a h = record {
    used = 0;
    few = omega arith;
    posted = p;
    unsettled = λ i l. absurd (omega arith);
    answered = a;
    exhausted = h;
  }

  shift :
      (before : List Element) (n : ℕ)
      → posts_after (before ++ envelope ∷ []) n ≡ posts_after before (suc n)
  shift before n = append_assoc before (envelope ∷ []) (replicate (suc n) envelope)

  later_try :
      (before : List Element) (bound : ℕ) (r : Result Element × List Element)
      → MayRetry (server.outcome (posts_after before 0))
      → IsExchange (before ++ envelope ∷ []) bound r
      → IsExchange before (suc bound) r
  later_try before bound r m h =
      let moved = ap server.outcome (shift before h.used) in
      record {
        used = suc h.used;
        few = omega (arith, h.few);
        posted = h.posted ∙ shift before h.used;
        unsettled = retried;
        answered = h.answered ∙ ap reported moved;
        exhausted = λ again. ap suc (h.exhausted (subst MayRetry (sym moved) again));
      }
    where
      retried : (i : ℕ) → i < suc h.used → MayRetry (server.outcome (posts_after before i))
      retried zero l = m
      retried (suc i) l =
          subst MayRetry (ap server.outcome (shift before i)) (h.unsettled i (omega arith))

  settle-last :
      (before : List Element) (o : Outcome)
      → server.outcome (posts_after before 0) ≡ o
      → IsExchange before 0 (settle o none (posts_after before 0))
  unfolding settle
  settle-last before read_timed_out e = first_try before 0 _ refl (sym (ap reported e)) (λ m. refl)
  settle-last before ssl_failed e = first_try before 0 _ refl (sym (ap reported e)) (λ m. refl)
  settle-last before connect_timed_out e =
      first_try before 0 _ refl (sym (ap reported e)) (λ m. refl)
  settle-last before connection_failed e =
      first_try before 0 _ refl (sym (ap reported e)) (λ m. refl)
  settle-last before request_error e = first_try before 0 _ refl (sym (ap reported e)) (λ m. refl)
  settle-last before (responded response) e =
      first_try before 0 _ refl (sym (ap reported e)) (λ m. refl)

  settle-again :
      (before : List Element) (bound : ℕ) (again : Wire Element) (o : Outcome)
      → server.outcome (posts_after before 0) ≡ o
      → IsExchange (before ++ envelope ∷ []) bound (again (posts_after before 0))
      → IsExchange before (suc bound) (settle o (some again) (posts_after before 0))
  unfolding settle
  settle-again before bound again read_timed_out e h =
      first_try before (suc bound) _ refl (sym (ap reported e)) (λ m. absurd (subst MayRetry e m))
  settle-again before bound again ssl_failed e h =
      first_try before (suc bound) _ refl (sym (ap reported e)) (λ m. absurd (subst MayRetry e m))
  settle-again before bound again connect_timed_out e h =
      later_try before bound _ (subst MayRetry (sym e) tt) h
  settle-again before bound again connection_failed e h =
      later_try before bound _ (subst MayRetry (sym e) tt) h
  settle-again before bound again request_error e h =
      first_try before (suc bound) _ refl (sym (ap reported e)) (λ m. absurd (subst MayRetry e m))
  settle-again before bound again (responded response) e h =
      first_try before (suc bound) _ refl (sym (ap reported e)) (λ m. absurd (subst MayRetry e m))

  attempts-IsExchange :
      (left : ℕ) (before : List Element)
      → IsExchange before left (attempts server left envelope before)
  unfolding attempts attempt_post
  attempts-IsExchange zero before = settle-last before (server.outcome (posts_after before 0)) refl
  attempts-IsExchange (suc left) before =
      settle-again before left (attempts server left envelope)
        (server.outcome (posts_after before 0)) refl
        (attempts-IsExchange left (posts_after before 0))

module _ (server : Server) (options : Options) where
  -- The envelope of a request.
  abbrev pub envelope_of : String → String → Option Element → Dict String → List Element → Element
  envelope_of action resource body selectors posts = build_envelope record {
    action = action;
    to = options.url;
    resource = resource;
    message_id = server.fresh_id posts;
    body = body;
    selectors = selectors;
  }

  pub execute-exchange :
      (action resource : String) (body : Option Element) (selectors : Dict String)
      (retryable : Bool) (posts : List Element)
      → IsExchange server
          (envelope_of action resource body selectors posts)
          posts
          (retries_allowed options.max_retries retryable)
          (execute server options action resource body selectors retryable posts)
  unfolding execute
  execute-exchange action resource body selectors retryable posts =
      attempts-IsExchange server (envelope_of action resource body selectors posts)
        (retries_allowed options.max_retries retryable) posts

  -- For every server and request: one and the same envelope is sent again and again, at most
  -- max_retries times behind the first where the request may be retried and never where it may not;
  -- it is sent again only behind a connection that failed or timed out, and then always while
  -- attempts are left; the caller is told what the last attempt came to.
  pub execute-IsExchange :
      (action resource : String) (body : Option Element) (selectors : Dict String)
      (retryable : Bool) (posts : List Element)
      → IsExchange server
          (envelope_of action resource body selectors posts)
          posts
          (if retryable then options.max_retries else 0)
          (execute server options action resource body selectors retryable posts)
  unfolding retries_allowed
  execute-IsExchange = execute-exchange
