-- ===== src/Power/Wire.antt =====
-- client.py over wsman.py: the posts that a power request comes to.
use native.Mathlib.Nat.{add-mul, mul-le-mul_right}
use ansible_collection_intel.Prelude.{
  ℕ, zero, suc, ◌+◌, ◌*◌, ◌≤◌, ◌≡◌, refl, sym, ap, subst, ◌⊎◌, inl, inr, List, [], ◌∷◌, append-nil,
  replicate, arith,
}
use ansible_collection_intel.Errors.{Error, Result, ok, err}
use ansible_collection_intel.Client.{Call, enumerated, got, selected, put_instance, invoked}
use ansible_collection_intel.Models.{Python}
use ansible_collection_intel.Wsman.Tree.{Element}
use ansible_collection_intel.Wsman.Transport.{Server, Options}
use ansible_collection_intel.Wsman.Posts.{
  AtMost, AtMost-trans, AtMost-more, Costs-get, Costs-put, Costs-invoke, Costs-enumerate,
}
use ansible_collection_intel.Wsman.Refines.{client_over, posted, replayed}
use ansible_collection_intel.Power.Request.{
  PowerAction, power_params, power_state_class, power_service_class, request_power_state,
}
use ansible_collection_intel.Power.Calls.{
  read_call, change_call, request_power_state-IsPowerExchange,
}

Result-cases {ℓ} :
    {A : Type ℓ} (r : Result A) → ((e : Error) × (r ≡ err e)) ⊎ ((a : A) × (r ≡ ok a))
Result-cases (err e) = inl (e, refl)
Result-cases (ok a) = inr (a, refl)

module _ (python : Python) (server : Server) (options : Options) (fuel : ℕ) where
  -- the posts that a call may cost
  abbrev cost : Call → ℕ
  cost (enumerated name) = suc fuel * suc options.max_retries
  cost (got name) = suc options.max_retries
  cost (selected name selectors) = suc options.max_retries
  cost (put_instance name properties) = 1
  cost (invoked name method params selectors) = 1

  abbrev total : List Call → ℕ
  total [] = 0
  total (call ∷ calls) = cost call + total calls

  posted-AtMost :
      (posts : List Element) (call : Call)
      → AtMost (cost call) posts (posted python server options fuel posts call)
  posted-AtMost posts (enumerated name) =
      (Costs-enumerate server options python fuel name []).spent posts
  posted-AtMost posts (got name) = (Costs-get server options python name []).spent posts
  posted-AtMost posts (selected name selectors) =
      (Costs-get server options python name selectors).spent posts
  posted-AtMost posts (put_instance name properties) =
      (Costs-put server options python name properties []).spent posts
  posted-AtMost posts (invoked name method params selectors) =
      (Costs-invoke server options python name method params selectors).spent posts

  AtMost-none : (posts : List Element) → AtMost 0 posts posts
  AtMost-none posts = record { made = []; appended = sym (append-nil posts); few = omega arith }

  replayed-AtMost :
      (calls : List Call) (posts : List Element)
      → AtMost (total calls) posts (replayed python server options fuel posts calls)
  replayed-AtMost [] posts = AtMost-none posts
  replayed-AtMost (call ∷ calls) posts =
      AtMost-trans (posted-AtMost posts call)
        (replayed-AtMost calls (posted python server options fuel posts call))

  total-reads : (n : ℕ) → total (replicate n read_call) ≡ n * suc options.max_retries
  total-reads zero = omega arith
  total-reads (suc n) = omega (arith, total-reads n, add-mul 1 n (suc options.max_retries))

  -- the posts of a whole request: a read, the request, and the probes
  abbrev pub power_bound : ℕ → ℕ
  power_bound poll_count = suc poll_count * suc options.max_retries + 1

  of_calls :
      (poll_count reads : ℕ) (tail : List Call) (after : List Call)
      → after ≡ read_call ∷ tail
      → total tail ≤ reads * suc options.max_retries + 1
      → reads ≤ poll_count
      → AtMost (power_bound poll_count) [] (replayed python server options fuel [] after)
  of_calls poll_count reads tail after e cheap few =
      let scaled : reads * suc options.max_retries ≤ poll_count * suc options.max_retries =
        mul-le-mul_right (suc options.max_retries) few in
      subst
        (λ calls. AtMost (power_bound poll_count) [] (replayed python server options fuel [] calls))
        (sym e)
        (AtMost-more (omega (arith, cheap, add-mul 1 poll_count (suc options.max_retries), scaled))
          (replayed-AtMost (read_call ∷ tail) []))

  -- For every server, number of probes and action: a power request over wsman.py, whether it returns
  -- or raises, comes to at most (poll_count + 1) * (max_retries + 1) + 1 posts: max_retries + 1 for the
  -- first read and for each probe, and one for the change.
  pub request_power_state-AtMost :
      (poll_count : ℕ) (action : PowerAction)
      → AtMost (power_bound poll_count) [] (
          replayed python server options fuel []
            (request_power_state python
              (client_over python server options fuel)
              poll_count
              action
              []).1)
  request_power_state-AtMost poll_count action =
      let client = client_over python server options fuel in
      let exchange = request_power_state-IsPowerExchange python client poll_count action [] in
      elim (Result-cases (client.answer_get [] power_state_class)) [
        | inl failed ↦
            of_calls poll_count 0 [] _ (ap (λ r. r.1) (exchange.unread failed.0 failed.1))
              (omega arith) (omega arith)
        | inr read ↦
            elim (Result-cases (
              client.answer_invoke (read_call ∷ []) power_service_class "RequestPowerStateChange"
                (power_params action) [])) [
                  | inl failed ↦
                      of_calls poll_count 0 (change_call action ∷ []) _
                        (ap (λ r. r.1) (exchange.rejected read.0 failed.0 read.1 failed.1))
                        (omega arith) (omega arith)
                  | inr accepted ↦
                      let probing = exchange.accepted read.0 accepted.0 read.1 accepted.1 in
                      of_calls poll_count probing.reads
                        (change_call action ∷ replicate probing.reads read_call) _ probing.appended
                        (omega (arith, total-reads probing.reads)) probing.few
                ]
      ]
