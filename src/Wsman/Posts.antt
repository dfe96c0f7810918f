-- ===== src/Wsman/Posts.antt =====
-- wsman.py: how many posts each operation makes.
use Prim.Native.String.{◌++◌ as concat}
use native.Mathlib.Nat.{add-mul}
use ansible_collection_intel.Prelude.{
  ℕ, zero, suc, ◌+◌, ◌*◌, ◌≤◌, ◌≡◌, sym, ap, ◌∙◌, Bool, true, false, Option, none, some, String,
  List, [], ◌++◌, append_assoc, append-nil, length, length-append, length-replicate, replicate,
  Dict, arith,
}
use ansible_collection_intel.Errors.{Result, ok}
use ansible_collection_intel.Effect.{lift, ◌>>=◌, step_rule}
use ansible_collection_intel.Client.{Value, Instance}
use ansible_collection_intel.Models.{Python}
use ansible_collection_intel.Wsman.Tree.{Element, no_elements, single_instance}
use ansible_collection_intel.Wsman.Request.{
  ns_enumeration, action_get, action_put, action_enumerate, action_pull, resource_uri, node,
  append_params,
}
use ansible_collection_intel.Wsman.Transport.{Server, Options, Wire, retries_allowed, execute}
use ansible_collection_intel.Wsman.Operations.{
  enumeration_context, next_context, pull_body, get, put, pull, pull_loop, enumerate, accept,
  invoke,
}
use ansible_collection_intel.Wsman.Retries.{envelope_of, execute-exchange}

-- Between two states at most `n` posts were made.
pub record AtMost (n : ℕ) (before after : List Element) : Type 0 where
  pub made : List Element
  pub appended : after ≡ before ++ made
  pub few : length made ≤ n

-- An action that makes at most `n` posts, whether it returns or raises.
pub record Costs (n : ℕ) {A : Type 0} (m : Wire A) : Type 0 where
  pub spent : (before : List Element) → AtMost n before (m before).1

pub AtMost-trans :
    {m n : ℕ} {a b c : List Element} → AtMost m a b → AtMost n b c → AtMost (m + n) a c
AtMost-trans {m} {n} {a} first second = record {
  made = first.made ++ second.made;
  appended =
      second.appended
      ∙ ap (λ b. b ++ second.made) first.appended
      ∙ append_assoc a first.made second.made;
  few = omega (arith, first.few, second.few, length-append first.made second.made);
}

pub AtMost-more : {m n : ℕ} {a b : List Element} → m ≤ n → AtMost m a b → AtMost n a b
AtMost-more l h = record { made = h.made; appended = h.appended; few = omega (arith, h.few, l) }

Costs-lift : {A : Type 0} (r : Result A) → Costs 0 (lift r)
Costs-lift r = record {
  spent = λ before. record { made = []; appended = sym (append-nil before); few = omega arith };
}

Costs-bind :
    {A B : Type 0} (m n : ℕ) (first : Wire A) (next : A → Wire B)
    → Costs m first
    → ((a : A) → Costs n (next a))
    → Costs (m + n) (first >>= next)
Costs-bind m n first next h k = record {
  spent = λ before.
      step_rule (λ r. AtMost (m + n) before r.1) first before next
        (λ e raised. AtMost-more (omega arith) (h.spent before))
        (λ a returned. AtMost-trans (h.spent before) ((k a).spent (first before).1));
}

Costs-more : {A : Type 0} {m : Wire A} {few many : ℕ} → few ≤ many → Costs few m → Costs many m
Costs-more l h = record { spent = λ before. AtMost-more l (h.spent before) }

module _ (server : Server) (options : Options) where
  Costs-execute :
      (action resource : String) (body : Option Element) (selectors : Dict String)
      (retryable : Bool)
      → Costs
          (suc (retries_allowed options.max_retries retryable))
          (execute server options action resource body selectors retryable)
  Costs-execute action resource body selectors retryable = record { spent = spent }
    where
      spent :
          (before : List Element)
          → AtMost
              (suc (retries_allowed options.max_retries retryable))
              before
              (execute server options action resource body selectors retryable before).1
      spent before =
          let exchange =
            execute-exchange server options action resource body selectors retryable before in
          let envelope = envelope_of server options action resource body selectors before in
          record {
            made = replicate (suc exchange.used) envelope;
            appended = exchange.posted;
            few = omega (arith, exchange.few, length-replicate (suc exchange.used) envelope);
          }

  module _ (python : Python) where
    pub Costs-get :
        (resource_class : String) (selectors : Dict String)
        → Costs (suc options.max_retries) (get python server options resource_class selectors)
    unfolding get retries_allowed
    Costs-get resource_class selectors = Costs-more (omega arith) (
        Costs-bind 0 (suc options.max_retries + 0) (lift (resource_uri resource_class)) _
          (Costs-lift (resource_uri resource_class))
          (λ uri.
            Costs-bind (suc options.max_retries) 0
              (execute server options action_get uri none selectors true) _
              (Costs-execute action_get uri none selectors true)
              (λ body. Costs-lift (ok (single_instance python body)))))

    pub Costs-put :
        (resource_class : String) (properties : Instance) (selectors : Dict String)
        → Costs 1 (put python server options resource_class properties selectors)
    unfolding put retries_allowed
    Costs-put resource_class properties selectors =
        Costs-bind 0 1 (lift (resource_uri resource_class)) _
          (Costs-lift (resource_uri resource_class))
          (λ uri.
            Costs-bind 0 1 (lift (append_params python uri properties)) _
              (Costs-lift (append_params python uri properties))
              (λ params.
                Costs-bind 1 0
                  (execute server options action_put uri (some (node uri resource_class params))
                    selectors false)
                  _
                  (Costs-execute action_put uri (some (node uri resource_class params)) selectors
                    false)
                  (λ body. Costs-lift (ok (single_instance python body)))))

    pub Costs-invoke :
        (resource_class method_name : String) (params : Instance) (selectors : Dict String)
        → Costs 1 (invoke python server options resource_class method_name params selectors)
    unfolding invoke retries_allowed
    Costs-invoke resource_class method_name params selectors =
        Costs-bind 0 1 (lift (resource_uri resource_class)) _
          (Costs-lift (resource_uri resource_class))
          (λ uri.
            Costs-bind 0 1 (lift (append_params python uri params)) _
              (Costs-lift (append_params python uri params))
              (λ inputs.
                Costs-bind 1 0
                  (execute server options (concat uri (concat "/" method_name)) uri
                    (some (node uri (concat method_name "_INPUT") inputs)) selectors false)
                  _
                  (Costs-execute (concat uri (concat "/" method_name)) uri
                    (some (node uri (concat method_name "_INPUT") inputs)) selectors false)
                  (λ body.
                    Costs-lift (accept python server options (single_instance python body)))))

    Costs-pull_loop :
        (fuel : ℕ) (uri : String) (context : Option String) (items : List Value)
        → Costs
            (fuel * suc options.max_retries)
            (pull_loop python server options fuel uri context items)
    unfolding pull_loop pull retries_allowed
    Costs-pull_loop fuel uri none items = Costs-more (omega arith) (Costs-lift (ok (some items)))
    Costs-pull_loop zero uri (some context) items = Costs-more (omega arith) (Costs-lift (ok none))
    Costs-pull_loop (suc fuel) uri (some context) items =
        Costs-more (omega (arith, add-mul 1 fuel (suc options.max_retries))) (
          Costs-bind (suc options.max_retries) (fuel * suc options.max_retries)
            (pull python server options uri context) _
            (Costs-execute action_pull uri (some (pull_body context)) [] true)
            (λ response. Costs-pull_loop fuel uri (next_context response) _))

    -- The bounds on the posts of the four operations.
    pub record IsThrifty (fuel : ℕ) : Type 0 where
      pub of_get :
          (resource_class : String) (selectors : Dict String) (posts : List Element)
          → AtMost
              (suc options.max_retries)
              posts
              (get python server options resource_class selectors posts).1
      pub of_put :
          (resource_class : String) (properties : Instance) (selectors : Dict String)
          (posts : List Element)
          → AtMost 1 posts (put python server options resource_class properties selectors posts).1
      pub of_invoke :
          (resource_class method_name : String) (params : Instance) (selectors : Dict String)
          (posts : List Element)
          → AtMost 1 posts
              (invoke python server options resource_class method_name params selectors posts).1
      pub of_enumerate :
          (resource_class : String) (selectors : Dict String) (posts : List Element)
          → AtMost
              (suc fuel * suc options.max_retries)
              posts
              (enumerate python server options fuel resource_class selectors posts).1

    pub Costs-enumerate :
        (fuel : ℕ) (resource_class : String) (selectors : Dict String)
        → Costs
            (suc fuel * suc options.max_retries)
            (enumerate python server options fuel resource_class selectors)
    unfolding enumerate retries_allowed
    Costs-enumerate fuel resource_class selectors =
        Costs-more (omega (arith, add-mul 1 fuel (suc options.max_retries))) (
          Costs-bind 0 (suc options.max_retries + fuel * suc options.max_retries)
            (lift (resource_uri resource_class)) _ (Costs-lift (resource_uri resource_class))
            (λ uri.
              Costs-bind (suc options.max_retries) (fuel * suc options.max_retries)
                (execute server options action_enumerate uri
                  (some (node ns_enumeration "Enumerate" no_elements)) selectors true)
                _
                (Costs-execute action_enumerate uri
                  (some (node ns_enumeration "Enumerate" no_elements)) selectors true)
                (λ body. Costs-pull_loop fuel uri (enumeration_context body) [])))

    -- For every server, whether the operation returns or raises: Put and a method call are posted at
    -- most once, so that no change of the firmware is ever asked for twice; Get makes at most
    -- max_retries + 1 posts, and an enumeration at most as many for its Enumerate and for each Pull.
    pub operations-IsThrifty : (fuel : ℕ) → IsThrifty fuel
    operations-IsThrifty fuel = record {
      of_get = λ resource_class selectors posts. (Costs-get resource_class selectors).spent posts;
      of_put = λ resource_class properties selectors posts.
          (Costs-put resource_class properties selectors).spent posts;
      of_invoke = λ resource_class method_name params selectors posts.
          (Costs-invoke resource_class method_name params selectors).spent posts;
      of_enumerate = λ resource_class selectors posts.
          (Costs-enumerate fuel resource_class selectors).spent posts;
    }
