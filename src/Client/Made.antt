-- ===== src/Client/Made.antt =====
-- Which calls an action on the WS-Man client makes, whatever the answers are.
use ansible_collection_intel.Prelude.{
  ◌≡◌, refl, sym, ap, ◌∙◌, Bool, true, false, Option, String, List, [], ◌∷◌, ◌++◌, append_assoc,
  append-nil, Dict, All, if◌then◌else◌,
}
use ansible_collection_intel.Errors.{Error, Result}
use ansible_collection_intel.Client.{
  Instance, Call, enumerated, got, selected, put_instance, invoked, WsmanClient, Action, enumerate,
  get, select, put, invoke, ◌>>=◌, lift, attempt, step_rule,
}

-- The calls made between two histories all satisfy `P`.
pub record Made (P : Call → Type 0) (before after : List Call) : Type 0 where
  pub made : List Call
  pub appended : after ≡ before ++ made
  pub each : All P made

pub record Makes (P : Call → Type 0) {A : Type 0} (m : Action A) : Type 0 where
  pub calls_of : (before : List Call) → Made P before (m before).1

All-append {ℓ κ} :
    {A : Type ℓ} (P : A → Type κ) (xs ys : List A) → All P xs → All P ys → All P (xs ++ ys)
All-append P [] ys h k = k
All-append P (x ∷ xs) ys h k = (h.0, All-append P xs ys h.1 k)

module _ (P : Call → Type 0) where
  Made-none : (calls : List Call) → Made P calls calls
  Made-none calls = record { made = []; appended = sym (append-nil calls); each = tt }

  Made-one : (calls : List Call) (call : Call) → P call → Made P calls (calls ++ call ∷ [])
  Made-one calls call p = record { made = call ∷ []; appended = refl; each = (p, tt) }

  pub Made-trans : {a b c : List Call} → Made P a b → Made P b c → Made P a c
  Made-trans {a} first second = record {
    made = first.made ++ second.made;
    appended =
        second.appended
        ∙ ap (λ b. b ++ second.made) first.appended
        ∙ append_assoc a first.made second.made;
    each = All-append P first.made second.made first.each second.each;
  }

  pub Makes-lift : {A : Type 0} (r : Result A) → Makes P (lift r)
  Makes-lift r = record { calls_of = λ before. Made-none before }

  pub Makes-bind :
      {A B : Type 0} (m : Action A) (f : A → Action B)
      → Makes P m
      → ((a : A) → Makes P (f a))
      → Makes P (m >>= f)
  Makes-bind m f h k = record {
    calls_of = λ before.
        step_rule (λ r. Made P before r.1) m before f (λ e q. h.calls_of before)
          (λ a q. Made-trans (h.calls_of before) ((k a).calls_of (m before).1));
  }

  pub Makes-attempt :
      {A : Type 0} (handler : Error → Option A) (m : Action A)
      → Makes P m
      → Makes P (attempt handler m)
  Makes-attempt handler m h = record { calls_of = λ before. h.calls_of before }

  pub Makes-if :
      {A : Type 0} (b : Bool) (m k : Action A)
      → Makes P m
      → Makes P k
      → Makes P (if b then m else k)
  Makes-if true m k h g = h
  Makes-if false m k h g = g

  module _ (client : WsmanClient) where
    pub Makes-get : (name : String) → P (got name) → Makes P (get client name)
    unfolding get
    Makes-get name p = record { calls_of = λ before. Made-one before (got name) p }

    pub Makes-select :
        (name : String) (selectors : Dict String)
        → P (selected name selectors)
        → Makes P (select client name selectors)
    unfolding select
    Makes-select name selectors p = record {
      calls_of = λ before. Made-one before (selected name selectors) p;
    }

    pub Makes-enumerate : (name : String) → P (enumerated name) → Makes P (enumerate client name)
    unfolding enumerate
    Makes-enumerate name p = record { calls_of = λ before. Made-one before (enumerated name) p }

    pub Makes-put :
        (name : String) (properties : Instance)
        → P (put_instance name properties)
        → Makes P (put client name properties)
    unfolding put
    Makes-put name properties p = record {
      calls_of = λ before. Made-one before (put_instance name properties) p;
    }

    pub Makes-invoke :
        (name method : String) (params : Instance) (selectors : Dict String)
        → P (invoked name method params selectors)
        → Makes P (invoke client name method params selectors)
    unfolding invoke
    Makes-invoke name method params selectors p = record {
      calls_of = λ before. Made-one before (invoked name method params selectors) p;
    }
