-- ===== src/Wsman/Refines.antt =====
-- wsman.py under the interface Client: the client whose answers are those of the operations of
-- Wsman.Operations over one server, each run behind the posts of all calls made before.
use ansible_collection_intel.Prelude.{
  ℕ, ◌≡◌, refl, ap, ◌∙◌, ℤ, Option, none, some, String, List, [], ◌∷◌, ◌++◌, Dict,
}
use ansible_collection_intel.Errors.{Result, ok, err}
use ansible_collection_intel.Client.{
  Value, mapping, Fields, no_fields, more_fields, Instance, Call, enumerated, got, selected,
  put_instance, invoked, WsmanClient,
}
use ansible_collection_intel.Models.{Python}
use ansible_collection_intel.Wsman.Tree.{Element}
use ansible_collection_intel.Wsman.Transport.{Server, Options}
use ansible_collection_intel.Wsman.Operations.{get, put, enumerate, invoke}

abbrev instance_of_fields : Fields → Instance
instance_of_fields no_fields = []
instance_of_fields (more_fields name value items) = (name, value) ∷ instance_of_fields items

-- An item of an enumeration; text stands for the empty instance.
abbrev pub item_of : Value → Instance
item_of (mapping items) = instance_of_fields items
item_of _ = []

abbrev pub items_of : List Value → List Instance
items_of [] = []
items_of (value ∷ values) = item_of value ∷ items_of values

abbrev pub output_of : Result (Instance × ℤ) → Result Instance
output_of (ok answer) = ok answer.0
output_of (err e) = err e

-- no items, where the firmware does not end the sequence within the fuel
abbrev listed : Result (Option (List Value)) → Result (List Instance)
listed (ok none) = ok []
listed (ok (some values)) = ok (items_of values)
listed (err e) = err e

module _ (python : Python) (server : Server) (options : Options) (fuel : ℕ) where
  -- the posts behind one more call
  abbrev pub posted : List Element → Call → List Element
  posted posts (enumerated name) = (enumerate python server options fuel name [] posts).1
  posted posts (got name) = (get python server options name [] posts).1
  posted posts (selected name selectors) = (get python server options name selectors posts).1
  posted posts (put_instance name properties) =
      (put python server options name properties [] posts).1
  posted posts (invoked name method params selectors) =
      (invoke python server options name method params selectors posts).1

  -- the posts of a history
  abbrev pub replayed : List Element → List Call → List Element
  replayed posts [] = posts
  replayed posts (call ∷ calls) = replayed (posted posts call) calls

  pub replayed-append :
      (posts : List Element) (xs ys : List Call)
      → replayed posts (xs ++ ys) ≡ replayed (replayed posts xs) ys
  replayed-append posts [] ys = refl
  replayed-append posts (x ∷ xs) ys = replayed-append (posted posts x) xs ys

  abbrev pub client_over : WsmanClient
  client_over = record {
    answer_enumerate =
        λ calls name. listed (enumerate python server options fuel name [] (replayed [] calls)).0;
    answer_get = λ calls name. (get python server options name [] (replayed [] calls)).0;
    answer_select =
        λ calls name selectors. (get python server options name selectors (replayed [] calls)).0;
    answer_put = λ calls name properties.
        (put python server options name properties [] (replayed [] calls)).0;
    answer_invoke = λ calls name method params selectors.
        output_of (invoke python server options name method params selectors (replayed [] calls)).0;
  }

  -- A client behaves as the operations of wsman.py do over the server: the same answers, from the
  -- state that the calls before have left.
  pub record IsImplemented (client : WsmanClient) : Type 0 where
    pub of_get :
        (calls : List Call) (name : String)
        → (client.answer_get calls name, replayed [] (calls ++ got name ∷ []))
          ≡ get python server options name [] (replayed [] calls)
    pub of_select :
        (calls : List Call) (name : String) (selectors : Dict String)
        → (
          client.answer_select calls name selectors,
          replayed [] (calls ++ selected name selectors ∷ []),
        )
          ≡ get python server options name selectors (replayed [] calls)
    pub of_put :
        (calls : List Call) (name : String) (properties : Instance)
        → (
          client.answer_put calls name properties,
          replayed [] (calls ++ put_instance name properties ∷ []),
        )
          ≡ put python server options name properties [] (replayed [] calls)
    pub of_invoke :
        (calls : List Call) (name method : String) (params : Instance) (selectors : Dict String)
        → client.answer_invoke calls name method params selectors
          ≡ output_of
              (invoke python server options name method params selectors (replayed [] calls)).0
    pub of_enumerate :
        (calls : List Call) (name : String) (values : List Value) (final : List Element)
        → enumerate python server options fuel name [] (replayed [] calls)
          ≡ (ok (some values), final)
        → (client.answer_enumerate calls name ≡ ok (items_of values))
          × (replayed [] (calls ++ enumerated name ∷ []) ≡ final)

  -- For every server: the client over it answers each call as wsman.py answers it behind the posts of
  -- all calls made before, and leaves the posts that wsman.py leaves; a method call gives the output
  -- of one that was accepted; an enumeration that ends within the fuel gives its items.
  pub client_over-IsImplemented : IsImplemented client_over
  client_over-IsImplemented = record {
    of_get = λ calls name.
        ap (λ posts. ((get python server options name [] (replayed [] calls)).0, posts))
          (replayed-append [] calls (got name ∷ []));
    of_select = λ calls name selectors.
        ap (λ posts. ((get python server options name selectors (replayed [] calls)).0, posts))
          (replayed-append [] calls (selected name selectors ∷ []));
    of_put = λ calls name properties.
        ap (λ posts. ((put python server options name properties [] (replayed [] calls)).0, posts))
          (replayed-append [] calls (put_instance name properties ∷ []));
    of_invoke = λ calls name method params selectors. refl;
    of_enumerate = λ calls name values final ended. (
      ap (λ r. listed r.0) ended,
      replayed-append [] calls (enumerated name ∷ []) ∙ ap (λ r. r.1) ended,
    );
  }
