-- ===== src/MessageLog/Faithful.antt =====
-- message_log.py: the records that `read_records` keeps, and `complete`, by the answers of the firmware.
use ansible_collection_intel.Prelude.{
  ℕ, zero, suc, ◌+◌, ◌-◌, ◌≡◌, refl, sym, ap, ◌∙◌, subst, ℤ, Bool, true, false, Option, none, some,
  String, List, [], ◌∷◌, ◌++◌, append_assoc, append-nil, length, length-append, take, ◌==◌, int_eq,
  if◌then◌else◌, Bool-cases, inl, inr, arith,
}
use ansible_collection_intel.Errors.{ok}
use ansible_collection_intel.Client.{Call, Instance, WsmanClient}
use ansible_collection_intel.Models.{Python, get_value, truthy, optional_int}
use ansible_collection_intel.MessageLog.Decode.{
  Library, EventRecord, decode_record, is_empty_record_slot,
}
use ansible_collection_intel.MessageLog.Container.{invoke_tolerating, tolerated_by_get_records}
use ansible_collection_intel.MessageLog.Read.{
  Progress, Ended, Round, break, again, add_record, consume, record_array, add_records,
  continue_with, take_batch, after_get_records,
}

pub take_nothing {ℓ} : {A : Type ℓ} (n : ℕ) → Path (List A) (take n []) []
take_nothing zero = refl
take_nothing (suc n) = refl

pub take_joined {ℓ} :
    {A : Type ℓ} (n : ℕ) (xs ys : List A)
    → take n (xs ++ ys) ≡ take n xs ++ take (n - length (take n xs)) ys
take_joined zero xs ys = refl
take_joined (suc n) [] ys = let same : suc n ≡ suc n - 0 = omega arith in ap (λ k. take k ys) same
take_joined (suc n) (x ∷ xs) ys =
    let same : n - length (take n xs) ≡ suc n - suc (length (take n xs)) = omega arith in
    ap (λ zs. x ∷ zs) (take_joined n xs ys ∙ ap (λ k. take n xs ++ take k ys) same)

-- An answer to GetRecords: its properties and its ReturnValue.
abbrev pub Answer : Type 0
Answer = Instance × ℕ

module _ (python : Python) (library : Library) where
  -- The firmware says that there is no more: with the ReturnValue 3, or with NoMoreRecords.
  abbrev pub says_done : Answer → Bool
  says_done (output, return_value) =
      if return_value == 3
      then true
      else (if return_value == 2 then false else truthy python (get_value "NoMoreRecords" output))

  -- The elements of the RecordArray; there is none with the ReturnValues 2 and 3.
  abbrev pub elements_of : Answer → List String
  elements_of (output, return_value) =
      if return_value == 3
      then []
      else (if return_value == 2 then [] else record_array python output)

  abbrev pub offered : List Answer → List String
  offered [] = []
  offered (answer ∷ answers) = elements_of answer ++ offered answers

  abbrev pub last_says_done : List Answer → Bool
  last_says_done [] = false
  last_says_done (answer ∷ []) = says_done answer
  last_says_done (answer ∷ (next ∷ answers)) = last_says_done (next ∷ answers)

  -- The decoded elements in their order, without the empty slots.
  abbrev pub kept_events : List String → List EventRecord
  kept_events [] = []
  kept_events (item ∷ items) =
      let rest = kept_events items in
      if is_empty_record_slot (decode_record python library item)
      then rest
      else decode_record python library item ∷ rest

  kept_events-append :
      (items more : List String)
      → kept_events (items ++ more) ≡ kept_events items ++ kept_events more
  kept_events-append [] more = refl
  kept_events-append (item ∷ items) more =
      elim (Bool-cases (is_empty_record_slot (decode_record python library item))) [
        | inl e ↦ rw (e) (kept_events-append items more)
        | inr e ↦
            rw (e)
              (ap (λ es. decode_record python library item ∷ es) (kept_events-append items more))
      ]

  pub last_says_done-cons :
      (answer : Answer) (answers : List Answer)
      → says_done answer ≡ false
      → last_says_done (answer ∷ answers) ≡ last_says_done answers
  last_says_done-cons answer [] h = h
  last_says_done-cons answer (next ∷ answers) h = refl

  -- `q` has taken these elements after `p`.
  pub record Extends (p : Progress) (items : List String) (q : Progress) : Type 0 where
    pub records : q.records ≡ p.records ++ kept_events items
    pub consumed : q.consumed ≡ p.consumed + length items

  pub Extends-nothing : (p : Progress) → Extends p [] p
  Extends-nothing p = record { records = sym (append-nil p.records); consumed = omega arith }

  pub Extends-append :
      (p q r : Progress) (items more : List String)
      → Extends p items q
      → Extends q more r
      → Extends p (items ++ more) r
  Extends-append p q r items more h k = record {
    records =
        k.records
        ∙ ap (λ es. es ++ kept_events more) h.records
        ∙ append_assoc p.records (kept_events items) (kept_events more)
        ∙ ap (λ es. p.records ++ es) (sym (kept_events-append items more));
    consumed = omega (arith, h.consumed, k.consumed, length-append items more);
  }

  add_records-records :
      (items : List String) (p : Progress)
      → (add_records python library items p).records ≡ p.records ++ kept_events items
  unfolding add_records add_record
  add_records-records [] p = sym (append-nil p.records)
  add_records-records (item ∷ items) p =
      add_records-records items (add_record (decode_record python library item) p)
      ∙ elim (Bool-cases (is_empty_record_slot (decode_record python library item))) [
        | inl e ↦ rw (e) refl
        | inr e ↦ rw (e) (append_assoc p.records _ (kept_events items))
      ]

  add_records-consumed :
      (items : List String) (p : Progress)
      → (add_records python library items p).consumed ≡ p.consumed
  unfolding add_records add_record
  add_records-consumed [] p = refl
  add_records-consumed (item ∷ items) p =
      add_records-consumed items (add_record (decode_record python library item) p)

  -- What a round decides behind the elements `items`, where the firmware is done or is not.
  abbrev pub Decided : Bool → Progress → List String → Round → Type 0
  Decided done p items (break ended) = (ended.complete ≡ done) × Extends p items ended.progress
  Decided done p items (again q) = (done ≡ false) × Extends p items q

  Decided-if :
      (b : Bool) (done : Bool) (p : Progress) (items : List String) (first second : Round)
      → (b ≡ true → Decided done p items first)
      → (b ≡ false → Decided done p items second)
      → Decided done p items (if b then first else second)
  Decided-if true done p items first second h k = h refl
  Decided-if false done p items first second h k = k refl

  continue_with-Decided :
      (next : Option ℤ) (p q : Progress) (items : List String) (done : Bool)
      → done ≡ false
      → Extends p items q
      → Decided done p items (continue_with python library next q)
  unfolding continue_with
  continue_with-Decided none p q items done d h = (sym d, h)
  continue_with-Decided (some identifier) p q items done d h =
      Decided-if (int_eq identifier q.identifier) done p items _ _ (λ e. (sym d, h))
        (λ e. (d, record { records = h.records; consumed = h.consumed }))

  take_batch-Extends :
      (batch : List String) (p : Progress)
      → Extends p batch (add_records python library batch (consume (length batch) p))
  take_batch-Extends batch p = record {
    records = add_records-records batch (consume (length batch) p);
    consumed = add_records-consumed batch (consume (length batch) p);
  }

  take_batch-Decided :
      (remaining : ℕ) (output : Instance) (p : Progress)
      → Decided
          (truthy python (get_value "NoMoreRecords" output))
          p
          (take remaining (record_array python output))
          (take_batch python library remaining output p)
  unfolding take_batch
  take_batch-Decided remaining output p =
      let batch = take remaining (record_array python output) in
      let h = take_batch-Extends batch p in
      Decided-if (truthy python (get_value "NoMoreRecords" output)) _ p batch _ _ (λ e. (sym e, h))
        (λ e.
          continue_with-Decided (optional_int python (get_value "IterationIdentifier" output)) p _
            batch _ e h)

  pub after_get_records-Decided :
      (remaining : ℕ) (output : Instance) (return_value : ℕ) (p : Progress)
      → Decided
          (says_done (output, return_value))
          p
          (take remaining (elements_of (output, return_value)))
          (after_get_records python library remaining output return_value p)
  unfolding after_get_records
  after_get_records-Decided remaining output return_value p =
      let none_taken : Extends p (take remaining []) p =
        subst (λ items. Extends p items p) (sym (take_nothing remaining)) (Extends-nothing p) in
      elim (Bool-cases (return_value == 3)) [
        | inl e ↦ rw (e) (refl, none_taken)
        | inr e ↦ elim (Bool-cases (return_value == 2)) [
          | inl d ↦ rw (e, d) (refl, none_taken)
          | inr d ↦ rw (e, d) (take_batch-Decided remaining output p)
        ]
      ]

  module _ (client : WsmanClient) where
    -- The answers that the firmware gives to a run of GetRecords calls.
    pub data Heard : List Call → List Answer → List Call → Type 0 where
      nothing : {calls : List Call} → Heard calls [] calls
      heard :
          {before between after : List Call} {answers : List Answer} (params : Instance)
          (answer : Answer)
          → invoke_tolerating client "GetRecords" params tolerated_by_get_records before
            ≡ (ok answer, between)
          → Heard between answers after
          → Heard before (answer ∷ answers) after

    -- What a run from `p` kept, and whether it is complete, by the answers it heard.
    pub record IsFaithfulFrom (max_records : ℕ) (p : Progress) (before after : List Call)
        (ended : Ended) : Type 0 where
      pub answers : List Answer
      pub run : Heard before answers after
      pub complete : ended.complete ≡ last_says_done answers
      pub kept_all : Extends p (take (max_records - p.consumed) (offered answers)) ended.progress
