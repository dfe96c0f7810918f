-- ===== src/MessageLog/Heard.antt =====
-- message_log.py: the loop of `read_records`, by the answers of the firmware to its calls.
use ansible_collection_intel.Prelude.{
  ℕ, zero, suc, ◌-◌, ◌≡◌, refl, sym, ap, ◌∙◌, subst, false, Option, none, some, String, List, [],
  ◌∷◌, ◌++◌, length, take, leb, Bool-cases, some_injective, none_not_some, inl, inr, arith,
}
use ansible_collection_intel.Errors.{Result, ok, ok_injective, raised_not_ok}
use ansible_collection_intel.Client.{Call, WsmanClient, Action, step_rule}
use ansible_collection_intel.Models.{Python}
use ansible_collection_intel.MessageLog.Decode.{Library}
use ansible_collection_intel.MessageLog.Container.{invoke_tolerating, tolerated_by_get_records}
use ansible_collection_intel.MessageLog.Read.{
  Progress, Ended, Round, break, again, count_batch, get_records_params, round, go_on, read_loop,
}
use ansible_collection_intel.MessageLog.Faithful.{
  Answer, take_nothing, take_joined, says_done, elements_of, offered, last_says_done-cons, Extends,
  Extends-nothing, Extends-append, Decided, after_get_records-Decided, nothing, heard,
  IsFaithfulFrom,
}

pub nothing_not_ok {ℓ} : {A : Type ℓ} {a : A} → Path (Result (Option A)) (ok none) (ok (some a)) → ⊥
nothing_not_ok e = none_not_some (ok_injective e)

pub ok_some_injective {ℓ} :
    {A : Type ℓ} {a b : A} → Path (Result (Option A)) (ok (some a)) (ok (some b)) → a ≡ b
ok_some_injective e = some_injective (ok_injective e)

module _ (max_records : ℕ) (python : Python) (library : Library) (client : WsmanClient)
    (batch_size : ℕ) where
  abbrev run_round : Progress → Action Round
  run_round = round python library client max_records batch_size

  abbrev pub FaithfulFrom : Progress → List Call → List Call → Ended → Type 0
  FaithfulFrom = IsFaithfulFrom python library client max_records

  record IsHeard (p : Progress) (calls after : List Call) (decision : Round) : Type 0 where
    answer : Answer
    got_it :
        invoke_tolerating client "GetRecords"
          (get_records_params python library client max_records batch_size p)
          tolerated_by_get_records
          calls
        ≡ (ok answer, after)
    decided :
        Decided python library
          (says_done python library answer)
          (count_batch p)
          (take (max_records - p.consumed) (elements_of python library answer))
          decision

  round-IsHeard :
      (p : Progress) (calls : List Call) (decision : Round)
      → (run_round p calls).0 ≡ ok decision
      → IsHeard p calls (run_round p calls).1 decision
  unfolding round
  round-IsHeard p calls decision =
      let ask =
        invoke_tolerating client "GetRecords"
          (get_records_params python library client max_records batch_size p)
          tolerated_by_get_records in
      step_rule (λ r. r.0 ≡ ok decision → IsHeard p calls r.1 decision) ask calls _
        (λ e raised eq. absurd (raised_not_ok eq))
        (λ answer returned eq. record {
          answer = answer;
          got_it = ap (λ r. (r, (ask calls).1)) returned;
          decided =
              subst
                (Decided python library (says_done python library answer) (count_batch p)
                  (take (max_records - p.consumed) (elements_of python library answer)))
                (ok_injective eq)
                (after_get_records-Decided python library (max_records - p.consumed) answer.0
                  answer.1 (count_batch p));
        })

  Extends-count :
      (p q : Progress) (items : List String)
      → Extends python library (count_batch p) items q
      → Extends python library p items q
  Extends-count p q items h = record { records = h.records; consumed = h.consumed }

  -- one more answer before a run
  joined :
      (p q r : Progress) (answer : Answer) (answers : List Answer)
      → Extends python library p
          (take (max_records - p.consumed) (elements_of python library answer))
          q
      → Extends python library q
          (take (max_records - q.consumed) (offered python library answers))
          r
      → Extends python library p
          (take (max_records - p.consumed) (offered python library (answer ∷ answers)))
          r
  joined p q r answer answers h k =
      let n = max_records - p.consumed in
      let first = take n (elements_of python library answer) in
      let left : max_records - q.consumed ≡ n - length first = omega (arith, h.consumed) in
      subst (λ items. Extends python library p items r)
        (ap (λ m. first ++ take m (offered python library answers)) left
          ∙ sym
              (take_joined n (elements_of python library answer) (offered python library answers)))
        (Extends-append python library p q r first _ h k)

  abbrev pub LoopFaithful : Progress → List Call → Result (Option Ended) × List Call → Type 0
  LoopFaithful p calls r = (ended : Ended) → r.0 ≡ ok (some ended) → FaithfulFrom p calls r.1 ended

  ended-here :
      (p : Progress) (calls : List Call) (ended : Ended)
      → ended.complete ≡ false
      → Extends python library p [] ended.progress
      → FaithfulFrom p calls calls ended
  ended-here p calls ended c h = record {
    answers = [];
    run = nothing;
    complete = c;
    kept_all =
        subst (λ items. Extends python library p items ended.progress)
          (sym (take_nothing (max_records - p.consumed))) h;
  }

  go_on-Faithful :
      (rest : Progress → Action (Option Ended)) (p : Progress) (before calls : List Call)
      (decision : Round)
      → ((q : Progress) → LoopFaithful q calls (rest q calls))
      → IsHeard p before calls decision
      → LoopFaithful p before (go_on rest decision calls)
  unfolding go_on
  go_on-Faithful rest p before calls (break left) k h = λ ended eq.
      subst (FaithfulFrom p before calls) (ok_some_injective eq) record {
        answers = h.answer ∷ [];
        run = heard _ h.answer h.got_it nothing;
        complete = h.decided.0;
        kept_all =
            joined p left.progress left.progress h.answer []
              (Extends-count p left.progress _ h.decided.1)
              (subst (λ items. Extends python library left.progress items left.progress)
                (sym (take_nothing (max_records - left.progress.consumed)))
                (Extends-nothing python library left.progress));
      }
  go_on-Faithful rest p before calls (again q) k h = λ ended eq.
      let f = k q ended eq in
      record {
        answers = h.answer ∷ f.answers;
        run = heard _ h.answer h.got_it f.run;
        complete =
            f.complete ∙ sym (last_says_done-cons python library h.answer f.answers h.decided.0);
        kept_all =
            joined p q ended.progress h.answer f.answers (Extends-count p q _ h.decided.1)
              f.kept_all;
      }

  pub read_loop-Faithful :
      (fuel : ℕ) (p : Progress) (calls : List Call)
      → LoopFaithful p calls (read_loop python library client max_records batch_size fuel p calls)
  unfolding read_loop
  read_loop-Faithful zero p calls = λ ended e. absurd (nothing_not_ok e)
  read_loop-Faithful (suc fuel) p calls = elim (Bool-cases (leb max_records p.consumed)) [
    | inl e ↦ rw (e) (λ ended eq.
        subst (FaithfulFrom p calls calls) (ok_some_injective eq)
          (ended-here p calls _ refl (Extends-nothing python library p)))
    | inr e ↦ rw (e) (
        step_rule (LoopFaithful p calls) (run_round p) calls _
          (λ raised eq ended h. absurd (raised_not_ok h))
          (λ decision eq.
            go_on-Faithful (read_loop python library client max_records batch_size fuel) p calls
              (run_round p calls).1 decision (λ q. read_loop-Faithful fuel q (run_round p calls).1)
              (round-IsHeard p calls decision eq)))
  ]
