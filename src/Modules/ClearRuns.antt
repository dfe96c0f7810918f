-- ===== src/Modules/ClearRuns.antt =====
-- modules/amt_log_clear.py: when a run of the module clears the log, and how often.
use ansible_collection_intel.Prelude.{
  ◌≡◌, refl, sym, subst, ◌⊎◌, inl, inr, ℤ, Bool, true, false, not, ◌&&◌, Option, List, [], ◌∷◌,
  ◌++◌, ℕ, Bool-cases,
}
use ansible_collection_intel.Errors.{Result, ok, err, invalid_state}
use ansible_collection_intel.Client.{
  Instance, Call, invoked, WsmanClient, resume, lift, invoke, step_rule,
}
use ansible_collection_intel.Client.Made.{Made, Makes, Makes-lift}
use ansible_collection_intel.Models.{Python}
use ansible_collection_intel.MessageLog.Container.{get_log_properties, clear_log}
use ansible_collection_intel.MessageLog.Calls.{IsReadCall, Makes-get_log_properties}
use ansible_collection_intel.Modules.LogClear.{
  plan_clear, ClearExit, clear_and_read, preview_clear, clear_if_planned, run_clear,
}

-- Calls that only read the log's container, or its first position.
abbrev pub IsLook : Call → Type 0
IsLook = IsReadCall 0

abbrev pub clear_call : Call
clear_call = invoked "AMT_MessageLog" "ClearLog" [] []

-- Nothing was cleared, or the log was cleared once, behind a look and before another.
abbrev pub IsClearedOnce : List Call → List Call → Type 0
IsClearedOnce before after =
    (Made IsLook before after)
    ⊎ ((middle : List Call) × (Made IsLook before middle)
        × (Made IsLook (middle ++ clear_call ∷ []) after))

pub record IsClearRun (confirmed check_mode : Bool) (calls : List Call)
    (r : Result ClearExit × List Call) : Type 0 where
  pub unconfirmed : confirmed ≡ false → r ≡ (err invalid_state, calls)
  pub previewed : check_mode ≡ true → Made IsLook calls r.1
  pub once : IsClearedOnce calls r.1

module _ (python : Python) (client : WsmanClient) where
  look : Makes IsLook (get_log_properties client python)
  look = Makes-get_log_properties 0 client python

  after_lift :
      (r : Result Instance) (s : List Call) → (resume r s (λ output. lift {A = ℕ} (ok 0))).1 ≡ s
  after_lift (ok output) s = refl
  after_lift (err e) s = refl

  clear_log-calls : (calls : List Call) → (clear_log client calls).1 ≡ calls ++ clear_call ∷ []
  unfolding clear_log invoke
  clear_log-calls calls =
      after_lift (client.answer_invoke calls "AMT_MessageLog" "ClearLog" [] [])
        (calls ++ clear_call ∷ [])

  no_calls : (calls : List Call) → Made IsLook calls calls
  no_calls calls =
      let nothing : Result (Unit {0}) = ok tt in (Makes-lift IsLook nothing).calls_of calls

  relook :
      (calls : List Call)
      → Made IsLook
          (calls ++ clear_call ∷ [])
          (get_log_properties client python (clear_log client calls).1).1
  relook calls =
      subst
        (λ after. Made IsLook (calls ++ clear_call ∷ []) (get_log_properties client python after).1)
        (sym (clear_log-calls calls)) (look.calls_of (calls ++ clear_call ∷ []))

  clear_and_read-once :
      (before : List Call) (records_before : Option ℤ) (calls : List Call)
      → Made IsLook before calls
      → IsClearedOnce before (clear_and_read python client records_before calls).1
  unfolding clear_and_read
  clear_and_read-once before records_before calls h =
      step_rule (λ r. IsClearedOnce before r.1) (clear_log client) calls _
        (λ e raised. inr (
          calls,
          h,
          subst (Made IsLook (calls ++ clear_call ∷ [])) (sym (clear_log-calls calls))
              (no_calls (calls ++ clear_call ∷ [])),
        ))
        (λ return_value cleared.
          step_rule (λ r. IsClearedOnce before r.1) (get_log_properties client python)
            (clear_log client calls).1 _ (λ e raised. inr (calls, h, relook calls))
            (λ after read. inr (calls, h, relook calls)))

  clear_if_planned-once :
      (check_mode : Bool) (before : List Call) (records_before : Option ℤ) (calls : List Call)
      → Made IsLook before calls
      → IsClearedOnce before (clear_if_planned python client check_mode records_before calls).1
  unfolding clear_if_planned preview_clear
  clear_if_planned-once check_mode before records_before calls h =
      elim (Bool-cases (plan_clear records_before && not check_mode)) [
        | inl e ↦ rw (e) (clear_and_read-once before records_before calls h)
        | inr e ↦ rw (e) (inl h)
      ]

  and_not-true : (b : Bool) → (b && not true) ≡ false
  and_not-true true = refl
  and_not-true false = refl

  clear_if_planned-previewed :
      (before : List Call) (records_before : Option ℤ) (calls : List Call)
      → Made IsLook before calls
      → Made IsLook before (clear_if_planned python client true records_before calls).1
  unfolding clear_if_planned preview_clear
  clear_if_planned-previewed before records_before calls h =
      rw (and_not-true (plan_clear records_before)) h

  -- For every firmware: a run without the confirmation is refused before any call is made; a run in
  -- check mode makes only calls that read; and every run, whether it succeeds or fails, clears the
  -- log at most once, behind a read of the log and with nothing but reads around it.
  pub run_clear-IsClearRun :
      (confirmed check_mode : Bool) (calls : List Call)
      → IsClearRun confirmed check_mode calls (run_clear python client confirmed check_mode calls)
  unfolding run_clear
  run_clear-IsClearRun false check_mode calls = record {
    unconfirmed = λ e. refl;
    previewed = λ e. no_calls calls;
    once = inl (no_calls calls);
  }
  run_clear-IsClearRun true check_mode calls = record {
    unconfirmed = λ e. cc;
    previewed = λ e. rw (e) (
        step_rule (λ r. Made IsLook calls r.1) (get_log_properties client python) calls _
          (λ raised eq. look.calls_of calls)
          (λ properties eq.
            clear_if_planned-previewed calls properties.current_number_of_records _
              (look.calls_of calls)));
    once =
        step_rule (λ r. IsClearedOnce calls r.1) (get_log_properties client python) calls _
          (λ raised eq. inl (look.calls_of calls))
          (λ properties eq.
            clear_if_planned-once check_mode calls properties.current_number_of_records _
              (look.calls_of calls));
  }
