-- ===== src/Boot/Mutations.antt =====
-- boot.py `arm_one_time_boot` as a whole: it changes nothing in the firmware unless the target was
-- acknowledged, planned, discovered and read, and then it runs the steps in their order.
use ansible_collection_intel.Prelude.{
  Bool, true, false, not, Option, none, some, String, List, [], ◌∷◌, ◌++◌, ◌≡◌, refl, sym, ap, ◌∙◌,
  ◌⊎◌, inl, inr, take, append-nil, lookup,
}
use ansible_collection_intel.Errors.{
  Error, Result, ok, err, refuse, invalid_state, unsupported_capability,
}
use ansible_collection_intel.Client.{
  Instance, Call, enumerated, got, WsmanClient, step_rule, enumerate, get, lift,
}
use ansible_collection_intel.Boot.Plan.{BootPlan, build_boot_plan, boot_source_instance_id_of}
use ansible_collection_intel.Boot.Discovery.{
  discover_and_validate, check_sources, matching, only, required, truthy,
  capability_field_by_target,
}
use ansible_collection_intel.Boot.Settings.{build_put_properties}
use ansible_collection_intel.Boot.Arm.{
  BootArmResult, arm_result, arm_steps, arm_one_time_boot, no_token,
}
use ansible_collection_intel.Boot.Order.{
  mutations, mutating_steps, mutations-append, IsBegun, arm_steps-IsBegun,
}

-- Discovery only enumerates.
module _ (client : WsmanClient) (fold : String → String) (target : String) where
  mutations-check_sources :
      (id : Option String) (calls : List Call)
      → mutations (check_sources client id calls).1 ≡ mutations calls
  unfolding check_sources enumerate
  mutations-check_sources none calls = refl
  mutations-check_sources (some id) calls =
      let name : String = "CIM_BootSourceSetting" in
      let h = mutations-append calls (enumerated name ∷ []) ∙ append-nil _ in
      let Q : Result (Unit {0}) × List Call → Type 0 = λ p. mutations p.1 ≡ mutations calls in
      step_rule Q (enumerate client name) calls _ (λ e q. h)
        (λ sources q.
          step_rule Q (lift (only (matching id sources))) (calls ++ enumerated name ∷ []) _
            (λ e r. h) (λ source r. h))

  mutations-discover_and_validate :
      (calls : List Call)
      → mutations (discover_and_validate client fold target calls).1 ≡ mutations calls
  unfolding discover_and_validate enumerate
  mutations-discover_and_validate calls =
      let name : String = "AMT_BootCapabilities" in
      let after : List Call = calls ++ enumerated name ∷ [] in
      let h = mutations-append calls (enumerated name ∷ []) ∙ append-nil _ in
      let Q : Result (Unit {0}) × List Call → Type 0 = λ p. mutations p.1 ≡ mutations calls in
      step_rule Q (enumerate client name) calls _ (λ e q. h)
        (λ instances q.
          step_rule Q (lift (only instances)) after _ (λ e r. h)
            (λ capabilities r.
              step_rule Q (lift (required (lookup target capability_field_by_target))) after _
                (λ e s. h)
                (λ field s.
                  step_rule Q
                    (lift (
                      refuse (not (truthy fold (lookup field capabilities)))
                        unsupported_capability))
                    after _ (λ e t. h)
                    (λ u t.
                      mutations-check_sources (lookup target boot_source_instance_id_of) after
                      ∙ h))))

module _ (client : WsmanClient) (fold : String → String) (target : String) (token : Option String)
    (check_mode : Bool) where
  -- Nothing was changed; if a result is returned, this was a dry run, and the result says so.
  pub record IsUntouched (p : Result BootArmResult × List Call) : Type 0 where
    pub unchanged : mutations p.1 ≡ []
    pub dry : (r : BootArmResult) → p.0 ≡ ok r → (check_mode ≡ true) × (r.mutated ≡ false)

  -- The steps were begun, in their order, all of them if a result is returned; and before them
  -- everything else had been checked.
  pub record IsArmed (p : Result BootArmResult × List Call) : Type 0 where
    pub plan : BootPlan
    pub previous : Instance
    pub calls : List Call
    pub steps : IsBegun plan (build_put_properties previous plan) [] p
    pub acknowledged : no_token token ≡ false
    pub not_dry : check_mode ≡ false
    pub planned : build_boot_plan target ≡ ok plan
    pub discovered : discover_and_validate client fold target [] ≡ (ok tt, calls)
    pub read : client.answer_get calls "AMT_BootSettingData" ≡ ok previous

  abbrev Outcome : Result BootArmResult × List Call → Type 0
  Outcome p = IsUntouched p ⊎ IsArmed p

  untouched : (e : Error) (calls : List Call) → mutations calls ≡ [] → Outcome (err e, calls)
  untouched e calls h = inl (record { unchanged = h; dry = λ r q. cc })

dry_result :
    {plan : BootPlan} {previous properties observed : Instance} {r : BootArmResult}
    → ok (arm_result plan previous properties observed false) ≡ ok r
    → r.mutated ≡ false
dry_result {plan} {previous} {properties} {observed} {r} q = ap mutated_of (sym q)
  where
    mutated_of : Result BootArmResult → Bool
    mutated_of (ok x) = x.mutated
    mutated_of (err e) = true

-- The steps after the read, in a dry run or not.
arm_steps-Outcome :
    (client : WsmanClient) (fold : String → String) (target : String) (token : Option String)
    (check_mode : Bool) (plan : BootPlan) (previous : Instance) (discovery : List Call)
    → mutations discovery ≡ []
    → no_token token ≡ false
    → build_boot_plan target ≡ ok plan
    → discover_and_validate client fold target [] ≡ (ok tt, discovery)
    → client.answer_get discovery "AMT_BootSettingData" ≡ ok previous
    → Outcome client fold target token check_mode (
        arm_steps client plan previous
          (build_put_properties previous plan)
          check_mode
          (discovery ++ got "AMT_BootSettingData" ∷ []))
unfolding arm_steps
arm_steps-Outcome client fold target token true plan previous discovery h t b d g = inl (record {
  unchanged = mutations-append discovery (got "AMT_BootSettingData" ∷ []) ∙ append-nil _ ∙ h;
  dry = λ r q. (refl, dry_result q);
})
arm_steps-Outcome client fold target token false plan previous discovery h t b d g =
    let calls : List Call = discovery ++ got "AMT_BootSettingData" ∷ [] in
    let none_yet : mutations calls ≡ [] =
      mutations-append discovery (got "AMT_BootSettingData" ∷ []) ∙ append-nil _ ∙ h in
    let s = arm_steps-IsBegun client plan previous (build_put_properties previous plan) calls in
    inr (record {
      plan = plan;
      previous = previous;
      calls = discovery;
      steps = record {
        count = s.count;
        begun =
            s.begun
            ∙ ap (λ x. x ++ take s.count (mutating_steps plan (build_put_properties previous plan)))
                none_yet;
        finished = s.finished;
      };
      acknowledged = t;
      not_dry = refl;
      planned = b;
      discovered = d;
      read = g;
    })

-- For every client, whatever it answers, and every target, token and mode, from no earlier calls:
-- either no mutating call is made, and a result is returned in check mode only; or the token is not
-- empty, check mode is off, the target has a plan, discovery and the first Get have succeeded, and
-- the mutating calls made are a first part of clear, put, set the role, set the order, the whole of
-- it where a result is returned.
pub arm_one_time_boot-Outcome :
    (client : WsmanClient) (fold : String → String) (target : String) (token : Option String)
    (check_mode : Bool)
    → IsUntouched client fold target token check_mode
        (arm_one_time_boot client fold target token check_mode [])
      ⊎ IsArmed client fold target token check_mode
          (arm_one_time_boot client fold target token check_mode [])
unfolding arm_one_time_boot get
arm_one_time_boot-Outcome client fold target token check_mode =
    let Q = Outcome client fold target token check_mode in
    let fail = untouched client fold target token check_mode in
    step_rule Q (lift (refuse (no_token token) invalid_state)) [] _ (λ e q. fail e [] refl)
      (λ u t.
        step_rule Q (lift (build_boot_plan target)) [] _ (λ e q. fail e [] refl)
          (λ plan b.
            let after : List Call = (discover_and_validate client fold target []).1 in
            let h = mutations-discover_and_validate client fold target [] in
            step_rule Q (discover_and_validate client fold target) [] _ (λ e q. fail e after h)
              (λ v d.
                step_rule Q (get client "AMT_BootSettingData") after _
                  (λ e q.
                    fail e _
                      (mutations-append after (got "AMT_BootSettingData" ∷ []) ∙ append-nil _ ∙ h))
                  (λ previous g.
                    arm_steps-Outcome client fold target token check_mode plan previous after h
                      (accepted (no_token token) t) b (ap (λ r. (r, after)) d) g))))
  where
    accepted : (b : Bool) → refuse b invalid_state ≡ ok tt → b ≡ false
    accepted true q = cc
    accepted false q = refl
