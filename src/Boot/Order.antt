-- ===== src/Boot/Order.antt =====
-- boot.py `arm_one_time_boot`: which calls it makes and in which order, whatever the firmware
-- answers.
use ansible_collection_intel.Prelude.{
  ℕ, suc, Bool, true, false, List, [], ◌∷◌, ◌++◌, ◌≡◌, refl, sym, ap, ◌∙◌, take, append-nil,
  append_assoc,
}
use ansible_collection_intel.Errors.{Error, Result, ok, err}
use ansible_collection_intel.Client.{
  null, Instance, Call, enumerated, got, selected, put_instance, invoked, WsmanClient, Action,
  resume_rule, get, put, invoke, ◌>>=◌,
}
use ansible_collection_intel.Boot.Plan.{BootPlan}
use ansible_collection_intel.Boot.Arm.{
  BootArmResult, arm_result, arm_steps, config_selector, source_selector, source_param, role_params,
}

-- The calls that change firmware state, in the order made.
abbrev pub mutations : List Call → List Call
mutations [] = []
mutations (enumerated name ∷ calls) = mutations calls
mutations (got name ∷ calls) = mutations calls
mutations (selected name selectors ∷ calls) = mutations calls
mutations (put_instance name properties ∷ calls) = put_instance name properties ∷ mutations calls
mutations (invoked name method params selectors ∷ calls) =
    invoked name method params selectors ∷ mutations calls

abbrev clear_call : Call
clear_call =
    invoked "CIM_BootConfigSetting" "ChangeBootOrder" (("Source", null) ∷ []) config_selector

abbrev store_call : Instance → Call
store_call properties = put_instance "AMT_BootSettingData" properties

abbrev role_call : Call
role_call = invoked "CIM_BootService" "SetBootConfigRole" role_params []

abbrev order_call : BootPlan → Call
order_call plan =
    invoked "CIM_BootConfigSetting" "ChangeBootOrder"
      (("Source", source_param (source_selector plan.boot_source_instance_id)) ∷ []) config_selector

-- Steps 2 to 5: clear the boot order, put the settings, set the one-shot role, set the boot order.
abbrev pub mutating_steps : BootPlan → Instance → List Call
mutating_steps plan properties =
    clear_call ∷ store_call properties ∷ role_call ∷ order_call plan ∷ []

pub mutations-append : (a b : List Call) → mutations (a ++ b) ≡ mutations a ++ mutations b
mutations-append [] b = refl
mutations-append (enumerated name ∷ a) b = mutations-append a b
mutations-append (got name ∷ a) b = mutations-append a b
mutations-append (selected name selectors ∷ a) b = mutations-append a b
mutations-append (put_instance name properties ∷ a) b =
    ap (λ x. put_instance name properties ∷ x) (mutations-append a b)
mutations-append (invoked name method params selectors ∷ a) b =
    ap (λ x. invoked name method params selectors ∷ x) (mutations-append a b)

-- Some number of the steps has been begun, all four where the result is returned.
pub record IsBegun (plan : BootPlan) (properties : Instance) (calls : List Call)
    (p : Result BootArmResult × List Call) : Type 0 where
  pub count : ℕ
  pub begun : mutations p.1 ≡ mutations calls ++ take count (mutating_steps plan properties)
  pub finished : (r : BootArmResult) → p.0 ≡ ok r → (count ≡ 4) × (r.mutated ≡ true)

done_mutated :
    {plan : BootPlan} {previous properties observed : Instance} {r : BootArmResult}
    → ok (arm_result plan previous properties observed true) ≡ ok r
    → r.mutated ≡ true
done_mutated {plan} {previous} {properties} {observed} {r} q = ap mutated_of (sym q)
  where
    mutated_of : Result BootArmResult → Bool
    mutated_of (ok x) = x.mutated
    mutated_of (err e) = false

module _ (client : WsmanClient) (plan : BootPlan) (previous properties : Instance)
    (calls : List Call) where
  threw :
      (count : ℕ) (e : Error) (after : List Call)
      → mutations after ≡ mutations calls ++ take count (mutating_steps plan properties)
      → IsBegun plan properties calls (err e, after)
  threw count e after h = record { count = count; begun = h; finished = λ r q. cc }

  -- A step that has been begun counts, whether or not it returns.
  step :
      (count : ℕ) (m : Action Instance) (before : List Call) (f : Instance → Action BootArmResult)
      → mutations (m before).1 ≡ mutations calls ++ take count (mutating_steps plan properties)
      → ((a : Instance) → IsBegun plan properties calls (f a (m before).1))
      → IsBegun plan properties calls ((m >>= f) before)
  step count m before f h rest =
      resume_rule (IsBegun plan properties calls) (m before).0 (m before).1 f
        (λ e q. threw count e (m before).1 h) (λ a q. rest a)

  abbrev clear : Action Instance
  clear =
      invoke client "CIM_BootConfigSetting" "ChangeBootOrder" (("Source", null) ∷ [])
        config_selector

  abbrev store : Action Instance
  store = put client "AMT_BootSettingData" properties

  abbrev set_role : Action Instance
  set_role = invoke client "CIM_BootService" "SetBootConfigRole" role_params []

  abbrev set_order : Action Instance
  set_order =
      invoke client "CIM_BootConfigSetting" "ChangeBootOrder"
        (("Source", source_param (source_selector plan.boot_source_instance_id)) ∷ [])
        config_selector

  abbrev observe : Action Instance
  observe = get client "AMT_BootSettingData"

  extend :
      (before : List Call) (count : ℕ) (next : Call)
      → mutations before ≡ mutations calls ++ take count (mutating_steps plan properties)
      → take count (mutating_steps plan properties) ++ mutations (next ∷ [])
        ≡ take (suc count) (mutating_steps plan properties)
      → mutations (before ++ next ∷ [])
        ≡ mutations calls ++ take (suc count) (mutating_steps plan properties)
  extend before count next h k =
      mutations-append before (next ∷ [])
      ∙ ap (λ x. x ++ mutations (next ∷ [])) h
      ∙ append_assoc (mutations calls) (take count (mutating_steps plan properties))
          (mutations (next ∷ []))
      ∙ ap (λ x. mutations calls ++ x) k

  pub arm_steps-IsBegun :
      IsBegun plan properties calls (arm_steps client plan previous properties false calls)
  unfolding arm_steps invoke put get
  arm_steps-IsBegun =
      let c₁ : List Call = calls ++ clear_call ∷ [] in
      let c₂ : List Call = c₁ ++ store_call properties ∷ [] in
      let c₃ : List Call = c₂ ++ role_call ∷ [] in
      let c₄ : List Call = c₃ ++ order_call plan ∷ [] in
      let h₁ = extend calls 0 clear_call (sym (append-nil (mutations calls))) refl in
      let h₂ = extend c₁ 1 (store_call properties) h₁ refl in
      let h₃ = extend c₂ 2 role_call h₂ refl in
      let h₄ = extend c₃ 3 (order_call plan) h₃ refl in
      let h₅ = mutations-append c₄ (got "AMT_BootSettingData" ∷ []) ∙ append-nil _ ∙ h₄ in
      step 1 clear calls _ h₁ (λ r₁. step 2 store c₁ _ h₂ (λ r₂. step 3 set_role c₂ _ h₃ (λ r₃.
        step 4 set_order c₃ _ h₄ (λ r₄.
          step 4 observe c₄ _ h₅
            (λ r₅. record { count = 4; begun = h₅; finished = λ r q. (refl, done_mutated q) })))))
