-- ===== src/Power/Receipts.antt =====
-- client.py, `request_power_state`: what the receipt says of the probes, and when there is one.
use ansible_collection_intel.Prelude.{
  ℕ, zero, suc, ◌+◌, ◌≤◌, ◌≡◌, refl, sym, ap, subst, true, false, Option, none, some, String, List,
  [], ◌∷◌, ◌++◌, length, length-append, All, str_eq, Bool-cases, inl, inr, arith,
}
use ansible_collection_intel.Errors.{Result, ok, ok_injective, raised_not_ok}
use ansible_collection_intel.Client.{Call, WsmanClient, Action, invoke, step_rule}
use ansible_collection_intel.Models.{Python}
use ansible_collection_intel.Models.State.{PowerState}
use ansible_collection_intel.Power.Request.{
  PowerAction, expected_state, power_params, power_service_class, Probed, OperationReceipt,
  receipt_of, get_power_state, probe, after_probe, probe_loop, request_power_state,
}

abbrev pub last_of {ℓ} : {A : Type ℓ} → List A → Option A
last_of [] = none
last_of (x ∷ []) = some x
last_of (x ∷ (y ∷ ys)) = last_of (y ∷ ys)

-- all but the last
abbrev pub front_of {ℓ} : {A : Type ℓ} → List A → List A
front_of [] = []
front_of (x ∷ []) = []
front_of (x ∷ (y ∷ ys)) = x ∷ front_of (y ∷ ys)

last_of-append {ℓ} : {A : Type ℓ} (xs : List A) (x : A) → last_of (xs ++ x ∷ []) ≡ some x
last_of-append [] x = refl
last_of-append (y ∷ []) x = refl
last_of-append (y ∷ (z ∷ zs)) x = last_of-append (z ∷ zs) x

front_of-append {ℓ} : {A : Type ℓ} (xs : List A) (x : A) → front_of (xs ++ x ∷ []) ≡ xs
front_of-append [] x = refl
front_of-append (y ∷ []) x = refl
front_of-append (y ∷ (z ∷ zs)) x = ap (λ t. y ∷ t) (front_of-append (z ∷ zs) x)

All-append_one {ℓ κ} :
    {A : Type ℓ} (P : A → Type κ) (xs : List A) (x : A) → All P xs → P x → All P (xs ++ x ∷ [])
All-append_one P [] x h p = (p, tt)
All-append_one P (y ∷ xs) x h p = (h.0, All-append_one P xs x h.1 p)

All-front_of {ℓ κ} : {A : Type ℓ} (P : A → Type κ) (xs : List A) → All P xs → All P (front_of xs)
All-front_of P [] h = tt
All-front_of P (x ∷ []) h = tt
All-front_of P (x ∷ (y ∷ ys)) h = (h.0, All-front_of P (y ∷ ys) h.1)

-- the state is not the one waited for
abbrev pub IsOther : String → PowerState → Type 0
IsOther expected state = str_eq state.normalized expected ≡ false

-- What the probes saw: the last is the state that is reported, all before it were others than the
-- one waited for, and there are at most `bound`.
pub record IsWatch (expected : String) (bound : ℕ) (seen : Probed) : Type 0 where
  pub latest : seen.observed ≡ last_of seen.probes
  pub earlier : All (IsOther expected) (front_of seen.probes)
  pub few : length seen.probes ≤ bound

-- the same while the loop runs: none was the one waited for
record IsOpenWatch (expected : String) (bound : ℕ) (seen : Probed) : Type 0 where
  latest_open : seen.observed ≡ last_of seen.probes
  others : All (IsOther expected) seen.probes
  few_open : length seen.probes ≤ bound

pub record IsReceipt (poll_count : ℕ) (action : PowerAction) (receipt : OperationReceipt)
    : Type 0 where
  pub is_changed : receipt.changed ≡ true
  pub is_desired : receipt.desired ≡ expected_state action
  pub is_observed : receipt.observed_state ≡ last_of receipt.probe_list
  pub waited : All (IsOther (expected_state action)) (front_of receipt.probe_list)
  pub bounded : length receipt.probe_list ≤ poll_count

module _ (python : Python) (client : WsmanClient) where
  -- what holds of the loop's result
  abbrev WatchOk : String → ℕ → Result Probed × List Call → Type 0
  WatchOk expected bound r = (seen : Probed) → r.0 ≡ ok seen → IsWatch expected bound seen

  close :
      (expected : String) (bound : ℕ) (seen : Probed)
      → IsOpenWatch expected bound seen
      → IsWatch expected bound seen
  close expected bound seen h = record {
    latest = h.latest_open;
    earlier = All-front_of (IsOther expected) seen.probes h.others;
    few = h.few_open;
  }

  after_probe-watch :
      (expected : String) (bound left : ℕ) (again : Probed → Action Probed) (seen : Probed)
      (state : Option PowerState) (calls : List Call)
      → ((now : Probed)
          → length now.probes + left ≤ bound
          → IsOpenWatch expected bound now
          → WatchOk expected bound (again now calls))
      → length seen.probes + suc left ≤ bound
      → IsOpenWatch expected bound seen
      → WatchOk expected bound (after_probe python client expected again seen state calls)
  unfolding after_probe
  after_probe-watch expected bound left again seen none calls k room h =
      k seen (omega (arith, room)) h
  after_probe-watch expected bound left again seen (some state) calls k room h =
      let counted = length-append seen.probes (state ∷ []) in
      elim (Bool-cases (str_eq state.normalized expected)) [
        | inl e ↦ rw (e) (λ final eq. subst (IsWatch expected bound) (ok_injective eq) record {
          latest = sym (last_of-append seen.probes state);
          earlier =
              subst (All (IsOther expected)) (sym (front_of-append seen.probes state)) h.others;
          few = omega (arith, counted, room);
        })
        | inr e ↦ rw (e) (
            k _ (omega (arith, counted, room)) record {
              latest_open = sym (last_of-append seen.probes state);
              others = All-append_one (IsOther expected) seen.probes state h.others e;
              few_open = omega (arith, counted, room);
            })
      ]

  probe_loop-watch :
      (left : ℕ) (expected : String) (bound : ℕ) (seen : Probed) (calls : List Call)
      → length seen.probes + left ≤ bound
      → IsOpenWatch expected bound seen
      → WatchOk expected bound (probe_loop python client left expected seen calls)
  unfolding probe_loop
  probe_loop-watch zero expected bound seen calls room h =
      λ final eq. subst (IsWatch expected bound) (ok_injective eq) (close expected bound seen h)
  probe_loop-watch (suc left) expected bound seen calls room h =
      step_rule (WatchOk expected bound) (probe python client) calls _
        (λ e raised final eq. absurd (raised_not_ok eq))
        (λ state returned.
          after_probe-watch expected bound left (probe_loop python client left expected) seen state
            (probe python client calls).1
            (λ now fits opened.
              probe_loop-watch left expected bound now (probe python client calls).1 fits opened)
            room h)

  receipt_of-watch :
      (poll_count : ℕ) (action : PowerAction) (previous : PowerState) (seen : Probed)
      → IsWatch (expected_state action) poll_count seen
      → IsReceipt poll_count action (receipt_of action previous seen)
  receipt_of-watch poll_count action previous seen h = record {
    is_changed = refl;
    is_desired = refl;
    is_observed = h.latest;
    waited = h.earlier;
    bounded = h.few;
  }

  abbrev Reports : ℕ → PowerAction → OperationReceipt → Result OperationReceipt × List Call → Type 0
  Reports poll_count action receipt r = r.0 ≡ ok receipt → IsReceipt poll_count action receipt

  -- For every firmware, number of probes and action: a receipt that is returned says that the request
  -- changed something and names the state to wait for; the state observed is that of the last probe;
  -- all probes before it saw another state than the one waited for; and there are at most poll_count.
  pub request_power_state-IsReceipt :
      (poll_count : ℕ) (action : PowerAction) (calls : List Call) (receipt : OperationReceipt)
      → (request_power_state python client poll_count action calls).0 ≡ ok receipt
      → IsReceipt poll_count action receipt
  unfolding request_power_state
  request_power_state-IsReceipt poll_count action calls receipt =
      step_rule (Reports poll_count action receipt) (get_power_state python client) calls _
        (λ e raised eq. absurd (raised_not_ok eq))
        (λ previous read.
          step_rule (Reports poll_count action receipt)
            (invoke client power_service_class "RequestPowerStateChange" (power_params action) [])
            (get_power_state python client calls).1 _ (λ e raised eq. absurd (raised_not_ok eq))
            (λ output accepted.
              step_rule (Reports poll_count action receipt)
                (probe_loop python client poll_count (expected_state action)
                  record { probes = []; observed = none })
                _ _ (λ e raised eq. absurd (raised_not_ok eq))
                (λ seen watched eq. subst (IsReceipt poll_count action) (ok_injective eq) (
                  receipt_of-watch poll_count action previous seen (
                    probe_loop-watch poll_count (expected_state action) poll_count _ _ (omega arith)
                      record { latest_open = refl; others = tt; few_open = omega arith } seen
                      watched)))))
