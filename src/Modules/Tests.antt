-- ===== src/Modules/Tests.antt =====
-- plugins/modules: runs against a machine that is on and a log that holds a record.
use ansible_collection_intel.Prelude.{◌≡◌, refl, pos, true, false, some, [], ◌∷◌}
use ansible_collection_intel.Errors.{ok}
use ansible_collection_intel.Client.{text, WsmanClient}
use ansible_collection_intel.Models.Sample.{decimal_python}
use ansible_collection_intel.Modules.Power.{run_power, planned}
use ansible_collection_intel.Modules.PowerRuns.{IsPowerRun, run_power-IsPowerRun}
use ansible_collection_intel.Modules.LogClear.{run_clear}
use ansible_collection_intel.Modules.ClearRuns.{IsClearRun, run_clear-IsClearRun}

abbrev powered_on : WsmanClient
powered_on = record {
  answer_enumerate = λ calls name. ok [];
  answer_get =
      λ calls name. ok (("PowerState", text "2") ∷ ("CurrentNumberOfRecords", text "18") ∷ []);
  answer_select = λ calls name selectors. ok [];
  answer_put = λ calls name properties. ok properties;
  answer_invoke = λ calls name method params selectors. ok [];
}

run_power-IsPowerRun_example :
    IsPowerRun decimal_python powered_on 5 "on" false []
      (run_power decimal_python powered_on 5 "on" false [])
run_power-IsPowerRun_example = run_power-IsPowerRun decimal_python powered_on 5 "on" false []

already_on :
    (run_power decimal_python powered_on 5 "on" false []).0
    ≡ ok (
        planned
          record { normalized = "on"; raw = pos 2 }
          record { changed = false; desired = some "on" })
unfolding run_power
already_on = refl

run_clear-IsClearRun_example :
    IsClearRun true false [] (run_clear decimal_python powered_on true false [])
run_clear-IsClearRun_example = run_clear-IsClearRun decimal_python powered_on true false []

cleared_log :
    (run_clear decimal_python powered_on true false []).0
    ≡ ok record {
      changed = true;
      records_before = some (pos 18);
      records_after = some (pos 18);
      cleared = true;
      return_value = some 0;
    }
unfolding run_clear
cleared_log = refl
