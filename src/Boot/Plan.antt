-- ===== src/Boot/Plan.antt =====
-- boot.py: the boot targets, `BootPlan` and `build_boot_plan`.
use ansible_collection_intel.Prelude.{
  ℕ, Bool, true, false, ◌&&◌, Option, none, some, String, [], ◌∷◌, Dict, lookup, if◌then◌else◌,
}
use ansible_collection_intel.Errors.{Result, ok, err, invalid_state, value_error}

abbrev pub boot_source_instance_id_of : Dict String
boot_source_instance_id_of =
    ("pxe", "Intel(r) AMT: Force PXE Boot")
    ∷ ("hdd", "Intel(r) AMT: Force Hard-drive Boot")
    ∷ ("cd", "Intel(r) AMT: Force CD/DVD Boot")
    ∷ []

pub record BootPlan : Type 0 where
  pub target : String
  pub boot_source_instance_id : Option String
  pub use_ider : Bool
  pub ider_boot_device : ℕ
  pub bios_setup : Bool

abbrev pub is_some {ℓ} : {A : Type ℓ} → Option A → Bool
is_some none = false
is_some (some a) = true

-- `BootPlan(…)` with `__post_init__`
unfoldable pub boot_plan : String → Option String → Bool → ℕ → Bool → Result BootPlan
boot_plan target source use_ider device bios_setup =
    if use_ider && is_some source
    then err invalid_state
    else ok (record {
      target = target;
      boot_source_instance_id = source;
      use_ider = use_ider;
      ider_boot_device = device;
      bios_setup = bios_setup;
    })

-- A row of `_TARGET_SPECS`.
pub record TargetSpec : Type 0 where
  pub boot_source_instance_id : Option String
  pub use_ider : Bool
  pub ider_boot_device : ℕ
  pub bios_setup : Bool

abbrev target_spec : Option String → Bool → ℕ → Bool → TargetSpec
target_spec source use_ider device bios_setup = record {
  boot_source_instance_id = source;
  use_ider = use_ider;
  ider_boot_device = device;
  bios_setup = bios_setup;
}

unfoldable pub target_specs : Dict TargetSpec
unfolding lookup
target_specs =
    ("pxe", target_spec (lookup "pxe" boot_source_instance_id_of) false 0 false)
    ∷ ("hdd", target_spec (lookup "hdd" boot_source_instance_id_of) false 0 false)
    ∷ ("cd", target_spec (lookup "cd" boot_source_instance_id_of) false 0 false)
    ∷ ("bios", target_spec none false 0 true)
    ∷ ("ider_floppy", target_spec none true 0 false)
    ∷ ("ider_cdrom", target_spec none true 1 false)
    ∷ []

unfoldable pub plan_of_spec : String → Option TargetSpec → Result BootPlan
unfolding boot_plan
plan_of_spec target none = err value_error
plan_of_spec target (some spec) =
    boot_plan target spec.boot_source_instance_id spec.use_ider spec.ider_boot_device
      spec.bios_setup

-- `build_boot_plan`
unfoldable pub build_boot_plan : String → Result BootPlan
unfolding plan_of_spec target_specs lookup
build_boot_plan target = plan_of_spec target (lookup target target_specs)
