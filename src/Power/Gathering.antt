-- ===== src/Power/Gathering.antt =====
-- client.py, `get_facts`: what it calls, and what can make it fail.
use ansible_collection_intel.Prelude.{
  ◌≡◌, ◌≢◌, true_not_false, ap, ◌∙◌, false, Option, none, some, String, List, [], Dict,
}
use ansible_collection_intel.Errors.{
  Error, protocol, unsupported_capability, ok, err, err_injective, ok_not_raised,
}
use ansible_collection_intel.Client.{
  Call, enumerated, got, selected, WsmanClient, Action, ◌>>=◌, lift, attempt, get, select,
  enumerate, step_rule,
}
use ansible_collection_intel.Client.Made.{
  Made, Makes, Makes-lift, Makes-bind, Makes-attempt, Makes-get, Makes-select, Makes-enumerate,
}
use ansible_collection_intel.Models.{Python, get_value, optional_str}
use ansible_collection_intel.MessageLog.Container.{is_degradable, degrade}
use ansible_collection_intel.MessageLog.Available.{degraded-error}
use ansible_collection_intel.Power.Request.{managed_system_selector}
use ansible_collection_intel.Power.Facts.{
  HexText, get_optional, enumerate_optional, first_version, amt_version_of, or_enumerated_version,
  uuid_of_value, get_bios_version, get_amt_version, get_system_uuid,
}
use ansible_collection_intel.Power.Gather.{
  ethernet_port_0_selector, get_if_any, select_optional, read_sources, get_facts,
}

-- A call that observes.
abbrev pub IsObservation : Call → Type 0
IsObservation (got name) = Unit
IsObservation (enumerated name) = Unit
IsObservation (selected name selectors) = Unit
IsObservation _ = ⊥

-- An action that only observes, and that no missing class makes fail.
pub record Gathers {A : Type 0} (m : Action A) : Type 0 where
  pub observes : (before : List Call) → Made IsObservation before (m before).1
  pub degrades : (before : List Call) (e : Error) → (m before).0 ≡ err e → is_degradable e ≡ false

Gathers-ok : {A : Type 0} (a : A) → Gathers (lift (ok a))
Gathers-ok a = record {
  observes = (Makes-lift IsObservation (ok a)).calls_of;
  degrades = λ before e h. absurd (ok_not_raised h);
}

Gathers-bind :
    {A B : Type 0} (m : Action A) (f : A → Action B)
    → Gathers m
    → ((a : A) → Gathers (f a))
    → Gathers (m >>= f)
Gathers-bind m f h k = record {
  observes =
      (Makes-bind IsObservation m f record { calls_of = h.observes }
        (λ a. record { calls_of = (k a).observes })).calls_of;
  degrades = λ before e.
      step_rule (λ r. r.0 ≡ err e → is_degradable e ≡ false) m before f
        (λ raised eq h'. h.degrades before e (eq ∙ ap err (err_injective h')))
        (λ a eq. (k a).degrades (m before).1 e);
}

Gathers-degrade :
    {A : Type 0} (default : A) (m : Action A)
    → Makes IsObservation m
    → Gathers (attempt (degrade default) m)
Gathers-degrade default m h = record {
  observes = (Makes-attempt IsObservation (degrade default) m h).calls_of;
  degrades = λ before e. degraded-error default (m before).0 e;
}

-- An action that only observes, and that neither of the two errors makes fail.
pub record IsForgiving {A : Type 0} (m : Action A) : Type 0 where
  pub reads_only : (before : List Call) → Made IsObservation before (m before).1
  pub not_protocol : (before : List Call) → (m before).0 ≢ err protocol
  pub not_unsupported : (before : List Call) → (m before).0 ≢ err unsupported_capability

IsForgiving-Gathers : {A : Type 0} (m : Action A) → Gathers m → IsForgiving m
unfolding is_degradable
IsForgiving-Gathers m h = record {
  reads_only = h.observes;
  not_protocol = λ before e. true_not_false (h.degrades before protocol e);
  not_unsupported = λ before e. true_not_false (h.degrades before unsupported_capability e);
}

module _ (client : WsmanClient) where
  Gathers-get_optional : (name : String) → Gathers (get_optional client name)
  unfolding get_optional
  Gathers-get_optional name =
      Gathers-degrade [] (get client name) (Makes-get IsObservation client name tt)

  Gathers-enumerate_optional : (name : String) → Gathers (enumerate_optional client name)
  unfolding enumerate_optional
  Gathers-enumerate_optional name =
      Gathers-degrade [] (enumerate client name) (Makes-enumerate IsObservation client name tt)

  Gathers-select_optional :
      (name : String) (selectors : Dict String) → Gathers (select_optional client name selectors)
  unfolding select_optional
  Gathers-select_optional name selectors =
      Gathers-degrade [] (select client name selectors)
        (Makes-select IsObservation client name selectors tt)

  Gathers-get_if_any : (name : String) → Gathers (get_if_any client name)
  unfolding get_if_any
  Gathers-get_if_any name =
      Gathers-degrade none (get client name >>= λ instance. lift (ok (some instance))) (
        Makes-bind IsObservation (get client name) _ (Makes-get IsObservation client name tt)
          (λ instance. Makes-lift IsObservation (ok (some instance))))

  module _ (python : Python) where
    Gathers-or_enumerated_version :
        (version : Option String) → Gathers (or_enumerated_version python client version)
    unfolding or_enumerated_version
    Gathers-or_enumerated_version (some version) = Gathers-ok (some version)
    Gathers-or_enumerated_version none =
        Gathers-bind (enumerate_optional client "CIM_BIOSElement") _
          (Gathers-enumerate_optional "CIM_BIOSElement")
          (λ instances. Gathers-ok (first_version python instances))

    Gathers-get_bios_version : Gathers (get_bios_version python client)
    unfolding get_bios_version
    Gathers-get_bios_version =
        Gathers-bind (get_optional client "CIM_BIOSElement") _
          (Gathers-get_optional "CIM_BIOSElement")
          (λ instance.
            Gathers-or_enumerated_version (optional_str python (get_value "Version" instance)))

    Gathers-get_amt_version : Gathers (get_amt_version python client)
    unfolding get_amt_version
    Gathers-get_amt_version =
        Gathers-bind (enumerate_optional client "CIM_SoftwareIdentity") _
          (Gathers-enumerate_optional "CIM_SoftwareIdentity")
          (λ instances. Gathers-ok (amt_version_of python instances))

    module _ (hex_text : HexText) where
      Gathers-get_system_uuid : Gathers (get_system_uuid python client hex_text)
      unfolding get_system_uuid
      Gathers-get_system_uuid =
          Gathers-bind (get_optional client "CIM_ComputerSystemPackage") _
            (Gathers-get_optional "CIM_ComputerSystemPackage")
            (λ found.
              Gathers-ok (uuid_of_value python client hex_text (get_value "PlatformGUID" found)))

      Gathers-read_sources : Gathers (read_sources python client hex_text)
      unfolding read_sources
      Gathers-read_sources =
          Gathers-bind (get_optional client "AMT_GeneralSettings") _ (Gathers-get_optional _)
            (λ general.
              Gathers-bind (get_optional client "AMT_SetupAndConfigurationService") _
                (Gathers-get_optional _)
                (λ setup.
                  Gathers-bind (get_optional client "CIM_AssociatedPowerManagementService") _
                    (Gathers-get_optional _)
                    (λ power_assoc.
                      Gathers-bind (get_optional client "AMT_BootCapabilities") _
                        (Gathers-get_optional _)
                        (λ boot_caps.
                          Gathers-bind (get_if_any client "AMT_RedirectionService") _
                            (Gathers-get_if_any _) (λ redirection. Gathers-ok _)))))

      Gathers-get_facts : Gathers (get_facts python client hex_text)
      unfolding get_facts
      Gathers-get_facts =
          Gathers-bind (read_sources python client hex_text) _ Gathers-read_sources (λ sources.
            Gathers-bind (get_amt_version python client) _ Gathers-get_amt_version (λ version.
              Gathers-bind (get_system_uuid python client hex_text) _ Gathers-get_system_uuid
                (λ uuid.
                  Gathers-bind
                    (select_optional client "AMT_EthernetPortSettings" ethernet_port_0_selector) _
                    (Gathers-select_optional "AMT_EthernetPortSettings" ethernet_port_0_selector)
                    (λ network.
                      Gathers-bind
                        (select_optional client "CIM_ComputerSystem" managed_system_selector) _
                        (Gathers-select_optional "CIM_ComputerSystem" managed_system_selector)
                        (λ system.
                          Gathers-bind (get_bios_version python client) _ Gathers-get_bios_version
                            (λ bios_version. Gathers-ok _))))))

      -- For every firmware: the facts are gathered with calls that only read, whether it succeeds or
      -- fails; and what makes it fail is neither a ProtocolError nor an UnsupportedCapabilityError of
      -- any read, be it a missing class or malformed SOAP: each such read degrades to an absent fact.
      pub get_facts-IsForgiving : IsForgiving (get_facts python client hex_text)
      get_facts-IsForgiving =
          IsForgiving-Gathers (get_facts python client hex_text) Gathers-get_facts
