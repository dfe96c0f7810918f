-- ===== src/Models/Tests.antt =====
-- models.py: runs.
use ansible_collection_intel.Prelude.{◌≡◌, refl, some, [], ◌∷◌}
use ansible_collection_intel.Client.{
  text, sequence, mapping, no_values, more_values, no_fields, more_fields, Instance,
}
use ansible_collection_intel.Models.{
  optional_int, optional_str, to_str, get_value, get_field, candidates_of, elements, kept, decode,
  entry_of, entry,
}
use ansible_collection_intel.Models.State.{
  ethernet_settings, system_state, normalize_mac, compact, colon_pairs, link_policy_values,
  all_policy_values, policy_values, optional_ints, from_cim_value, int_of,
}
use ansible_collection_intel.Models.Sample.{decimal_python}
use ansible_collection_intel.Models.Reported.{IsWakeReport, ethernet_settings-IsWakeReport}

-- Dashed as AMT 10 reports it, with one policy as text and two below a wrapper.
abbrev port : Instance
port =
    ("MACAddress", text "00-aa-bb-cc-dd-ee")
    ∷ (
      "LinkPolicy",
      sequence (
          more_values (text "16") (
            more_values
              (mapping (
                more_fields "PolicyValue"
                  (sequence (more_values (text "1") (more_values (text "224") no_values)))
                  no_fields))
              no_values)),
    )
    ∷ []

port_mac : (ethernet_settings decimal_python port).mac_address ≡ some "00:aa:bb:cc:dd:ee"
unfolding ethernet_settings optional_str to_str get_value normalize_mac compact colon_pairs
port_mac = refl

port_policies :
    (ethernet_settings decimal_python port).link_policy_names
    ≡ some ("s0_dc" ∷ "s0_ac" ∷ "sx_dc" ∷ [])
unfolding ethernet_settings link_policy_values all_policy_values policy_values candidates_of
    elements kept optional_int to_str get_value get_field decode entry_of entry
port_policies = refl

ethernet_settings-IsWakeReport_example : IsWakeReport decimal_python port
ethernet_settings-IsWakeReport_example = ethernet_settings-IsWakeReport decimal_python port

-- A status that the table does not have stays visible.
unnamed_status :
    (system_state decimal_python (("OperationalStatus", text "42") ∷ [])).operational_status_text
    ≡ some ("unknown(42)" ∷ [])
unfolding system_state optional_ints candidates_of kept optional_int to_str get_value decode
    entry_of entry
unnamed_status = refl

off_hard : (from_cim_value decimal_python (text "6")).normalized ≡ "off"
unfolding from_cim_value int_of entry_of entry
off_hard = refl
