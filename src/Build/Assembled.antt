-- ===== src/Build/Assembled.antt =====
-- src/meshprovision/provisioning/plan.py: the assembled sections of a plan, and `build_plan`.
use meshprovision.Common.{
  Bool, true, false, not, ◌&&◌, Option, none, some, List, [], ◌∷◌, ◌++◌, map, is_empty, Result, ok,
  err, ◌>>=◌,
}
use meshprovision.Common.Text.{Text, codes}
use meshprovision.Common.Equality.{Text_eq}
use meshprovision.Firmware.{derives_node_id_from_key}
use meshprovision.Plan.{NodeState, factory, provisioned, foreign}
use meshprovision.Plan.AdminKeys.{AdminKeyPlan, plan_admin_key_material}
use meshprovision.Plan.Keypair.{KeypairPlan, plan_node_keypair}
use meshprovision.Plan.Lockdown.{
  LockdownReason, template_opt_out, authorized, already_locked, allow_lockdown_not_set,
  LockdownDecision, evaluate_lockdown,
}
use meshprovision.Plan.Section.{
  Value, flag, name, absent, FieldChange as SecurityChange, plan_security_section,
  packet_signature_policy_skipped,
}
use meshprovision.Run.{FieldChange, SectionChange}
use meshprovision.Build.{
  Values, BuildInputs, node_id_changes, lockdown_not_authorized, field_unsupported_by_firmware,
  foreign_node, of_keys, BuildError, over_capacity, rotation_refused, lockdown_refused, BuiltPlan,
  name_warnings, field_name,
}
use meshprovision.Build.Sections.{
  when, plan_name_change, plan_config_sections, plan_module_sections, plan_bluetooth_section,
  plan_default_channel_section,
}

abbrev pub is_allow_lockdown_not_set : LockdownReason → Bool
is_allow_lockdown_not_set template_opt_out = false
is_allow_lockdown_not_set authorized = false
is_allow_lockdown_not_set already_locked = false
is_allow_lockdown_not_set allow_lockdown_not_set = true

abbrev pub is_foreign : NodeState → Bool
is_foreign factory = false
is_foreign provisioned = false
is_foreign foreign = true

module _ {V : Type 0} (values : Values V) (inputs : BuildInputs V) where
  abbrev pub value_of : Value → V
  value_of (flag b) = values.of_flag b
  value_of (name s) = values.of_name s
  value_of absent = values.none_value

  abbrev pub security_change : SecurityChange → FieldChange V
  security_change c = record {
    field = field_name c.field;
    desired = value_of c.desired;
    secret = false;
  }

  -- The section is planned even without a change of a field, for the key material.
  abbrev pub security_section : Option (List SecurityChange) → List (SectionChange V)
  security_section none = []
  security_section (some changes) =
      record { section = codes "security"; changes = map security_change changes } ∷ []

  unfoldable pub assemble_sections : Option (List SecurityChange) → List (SectionChange V)
  unfolding plan_config_sections plan_bluetooth_section plan_module_sections
      plan_default_channel_section
  assemble_sections security =
      (plan_config_sections values inputs).0
      ++ (plan_bluetooth_section values inputs
          ++ ((plan_module_sections values inputs).0
              ++ ((plan_default_channel_section values inputs).0 ++ security_section security)))

  unfoldable pub finish_plan : AdminKeyPlan → KeypairPlan → LockdownDecision → BuiltPlan V
  unfolding assemble_sections plan_name_change name_warnings derives_node_id_from_key
  finish_plan admin keypair lockdown =
      let read = inputs.security in
      let names = plan_name_change values inputs in
      let security =
        plan_security_section read keypair.regenerate admin.change_admin_keys lockdown in
      record {
        plan = record {
          node_id = inputs.live.node_id;
          name_change = names;
          sections = assemble_sections security;
          key_plan = record {
            regenerate = keypair.regenerate;
            adopt_device_key = keypair.adopt;
            change_admin_keys = admin.change_admin_keys;
            desired_admin_keys = admin.desired;
            desired_admin_key_refs = admin.desired_refs;
            removed_admin_key_refs = admin.removed_refs;
            rejected_admin_key_refs = admin.rejected_refs;
          };
          ble_pin_set = not (is_empty (plan_bluetooth_section values inputs));
          hw_model = inputs.hw_model;
          firmware_version = read.firmware_version;
          role = inputs.template.role;
          region = inputs.template.region;
          db_entry = inputs.db_entry;
        };
        lockdown = lockdown;
        warnings =
            name_warnings names
            ++ ((plan_config_sections values inputs).1
                ++ ((plan_module_sections values inputs).1
                    ++ ((plan_default_channel_section values inputs).1
                        ++ (map of_keys admin.warnings
                            ++ (map of_keys keypair.warnings
                                ++ (when
                                      (keypair.regenerate
                                        && derives_node_id_from_key read.firmware_version)
                                      node_id_changes
                                    ++ (when (is_allow_lockdown_not_set lockdown.reason)
                                          lockdown_not_authorized
                                        ++ (when (packet_signature_policy_skipped read)
                                              field_unsupported_by_firmware
                                            ++ when (is_foreign read.state) foreign_node))))))));
      }

  -- The exceptions of the three parts.
  abbrev pub admin_part : Result BuildError AdminKeyPlan
  admin_part = elim (plan_admin_key_material inputs.security) [
    | ok admin ↦ ok admin
    | err e ↦ err (over_capacity e)
  ]

  abbrev pub keypair_part : Result BuildError KeypairPlan
  keypair_part = elim (plan_node_keypair inputs.security) [
    | ok keypair ↦ ok keypair
    | err e ↦ err (rotation_refused e)
  ]

  abbrev pub lockdown_part : List Text → Result BuildError LockdownDecision
  lockdown_part desired = elim (evaluate_lockdown inputs.security desired) [
    | ok decision ↦ ok decision
    | err e ↦ err (lockdown_refused e)
  ]

  unfoldable pub build_plan : Result BuildError (BuiltPlan V)
  unfolding finish_plan
  build_plan = do
    admin ← admin_part
    keypair ← keypair_part
    lockdown ← lockdown_part admin.desired
    ok (finish_plan admin keypair lockdown)
