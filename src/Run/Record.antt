-- ===== src/Run/Record.antt =====
-- src/meshprovision/provisioning/plan_types.py, ChangePlan.to_record: the row that a plan records.
-- `pin_text` is `str` of a field's value.
use meshprovision.Common.{
  ℕ, ◌-◌, not, ◌||◌, Option, none, some, List, [], ◌∷◌, ◌++◌, keep, length, replicate, is_empty,
  ◌==◌ as nat_eq, if◌then◌else◌,
}
use meshprovision.Common.Text.{Text, codes}
use meshprovision.Common.Equality.{◌==◌, Text_eq, mem}
use meshprovision.NodeId.{hex}
use meshprovision.Db.{NodeRecord, template_managed, observed}
use meshprovision.Run.{FieldChange, KeyPlan, ChangePlan, section_of}

abbrev pub ble_pin_length : ℕ
ble_pin_length = 6

-- `s.zfill(width)`: the zeros stand after a sign.
unfoldable pub zfill : ℕ → Text → Text
zfill width [] = replicate width b'0'
zfill width (c ∷ s) =
    let zeros = replicate (width - length (c ∷ s)) b'0' in
    if nat_eq c b'-' || nat_eq c b'+' then c ∷ (zeros ++ s) else zeros ++ c ∷ s

-- `NodeRecord(node_id=…)`, with its defaults; the roles' and the regions' are parameters.
abbrev pub new_row : Text → Text → Text → NodeRecord
new_row default_role default_region node_id = record {
  node_id = node_id;
  short_name = [];
  long_name = [];
  hw_model = [];
  firmware_version = [];
  first_added_ts = none;
  last_updated_ts = none;
  authorized_admin_keys = [];
  notes = [];
  role = default_role;
  region = default_region;
  ble_pin = none;
  management = observed;
  unregistered_admin_keys = [];
  archived_at = none;
}

unfoldable pub or_else {ℓ} : {A : Type ℓ} → Option A → A → A
or_else none a = a
or_else (some b) a = b

-- The `authorized_admin_keys` of the row.
unfoldable pub recorded_admin_refs : KeyPlan → List Text → List Text
recorded_admin_refs key_plan before =
    if not (is_empty key_plan.desired_admin_key_refs)
      || not (is_empty key_plan.rejected_admin_key_refs)
    then key_plan.desired_admin_key_refs
    else if not (is_empty key_plan.removed_admin_key_refs)
    then keep (λ ref. not (mem ref key_plan.removed_admin_key_refs)) before
    else before

module _ {V : Type 0} (pin_text : V → Text) where
  unfoldable pub change_of : Text → List (FieldChange V) → Option (FieldChange V)
  change_of name [] = none
  change_of name (c ∷ changes) =
      let rest = change_of name changes in if c.field == name then some c else rest

  -- The `ble_pin` of the row.
  unfoldable pub recorded_pin : ChangePlan V → Option Text → Option Text
  unfolding section_of change_of zfill
  recorded_pin plan before =
      if not plan.ble_pin_set then before else elim (section_of (codes "bluetooth") plan.sections) [
        | none ↦ before
        | some bluetooth ↦ elim (change_of (codes "fixed_pin") bluetooth.changes) [
          | none ↦ before
          | some pin ↦ some (zfill ble_pin_length (pin_text pin.desired))
        ]
      ]

  module _ (default_role default_region : Text) where
    -- The row that a plan starts from.
    unfoldable pub base_row : ChangePlan V → NodeRecord
    unfolding or_else
    base_row plan = or_else plan.db_entry (new_row default_role default_region (hex plan.node_id))

    unfoldable pub to_record : ChangePlan V → Option Text → Option Text → NodeRecord
    unfolding base_row or_else recorded_admin_refs recorded_pin
    to_record plan confirmed_short_name confirmed_long_name =
        let base = base_row plan in
        record base {
          short_name = or_else confirmed_short_name plan.name_change.desired_short_name;
          long_name = or_else confirmed_long_name plan.name_change.desired_long_name;
          hw_model = if is_empty plan.hw_model then base.hw_model else plan.hw_model;
          firmware_version =
              if is_empty plan.firmware_version
              then base.firmware_version
              else plan.firmware_version;
          role = plan.role;
          region = plan.region;
          management = template_managed;
          authorized_admin_keys = recorded_admin_refs plan.key_plan base.authorized_admin_keys;
          ble_pin = recorded_pin plan base.ble_pin;
        }
