-- ===== src/Run.antt =====
-- src/meshprovision/provisioning/plan_types.py, detect_types.py: a change plan, and the device state
-- that is read back after a run. The values of the device's fields are a parameter `V`.
pub mod Record
pub mod Readback
pub mod Device
pub mod Execution
pub mod ApplyPlan
pub mod Outcomes
pub mod Certain
pub mod Identity
pub mod Confirmed
pub mod Ordering
pub mod Accounts
mod Tests
use meshprovision.Common.{
  ℕ, Bool, true, false, not, ◌&&◌, ◌||◌, Option, none, some, List, [], ◌∷◌, all, is_empty,
  if◌then◌else◌,
}
use meshprovision.Common.Text.{Text, codes}
use meshprovision.Common.Equality.{◌==◌, Text_eq}
use meshprovision.NodeId.{NodeId}
use meshprovision.Db.{NodeRecord}

abbrev pub flag_eq : Option Bool → Option Bool → Bool
flag_eq none none = true
flag_eq none (some b) = false
flag_eq (some a) none = false
flag_eq (some true) (some b) = b
flag_eq (some false) (some b) = not b

pub record NameChange : Type 0 where
  pub current_short_name : Text
  pub desired_short_name : Text
  pub current_long_name : Text
  pub desired_long_name : Text
  pub current_is_unmessagable : Option Bool
  pub desired_is_unmessagable : Option Bool
  pub desired_is_licensed : Bool

unfoldable pub short_changed : NameChange → Bool
short_changed n = not (n.current_short_name == n.desired_short_name)

unfoldable pub long_changed : NameChange → Bool
long_changed n = not (n.current_long_name == n.desired_long_name)

unfoldable pub is_unmessagable_changed : NameChange → Bool
is_unmessagable_changed n = not (flag_eq n.current_is_unmessagable n.desired_is_unmessagable)

-- `is_empty` of a name change.
unfoldable pub same_name : NameChange → Bool
unfolding short_changed long_changed is_unmessagable_changed
same_name n = not (short_changed n) && not (long_changed n) && not (is_unmessagable_changed n)

-- A field's name and the value that the plan intends.
pub record FieldChange (V : Type 0) : Type 0 where
  pub field : Text
  pub desired : V
  pub secret : Bool

pub record SectionChange (V : Type 0) : Type 0 where
  pub section : Text
  pub changes : List (FieldChange V)

pub record KeyPlan : Type 0 where
  pub regenerate : Bool
  pub adopt_device_key : Bool
  pub change_admin_keys : Bool
  pub desired_admin_keys : List (List ℕ)
  pub desired_admin_key_refs : List Text
  pub removed_admin_key_refs : List Text
  pub rejected_admin_key_refs : List Text

-- `is_empty` of a key plan.
unfoldable pub keys_unchanged : KeyPlan → Bool
keys_unchanged k = not (k.regenerate || k.adopt_device_key || k.change_admin_keys)

-- The fields of a plan that a run and its record read.
pub record ChangePlan (V : Type 0) : Type 0 where
  pub node_id : NodeId
  pub name_change : NameChange
  pub sections : List (SectionChange V)
  pub key_plan : KeyPlan
  pub ble_pin_set : Bool
  pub hw_model : Text
  pub firmware_version : Text
  pub role : Text
  pub region : Text
  pub db_entry : Option NodeRecord

module _ {V : Type 0} where
  -- `is_empty` of a section.
  unfoldable pub no_changes : SectionChange V → Bool
  no_changes s = is_empty s.changes

  -- `is_empty` of a plan.
  unfoldable pub nothing_to_do : ChangePlan V → Bool
  unfolding same_name keys_unchanged no_changes
  nothing_to_do plan =
      same_name plan.name_change && all no_changes plan.sections && keys_unchanged plan.key_plan

  -- `section` of a plan, over its sections.
  unfoldable pub section_of : Text → List (SectionChange V) → Option (SectionChange V)
  section_of name [] = none
  section_of name (s ∷ sections) =
      let rest = section_of name sections in if s.section == name then some s else rest

-- The halves of a key pair, as bytes.
pub record KeyPair : Type 0 where
  pub private : List ℕ
  pub public : List ℕ

-- What is read of a device: `value` of a section's field is its lookup in the device's sections, and
-- gives None's value for an unknown one, as the other two lookups do.
pub record LiveConfig (V : Type 0) : Type 0 where
  pub node_id : NodeId
  pub short_name : Text
  pub long_name : Text
  pub is_unmessagable : Option Bool
  pub public_key : Option (List ℕ)
  pub private_key : Option (List ℕ)
  pub admin_keys : List (List ℕ)
  pub security_field : Text → V
  pub default_channel : Text → V
  pub value : Text → Text → V
