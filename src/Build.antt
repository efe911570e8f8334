-- ===== src/Build.antt =====
-- src/meshprovision/provisioning/plan.py: a change plan is built from the device's live state, the
-- template and the database's row. A section of the template is the list of the fields that it sets. A
-- field's current value, a section's kind and its reboot flag, which are for display, are left out.
pub mod Sections
pub mod Assembled
pub mod Ranks
pub mod Modules
pub mod Ordering
pub mod Settled
pub mod Places
pub mod Reread
pub mod Converged
mod Tests
use meshprovision.Common.{
  ℕ, Bool, true, false, not, ◌&&◌, ◌||◌, Option, none, some, List, [], ◌∷◌, ◌++◌, map, any, ltb,
  is_empty, if◌then◌else◌, Result, ok, err, ◌>>=◌,
}
use meshprovision.Common.Text.{Text, codes, strip}
use meshprovision.Common.Equality.{◌==◌, Text_eq, mem}
use meshprovision.Common.Sorting.{sort, lex_le}
use meshprovision.Firmware.{derives_node_id_from_key}
use meshprovision.Plan.{PlanInputs, PlanWarning, foreign}
use meshprovision.Plan.AdminKeys.{CapacityError, AdminKeyPlan, plan_admin_key_material}
use meshprovision.Plan.Keypair.{RotationRefused, KeypairPlan, plan_node_keypair}
use meshprovision.Plan.Lockdown.{
  LockdownRefused, LockdownReason, allow_lockdown_not_set, LockdownDecision, evaluate_lockdown,
}
use meshprovision.Plan.Section.{
  Value, flag, name, absent, Field, admin_channel_enabled, serial_enabled, debug_log_api_enabled,
  packet_signature_policy, is_managed, FieldChange as SecurityChange, plan_security_section,
  packet_signature_policy_skipped,
}
use meshprovision.Db.{NodeRecord}
use meshprovision.Db.Table.{upserted}
use meshprovision.Run.{NameChange, FieldChange, SectionChange, KeyPlan, ChangePlan, LiveConfig}
use meshprovision.Run.Readback.{utf8_length, short_name_max_bytes, long_name_max_bytes}

-- The values of a device's fields: `values_equal`, and a bool, a str, None and `int` of a PIN as values.
pub record Values (V : Type 0) : Type 0 where
  pub same : V → V → Bool
  pub of_flag : Bool → V
  pub of_name : Text → V
  pub none_value : V
  pub of_pin : Text → V

-- A field that the template sets.
pub record Setting (V : Type 0) : Type 0 where
  pub field : Text
  pub desired : V

pub record TemplateSections (V : Type 0) : Type 0 where
  pub is_unmessagable : Option Bool
  pub device : List (Setting V)
  pub position : List (Setting V)
  pub power : List (Setting V)
  pub lora : List (Setting V)
  pub telemetry : List (Setting V)
  pub neighbor_info : List (Setting V)
  pub default_channel : List (Setting V)
  pub enabled_options : List Text
  pub disabled_options : List Text
  pub role : Text
  pub region : Text

-- `security` is what the key and security parts read. `module_enabled` is the live dict's `get`, and
-- `has_channel` says that the live default channel is not empty.
pub record BuildInputs (V : Type 0) : Type 0 where
  pub security : PlanInputs
  pub live : LiveConfig V
  pub is_licensed : Bool
  pub hw_model : Text
  pub module_enabled : Text → Option Bool
  pub has_channel : Bool
  pub template : TemplateSections V
  pub db_entry : Option NodeRecord
  pub desired_short_name : Option Text
  pub desired_long_name : Option Text
  pub ble_pin : Option Text

pub data BuildWarning : Type 0 where
  name_truncation_risk unknown_module module_has_no_enabled_field : Text → BuildWarning
  region_change_reboots primary_channel_unavailable default_channel_reboot_unknown : BuildWarning
  node_id_changes lockdown_not_authorized field_unsupported_by_firmware foreign_node : BuildWarning
  of_keys : PlanWarning → BuildWarning

pub data BuildError : Type 0 where
  over_capacity : CapacityError → BuildError
  rotation_refused : RotationRefused → BuildError
  lockdown_refused : LockdownRefused → BuildError

-- A plan, with what is only rendered of it.
pub record BuiltPlan (V : Type 0) : Type 0 where
  pub plan : ChangePlan V
  pub lockdown : LockdownDecision
  pub warnings : List BuildWarning

abbrev pub module_sections : List Text
module_sections =
    codes "mqtt"
    ∷ codes "serial"
    ∷ codes "external_notification"
    ∷ codes "store_forward"
    ∷ codes "range_test"
    ∷ codes "telemetry"
    ∷ codes "canned_message"
    ∷ codes "audio"
    ∷ codes "remote_hardware"
    ∷ codes "neighbor_info"
    ∷ codes "ambient_lighting"
    ∷ codes "detection_sensor"
    ∷ codes "paxcounter"
    ∷ codes "traffic_management"
    ∷ []

abbrev pub modules_without_enabled : List Text
modules_without_enabled =
    codes "ambient_lighting" ∷ codes "audio" ∷ codes "telemetry" ∷ codes "traffic_management" ∷ []

unfoldable pub is_module_section : Text → Bool
is_module_section option = mem option module_sections

unfoldable pub has_no_enabled : Text → Bool
has_no_enabled option = mem option modules_without_enabled

-- Both options of `a if a is not None else b`.
abbrev pub given {ℓ} : {A : Type ℓ} → Option A → A → A
given none a = a
given (some b) a = b

unfoldable pub db_name_or_live : Text → Text → Text
unfolding strip
db_name_or_live db_name live_name =
    if is_empty db_name || db_name == strip live_name then live_name else db_name

abbrev pub db_short_name : Option NodeRecord → Text
db_short_name none = []
db_short_name (some row) = row.short_name

abbrev pub db_long_name : Option NodeRecord → Text
db_long_name none = []
db_long_name (some row) = row.long_name

-- The template's flag, or else the live one.
abbrev pub flag_or : Option Bool → Option Bool → Option Bool
flag_or none live = live
flag_or (some b) live = some b

unfoldable pub size_warning : Text → Text → ℕ → List BuildWarning
size_warning field desired limit =
    if ltb limit (utf8_length desired) then name_truncation_risk field ∷ [] else []

unfoldable pub name_warnings : NameChange → List BuildWarning
unfolding size_warning
name_warnings names =
    size_warning (codes "short_name") names.desired_short_name short_name_max_bytes
    ++ size_warning (codes "long_name") names.desired_long_name long_name_max_bytes

abbrev pub field_name : Field → Text
field_name admin_channel_enabled = codes "admin_channel_enabled"
field_name serial_enabled = codes "serial_enabled"
field_name debug_log_api_enabled = codes "debug_log_api_enabled"
field_name packet_signature_policy = codes "packet_signature_policy"
field_name is_managed = codes "is_managed"

-- `option_state().items()`, sorted: a dict, in which a later assignment wins.
abbrev pub option_key : Text × Bool → Text
option_key option = option.0

unfoldable pub set_options : Bool → List Text → List (Text × Bool) → List (Text × Bool)
unfolding upserted
set_options want [] state = state
set_options want (option ∷ options) state =
    set_options want options (upserted option_key (option, want) state)

unfoldable pub option_state : List Text → List Text → List (Text × Bool)
unfolding set_options sort
option_state enabled disabled =
    sort (λ a b. lex_le a.0 b.0) (set_options false disabled (set_options true enabled []))
