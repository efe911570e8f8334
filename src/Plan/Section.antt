-- ===== src/Plan/Section.antt =====
-- src/meshprovision/provisioning/plan_security.py, `plan_security_section` and what it calls: which
-- security fields a plan writes to the device.
pub mod Warning
pub mod Written
use native.Mathlib.Omega.{arith}
use meshprovision.Common.{
  ◌≡◌, ◌↔◌, ◌⊎◌, inl, inr, refl, Bool, true, false, not, ◌&&◌, ◌||◌, Option, none, some, List, [],
  ◌∷◌, ◌++◌, any, is_empty, if◌then◌else◌,
}
use meshprovision.Common.Text.{Text, text_eq, text_eq_iff}
use meshprovision.Firmware.{parse_firmware_version, at_least, key_derived_id_min_firmware}
use meshprovision.Plan.{PlanInputs, LiveSecurity}
use meshprovision.Plan.Lockdown.{LockdownDecision}

-- A field's value: a flag, a name, or nothing.
pub data Value : Type 0 where
  flag : Bool → Value
  name : Text → Value
  absent : Value

-- The names of the fields of the `security` section that a plan may write.
pub data Field : Type 0 where
  admin_channel_enabled serial_enabled debug_log_api_enabled : Field
  packet_signature_policy is_managed : Field

pub data ChangeReason : Type 0 where
  forced template : ChangeReason

-- `section` is always "security" here.
pub record FieldChange : Type 0 where
  pub field : Field
  pub current : Value
  pub desired : Value
  pub reason : ChangeReason

bool_eq : Bool → Bool → Bool
bool_eq true b = b
bool_eq false b = not b

-- A bool equals only a bool; other values compare by `==`.
unfoldable pub values_equal : Value → Value → Bool
unfolding bool_eq
values_equal (flag a) (flag b) = bool_eq a b
values_equal (flag a) (name b) = false
values_equal (flag a) absent = false
values_equal (name a) (flag b) = false
values_equal (name a) (name b) = text_eq a b
values_equal (name a) absent = false
values_equal absent (flag b) = false
values_equal absent (name b) = false
values_equal absent absent = true

abbrev pub flag_of : Option Bool → Value
flag_of none = absent
flag_of (some b) = flag b

abbrev pub name_of : Option Text → Value
name_of none = absent
name_of (some s) = name s

unfoldable pub firmware_supports_packet_signature_policy : Text → Bool
firmware_supports_packet_signature_policy version = elim (parse_firmware_version version) [
  | none ↦ false
  | some parsed ↦ at_least parsed key_derived_id_min_firmware
]

unfoldable pub reason_for : Field → ChangeReason
reason_for admin_channel_enabled = forced
reason_for serial_enabled = template
reason_for debug_log_api_enabled = template
reason_for packet_signature_policy = template
reason_for is_managed = template

-- One turn of the loop over `desired`.
unfoldable pub diff : Field → Value → Value → List FieldChange
unfolding reason_for
diff field current desired =
    if not (values_equal current desired)
    then record { field = field; current = current; desired = desired; reason = reason_for field }
      ∷ []
    else []

-- A field that the template sets.
unfoldable pub diff_flag : Field → Option Bool → Option Bool → List FieldChange
diff_flag field current none = []
diff_flag field current (some desired) = diff field (flag_of current) (flag desired)

unfoldable pub diff_policy : Text → Option Text → Option Text → List FieldChange
diff_policy firmware current none = []
diff_policy firmware current (some desired) =
    if firmware_supports_packet_signature_policy firmware
    then diff packet_signature_policy (name_of current) (name desired)
    else []

unfoldable pub security_changes : PlanInputs → LockdownDecision → List FieldChange
security_changes inputs lockdown =
    let live = inputs.live in
    let template = inputs.template in
    diff admin_channel_enabled (flag live.admin_channel_enabled) (flag false)
    ++ (diff_flag serial_enabled live.serial_enabled template.serial_enabled
        ++ (diff_flag debug_log_api_enabled live.debug_log_api_enabled
              template.debug_log_api_enabled
            ++ (diff_policy inputs.firmware_version live.packet_signature_policy
                  template.packet_signature_policy
                ++ diff is_managed (flag live.is_managed) (flag lockdown.enable))))

-- The changes of the section, which is otherwise fixed: "security", of kind CONFIG, rebooting the
-- device. `KeyPlan`, of which the section reads two fields: `regenerate` and `change_admin_keys`.
unfoldable pub plan_security_section :
    PlanInputs → Bool → Bool → LockdownDecision → Option (List FieldChange)
unfolding security_changes
plan_security_section inputs regenerate change_admin_keys lockdown =
    let changes = security_changes inputs lockdown in
    let needs_device_write = regenerate || change_admin_keys in
    if is_empty changes && not needs_device_write then none else some changes

unfoldable pub packet_signature_policy_skipped : PlanInputs → Bool
packet_signature_policy_skipped inputs = elim inputs.template.packet_signature_policy [
  | none ↦ false
  | some desired ↦ not (
      values_equal (name_of inputs.live.packet_signature_policy) (name desired)
      || firmware_supports_packet_signature_policy inputs.firmware_version)
]

-- The value of a field on the device.
abbrev pub live_value : LiveSecurity → Field → Value
live_value live admin_channel_enabled = flag live.admin_channel_enabled
live_value live serial_enabled = flag_of live.serial_enabled
live_value live debug_log_api_enabled = flag_of live.debug_log_api_enabled
live_value live packet_signature_policy = name_of live.packet_signature_policy
live_value live is_managed = flag live.is_managed

abbrev pub or_live_flag : Option Bool → Option Bool → Value
or_live_flag none live = flag_of live
or_live_flag (some b) live = flag b

abbrev pub or_live_policy : Text → Option Text → Option Text → Value
or_live_policy firmware none live = name_of live
or_live_policy firmware (some desired) live =
    if firmware_supports_packet_signature_policy firmware then name desired else name_of live

-- What the field ought to hold: the admin channel off, managed mode as decided, the others as the
-- template says, or as they are where it says nothing or the firmware lacks the field.
abbrev pub wanted : PlanInputs → LockdownDecision → Field → Value
wanted inputs lockdown admin_channel_enabled = flag false
wanted inputs lockdown serial_enabled =
    or_live_flag inputs.template.serial_enabled inputs.live.serial_enabled
wanted inputs lockdown debug_log_api_enabled =
    or_live_flag inputs.template.debug_log_api_enabled inputs.live.debug_log_api_enabled
wanted inputs lockdown packet_signature_policy =
    or_live_policy inputs.firmware_version inputs.template.packet_signature_policy
      inputs.live.packet_signature_policy
wanted inputs lockdown is_managed = flag lockdown.enable

abbrev pub field_eq : Field → Field → Bool
field_eq admin_channel_enabled admin_channel_enabled = true
field_eq serial_enabled serial_enabled = true
field_eq debug_log_api_enabled debug_log_api_enabled = true
field_eq packet_signature_policy packet_signature_policy = true
field_eq is_managed is_managed = true
field_eq _ _ = false

-- The device's fields after a section is written.
abbrev pub write : List FieldChange → (Field → Value) → Field → Value
write [] values f = values f
write (c ∷ changes) values f =
    let rest = write changes values f in if field_eq c.field f then c.desired else rest

pub values_equal_iff : (a b : Value) → (values_equal a b ≡ true) ↔ (a ≡ b)
unfolding values_equal
values_equal_iff (flag true) (flag true) = ground arith
values_equal_iff (flag true) (flag false) = ground arith
values_equal_iff (flag false) (flag true) = ground arith
values_equal_iff (flag false) (flag false) = ground arith
values_equal_iff (flag a) (name b) = ground arith
values_equal_iff (flag a) absent = ground arith
values_equal_iff (name a) (flag b) = ground arith
values_equal_iff (name a) (name b) = ground (arith, text_eq_iff a b)
values_equal_iff (name a) absent = ground arith
values_equal_iff absent (flag b) = ground arith
values_equal_iff absent (name b) = ground arith
values_equal_iff absent absent = ground arith
