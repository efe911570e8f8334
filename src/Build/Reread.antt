-- ===== src/Build/Reread.antt =====
-- src/meshprovision/provisioning/plan.py: the inputs of a plan that is built again, and its names.
use native.Mathlib.Omega.{arith}
use meshprovision.Common.{◌≡◌, refl, Bool, true, false, ◌&&◌, Option, none, some, if◌then◌else◌}
use meshprovision.Common.Text.{Text, codes, text_eq_iff}
use meshprovision.Common.Equality.{◌==◌, Text_eq, distinct}
use meshprovision.Plan.{PlanInputs}
use meshprovision.Run.{
  NameChange, LiveConfig, same_name, short_changed, long_changed, is_unmessagable_changed, flag_eq,
}
use meshprovision.Build.{
  Values, TemplateSections, BuildInputs, db_name_or_live, flag_or, given, db_short_name,
  db_long_name,
}
use meshprovision.Build.Sections.{plan_name_change}
use meshprovision.Build.Settled.{fields_of}

-- A field's lookup, in a section or in the default channel.
abbrev pub reading : {V : Type 0} → LiveConfig V → Text → Text → V
reading live section f =
    if section == codes "default_channel" then live.default_channel f else live.value section f

-- The template sets no field twice: its sections are dumped as dicts.
abbrev pub distinct_fields : {V : Type 0} → TemplateSections V → Bool
distinct_fields template =
    (distinct (fields_of template.device) && distinct (fields_of template.position))
    && (distinct (fields_of template.power) && distinct (fields_of template.lora))
    && distinct (fields_of template.default_channel)

-- The inputs with another reading of the device.
abbrev pub read_again :
    {V : Type 0} → BuildInputs V → PlanInputs → (Text → Option Bool) → LiveConfig V → BuildInputs V
read_again inputs security module_enabled live = record {
  security = security;
  live = live;
  is_licensed = inputs.is_licensed;
  hw_model = inputs.hw_model;
  module_enabled = module_enabled;
  has_channel = inputs.has_channel;
  template = inputs.template;
  db_entry = inputs.db_entry;
  desired_short_name = inputs.desired_short_name;
  desired_long_name = inputs.desired_long_name;
  ble_pin = inputs.ble_pin;
}

-- A name, or a flag, chosen again once it is the live one.
name_again :
    (wanted : Option Text) (db live new : Text)
    → new ≡ given wanted (db_name_or_live db live)
    → given wanted (db_name_or_live db new) ≡ new
unfolding db_name_or_live
name_again none db live new h = ground arith
name_again (some s) db live new h = cc

flag_again : (wanted live new : Option Bool) → new ≡ flag_or wanted live → flag_or wanted new ≡ new
flag_again none live new h = refl
flag_again (some b) live new h = cc

flag_eq_self : (o : Option Bool) → flag_eq o o ≡ true
flag_eq_self none = refl
flag_eq_self (some true) = refl
flag_eq_self (some false) = refl

same_name_of :
    (n : NameChange)
    → n.desired_short_name ≡ n.current_short_name
    → n.desired_long_name ≡ n.current_long_name
    → n.desired_is_unmessagable ≡ n.current_is_unmessagable
    → same_name n ≡ true
unfolding same_name short_changed long_changed is_unmessagable_changed
same_name_of n s l u = rw s (
    rw l (
      rw u (
        ground (
          arith,
          text_eq_iff n.current_short_name n.current_short_name,
          text_eq_iff n.current_long_name n.current_long_name,
          flag_eq_self n.current_is_unmessagable,
        ))))

module _ {V : Type 0} (values : Values V) (inputs : BuildInputs V) where
  -- The names of the plan are what the second plan desires.
  pub names-settled :
      (read : PlanInputs) (module_enabled : Text → Option Bool) (live : LiveConfig V)
      → live.short_name ≡ (plan_name_change values inputs).desired_short_name
      → live.long_name ≡ (plan_name_change values inputs).desired_long_name
      → live.is_unmessagable ≡ (plan_name_change values inputs).desired_is_unmessagable
      → same_name (plan_name_change values (read_again inputs read module_enabled live)) ≡ true
  unfolding plan_name_change
  names-settled read module_enabled live s l u =
      same_name_of (plan_name_change values (read_again inputs read module_enabled live))
        (name_again inputs.desired_short_name (db_short_name inputs.db_entry) inputs.live.short_name
          live.short_name s)
        (name_again inputs.desired_long_name (db_long_name inputs.db_entry) inputs.live.long_name
          live.long_name l)
        (flag_again inputs.template.is_unmessagable inputs.live.is_unmessagable live.is_unmessagable
          u)
