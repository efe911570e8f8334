-- ===== src/Build/Tests.antt =====
-- A plan that gives a device the router's role, with and without modules to switch on, and the plan after it.
use meshprovision.Common.{
  ◌≡◌, refl, sym, subst, ℕ, true, false, Option, none, some, List, [], ◌∷◌, map, ok, if◌then◌else◌,
  Bool-cases, inl, inr, ◌==◌ as nat_eq, replicate, all,
}
use meshprovision.Common.Text.{Text, codes, text_eq, text_eq_iff}
use meshprovision.Common.Sorting.{Ordered, lex_le}
use meshprovision.Plan.{
  has_public_key, has_private_key, is_real, Key, provisioned, LiveSecurity, Template, PlanInputs,
}
use meshprovision.Plan.AdminKeys.{
  finish, texts_eq, kept_keys, removed_indices, enumerate, dropped_indices, indices, AdminKeyPlan,
  plan_admin_key_material,
}
use meshprovision.Plan.Keypair.{choose_keypair, plan_node_keypair}
use meshprovision.Plan.Lockdown.{LockdownDecision, template_opt_out, evaluate_lockdown}
use meshprovision.Plan.Section.{
  diff, values_equal, diff_flag, diff_policy, packet_signature_policy_skipped,
  plan_security_section,
}
use meshprovision.Db.Table.{find}
use meshprovision.Run.{LiveConfig, same_name}
use meshprovision.Build.{
  is_module_section, has_no_enabled, Values, TemplateSections, BuildInputs, BuiltPlan,
}
use meshprovision.Build.Sections.{section_key}
use meshprovision.Build.Assembled.{finish_plan, build_plan}
use meshprovision.Build.Ranks.{written_before}
use meshprovision.Build.Ordering.{build_plan-Ordered}
use meshprovision.Build.Settled.{Settles, value_in, set_value, planned_value}
use meshprovision.Build.Reread.{reading, read_again}
use meshprovision.Build.Converged.{is_module_or_security, build_plan-settled}

abbrev values : Values ℕ
values = record {
  same = nat_eq;
  of_flag = λ b. if b then 1 else 0;
  of_name = λ s. 2;
  none_value = 0;
  of_pin = λ s. 3;
}

abbrev node_key : Key
node_key = replicate 32 1

abbrev security : LiveSecurity
security = record {
  public_key = some node_key;
  private_key = some (replicate 32 3);
  admin_keys = [];
  is_managed = false;
  admin_channel_enabled = false;
  serial_enabled = none;
  debug_log_api_enabled = none;
  packet_signature_policy = none;
}

abbrev template : Template
template = record {
  admin_nodes = [];
  is_managed = false;
  serial_enabled = none;
  debug_log_api_enabled = none;
  packet_signature_policy = none;
}

abbrev read : PlanInputs
read = record {
  live = security;
  firmware_version = codes "2.7.0";
  template = template;
  state = provisioned;
  admin_keys = [];
  rejected_admin_keys = [];
  removed_admin_key_refs = [];
  node_key_compromised = false;
  node_key_reason = [];
  db_public_key = some node_key;
  force_regenerate_key = false;
  allow_lockdown = false;
  allow_weak_admin_key = false;
  node_key_admin_refs = [];
  pending_keypair_recovered = false;
}

-- A device of one role, whose other fields all read 0.
abbrev with_role : ℕ → LiveConfig ℕ
with_role role = record {
  node_id = record { num = 48879 };
  short_name = codes "ab";
  long_name = codes "abc";
  is_unmessagable = none;
  public_key = some node_key;
  private_key = none;
  admin_keys = [];
  security_field = λ f. 0;
  default_channel = λ f. 0;
  value = λ section f.
      if text_eq (codes "device") section then if text_eq (codes "role") f then role else 0 else 0;
}

abbrev sections : List Text → TemplateSections ℕ
sections options = record {
  is_unmessagable = none;
  device = record { field = codes "role"; desired = 2 } ∷ [];
  position = [];
  power = [];
  lora = [];
  telemetry = [];
  neighbor_info = [];
  default_channel = [];
  enabled_options = options;
  disabled_options = [];
  role = codes "ROUTER";
  region = codes "EU_868";
}

abbrev inputs_with : List Text → BuildInputs ℕ
inputs_with options = record {
  security = read;
  live = with_role 1;
  is_licensed = false;
  hw_model = codes "TBEAM";
  module_enabled = λ m. some false;
  has_channel = true;
  template = sections options;
  db_entry = none;
  desired_short_name = none;
  desired_long_name = some (codes "abc");
  ble_pin = none;
}

abbrev inputs : BuildInputs ℕ
inputs = inputs_with []

-- Two modules that are off are to be switched on.
abbrev with_modules : BuildInputs ℕ
with_modules = inputs_with (codes "serial" ∷ codes "mqtt" ∷ [])

abbrev admin : AdminKeyPlan
admin = record {
  desired = [];
  desired_refs = [];
  change_admin_keys = false;
  removed = [];
  revoked = [];
  removed_refs = [];
  rejected_refs = [];
  warnings = [];
}

abbrev lockdown : LockdownDecision
lockdown = record {
  enable = false;
  reason = template_opt_out;
  gates = record {
    has_admin_keys = false;
    has_private_counterpart = false;
    audit_clean = true;
    explicit_intent = false;
  };
}

abbrev built : BuiltPlan ℕ
built = finish_plan values inputs admin (choose_keypair read) lockdown

is_built : build_plan values inputs ≡ ok built
unfolding build_plan plan_admin_key_material plan_node_keypair choose_keypair has_public_key
    has_private_key is_real evaluate_lockdown finish packet_signature_policy_skipped texts_eq
    kept_keys removed_indices enumerate dropped_indices indices
is_built = refl

abbrev built_modules : BuiltPlan ℕ
built_modules = finish_plan values with_modules admin (choose_keypair read) lockdown

are_built : build_plan values with_modules ≡ ok built_modules
unfolding build_plan plan_admin_key_material plan_node_keypair choose_keypair has_public_key
    has_private_key is_real evaluate_lockdown finish packet_signature_policy_skipped texts_eq
    kept_keys removed_indices enumerate dropped_indices indices
are_built = refl

-- The modules are sorted, whatever the order of the options.
written :
    map section_key built_modules.plan.sections
    ≡ codes "device" ∷ codes "mqtt" ∷ codes "serial" ∷ []
unfolding finish_plan plan_security_section choose_keypair has_public_key has_private_key is_real
    diff values_equal diff_flag diff_policy is_module_section has_no_enabled lex_le
written = refl

build_plan-Ordered_example : Ordered written_before built_modules.plan.sections
build_plan-Ordered_example = build_plan-Ordered values with_modules built_modules are_built

again : BuiltPlan ℕ
again =
    finish_plan values (read_again inputs read (λ m. some false) (with_role 2)) admin
      (choose_keypair read) lockdown

is_again : build_plan values (read_again inputs read (λ m. some false) (with_role 2)) ≡ ok again
unfolding build_plan again plan_admin_key_material plan_node_keypair choose_keypair has_public_key
    has_private_key is_real evaluate_lockdown finish packet_signature_policy_skipped texts_eq
    kept_keys removed_indices enumerate dropped_indices indices
is_again = refl

-- The plan sets the role and nothing else.
planned_role :
    (section f : Text)
    → planned_value built.plan.sections section f ≡ (
        if text_eq (codes "device") section
        then if text_eq (codes "role") f then some 2 else none
        else none)
unfolding planned_value finish_plan plan_security_section choose_keypair has_public_key
    has_private_key is_real find value_in set_value diff values_equal diff_flag diff_policy
planned_role section f = elim (Bool-cases (text_eq (codes "device") section)) [
  | inl e ↦
      rw e (elim (Bool-cases (text_eq (codes "role") f)) [ inl k ↦ rw k refl | inr k ↦ rw k refl ])
  | inr e ↦ rw e refl
]

reads_planned :
    (section f : Text)
    → Settles values
        (planned_value built.plan.sections section f)
        (reading (with_role 1) section f)
        (reading (with_role 2) section f)
reads_planned section f =
    subst
      (λ (o : Option ℕ).
        Settles values o (reading (with_role 1) section f) (reading (with_role 2) section f))
      (sym (planned_role section f))
      (elim (Bool-cases (text_eq (codes "device") section)) [
        | inl e ↦
            subst
              (λ (s : Text).
                Settles values
                  (if text_eq (codes "device") s
                    then if text_eq (codes "role") f then some 2 else none
                    else none)
                  (reading (with_role 1) s f) (reading (with_role 2) s f))
              ((text_eq_iff (codes "device") section).0 e)
              (elim (Bool-cases (text_eq (codes "role") f)) [
                | inl k ↦ rw k refl
                | inr k ↦ rw k refl
              ])
        | inr e ↦ rw e (elim (Bool-cases (text_eq section (codes "default_channel"))) [
          | inl k ↦ rw k refl
          | inr k ↦ rw k refl
        ])
      ])

build_plan-settled_example :
    (same_name again.plan.name_change ≡ true)
    × (all is_module_or_security again.plan.sections ≡ true)
unfolding finish_plan
build_plan-settled_example =
    build_plan-settled values inputs built read (λ m. some false) (with_role 2) again refl is_built
      reads_planned refl refl refl is_again
