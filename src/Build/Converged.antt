-- ===== src/Build/Converged.antt =====
-- src/meshprovision/provisioning/plan.py: `build_plan` on a device that reads as a plan has set it.
use native.Mathlib.Omega.{arith}
use meshprovision.Common.{
  ◌≡◌, refl, ◌∙◌, sym, ap, subst, ℕ, Bool, true, false, ◌||◌, Option, none, some, List, [], ◌∷◌,
  ◌++◌, all, all-append, ◌==◌ as nat_eq, if◌then◌else◌, &&_parts, Bool-cases, inl, inr, ok,
}
use meshprovision.Common.Text.{Text, codes}
use meshprovision.Common.Equality.{◌==◌, Text_eq, distinct}
use meshprovision.Db.Table.{find}
use meshprovision.Plan.{PlanInputs}
use meshprovision.Plan.AdminKeys.{AdminKeyPlan}
use meshprovision.Plan.Keypair.{KeypairPlan}
use meshprovision.Plan.Lockdown.{LockdownDecision}
use meshprovision.Plan.Section.{plan_security_section, FieldChange as SecurityChange}
use meshprovision.Run.{SectionChange, LiveConfig, same_name}
use meshprovision.Build.{Values, Setting, BuildInputs, BuiltPlan}
use meshprovision.Build.Sections.{
  section_key, listed_section, diff_section, changes_of, plan_config_sections, is_secret,
  pin_settings, fixed_pin_section, plan_bluetooth_section, channel_missing, channel_changes,
  plan_default_channel_section,
}
use meshprovision.Build.Assembled.{finish_plan, assemble_sections, build_plan}
use meshprovision.Build.Ranks.{rank_of, within, Ranked}
use meshprovision.Build.Ordering.{
  plan_module_sections-Ranked, security_section-Ranked, build_plan-eq_ok,
}
use meshprovision.Build.Places.{
  part, assembled, find-device, find-position, find-power, find-lora, find-bluetooth,
  find-default_channel,
}
use meshprovision.Build.Settled.{
  fields_of, Settles, diff_fields-settled, value_in, planned_value, planned_value-listed,
}
use meshprovision.Build.Reread.{reading, distinct_fields, read_again, names-settled}

nil_append : {A : Type 0} (xs ys : List A) → xs ≡ [] → ys ≡ [] → (xs ++ ys) ≡ []
nil_append xs ys h k = cc

all_parts :
    {A : Type 0} (P : A → Bool) (config bluetooth modules channel security : List A)
    → config ≡ []
    → bluetooth ≡ []
    → all P modules ≡ true
    → channel ≡ []
    → all P security ≡ true
    → all P (config ++ (bluetooth ++ (modules ++ (channel ++ security)))) ≡ true
all_parts P config bluetooth modules channel security c b m h s =
    rw c (rw b (rw h (all-append P modules security ∙ ground (arith, m, s))))

module _ {V : Type 0} (values : Values V) (inputs : BuildInputs V) where
  -- The device reads as the plan has set it: the fields that the plan sets, and all others as before.
  module _ (read : PlanInputs) (module_enabled : Text → Option Bool)
      (security : Option (List SecurityChange)) (live : LiveConfig V)
      (settled : (section f : Text)
        → Settles values
            (planned_value (assembled values inputs security) section f)
            (reading inputs.live section f)
            (reading live section f)) where
    part-settled :
        (section : Text) (settings : List (Setting V))
        → (section == codes "default_channel") ≡ false
        → distinct (fields_of settings) ≡ true
        → find section_key section (assembled values inputs security)
          ≡ find section_key section (part values inputs section settings)
        → listed_section section
            (changes_of values (read_again inputs read module_enabled live) section settings)
          ≡ []
    unfolding part diff_section planned_value value_in
    part-settled section settings other d place =
        let none_left : diff_section values section settings live ≡ [] =
          diff_fields-settled values (inputs.live.value section) (live.value section) (λ f. false)
            settings d
            (λ f m.
              subst
                (λ (o : Option V).
                  Settles values o (inputs.live.value section f) (live.value section f))
                (ap (λ o. value_in o f) place ∙ planned_value-listed section f _)
                (subst
                  (λ (c : Bool).
                    Settles values (planned_value (assembled values inputs security) section f)
                      (if c then inputs.live.default_channel f else inputs.live.value section f)
                      (if c then live.default_channel f else live.value section f))
                  other (settled section f))) in
        ap (λ changes. listed_section section changes) none_left

    bluetooth-settled :
        (pin : Option Text)
        → find section_key (codes "bluetooth") (assembled values inputs security)
          ≡ find section_key (codes "bluetooth") (fixed_pin_section values inputs pin)
        → fixed_pin_section values (read_again inputs read module_enabled live) pin ≡ []
    unfolding fixed_pin_section planned_value value_in
    bluetooth-settled none place = refl
    bluetooth-settled (some pin) place =
        ap (λ changes. listed_section (codes "bluetooth") changes)
          (diff_fields-settled values (inputs.live.value (codes "bluetooth"))
            (live.value (codes "bluetooth")) (is_secret values inputs)
            (pin_settings values inputs pin) refl
            (λ f m.
              subst
                (λ (o : Option V).
                  Settles values o (inputs.live.value (codes "bluetooth") f)
                    (live.value (codes "bluetooth") f))
                (ap (λ o. value_in o f) place ∙ planned_value-listed (codes "bluetooth") f _)
                (settled (codes "bluetooth") f)))

    channel-settled :
        distinct (fields_of inputs.template.default_channel) ≡ true
        → (plan_default_channel_section values (read_again inputs read module_enabled live)).0 ≡ []
    unfolding plan_default_channel_section channel_changes planned_value value_in
    channel-settled d = elim (Bool-cases (channel_missing values inputs)) [
      | inl missing ↦ rw missing refl
      | inr h ↦
          let place = find-default_channel values inputs security in
          let listed : (plan_default_channel_section values inputs).0
              ≡ listed_section (codes "default_channel") (channel_changes values inputs) =
            rw h refl in
          rw h (
            ap (λ changes. listed_section (codes "default_channel") changes)
              (diff_fields-settled values inputs.live.default_channel live.default_channel
                (λ f. false) inputs.template.default_channel d
                (λ f m.
                  subst
                    (λ (o : Option V).
                      Settles values o (inputs.live.default_channel f) (live.default_channel f))
                    (ap (λ o. value_in o f)
                        (place ∙ ap (find section_key (codes "default_channel")) listed)
                      ∙ planned_value-listed (codes "default_channel") f _)
                    (settled (codes "default_channel") f))))
    ]

    config-settled :
        distinct_fields inputs.template ≡ true
        → (plan_config_sections values (read_again inputs read module_enabled live)).0 ≡ []
    unfolding plan_config_sections
    config-settled d =
        let template = inputs.template in
        nil_append _ _
          (part-settled (codes "device") template.device refl (ground (arith, d))
            (find-device values inputs security))
          (nil_append _ _
            (part-settled (codes "position") template.position refl (ground (arith, d))
              (find-position values inputs security))
            (nil_append _ _
              (part-settled (codes "power") template.power refl (ground (arith, d))
                (find-power values inputs security))
              (part-settled (codes "lora") template.lora refl (ground (arith, d))
                (find-lora values inputs security))))

-- A section that the settling says nothing of: a module, or security.
abbrev pub is_module_or_security : {V : Type 0} → SectionChange V → Bool
is_module_or_security s = nat_eq (rank_of s) 5 || nat_eq (rank_of s) 7

module _ {V : Type 0} where
  all-Ranked :
      (rank : ℕ) (sections : List (SectionChange V))
      → (nat_eq rank 5 || nat_eq rank 7) ≡ true
      → Ranked rank rank sections
      → all is_module_or_security sections ≡ true
  unfolding Ranked
  all-Ranked rank [] k h = refl
  all-Ranked rank (s ∷ sections) k h =
      let parts = &&_parts (within rank rank s) (all (within rank rank) sections) h.1 in
      ground (arith, all-Ranked rank sections k (h.0.1, parts.1), parts.0)

module _ {V : Type 0} (values : Values V) (inputs : BuildInputs V) where
  finish_plan-settled :
      (admin admin' : AdminKeyPlan) (keypair keypair' : KeypairPlan)
      (lockdown lockdown' : LockdownDecision) (read : PlanInputs)
      (module_enabled : Text → Option Bool) (live : LiveConfig V)
      → distinct_fields inputs.template ≡ true
      → ((section f : Text)
          → Settles values
              (planned_value
                (finish_plan values inputs admin keypair lockdown).plan.sections
                section
                f)
              (reading inputs.live section f)
              (reading live section f))
      → all is_module_or_security
          (finish_plan values
            (read_again inputs read module_enabled live)
            admin'
            keypair'
            lockdown').plan.sections
        ≡ true
  unfolding finish_plan assemble_sections assembled plan_bluetooth_section
  finish_plan-settled admin admin' keypair keypair' lockdown lockdown' read module_enabled live d
        settled =
      let second = read_again inputs read module_enabled live in
      let security =
        plan_security_section inputs.security keypair.regenerate admin.change_admin_keys lockdown in
      let security' =
        plan_security_section read keypair'.regenerate admin'.change_admin_keys lockdown' in
      all_parts is_module_or_security _ _ _ _ _
        (config-settled values inputs read module_enabled security live settled d)
        (bluetooth-settled values inputs read module_enabled security live settled inputs.ble_pin
          (find-bluetooth values inputs security))
        (all-Ranked 5 _ refl (plan_module_sections-Ranked values second))
        (channel-settled values inputs read module_enabled security live settled
          (ground (arith, d)))
        (all-Ranked 7 _ refl (security_section-Ranked values second security'))

  -- Once the device reads as a plan has set it, its names and every field of the plan's sections as planned
  -- and all other fields as before, a plan built again from the same template, database row and options
  -- changes no name, and no section but a module's and security.
  pub build_plan-settled :
      (built : BuiltPlan V) (read : PlanInputs) (module_enabled : Text → Option Bool)
      (live : LiveConfig V) (again : BuiltPlan V)
      → distinct_fields inputs.template ≡ true
      → build_plan values inputs ≡ ok built
      → ((section f : Text)
          → Settles values
              (planned_value built.plan.sections section f)
              (reading inputs.live section f)
              (reading live section f))
      → live.short_name ≡ built.plan.name_change.desired_short_name
      → live.long_name ≡ built.plan.name_change.desired_long_name
      → live.is_unmessagable ≡ built.plan.name_change.desired_is_unmessagable
      → build_plan values (read_again inputs read module_enabled live) ≡ ok again
      → (same_name again.plan.name_change ≡ true)
        × (all is_module_or_security again.plan.sections ≡ true)
  unfolding finish_plan
  build_plan-settled built read module_enabled live again d h settled s l u h' =
      let first = build_plan-eq_ok values inputs built h in
      let second = build_plan-eq_ok values (read_again inputs read module_enabled live) again h' in
      subst
        (λ (b : BuiltPlan V).
          (same_name b.plan.name_change ≡ true)
          × (all is_module_or_security b.plan.sections ≡ true))
        second.6
        ((
          names-settled values inputs read module_enabled live
              (subst (λ (b : BuiltPlan V). live.short_name ≡ b.plan.name_change.desired_short_name)
                (sym first.6) s)
              (subst (λ (b : BuiltPlan V). live.long_name ≡ b.plan.name_change.desired_long_name)
                (sym first.6) l)
              (subst
                (λ (b : BuiltPlan V).
                  live.is_unmessagable ≡ b.plan.name_change.desired_is_unmessagable)
                (sym first.6) u),
          finish_plan-settled first.0 second.0 first.1 second.1 first.2 second.2 read module_enabled
              live d
              (λ section f.
                subst
                  (λ (b : BuiltPlan V).
                    Settles values (planned_value b.plan.sections section f)
                      (reading inputs.live section f) (reading live section f))
                  (sym first.6) (settled section f)),
        ))
