-- ===== src/Build/Places.antt =====
-- src/meshprovision/provisioning/plan.py: where each part of a plan stands among its sections.
use native.Mathlib.Omega.{arith}
use meshprovision.Common.{◌≡◌, refl, ◌∙◌, true, Option, none, List, ◌++◌, ltb}
use meshprovision.Common.Text.{Text, codes}
use meshprovision.Common.Equality.{Text_eq}
use meshprovision.Db.Table.{find}
use meshprovision.Plan.Section.{FieldChange as SecurityChange}
use meshprovision.Run.{SectionChange}
use meshprovision.Build.{Values, Setting, BuildInputs}
use meshprovision.Build.Sections.{
  section_key, listed_section, changes_of, plan_config_sections, fixed_pin_section,
  plan_bluetooth_section, plan_default_channel_section, plan_module_sections,
}
use meshprovision.Build.Assembled.{assemble_sections}
use meshprovision.Build.Ranks.{section_rank, Ranked, append-Ranked, listed_section-Ranked}
use meshprovision.Build.Ordering.{
  bluetooth_tail, bluetooth_tail-Ranked, modules_tail-Ranked, plan_config_sections-Ranked,
  fixed_pin_section-Ranked, plan_module_sections-Ranked, security_section-Ranked,
}
use meshprovision.Build.Settled.{find-append-none, find-none-append, find-Ranked-none}

module _ {V : Type 0} (values : Values V) (inputs : BuildInputs V) where
  unfoldable pub part : Text → List (Setting V) → List (SectionChange V)
  part section settings = listed_section section (changes_of values inputs section settings)

  part-Ranked :
      (section : Text) (settings : List (Setting V))
      → Ranked (section_rank section) (section_rank section) (part section settings)
  unfolding part
  part-Ranked section settings = listed_section-Ranked section _

  after_position : List (SectionChange V)
  after_position =
      part (codes "power") inputs.template.power ++ part (codes "lora") inputs.template.lora

  after_device : List (SectionChange V)
  after_device = part (codes "position") inputs.template.position ++ after_position

  after_position-Ranked : Ranked 2 3 after_position
  unfolding after_position section_rank
  after_position-Ranked =
      append-Ranked 2 2 3 _ _ (omega arith) (omega arith) (part-Ranked (codes "power") _)
        (part-Ranked (codes "lora") _)

  after_device-Ranked : Ranked 1 3 after_device
  unfolding after_device section_rank
  after_device-Ranked =
      append-Ranked 1 1 3 _ _ (omega arith) (omega arith) (part-Ranked (codes "position") _)
        after_position-Ranked

  module _ (security : Option (List SecurityChange)) where
    unfoldable pub assembled : List (SectionChange V)
    assembled = assemble_sections values inputs security

    no_config :
        (n : Text)
        → ltb 3 (section_rank n) ≡ true
        → find section_key n (plan_config_sections values inputs).0 ≡ none
    no_config n h =
        find-Ranked-none 0 3 n _ (plan_config_sections-Ranked values inputs) (ground (arith, h))

    no_tail :
        (n : Text)
        → ltb (section_rank n) 4 ≡ true
        → find section_key n (bluetooth_tail values inputs security) ≡ none
    no_tail n h =
        find-Ranked-none 4 7 n _ (bluetooth_tail-Ranked values inputs security) (ground (arith, h))

    -- A section of the plan is where its part is.
    find-config :
        (n : Text)
        → ltb (section_rank n) 4 ≡ true
        → find section_key n assembled ≡ find section_key n (plan_config_sections values inputs).0
    unfolding assembled assemble_sections
    find-config n h = find-append-none n (plan_config_sections values inputs).0 _ (no_tail n h)

    find-config_tail :
        (n : Text)
        → ltb 3 (section_rank n) ≡ true
        → find section_key n assembled ≡ find section_key n (bluetooth_tail values inputs security)
    unfolding assembled assemble_sections
    find-config_tail n h =
        find-none-append n (plan_config_sections values inputs).0 _ (no_config n h)

    none_before :
        (n : Text) (settings : List (Setting V)) (section : Text) (rest : List (SectionChange V))
        → ltb (section_rank section) (section_rank n) ≡ true
        → find section_key n (part section settings ++ rest) ≡ find section_key n rest
    none_before n settings section rest h =
        find-none-append n (part section settings) rest
          (find-Ranked-none _ _ n _ (part-Ranked section settings) (ground (arith, h)))

    pub find-device :
        find section_key (codes "device") assembled
        ≡ find section_key (codes "device") (part (codes "device") inputs.template.device)
    unfolding section_rank plan_config_sections after_device after_position part
    find-device =
        find-config (codes "device") refl
        ∙ find-append-none (codes "device") (part (codes "device") inputs.template.device)
            after_device (find-Ranked-none 1 3 (codes "device") _ after_device-Ranked refl)

    pub find-position :
        find section_key (codes "position") assembled
        ≡ find section_key (codes "position") (part (codes "position") inputs.template.position)
    unfolding section_rank plan_config_sections after_device after_position part
    find-position =
        find-config (codes "position") refl
        ∙ none_before (codes "position") inputs.template.device (codes "device") after_device refl
        ∙ find-append-none (codes "position") (part (codes "position") inputs.template.position)
            after_position (find-Ranked-none 2 3 (codes "position") _ after_position-Ranked refl)

    pub find-power :
        find section_key (codes "power") assembled
        ≡ find section_key (codes "power") (part (codes "power") inputs.template.power)
    unfolding section_rank plan_config_sections after_device after_position part
    find-power =
        find-config (codes "power") refl
        ∙ none_before (codes "power") inputs.template.device (codes "device") after_device refl
        ∙ none_before (codes "power") inputs.template.position (codes "position") after_position
            refl
        ∙ find-append-none (codes "power") (part (codes "power") inputs.template.power)
            (part (codes "lora") inputs.template.lora)
            (find-Ranked-none 3 3 (codes "power") _ (part-Ranked (codes "lora") _) refl)

    pub find-lora :
        find section_key (codes "lora") assembled
        ≡ find section_key (codes "lora") (part (codes "lora") inputs.template.lora)
    unfolding section_rank plan_config_sections after_device after_position part
    find-lora =
        find-config (codes "lora") refl
        ∙ none_before (codes "lora") inputs.template.device (codes "device") after_device refl
        ∙ none_before (codes "lora") inputs.template.position (codes "position") after_position refl
        ∙ none_before (codes "lora") inputs.template.power (codes "power")
            (part (codes "lora") inputs.template.lora) refl

    pub find-bluetooth :
        find section_key (codes "bluetooth") assembled
        ≡ find section_key (codes "bluetooth") (fixed_pin_section values inputs inputs.ble_pin)
    unfolding section_rank plan_bluetooth_section
    find-bluetooth =
        find-config_tail (codes "bluetooth") refl
        ∙ find-append-none (codes "bluetooth") (fixed_pin_section values inputs inputs.ble_pin) _ (
            find-Ranked-none 5 7 (codes "bluetooth") _ (modules_tail-Ranked values inputs security)
              refl)

    pub find-default_channel :
        find section_key (codes "default_channel") assembled
        ≡ find section_key (codes "default_channel") (plan_default_channel_section values inputs).0
    unfolding section_rank plan_bluetooth_section
    find-default_channel =
        find-config_tail (codes "default_channel") refl
        ∙ find-none-append (codes "default_channel")
            (fixed_pin_section values inputs inputs.ble_pin) _
            (find-Ranked-none 4 4 (codes "default_channel") _
              (fixed_pin_section-Ranked values inputs inputs.ble_pin) refl)
        ∙ find-none-append (codes "default_channel") (plan_module_sections values inputs).0 _ (
            find-Ranked-none 5 5 (codes "default_channel") _
              (plan_module_sections-Ranked values inputs) refl)
        ∙ find-append-none (codes "default_channel") (plan_default_channel_section values inputs).0
            _
            (find-Ranked-none 7 7 (codes "default_channel") _
              (security_section-Ranked values inputs security) refl)
