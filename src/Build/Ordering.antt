-- ===== src/Build/Ordering.antt =====
-- src/meshprovision/provisioning/plan.py, `SECTION_ORDER`: the order in which a plan's sections stand.
use native.Mathlib.Omega.{arith}
use meshprovision.Common.{
  ◌≡◌, refl, ◌∙◌, Bool, true, Option, none, some, List, [], ◌∷◌, ◌++◌, all, Bool-cases, inl, inr,
  ok, subst, >>=-eq_ok,
}
use meshprovision.Common.Text.{Text, codes, text_eq_iff}
use meshprovision.Common.Equality.{Text_eq, mem}
use meshprovision.Common.Sorting.{Ordered}
use meshprovision.Run.{SectionChange}
use meshprovision.Plan.AdminKeys.{AdminKeyPlan}
use meshprovision.Plan.Keypair.{KeypairPlan}
use meshprovision.Plan.Lockdown.{LockdownDecision}
use meshprovision.Plan.Section.{FieldChange as SecurityChange}
use meshprovision.Build.{Values, BuildInputs, BuiltPlan, module_sections, is_module_section}
use meshprovision.Build.Sections.{
  module_changes, toggle_section, plan_config_sections, options, plan_module_sections,
  fixed_pin_section, plan_bluetooth_section, channel_missing, plan_default_channel_section,
}
use meshprovision.Build.Assembled.{
  security_section, assemble_sections, finish_plan, admin_part, keypair_part, lockdown_part,
  build_plan,
}
use meshprovision.Build.Ranks.{
  section_rank, written_before, Ranked, is_module, modules_rank, append-Ranked,
  listed_section-Ranked,
}
use meshprovision.Build.Modules.{
  all_modules, IsModules, all_modules-append, assign-IsModules, listed_section-IsModules,
  sort-Ranked,
}

all-mem :
    (p : Text → Bool) (a : Text) (xs : List Text) → all p xs ≡ true → mem a xs ≡ true → p a ≡ true
all-mem p a [] h m = cc
all-mem p a (x ∷ xs) h m = ground (arith, all-mem p a xs, text_eq_iff a x)

is_module_section-is_module :
    (option : Text) → is_module_section option ≡ true → is_module option ≡ true
unfolding is_module_section
is_module_section-is_module option h = all-mem is_module option module_sections modules_rank h

module _ {V : Type 0} (values : Values V) (inputs : BuildInputs V) where
  all_modules_nil : all_modules {V = V} [] ≡ true
  unfolding all_modules
  all_modules_nil = refl

  nil-IsModules : IsModules {V = V} []
  unfolding IsModules
  nil-IsModules = (refl, all_modules_nil)

  toggle_section-modules :
      (toggle : Text × Bool) (current : Option Bool)
      → is_module toggle.0 ≡ true
      → all_modules (toggle_section values toggle current) ≡ true
  unfolding toggle_section all_modules
  toggle_section-modules toggle none h = refl
  toggle_section-modules toggle (some current) h = ground arith

  module_changes-modules :
      (toggles : List (Text × Bool)) → all_modules (module_changes values inputs toggles) ≡ true
  unfolding module_changes
  module_changes-modules [] = all_modules_nil
  module_changes-modules (toggle ∷ toggles) =
      all_modules-append _ (module_changes values inputs toggles)
      ∙ ground (
        arith,
        all_modules_nil,
        module_changes-modules toggles,
        is_module_section-is_module toggle.0,
        toggle_section-modules toggle (inputs.module_enabled toggle.0),
      )

  is_module_telemetry : is_module (codes "telemetry") ≡ true
  unfolding is_module section_rank
  is_module_telemetry = refl

  is_module_neighbor_info : is_module (codes "neighbor_info") ≡ true
  unfolding is_module section_rank
  is_module_neighbor_info = refl

  pub plan_module_sections-Ranked : Ranked 5 5 (plan_module_sections values inputs).0
  unfolding plan_module_sections
  plan_module_sections-Ranked = sort-Ranked _ (
      assign-IsModules _ _ (listed_section-IsModules _ _ is_module_neighbor_info) (
        assign-IsModules _ _ (listed_section-IsModules _ _ is_module_telemetry)
          (assign-IsModules _ _ (module_changes-modules (options values inputs)) nil-IsModules)))

  pub plan_config_sections-Ranked : Ranked 0 3 (plan_config_sections values inputs).0
  unfolding plan_config_sections section_rank
  plan_config_sections-Ranked =
      append-Ranked 0 0 3 _ _ (omega arith) (omega arith) (listed_section-Ranked (codes "device") _)
        (append-Ranked 1 1 3 _ _ (omega arith) (omega arith)
          (listed_section-Ranked (codes "position") _)
          (append-Ranked 2 2 3 _ _ (omega arith) (omega arith)
            (listed_section-Ranked (codes "power") _) (listed_section-Ranked (codes "lora") _)))

  pub fixed_pin_section-Ranked :
      (pin : Option Text) → Ranked 4 4 (fixed_pin_section values inputs pin)
  unfolding fixed_pin_section section_rank
  fixed_pin_section-Ranked none = listed_section-Ranked (codes "bluetooth") []
  fixed_pin_section-Ranked (some pin) = listed_section-Ranked (codes "bluetooth") _

  pub plan_default_channel_section-Ranked :
      Ranked 6 6 (plan_default_channel_section values inputs).0
  unfolding plan_default_channel_section section_rank
  plan_default_channel_section-Ranked = elim (Bool-cases (channel_missing values inputs)) [
    | inl missing ↦ rw missing (listed_section-Ranked (codes "default_channel") [])
    | inr h ↦ rw h (listed_section-Ranked (codes "default_channel") _)
  ]

  pub security_section-Ranked :
      (security : Option (List SecurityChange))
      → Ranked 7 7 (security_section values inputs security)
  unfolding section_rank Ranked
  security_section-Ranked none = (tt, refl)
  security_section-Ranked (some changes) = ((refl, tt), refl)

  -- What follows the bluetooth section, and what follows the configuration sections.
  abbrev pub channel_tail : Option (List SecurityChange) → List (SectionChange V)
  channel_tail security =
      (plan_default_channel_section values inputs).0 ++ security_section values inputs security

  abbrev pub modules_tail : Option (List SecurityChange) → List (SectionChange V)
  modules_tail security = (plan_module_sections values inputs).0 ++ channel_tail security

  abbrev pub bluetooth_tail : Option (List SecurityChange) → List (SectionChange V)
  bluetooth_tail security = plan_bluetooth_section values inputs ++ modules_tail security

  pub channel_tail-Ranked :
      (security : Option (List SecurityChange)) → Ranked 6 7 (channel_tail security)
  channel_tail-Ranked security =
      append-Ranked 6 6 7 _ _ (omega arith) (omega arith) plan_default_channel_section-Ranked
        (security_section-Ranked security)

  pub modules_tail-Ranked :
      (security : Option (List SecurityChange)) → Ranked 5 7 (modules_tail security)
  modules_tail-Ranked security =
      append-Ranked 5 5 7 _ _ (omega arith) (omega arith) plan_module_sections-Ranked
        (channel_tail-Ranked security)

  pub bluetooth_tail-Ranked :
      (security : Option (List SecurityChange)) → Ranked 4 7 (bluetooth_tail security)
  unfolding plan_bluetooth_section
  bluetooth_tail-Ranked security =
      append-Ranked 4 4 7 _ _ (omega arith) (omega arith) (fixed_pin_section-Ranked inputs.ble_pin)
        (modules_tail-Ranked security)

  assemble_sections-Ranked :
      (security : Option (List SecurityChange))
      → Ranked 0 7 (assemble_sections values inputs security)
  unfolding assemble_sections
  assemble_sections-Ranked security =
      append-Ranked 0 3 7 _ _ (omega arith) (omega arith) plan_config_sections-Ranked
        (bluetooth_tail-Ranked security)

  -- Where the building succeeds, its three parts did.
  pub build_plan-eq_ok :
      (built : BuiltPlan V)
      → build_plan values inputs ≡ ok built
      → (admin : AdminKeyPlan) × (keypair : KeypairPlan) × (lockdown : LockdownDecision)
        × (admin_part values inputs ≡ ok admin)
        × (keypair_part values inputs ≡ ok keypair)
        × (lockdown_part values inputs admin.desired ≡ ok lockdown)
        × (finish_plan values inputs admin keypair lockdown ≡ built)
  unfolding build_plan
  build_plan-eq_ok built h =
      let a = >>=-eq_ok (admin_part values inputs) _ h in
      let k = >>=-eq_ok (keypair_part values inputs) _ a.2 in
      let l = >>=-eq_ok (lockdown_part values inputs a.0.desired) _ k.2 in
      (a.0, k.0, l.0, a.1, k.1, l.1, cc (l.2))

  -- A plan's sections stand in the order of `SECTION_ORDER`, no two of them with one name: device, position,
  -- power, lora, bluetooth, then the modules by their names, then the default channel, and security last.
  pub build_plan-Ordered :
      (built : BuiltPlan V)
      → build_plan values inputs ≡ ok built
      → Ordered written_before built.plan.sections
  unfolding build_plan finish_plan Ranked
  build_plan-Ordered built h =
      let parts = build_plan-eq_ok built h in
      subst (λ (b : BuiltPlan V). Ordered written_before b.plan.sections) parts.6
        (assemble_sections-Ranked _).0
