-- ===== src/Build/Sections.antt =====
-- src/meshprovision/provisioning/plan.py: the parts of a plan, section by section.
use meshprovision.Common.{
  Bool, true, false, not, ◌&&◌, ◌||◌, Option, none, some, List, [], ◌∷◌, ◌++◌, any, is_empty,
  if◌then◌else◌,
}
use meshprovision.Common.Text.{Text, codes}
use meshprovision.Common.Equality.{◌==◌, Text_eq}
use meshprovision.Common.Sorting.{sort, lex_le}
use meshprovision.Db.Table.{upserted}
use meshprovision.Run.{NameChange, FieldChange, SectionChange, LiveConfig}
use meshprovision.Build.{
  Values, Setting, BuildInputs, BuildWarning, unknown_module, module_has_no_enabled_field,
  region_change_reboots, primary_channel_unavailable, default_channel_reboot_unknown,
  is_module_section, has_no_enabled, given, db_name_or_live, db_short_name, db_long_name, flag_or,
  option_state,
}

abbrev pub section_key : {V : Type 0} → SectionChange V → Text
section_key s = s.section

abbrev pub by_name : {V : Type 0} → SectionChange V → SectionChange V → Bool
by_name a b = lex_le a.section b.section

-- A section that is planned only when it has changes.
abbrev pub listed_section : {V : Type 0} → Text → List (FieldChange V) → List (SectionChange V)
listed_section section [] = []
listed_section section (c ∷ changes) = record { section = section; changes = c ∷ changes } ∷ []

abbrev pub when : Bool → BuildWarning → List BuildWarning
when c w = if c then w ∷ [] else []

-- `module_changes[name] = …`, when there are changes.
unfoldable pub assign :
    {V : Type 0} → List (SectionChange V) → List (SectionChange V) → List (SectionChange V)
unfolding upserted
assign [] table = table
assign (s ∷ more) table = assign more (upserted section_key s table)

module _ {V : Type 0} (values : Values V) where
  -- The fields whose live value differs from the desired one; `read` is the live lookup.
  unfoldable pub diff_fields : (Text → V) → (Text → Bool) → List (Setting V) → List (FieldChange V)
  diff_fields read is_secret [] = []
  diff_fields read is_secret (s ∷ settings) =
      let rest = diff_fields read is_secret settings in
      if values.same (read s.field) s.desired
      then rest
      else record { field = s.field; desired = s.desired; secret = is_secret s.field } ∷ rest

  unfoldable pub diff_section : Text → List (Setting V) → LiveConfig V → List (FieldChange V)
  unfolding diff_fields
  diff_section section settings live = diff_fields (live.value section) (λ f. false) settings

  -- A toggle of an option: its section, or a warning, or nothing.
  unfoldable pub toggle_section : Text × Bool → Option Bool → List (SectionChange V)
  toggle_section option none = []
  toggle_section option (some current) =
      if current && option.1 || not current && not option.1
      then []
      else record {
        section = option.0;
        changes =
            record { field = codes "enabled"; desired = values.of_flag option.1; secret = false }
            ∷ [];
      }
        ∷ []

  unfoldable pub module_changes : BuildInputs V → List (Text × Bool) → List (SectionChange V)
  unfolding toggle_section
  module_changes inputs [] = []
  module_changes inputs (option ∷ options) =
      (if not (is_module_section option.0) || has_no_enabled option.0
        then []
        else toggle_section option (inputs.module_enabled option.0))
      ++ module_changes inputs options

  unfoldable pub module_warnings : BuildInputs V → List (Text × Bool) → List BuildWarning
  module_warnings inputs [] = []
  module_warnings inputs (option ∷ options) =
      let rest = module_warnings inputs options in
      if not (is_module_section option.0)
      then unknown_module option.0 ∷ rest
      else if has_no_enabled option.0
      then rest
      else elim (inputs.module_enabled option.0) [
        | none ↦ module_has_no_enabled_field option.0 ∷ rest
        | some current ↦ rest
      ]

  module _ (inputs : BuildInputs V) where
    unfoldable pub plan_name_change : NameChange
    unfolding db_name_or_live
    plan_name_change =
        let live = inputs.live in
        record {
          current_short_name = live.short_name;
          desired_short_name =
              given inputs.desired_short_name
                (db_name_or_live (db_short_name inputs.db_entry) live.short_name);
          current_long_name = live.long_name;
          desired_long_name =
              given inputs.desired_long_name
                (db_name_or_live (db_long_name inputs.db_entry) live.long_name);
          current_is_unmessagable = live.is_unmessagable;
          desired_is_unmessagable = flag_or inputs.template.is_unmessagable live.is_unmessagable;
          desired_is_licensed = inputs.is_licensed;
        }

    -- The changes of a section of the template.
    abbrev pub changes_of : Text → List (Setting V) → List (FieldChange V)
    changes_of section settings = diff_section section settings inputs.live

    unfoldable pub plan_config_sections : List (SectionChange V) × List BuildWarning
    unfolding diff_section
    plan_config_sections =
        let template = inputs.template in
        let lora = changes_of (codes "lora") template.lora in
        (
          listed_section (codes "device") (changes_of (codes "device") template.device)
              ++ (listed_section (codes "position")
                    (changes_of (codes "position") template.position)
                  ++ (listed_section (codes "power") (changes_of (codes "power") template.power)
                      ++ listed_section (codes "lora") lora)),
          when (any (λ c. c.field == codes "region" || c.field == codes "modem_preset") lora)
              region_change_reboots,
        )

    abbrev pub options : List (Text × Bool)
    options = option_state inputs.template.enabled_options inputs.template.disabled_options

    unfoldable pub plan_module_sections : List (SectionChange V) × List BuildWarning
    unfolding diff_section module_changes module_warnings assign sort option_state
    plan_module_sections =
        let template = inputs.template in
        (
          sort by_name (
              assign
                (listed_section (codes "neighbor_info")
                  (changes_of (codes "neighbor_info") template.neighbor_info))
                (assign
                  (listed_section (codes "telemetry")
                    (changes_of (codes "telemetry") template.telemetry))
                  (assign (module_changes inputs options) []))),
          module_warnings inputs options,
        )

    abbrev pub pin_settings : Text → List (Setting V)
    pin_settings pin =
        record { field = codes "enabled"; desired = values.of_flag true }
        ∷ record { field = codes "mode"; desired = values.of_name (codes "FIXED_PIN") }
        ∷ record { field = codes "fixed_pin"; desired = values.of_pin pin }
        ∷ []

    -- The fields of `SECRET_FIELDS` in this section.
    abbrev pub is_secret : Text → Bool
    is_secret f = f == codes "fixed_pin"

    unfoldable pub fixed_pin_section : Option Text → List (SectionChange V)
    unfolding diff_fields
    fixed_pin_section none = []
    fixed_pin_section (some pin) =
        listed_section (codes "bluetooth")
          (diff_fields (inputs.live.value (codes "bluetooth")) is_secret (pin_settings pin))

    unfoldable pub plan_bluetooth_section : List (SectionChange V)
    unfolding fixed_pin_section
    plan_bluetooth_section = fixed_pin_section inputs.ble_pin

    -- The template sets the channel's fields, and the device reports no channel.
    abbrev pub channel_missing : Bool
    channel_missing = not (is_empty inputs.template.default_channel) && not inputs.has_channel

    unfoldable pub channel_changes : List (FieldChange V)
    unfolding diff_fields
    channel_changes =
        diff_fields inputs.live.default_channel (λ f. false) inputs.template.default_channel

    unfoldable pub plan_default_channel_section : List (SectionChange V) × List BuildWarning
    unfolding channel_changes
    plan_default_channel_section =
        if channel_missing then ([], primary_channel_unavailable ∷ []) else (
          listed_section (codes "default_channel") channel_changes,
          when (not (is_empty channel_changes)) default_channel_reboot_unknown,
        )
