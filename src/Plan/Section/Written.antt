-- ===== src/Plan/Section/Written.antt =====
-- src/meshprovision/provisioning/plan_security.py. What the planned `security` section does to a
-- device, and when there is nothing to write.
use native.Mathlib.Omega.{arith}
use meshprovision.Common.{
  ◌≡◌, ◌↔◌, inl, inr, refl, ◌∙◌, Bool, true, false, not, ◌&&◌, Option, none, some, List, ◌++◌,
  is_empty, if◌then◌else◌, Bool-cases,
}
use meshprovision.Common.Text.{Text}
use meshprovision.Plan.{PlanInputs}
use meshprovision.Plan.Lockdown.{LockdownDecision}
use meshprovision.Plan.Section.{
  Value, flag, name, Field, admin_channel_enabled, serial_enabled, debug_log_api_enabled,
  packet_signature_policy, is_managed, FieldChange, values_equal, values_equal_iff, flag_of,
  name_of, firmware_supports_packet_signature_policy, diff, diff_flag, diff_policy,
  security_changes, plan_security_section, live_value, or_live_flag, or_live_policy, wanted,
  field_eq, write,
}

-- How one diff in front acts on a field.
abbrev after : Bool → Value → Value → Value → Value
after mine current desired rest =
    if mine && not (values_equal current desired) then desired else rest

flag_after : Bool → Option Bool → Option Bool → Value → Value
flag_after mine current none rest = rest
flag_after mine current (some desired) rest = after mine (flag_of current) (flag desired) rest

policy_after : Bool → Option Text → Option Text → Value → Value
policy_after mine current none rest = rest
policy_after mine current (some desired) rest = after mine (name_of current) (name desired) rest

module _ (values : Field → Value) (f : Field) (rest : List FieldChange) where
  write-diff :
      (g : Field) (c d : Value)
      → write (diff g c d ++ rest) values f ≡ after (field_eq g f) c d (write rest values f)
  unfolding diff
  write-diff g c d = ground arith

  write-diff_flag :
      (g : Field) (c d : Option Bool)
      → write (diff_flag g c d ++ rest) values f
        ≡ flag_after (field_eq g f) c d (write rest values f)
  unfolding diff_flag flag_after
  write-diff_flag g c none = refl
  write-diff_flag g c (some b) = write-diff g (flag_of c) (flag b)

  write-diff_policy :
      (firmware : Text) (c d : Option Text)
      → write (diff_policy firmware c d ++ rest) values f
        ≡ policy_after
            (firmware_supports_packet_signature_policy firmware
              && field_eq packet_signature_policy f)
            c
            d
            (write rest values f)
  unfolding diff_policy policy_after
  write-diff_policy firmware c none = refl
  write-diff_policy firmware c (some p) =
      ground (arith, write-diff packet_signature_policy (name_of c) (name p))

-- The value that a field has once a difference is written.
settled : (c d : Value) → after true c d c ≡ d
settled c d = ground (arith, values_equal_iff c d)

settled_flag : (c d : Option Bool) → flag_after true c d (flag_of c) ≡ or_live_flag d c
unfolding flag_after
settled_flag c none = refl
settled_flag c (some b) = settled (flag_of c) (flag b)

unmoved_flag : (c d : Option Bool) (v : Value) → flag_after false c d v ≡ v
unfolding flag_after
unmoved_flag c none v = refl
unmoved_flag c (some b) v = refl

module _ (firmware : Text) where
  settled_policy :
      (c d : Option Text)
      → policy_after (firmware_supports_packet_signature_policy firmware && true) c d (name_of c)
        ≡ or_live_policy firmware d c
  unfolding policy_after
  settled_policy c none = refl
  settled_policy c (some p) = ground (arith, settled (name_of c) (name p))

  unmoved_policy :
      (c d : Option Text) (v : Value)
      → policy_after (firmware_supports_packet_signature_policy firmware && false) c d v ≡ v
  unfolding policy_after
  unmoved_policy c none v = refl
  unmoved_policy c (some p) v = ground arith

write-last :
    (values : Field → Value) (f g : Field) (c d : Value)
    → write (diff g c d) values f ≡ after (field_eq g f) c d (values f)
unfolding diff
write-last values f g c d = ground arith

module _ (inputs : PlanInputs) (lockdown : LockdownDecision) where
  -- The value that the planned changes leave in a field, the last of them first.
  left : Field → Value
  left f =
      let live = inputs.live in
      let template = inputs.template in
      after (field_eq admin_channel_enabled f) (flag live.admin_channel_enabled) (flag false) (
        flag_after (field_eq serial_enabled f) live.serial_enabled template.serial_enabled (
          flag_after (field_eq debug_log_api_enabled f) live.debug_log_api_enabled
            template.debug_log_api_enabled
            (policy_after
              (firmware_supports_packet_signature_policy inputs.firmware_version
                && field_eq packet_signature_policy f)
              live.packet_signature_policy template.packet_signature_policy
              (after (field_eq is_managed f) (flag live.is_managed) (flag lockdown.enable)
                (live_value live f)))))

  write-left :
      (f : Field) → write (security_changes inputs lockdown) (live_value inputs.live) f ≡ left f
  unfolding security_changes left
  write-left f =
      let live = inputs.live in
      let values = live_value live in
      let template = inputs.template in
      let managed = diff is_managed (flag live.is_managed) (flag lockdown.enable) in
      let policy =
        diff_policy inputs.firmware_version live.packet_signature_policy
          template.packet_signature_policy in
      let debug =
        diff_flag debug_log_api_enabled live.debug_log_api_enabled template.debug_log_api_enabled in
      let serial = diff_flag serial_enabled live.serial_enabled template.serial_enabled in
      rw
        (
          write-diff values f (serial ++ (debug ++ (policy ++ managed))) admin_channel_enabled
              (flag live.admin_channel_enabled) (flag false),
          write-diff_flag values f (debug ++ (policy ++ managed)) serial_enabled live.serial_enabled
              template.serial_enabled,
          write-diff_flag values f (policy ++ managed) debug_log_api_enabled
              live.debug_log_api_enabled template.debug_log_api_enabled,
          write-diff_policy values f managed inputs.firmware_version live.packet_signature_policy
              template.packet_signature_policy,
          write-last values f is_managed (flag live.is_managed) (flag lockdown.enable),
        )
        refl

  serial_stays :
      {v : Value} → flag_after false inputs.live.serial_enabled inputs.template.serial_enabled v ≡ v
  serial_stays {v} = unmoved_flag inputs.live.serial_enabled inputs.template.serial_enabled v

  debug_stays :
      {v : Value}
      → flag_after false inputs.live.debug_log_api_enabled inputs.template.debug_log_api_enabled v
        ≡ v
  debug_stays {v} =
      unmoved_flag inputs.live.debug_log_api_enabled inputs.template.debug_log_api_enabled v

  policy_stays :
      {v : Value}
      → policy_after
          (firmware_supports_packet_signature_policy inputs.firmware_version && false)
          inputs.live.packet_signature_policy
          inputs.template.packet_signature_policy
          v
        ≡ v
  policy_stays {v} =
      unmoved_policy inputs.firmware_version inputs.live.packet_signature_policy
        inputs.template.packet_signature_policy v

  left-wanted : (f : Field) → left f ≡ wanted inputs lockdown f
  unfolding left
  left-wanted admin_channel_enabled =
      rw (serial_stays, debug_stays, policy_stays)
        (settled (flag inputs.live.admin_channel_enabled) (flag false))
  left-wanted serial_enabled =
      rw (debug_stays, policy_stays)
        (settled_flag inputs.live.serial_enabled inputs.template.serial_enabled)
  left-wanted debug_log_api_enabled =
      rw (serial_stays, policy_stays)
        (settled_flag inputs.live.debug_log_api_enabled inputs.template.debug_log_api_enabled)
  left-wanted packet_signature_policy =
      rw (serial_stays, debug_stays)
        (settled_policy inputs.firmware_version inputs.live.packet_signature_policy
          inputs.template.packet_signature_policy)
  left-wanted is_managed =
      rw (serial_stays, debug_stays, policy_stays)
        (settled (flag inputs.live.is_managed) (flag lockdown.enable))

-- After the planned section is written, every security field of the device holds what it ought to.
pub write-security_changes :
    (inputs : PlanInputs) (lockdown : LockdownDecision) (f : Field)
    → write (security_changes inputs lockdown) (live_value inputs.live) f ≡ wanted inputs lockdown f
write-security_changes inputs lockdown f =
    write-left inputs lockdown f ∙ left-wanted inputs lockdown f

-- Whether a field already holds what it ought to.
abbrev holds : PlanInputs → LockdownDecision → Field → Bool
holds inputs lockdown f = values_equal (live_value inputs.live f) (wanted inputs lockdown f)

module _ (rest : List FieldChange) where
  is_empty-diff :
      (g : Field) (c d : Value)
      → is_empty (diff g c d ++ rest) ≡ (values_equal c d && is_empty rest)
  unfolding diff
  is_empty-diff g c d = ground arith

  is_empty-diff_flag :
      (g : Field) (c d : Option Bool)
      → is_empty (diff_flag g c d ++ rest)
        ≡ (values_equal (flag_of c) (or_live_flag d c) && is_empty rest)
  unfolding diff_flag
  is_empty-diff_flag g c none = rw ((values_equal_iff (flag_of c) (flag_of c)).1 refl) refl
  is_empty-diff_flag g c (some b) = is_empty-diff g (flag_of c) (flag b)

  is_empty-diff_policy :
      (firmware : Text) (c d : Option Text)
      → is_empty (diff_policy firmware c d ++ rest)
        ≡ (values_equal (name_of c) (or_live_policy firmware d c) && is_empty rest)
  unfolding diff_policy
  is_empty-diff_policy firmware c none = rw ((values_equal_iff (name_of c) (name_of c)).1 refl) refl
  is_empty-diff_policy firmware c (some p) =
      elim (Bool-cases (firmware_supports_packet_signature_policy firmware)) [
        | inl supported ↦ rw supported (is_empty-diff packet_signature_policy (name_of c) (name p))
        | inr lacking ↦ rw (lacking, (values_equal_iff (name_of c) (name_of c)).1 refl) refl
      ]

is_empty-last : (g : Field) (c d : Value) → is_empty (diff g c d) ≡ values_equal c d
unfolding diff
is_empty-last g c d = ground arith

is_empty-security_changes :
    (inputs : PlanInputs) (lockdown : LockdownDecision)
    → is_empty (security_changes inputs lockdown) ≡ (
        holds inputs lockdown admin_channel_enabled
        && (holds inputs lockdown serial_enabled
            && (holds inputs lockdown debug_log_api_enabled
                && (holds inputs lockdown packet_signature_policy
                    && holds inputs lockdown is_managed))))
unfolding security_changes
is_empty-security_changes inputs lockdown =
    let live = inputs.live in
    let template = inputs.template in
    let managed = diff is_managed (flag live.is_managed) (flag lockdown.enable) in
    let policy =
      diff_policy inputs.firmware_version live.packet_signature_policy
        template.packet_signature_policy in
    let debug =
      diff_flag debug_log_api_enabled live.debug_log_api_enabled template.debug_log_api_enabled in
    let serial = diff_flag serial_enabled live.serial_enabled template.serial_enabled in
    rw
      (
        is_empty-diff (serial ++ (debug ++ (policy ++ managed))) admin_channel_enabled
            (flag live.admin_channel_enabled) (flag false),
        is_empty-diff_flag (debug ++ (policy ++ managed)) serial_enabled live.serial_enabled
            template.serial_enabled,
        is_empty-diff_flag (policy ++ managed) debug_log_api_enabled live.debug_log_api_enabled
            template.debug_log_api_enabled,
        is_empty-diff_policy managed inputs.firmware_version live.packet_signature_policy
            template.packet_signature_policy,
        is_empty-last is_managed (flag live.is_managed) (flag lockdown.enable),
      )
      refl

module _ (inputs : PlanInputs) (lockdown : LockdownDecision) where
  all_hold :
      is_empty (security_changes inputs lockdown) ≡ true
      → (f : Field) → live_value inputs.live f ≡ wanted inputs lockdown f
  all_hold e f =
      let parts = is_empty-security_changes inputs lockdown in
      (values_equal_iff (live_value inputs.live f) (wanted inputs lockdown f)).0
        (elim f as (λ f. holds inputs lockdown f ≡ true) [
          | admin_channel_enabled ↦ ground arith
          | serial_enabled ↦ ground arith
          | debug_log_api_enabled ↦ ground arith
          | packet_signature_policy ↦ ground arith
          | is_managed ↦ ground arith
        ])

  nothing_to_change :
      ((f : Field) → live_value inputs.live f ≡ wanted inputs lockdown f)
      → is_empty (security_changes inputs lockdown) ≡ true
  nothing_to_change h =
      let at = λ (f : Field).
        (values_equal_iff (live_value inputs.live f) (wanted inputs lockdown f)).1 (h f) in
      rw
        (
          is_empty-security_changes inputs lockdown,
          at admin_channel_enabled,
          at serial_enabled,
          at debug_log_api_enabled,
          at packet_signature_policy,
          at is_managed,
        )
        refl

-- The plan leaves the `security` section out exactly when every field holds what it ought to and no
-- key is written.
plan_security_section-none_iff :
    (inputs : PlanInputs) (lockdown : LockdownDecision) (regenerate change_admin_keys : Bool)
    → (plan_security_section inputs regenerate change_admin_keys lockdown ≡ none) ↔ (
        ((f : Field) → live_value inputs.live f ≡ wanted inputs lockdown f)
        × (regenerate ≡ false)
        × (change_admin_keys ≡ false))
unfolding plan_security_section
plan_security_section-none_iff inputs lockdown regenerate change_admin_keys = (
  λ h. (all_hold inputs lockdown (ground arith), ground arith, ground arith),
  λ (h, r, c). rw (nothing_to_change inputs lockdown h, r, c) refl,
)
